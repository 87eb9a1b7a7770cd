-- ===== src/Agent/Client/Requests.antt =====
-- The retries of `request` in client.py.
use paperless_assistant.Base.{
  ℕ, zero, suc, ◌+◌, ◌*◌, ◌<◌, ◌≡◌, refl, ap, ◌∙◌, ◌⊎◌, inl, inr, true, false, none, some, List, [],
  ◌∷◌, ◌++◌, arith, Bool-cases, Option-cases, leb, nat_eq, string_eq, pair_eq, if◌then◌else◌,
}
use Prim.Native.Nat.{min}
use mathlib.Core.List.{append_assoc, append-nil}
use paperless_assistant.Agent.Client.{
  HttpSettings, Response, Served, answered, unreachable, Client, Requested, got, http_error,
  exhausted, crashed, is_transient, note_version, wait_of, request_loop, request,
}

module _ {B : Type 0} (cap : ℕ) (server : ℕ → Served B) where
  -- `k` calls from the n-th on are answered by a transient status, and these are the waits behind
  -- them: what `Retry-After` says, else a delay that doubles up to the cap.
  pub data Retried : ℕ → ℕ → ℕ → List ℕ → ℕ → Type 0 where
    at_once : (n delay : ℕ) → Retried n 0 delay [] delay
    again :
        {n k delay delay' : ℕ} {waits : List ℕ} (r : Response B) (wait : ℕ)
        → server n ≡ answered r
        → is_transient r.status_code ≡ true
        → wait_of r delay ≡ some wait
        → Retried (n + 1) k (min (delay * 2) cap) waits delay'
        → Retried n (suc k) delay (wait ∷ waits) delay'

  -- what an answer that is not transient gives
  abbrev pub judged : Response B → Client → Requested B × Client
  judged r c =
      if leb 400 r.status_code then (http_error r.status_code, c) else (got r, note_version r c)

  -- the client behind `k` more calls with their waits
  abbrev pub behind : Client → ℕ → List ℕ → Client
  behind c k waits = record c { calls = c.calls + k; slept = c.slept ++ waits }

  -- How `rounds` rounds end: behind `k` transient answers with an answer that is not; with an
  -- exception of the session, or of a `Retry-After` that is no number; or with all answers transient.
  pub data RequestSpec (rounds delay : ℕ) (c : Client) (x : Requested B × Client) : Type 0 where
    answers :
        (k : ℕ) (r : Response B) (waits : List ℕ) (delay' : ℕ)
        → k < rounds
        → Retried c.calls k delay waits delay'
        → server (c.calls + k) ≡ answered r
        → is_transient r.status_code ≡ false
        → x ≡ judged r (behind c (k + 1) waits)
        → RequestSpec rounds delay c x
    breaks :
        (k : ℕ) (waits : List ℕ) (delay' : ℕ)
        → k < rounds
        → Retried c.calls k delay waits delay'
        → ((server (c.calls + k) ≡ unreachable)
            ⊎ ((r : Response B) × (server (c.calls + k) ≡ answered r)
                × (r.retry_after ≡ some none)))
        → x ≡ (crashed, behind c (k + 1) waits)
        → RequestSpec rounds delay c x
    gives_up :
        (waits : List ℕ) (delay' : ℕ)
        → Retried c.calls rounds delay waits delay'
        → x ≡ (exhausted, behind c rounds waits)
        → RequestSpec rounds delay c x

  -- the client behind one call with its wait
  abbrev waited : Client → ℕ → Client
  waited c wait = record c { calls = c.calls + 1; slept = c.slept ++ wait ∷ [] }

  behind_again :
      (c : Client) (wait k k' : ℕ) (waits : List ℕ)
      → k' ≡ suc k
      → behind (waited c wait) k waits ≡ behind c k' (wait ∷ waits)
  behind_again c wait k k' waits e = same (omega arith) (append_assoc c.slept (wait ∷ []) waits)
    where
      same :
          {m m' : ℕ} {xs ys : List ℕ}
          → m ≡ m'
          → xs ≡ ys
          → ◌≡◌ {A = Client}
              (record c { calls = m; slept = xs })
              (record c { calls = m'; slept = ys })
      same em exs = cc

  behind_first : (c : Client) → record c { calls = c.calls + 1 } ≡ behind c (0 + 1) []
  behind_first c = cc (append-nil c.slept, zero_one c.calls)
    where
      zero_one : (n : ℕ) → n + 1 ≡ n + (0 + 1)
      zero_one n = omega arith

  behind_none : (c : Client) → c ≡ behind c 0 []
  behind_none c = cc (append-nil c.slept, add_zero c.calls)
    where
      add_zero : (n : ℕ) → n + 0 ≡ n
      add_zero n = omega arith

  moved : (n k : ℕ) → n + suc k ≡ n + 1 + k
  moved n k = omega arith

  extend :
      (rounds delay : ℕ) (c : Client) (r : Response B) (wait : ℕ) (x : Requested B × Client)
      → server c.calls ≡ answered r
      → is_transient r.status_code ≡ true
      → wait_of r delay ≡ some wait
      → RequestSpec rounds (min (delay * 2) cap) (waited c wait) x
      → RequestSpec (suc rounds) delay c x
  extend rounds delay c r wait x e busy w (answers k last waits delay' lt before is_last ok found) =
      answers (suc k) last (wait ∷ waits) delay' (omega arith) (again r wait e busy w before)
        (ap server (moved c.calls k) ∙ is_last) ok
        (found ∙ ap (judged last) (behind_again c wait (k + 1) (suc k + 1) waits (omega arith)))
  extend rounds delay c r wait x e busy w (breaks k waits delay' lt before is_last found) =
      breaks (suc k) (wait ∷ waits) delay' (omega arith) (again r wait e busy w before)
        (rw (moved c.calls k) is_last)
        (found
          ∙ ap (λ (c : Client). (crashed, c))
              (behind_again c wait (k + 1) (suc k + 1) waits (omega arith)))
  extend rounds delay c r wait x e busy w (gives_up waits delay' before found) =
      gives_up (wait ∷ waits) delay' (again r wait e busy w before) (
        found
        ∙ ap (λ (c : Client). (exhausted, c))
            (behind_again c wait rounds (suc rounds) waits (omega arith)))

  Served-cases : (s : Served B) → (s ≡ unreachable) ⊎ ((r : Response B) × (s ≡ answered r))
  Served-cases unreachable = inl refl
  Served-cases (answered r) = inr (r, refl)

  Option_none-cases :
      (r : Response B) (delay : ℕ) → wait_of r delay ≡ none → r.retry_after ≡ some none
  Option_none-cases r delay h = ground arith

  -- the first call of the loop, at once
  at_first : (n : ℕ) → n + 0 ≡ n
  at_first n = omega arith

  request_loop-RequestSpec :
      (rounds delay : ℕ) (c : Client)
      → RequestSpec rounds delay c (request_loop cap server rounds delay c)
  unfolding request_loop
  request_loop-RequestSpec zero delay c =
      gives_up [] delay (at_once c.calls delay)
        (ap (λ (c : Client). (exhausted, c)) (behind_none c))
  request_loop-RequestSpec (suc rounds) delay c = elim (Served-cases (server c.calls)) [
    | inl down ↦
        breaks 0 [] delay (omega arith) (at_once c.calls delay)
          (inl (ap server (at_first c.calls) ∙ down))
          (rw (down, request_loop) (ap (λ (c : Client). (crashed, c)) (behind_first c)))
    | inr (r, up) ↦ elim (Bool-cases (is_transient r.status_code)) [
      | inl busy ↦ elim (Option-cases (wait_of r delay)) [
        | inl no_number ↦
            breaks 0 [] delay (omega arith) (at_once c.calls delay)
              (inr (r, ap server (at_first c.calls) ∙ up, Option_none-cases r delay no_number))
              (rw (up, request_loop)
                (rw (busy, request_loop)
                  (rw (no_number, request_loop)
                    (ap (λ (c : Client). (crashed, c)) (behind_first c)))))
        | inr (wait, known) ↦ extend rounds delay c r wait _ up busy known (
            rw (up, request_loop)
              (rw (busy, request_loop)
                (rw (known, request_loop)
                  (request_loop-RequestSpec rounds (min (delay * 2) cap) (waited c wait)))))
      ]
      | inr final ↦
          answers 0 r [] delay (omega arith) (at_once c.calls delay)
            (ap server (at_first c.calls) ∙ up) final
            (rw (up, request_loop) (rw (final, request_loop) (ap (judged r) (behind_first c))))
    ]
  ]

-- request makes `retries` calls at most. It judges the first answer that is not transient: an error
-- with its status from 400 on, else the answer, whose version headers are noted. Before, it has
-- waited behind each transient answer as long as `Retry-After` says, or else a delay that begins at
-- the configured one and doubles up to the cap. An exception of the session, or a `Retry-After` that
-- is no number, ends it; so do `retries` transient answers.
pub request-RequestSpec :
    {B : Type 0} (http : HttpSettings) (server : ℕ → Served B) (c : Client)
    → RequestSpec http.backoff_cap server http.retries http.backoff_initial c
        (request http server c)
unfolding request
request-RequestSpec http server c =
    request_loop-RequestSpec http.backoff_cap server http.retries http.backoff_initial c
