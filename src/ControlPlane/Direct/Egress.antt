-- ===== src/ControlPlane/Direct/Egress.antt =====
-- What a direct run may reach: the allow-list of direct.py in front of every request.
use paperless_assistant.Base.{
  ℕ, ◌≡◌, refl, sym, ap, ◌∙◌, ◌⊎◌, inl, inr, Bool, true, false, String, Option, none, some, List,
  [], ◌∷◌, ◌++◌, Bool-cases, Option-cases, All, All-append, nat_eq, string_eq, pair_eq,
}
use mathlib.Core.List.{append_assoc, append-nil}
use paperless_assistant.ControlPlane.Inference.{Proxy, Vendor}
use paperless_assistant.ControlPlane.Direct.{Target, TargetStore, get_target}
use paperless_assistant.ControlPlane.Direct.Runner.{
  Dial, Reply, TransportBody, Program, finish, dial, ask, RunState, no_redirects, followed,
  is_allowed, session_request, transport_request, path_inference, run_program, allowed_of,
  run_target,
}

-- the caller does not ask to follow redirects, as nothing in the engine does
abbrev pub LeavesRedirects : Dial → Type 0
LeavesRedirects d = (d.allow_redirects ≡ none) ⊎ (d.allow_redirects ≡ some false)

-- No request of a program asks to follow redirects, whatever is answered.
abbrev pub NeverFollows : Program → Type 0
NeverFollows (finish report) = Unit
NeverFollows (dial d next) =
    LeavesRedirects d × ((reply : Option Reply) → NeverFollows (next reply))
NeverFollows (ask request next) = (answer : Option (ℕ × TransportBody)) → NeverFollows (next answer)

module _ (hostname : String → Option String) where
  -- a request to an allowed host that follows no redirect
  abbrev pub IsSafe : List String → Dial → Type 0
  IsSafe allowed_hosts d =
      (is_allowed hostname allowed_hosts d.url ≡ true) × (d.allow_redirects ≡ some false)

  -- The requests of a run: those behind the ones that were there before, all of them safe.
  abbrev pub OnlySafe : List String → List Dial → List Dial → Type 0
  OnlySafe allowed_hosts before after =
      (sent : List Dial) × (after ≡ before ++ sent) × All (IsSafe allowed_hosts) sent

  not_followed : (d : Dial) → LeavesRedirects d → (no_redirects d).allow_redirects ≡ some false
  not_followed d (inl unset) = rw unset refl
  not_followed d (inr off) = rw off refl

  same_url : (d : Dial) → (no_redirects d).url ≡ d.url
  same_url d = elim (Option-cases d.allow_redirects) [
    | inl unset ↦ rw unset refl
    | inr (given, is_set) ↦ rw is_set refl
  ]

  module _ (remote : List Dial → Dial → Reply × List Dial) where
    session_request-OnlySafe :
        (allowed_hosts : List String) (d : Dial) (dialled : List Dial)
        → LeavesRedirects d
        → OnlySafe allowed_hosts dialled (session_request hostname remote allowed_hosts d dialled).1
    unfolding session_request
    session_request-OnlySafe allowed_hosts d dialled leaves =
        elim (Bool-cases (is_allowed hostname allowed_hosts d.url)) [
          | inl allowed ↦ rw allowed (
            no_redirects d
                ∷ followed (no_redirects d).allow_redirects (remote dialled (no_redirects d)).1,
            refl,
            (
              (
                ap (is_allowed hostname allowed_hosts) (same_url d) ∙ allowed,
                not_followed d leaves,
              ),
              rw (not_followed d leaves) tt,
            ),
          )
          | inr not_allowed ↦ rw not_allowed ([], sym (append-nil dialled), tt)
        ]

    OnlySafe-trans :
        (allowed_hosts : List String) (a b c : List Dial)
        → OnlySafe allowed_hosts a b
        → OnlySafe allowed_hosts b c
        → OnlySafe allowed_hosts a c
    OnlySafe-trans allowed_hosts a b c (sent, e, safe) (sent', e', safe') = (
      sent ++ sent',
      e' ∙ ap (λ (l : List Dial). l ++ sent') e ∙ append_assoc a sent sent',
      All-append (IsSafe allowed_hosts) sent sent' safe safe',
    )

    module _ (proxy : Proxy) (clock : List Dial → Vendor → ℕ) where
      run_program-OnlySafe :
          (allowed_hosts : List String) (tenant : String) (program : Program) (s : RunState)
          → NeverFollows program
          → OnlySafe allowed_hosts s.dialled
              (run_program hostname remote proxy clock allowed_hosts tenant program s).1.dialled
      unfolding run_program
      run_program-OnlySafe allowed_hosts tenant (finish report) s never =
          ([], sym (append-nil s.dialled), tt)
      run_program-OnlySafe allowed_hosts tenant (dial d next) s (leaves, never) =
          let (reply, dialled) = session_request hostname remote allowed_hosts d s.dialled in
          OnlySafe-trans allowed_hosts s.dialled dialled _
            (session_request-OnlySafe allowed_hosts d s.dialled leaves)
            (run_program-OnlySafe allowed_hosts tenant (next reply) (record s { dialled = dialled })
              (never reply))
      run_program-OnlySafe allowed_hosts tenant (ask request next) s never =
          let (reply, v) =
            transport_request proxy (clock s.dialled s.vendor) tenant "POST" path_inference request
              s.vendor in
          run_program-OnlySafe allowed_hosts tenant (next reply) (record s { vendor = v })
            (never reply)

      -- Whatever requests an engine makes and whatever the remote server answers: if it never asks to
      -- follow redirects, a direct run of a target sends requests to the target's allowed hosts only
      -- and follows no redirect from there; a run of no target or of a disabled one sends none.
      pub run_target-OnlySafe :
          (engine : String → String → String → Option ℕ → Option Bool → Program) (now target_id : ℕ)
          (limit : Option ℕ) (dry_run : Option Bool) (targets : TargetStore) (s : RunState)
          → ((tenant url token : String) → NeverFollows (engine tenant url token limit dry_run))
          → let (_, _, s') =
              run_target hostname remote proxy clock engine now target_id limit dry_run targets s in
            (s'.dialled ≡ s.dialled)
            ⊎ ((t : Target) × (get_target target_id targets ≡ some t)
                × (t.enabled ≡ true)
                × OnlySafe (allowed_of hostname t) s.dialled s'.dialled)
      unfolding run_target
      run_target-OnlySafe engine now target_id limit dry_run targets s never =
          elim (Option-cases (get_target target_id targets)) [
            | inl unknown ↦ rw (unknown, run_target) (inl refl)
            | inr (t, found) ↦ elim (Bool-cases t.enabled) [
              | inl on ↦
                  rw (found, run_target)
                    (simp on (
                      inr (
                        t,
                        refl,
                        on,
                        run_program-OnlySafe (allowed_of hostname t) t.tenant
                            (engine t.tenant t.paperless_url t.token limit dry_run) s
                            (never t.tenant t.paperless_url t.token),
                      )))
              | inr off ↦ rw (found, run_target) (rw off (inl refl))
            ]
          ]
