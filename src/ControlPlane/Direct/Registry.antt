-- ===== src/ControlPlane/Direct/Registry.antt =====
-- The registry of direct.py over time: what every target of it is, and that a revocation is final.
use paperless_assistant.Base.{
  ℕ, ◌+◌, ◌≤◌, ◌≡◌, refl, ◌∙◌, ◌⊎◌, inl, inr, Bool, true, false, String, Option, none, some, List,
  [], ◌∷◌, arith, Bool-cases, Option-cases, ◌==◌, nat_eq, string_eq, pair_eq, beq_refl, contains,
  contains-append,
}
use paperless_assistant.Base.Dict.{lookup, insert, lookup-insert_cases, lookup-erase_cases}
use mathlib.Core.Path.{subst}
use paperless_assistant.Base.Sorted.{sorted_set, contains-sorted_set}
use paperless_assistant.Base.Text.{rstrip_slash}
use paperless_assistant.ControlPlane.Direct.{
  Target, TargetStore, empty_targets, lower_all, hosts_or, hosts_of, host_of, add_target,
  set_enabled, revoke_target, record_review,
}

contains-hosts_of :
    (given : Option (List String)) (host : String) → contains host (hosts_of given host) ≡ true
unfolding hosts_of
contains-hosts_of given host = elim (Bool-cases (contains host (lower_all (hosts_or given host)))) [
  | inl there ↦ rw (there, there) refl
  | inr absent ↦ ground (
    arith,
    absent,
    contains-append host (lower_all (hosts_or given host)) (host ∷ []),
    beq_refl host,
  )
]

module _ (hostname : String → Option String) where
  -- A target is stored under its id, which has been given out, with its own host among the hosts
  -- that it may be reached at.
  pub record IsTarget (seq target_id : ℕ) (t : Target) : Type 0 where
    pub numbered : t.target_id ≡ target_id
    pub given_out : target_id ≤ seq
    pub reachable : contains (host_of hostname t.paperless_url) t.allowed_hosts ≡ true
    pub has_token : (t.token == "") ≡ false

  pub record TargetsValid (s : TargetStore) : Type 0 where
    pub each :
        (target_id : ℕ) (t : Target)
        → lookup target_id s.targets ≡ some t
        → IsTarget s.seq target_id t

  -- a call of the registry that may change it
  pub data TargetStep : TargetStore → TargetStore → Type 0 where
    adds :
        (now now' : ℕ) (tenant paperless_url token : String) (allowed_hosts : Option (List String))
        (enabled : Bool) (s : TargetStore)
        → TargetStep s
            (add_target hostname now now' tenant paperless_url token allowed_hosts enabled s).1
    enables :
        (now target_id : ℕ) (enabled : Bool) (s : TargetStore)
        → TargetStep s (set_enabled now target_id enabled s).1
    revokes : (target_id : ℕ) (s : TargetStore) → TargetStep s (revoke_target target_id s).1
    reviews :
        (now target_id superseded ai_new_taxonomy : ℕ) (s : TargetStore)
        → TargetStep s (record_review now target_id superseded ai_new_taxonomy s).1

  pub data TargetReach (s : TargetStore) : TargetStore → Type 0 where
    here : TargetReach s s
    next : {t u : TargetStore} → TargetReach s t → TargetStep t u → TargetReach s u

  -- a write at the key of a target keeps the invariant
  put_valid :
      (s : TargetStore) (seq' key : ℕ) (t : Target)
      → TargetsValid s
      → s.seq ≤ seq'
      → IsTarget seq' key t
      → TargetsValid (record { targets = insert key t s.targets; seq = seq' })
  put_valid s seq' key t v grows new = record {
    each = λ target_id u found. each_of target_id u found;
  }
    where
      each_of :
          (target_id : ℕ) (u : Target)
          → lookup target_id (insert key t s.targets) ≡ some u
          → IsTarget seq' target_id u
      each_of target_id u found = elim (lookup-insert_cases key target_id t u s.targets found) [
        | inl (same, this) ↦
            subst (λ w. IsTarget seq' target_id w) this (subst (λ k. IsTarget seq' k t) same new)
        | inr (other, there) ↦ raised (v.each target_id u there)
      ]
        where
          raised : IsTarget s.seq target_id u → IsTarget seq' target_id u
          raised h = record {
            numbered = h.numbered;
            given_out = omega arith;
            reachable = h.reachable;
            has_token = h.has_token;
          }

  -- a change of a target that keeps its id, its address and its token
  change_valid :
      (s : TargetStore) (target_id : ℕ) (t t' : Target)
      → lookup target_id s.targets ≡ some t
      → t'.target_id ≡ t.target_id
      → t'.paperless_url ≡ t.paperless_url
      → t'.allowed_hosts ≡ t.allowed_hosts
      → t'.token ≡ t.token
      → TargetsValid s
      → TargetsValid (record s { targets = insert target_id t' s.targets })
  change_valid s target_id t t' found same_id same_url same_hosts same_token v =
      let h = v.each target_id t found in
      put_valid s s.seq target_id t' v (omega arith) (record {
        numbered = same_id ∙ h.numbered;
        given_out = h.given_out;
        reachable = rw (same_url, same_hosts) h.reachable;
        has_token = rw same_token h.has_token;
      })

  -- the target that `add_target` makes
  abbrev pub new_target :
      ℕ → ℕ → String → String → String → Option (List String) → Bool → ℕ → Target
  new_target now now' tenant paperless_url token allowed_hosts enabled target_id =
      let url = rstrip_slash paperless_url in
      record {
        target_id = target_id;
        tenant = tenant;
        paperless_url = url;
        allowed_hosts = sorted_set (hosts_of allowed_hosts (host_of hostname url));
        enabled = enabled;
        created_at = now;
        updated_at = now';
        token = token;
        last_review = none;
      }

  -- `add_target` refuses and changes nothing, or stores the new target under the next number.
  pub add_target_cases :
      (now now' : ℕ) (tenant paperless_url token : String) (allowed_hosts : Option (List String))
      (enabled : Bool) (s : TargetStore)
      → let s' =
          (add_target hostname now now' tenant paperless_url token allowed_hosts enabled s).1 in
        (s' ≡ s)
        ⊎ (((token == "") ≡ false)
            × (s' ≡ record {
              targets =
                  insert
                    (s.seq + 1)
                    (new_target now now' tenant paperless_url token allowed_hosts enabled
                      (s.seq + 1))
                    s.targets;
              seq = s.seq + 1;
            }))
  unfolding add_target
  add_target_cases now now' tenant paperless_url token allowed_hosts enabled s =
      elim (Bool-cases (paperless_url == "")) [
        | inl no_url ↦ inl (rw no_url refl)
        | inr some_url ↦ elim (Bool-cases (token == "")) [
          | inl no_token ↦ inl (rw (some_url, no_token) refl)
          | inr some_token ↦
              elim (Bool-cases (host_of hostname (rstrip_slash paperless_url) == "")) [
                | inl no_host ↦ inl (rw (some_url, some_token, no_host) refl)
                | inr some_host ↦ inr (some_token, rw (some_url, some_token, some_host) refl)
              ]
        ]
      ]

  TargetStep-TargetsValid :
      {s s' : TargetStore} → TargetStep s s' → TargetsValid s → TargetsValid s'
  unfolding set_enabled revoke_target record_review
  TargetStep-TargetsValid (adds now now' tenant paperless_url token allowed_hosts enabled s) v =
      elim (add_target_cases now now' tenant paperless_url token allowed_hosts enabled s) [
        | inl same ↦ rw same v
        | inr (some_token, stored) ↦
            let host = host_of hostname (rstrip_slash paperless_url) in
            rw stored (
              put_valid s (s.seq + 1) (s.seq + 1)
                (new_target now now' tenant paperless_url token allowed_hosts enabled (s.seq + 1)) v
                (omega arith)
                (record {
                  numbered = refl;
                  given_out = omega arith;
                  reachable =
                      contains-sorted_set host (hosts_of allowed_hosts host)
                      ∙ contains-hosts_of allowed_hosts host;
                  has_token = some_token;
                }))
      ]
  TargetStep-TargetsValid (enables now target_id enabled s) v =
      elim (Option-cases (lookup target_id s.targets)) [
        | inl unknown ↦ rw (unknown, set_enabled) v
        | inr (t, found) ↦
            rw (found, set_enabled)
              (change_valid s target_id t (record t { enabled = enabled; updated_at = now }) found
                refl refl refl refl v)
      ]
  TargetStep-TargetsValid (revokes target_id s) v =
      elim (Option-cases (lookup target_id s.targets)) [
        | inl unknown ↦ rw (unknown, revoke_target) v
        | inr (t, found) ↦
            rw (found, revoke_target)
              (record {
                each = λ key u there.
                    v.each key u (lookup-erase_cases target_id key u s.targets there);
              })
      ]
  TargetStep-TargetsValid (reviews now target_id superseded ai_new_taxonomy s) v =
      elim (Option-cases (lookup target_id s.targets)) [
        | inl unknown ↦ rw (unknown, record_review) v
        | inr (t, found) ↦
            let review =
              some
                (record { superseded = superseded; ai_new_taxonomy = ai_new_taxonomy; at = now }) in
            rw (found, record_review)
              (change_valid s target_id t (record t { last_review = review }) found refl refl refl
                refl v)
      ]

  -- Whatever calls the registry has seen: every target is stored under its own id, which has been
  -- given out, has a token, and may be reached at the host of its own address.
  pub TargetReach-TargetsValid : {s : TargetStore} → TargetReach empty_targets s → TargetsValid s
  unfolding lookup
  TargetReach-TargetsValid here = record { each = λ target_id t found. absurd (ground arith) }
  TargetReach-TargetsValid (next reach step) =
      TargetStep-TargetsValid step (TargetReach-TargetsValid reach)
