-- ===== src/ControlPlane/Direct/Revoked.antt =====
-- A revoked target of direct.py stays away.
use paperless_assistant.Base.{
  ℕ, ◌+◌, ◌≤◌, ◌≡◌, refl, ◌∙◌, inl, inr, Bool, String, Option, none, some, List, arith,
  Option-cases, nat_eq, string_eq, pair_eq,
}
use paperless_assistant.Base.Dict.{
  lookup, insert, lookup-insert, lookup-erase, lookup-insert_ne, lookup-erase_self,
}
use paperless_assistant.ControlPlane.Direct.{
  Target, TargetStore, get_target, set_enabled, revoke_target, record_review,
}
use paperless_assistant.ControlPlane.Direct.Runner.{
  Dial, Reply, Program, RunState, no_such_target, run_target,
}
use paperless_assistant.ControlPlane.Inference.{Proxy, Vendor}
use paperless_assistant.ControlPlane.Direct.Registry.{
  TargetStep, adds, enables, revokes, reviews, TargetReach, here, next, TargetsValid,
  add_target_cases,
}

module _ (hostname : String → Option String) where
  -- an id that was given out and has no target
  abbrev Gone : ℕ → TargetStore → Type 0
  Gone target_id s = (lookup target_id s.targets ≡ none) × (target_id ≤ s.seq)

  Gone-insert :
      (target_id key : ℕ) (t held : Target) (s : TargetStore)
      → lookup key s.targets ≡ some held
      → Gone target_id s
      → Gone target_id (record s { targets = insert key t s.targets })
  Gone-insert target_id key t held s found (absent, given_out) = (
    ground (arith, lookup-insert key target_id t s.targets, nat_eq.test_iff key target_id),
    given_out,
  )

  TargetStep-Gone :
      (target_id : ℕ) {s s' : TargetStore}
      → TargetStep hostname s s'
      → Gone target_id s
      → Gone target_id s'
  unfolding set_enabled revoke_target record_review
  TargetStep-Gone gone_id (adds now now' tenant paperless_url token allowed_hosts enabled s)
        (absent, given_out) =
      elim (add_target_cases hostname now now' tenant paperless_url token allowed_hosts enabled s) [
        | inl same ↦ rw same (absent, given_out)
        | inr (_, stored) ↦ rw stored (
          lookup-insert_ne (s.seq + 1) gone_id _ s.targets (λ same. absurd (omega arith)) ∙ absent,
          omega arith,
        )
      ]
  TargetStep-Gone gone_id (enables now target_id enabled s) gone =
      elim (Option-cases (lookup target_id s.targets)) [
        | inl unknown ↦ rw (unknown, set_enabled) gone
        | inr (t, found) ↦ rw (found, set_enabled) (Gone-insert gone_id target_id _ t s found gone)
      ]
  TargetStep-Gone gone_id (revokes target_id s) (absent, given_out) =
      elim (Option-cases (lookup target_id s.targets)) [
        | inl unknown ↦ rw (unknown, revoke_target) (absent, given_out)
        | inr (t, found) ↦
            rw (found, revoke_target)
              (
                ground (
                  arith,
                  lookup-erase target_id gone_id s.targets,
                  nat_eq.test_iff target_id gone_id,
                ),
                given_out,
              )
      ]
  TargetStep-Gone gone_id (reviews now target_id superseded ai_new_taxonomy s) gone =
      elim (Option-cases (lookup target_id s.targets)) [
        | inl unknown ↦ rw (unknown, record_review) gone
        | inr (t, found) ↦
            rw (found, record_review) (Gone-insert gone_id target_id _ t s found gone)
      ]

  TargetReach-Gone :
      (target_id : ℕ) {s s' : TargetStore}
      → TargetReach hostname s s'
      → Gone target_id s
      → Gone target_id s'
  TargetReach-Gone target_id here gone = gone
  TargetReach-Gone target_id (next reach step) gone =
      TargetStep-Gone target_id step (TargetReach-Gone target_id reach gone)

  Gone-revoke :
      (target_id : ℕ) (t : Target) (s : TargetStore)
      → TargetsValid hostname s
      → lookup target_id s.targets ≡ some t
      → Gone target_id (revoke_target target_id s).1
  unfolding revoke_target
  Gone-revoke target_id t s v found =
      rw (found, revoke_target)
        (lookup-erase_self target_id s.targets, (v.each target_id t found).given_out)

  -- A revocation is final: once a target of a valid registry is revoked, no later calls of the
  -- registry bring it back, so that a run of it is refused and dials nothing, asks nothing and
  -- changes nothing.
  pub run_target-revoked :
      (remote : List Dial → Dial → Reply × List Dial) (proxy : Proxy)
      (clock : List Dial → Vendor → ℕ)
      (engine : String → String → String → Option ℕ → Option Bool → Program) (now target_id : ℕ)
      (limit : Option ℕ) (dry_run : Option Bool) (t : Target) (s s' : TargetStore) (r : RunState)
      → TargetsValid hostname s
      → lookup target_id s.targets ≡ some t
      → TargetReach hostname (revoke_target target_id s).1 s'
      → run_target hostname remote proxy clock engine now target_id limit dry_run s' r
        ≡ (no_such_target, s', r)
  unfolding run_target get_target
  run_target-revoked remote proxy clock engine now target_id limit dry_run t s s' r v found reach =
      let (absent, _) = TargetReach-Gone target_id reach (Gone-revoke target_id t s v found) in
      rw (absent, run_target) refl
