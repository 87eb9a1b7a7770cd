-- ===== src/ControlPlane/Store/Agents/Credentials.antt =====
-- Which credential the store.py accepts, after enrollment, revocation and rotation.
use paperless_assistant.Base.{
  ℕ, ◌≡◌, refl, ◌∙◌, ◌≢◌, inl, inr, true, false, not, ◌&&◌, String, none, some, [], arith,
  Option-cases, ◌==◌, nat_eq, string_eq, pair_eq, if◌then◌else◌,
}
use paperless_assistant.Base.Dict.{
  lookup, insert, erase, set_default, lookup-insert_self, lookup-insert_ne, lookup-erase_self,
}
use paperless_assistant.ControlPlane.Store.{TokenInfo, Agent, Store}
use paperless_assistant.ControlPlane.Store.Agents.{
  enroll, check_credential, authenticate, rotate_credential, revoke,
}

module _ (scrypt : String → String → String) where
  authenticate-known :
      (agent_id credential : String) (s : Store) (a : Agent)
      → lookup agent_id s.agents ≡ some a
      → authenticate scrypt agent_id credential s ≡ check_credential scrypt credential a
  unfolding authenticate
  authenticate-known agent_id credential s a known = rw (known, authenticate)

  authenticate-same :
      (agent_id credential : String) (s s' : Store)
      → lookup agent_id s'.agents ≡ lookup agent_id s.agents
      → authenticate scrypt agent_id credential s' ≡ authenticate scrypt agent_id credential s
  unfolding authenticate
  authenticate-same agent_id credential s s' same = rw (same, authenticate)

  module _ (now : ℕ) (agent_id credential salt token : String) where
    abbrev pub new_agent : TokenInfo → Agent
    new_agent info = record {
      agent_id = agent_id;
      tenant = info.tenant;
      credential_salt = salt;
      credential_hash = scrypt credential salt;
      revoked = false;
      enrolled_at = now;
      last_heartbeat = none;
      last_status = none;
    }

    abbrev pub enrolled_store : TokenInfo → Store → Store
    enrolled_store info s = record s {
      enrollment_tokens = erase token s.enrollment_tokens;
      agents = insert agent_id (new_agent info) s.agents;
      queues = set_default (info.tenant, agent_id) [] s.queues;
    }

    pub enroll-unknown :
        (s : Store)
        → lookup token s.enrollment_tokens ≡ none
        → enroll scrypt now agent_id credential salt token s ≡ (none, s)
    unfolding enroll
    enroll-unknown s unknown = rw (unknown, enroll)

    pub enroll-known :
        (info : TokenInfo) (s : Store)
        → lookup token s.enrollment_tokens ≡ some info
        → enroll scrypt now agent_id credential salt token s ≡ (
          some
              (record { tenant = info.tenant; agent_id = agent_id; agent_credential = credential }),
          enrolled_store info s,
        )
    unfolding enroll
    enroll-known info s known = rw (known, enroll)

  -- A token enrolls one agent at most: whatever the first `enroll` did with it, a second one with
  -- the same token returns nothing and changes nothing.
  pub enroll_once :
      (now later : ℕ) (agent_id credential salt agent_id' credential' salt' token : String)
      (s : Store)
      → let s' = (enroll scrypt now agent_id credential salt token s).1 in
        enroll scrypt later agent_id' credential' salt' token s' ≡ (none, s')
  enroll_once now later agent_id credential salt agent_id' credential' salt' token s =
      elim (Option-cases (lookup token s.enrollment_tokens)) [
        | inl unknown ↦
            rw (enroll-unknown now agent_id credential salt token s unknown)
              (enroll-unknown later agent_id' credential' salt' token s unknown)
        | inr (info, known) ↦ rw (enroll-known now agent_id credential salt token info s known) (
            enroll-unknown later agent_id' credential' salt' token
              (enrolled_store now agent_id credential salt token info s)
              (lookup-erase_self token s.enrollment_tokens))
      ]

  check_credential-new :
      (credential salt : String) (a : Agent)
      → a.revoked ≡ false
      → a.credential_salt ≡ salt
      → a.credential_hash ≡ scrypt credential salt
      → salt ≢ ""
      → scrypt credential salt ≢ ""
      → check_credential scrypt credential a ≡ some a
  unfolding check_credential
  check_credential-new credential salt a live s h salted hashed = ground (
    arith,
    string_eq.test_iff a.credential_salt "",
    string_eq.test_iff a.credential_hash "",
    string_eq.test_iff (scrypt credential a.credential_salt) a.credential_hash,
  )

  -- An agent that enrolled with a minted token authenticates with the credential that it was given,
  -- under the tenant of the token, if neither the salt nor the hash is empty.
  pub authenticate-enroll :
      (now : ℕ) (agent_id credential salt token : String) (info : TokenInfo) (s : Store)
      → lookup token s.enrollment_tokens ≡ some info
      → salt ≢ ""
      → scrypt credential salt ≢ ""
      → let (given, s') = enroll scrypt now agent_id credential salt token s in
        (given
          ≡ some
              (record { tenant = info.tenant; agent_id = agent_id; agent_credential = credential }))
        × ((a : Agent) × (authenticate scrypt agent_id credential s' ≡ some a)
            × (a.tenant ≡ info.tenant)
            × (a.agent_id ≡ agent_id))
  authenticate-enroll now agent_id credential salt token info s known salted hashed =
      let a = new_agent now agent_id credential salt token info in
      rw (enroll-known now agent_id credential salt token info s known) (
        refl,
        (
          a,
          authenticate-known agent_id credential
                (enrolled_store now agent_id credential salt token info s) a
                (lookup-insert_self agent_id a s.agents)
              ∙ check_credential-new credential salt a refl refl refl salted hashed,
          refl,
          refl,
        ),
      )

  revoke-unknown :
      (agent_id : String) (s : Store)
      → lookup agent_id s.agents ≡ none
      → revoke agent_id s ≡ (false, s)
  unfolding revoke
  revoke-unknown agent_id s unknown = rw (unknown, revoke)

  revoke-known :
      (agent_id : String) (s : Store) (a : Agent)
      → lookup agent_id s.agents ≡ some a
      → revoke agent_id s
        ≡ (true, record s { agents = insert agent_id (record a { revoked = true }) s.agents })
  unfolding revoke
  revoke-known agent_id s a known = rw (known, revoke)

  -- A revoked agent is rejected with every credential, and every other agent is answered as before.
  pub revoke_rejects :
      (agent_id credential other : String) (s : Store)
      → (authenticate scrypt agent_id credential (revoke agent_id s).1 ≡ none)
        × (agent_id ≢ other
            → authenticate scrypt other credential (revoke agent_id s).1
              ≡ authenticate scrypt other credential s)
  revoke_rejects agent_id credential other s = elim (Option-cases (lookup agent_id s.agents)) [
    | inl unknown ↦
        rw (revoke-unknown agent_id s unknown)
          (unfold authenticate in rw (unknown, authenticate), λ ne. refl)
    | inr (a, known) ↦
        let gone = record a { revoked = true } in
        let s' = record s { agents = insert agent_id gone s.agents } in
        rw (revoke-known agent_id s a known) (
          authenticate-known agent_id credential s' gone (lookup-insert_self agent_id gone s.agents)
              ∙ unfold check_credential in refl,
          λ ne.
              authenticate-same other credential s s'
                (lookup-insert_ne agent_id other gone s.agents ne),
        )
  ]

  rotate-known :
      (agent_id credential salt : String) (s : Store) (a : Agent)
      → lookup agent_id s.agents ≡ some a
      → rotate_credential scrypt agent_id credential salt s ≡ (
        some credential,
        record s {
          agents =
              insert agent_id
                (record a { credential_salt = salt; credential_hash = scrypt credential salt })
                s.agents;
        },
      )
  unfolding rotate_credential
  rotate-known agent_id credential salt s a known = rw (known, rotate_credential)

  check_credential-rotated :
      (old credential salt : String) (a : Agent)
      → ((x y : String) → scrypt x salt ≡ scrypt y salt → x ≡ y)
      → salt ≢ ""
      → scrypt credential salt ≢ ""
      → let rotated = record a {
        credential_salt = salt;
        credential_hash = scrypt credential salt;
      } in
        check_credential scrypt old rotated
        ≡ (if not a.revoked && old == credential then some rotated else none)
  unfolding check_credential
  check_credential-rotated old credential salt a collision_free salted hashed = ground (
    arith,
    string_eq.test_iff salt "",
    string_eq.test_iff (scrypt credential salt) "",
    string_eq.test_iff (scrypt old salt) (scrypt credential salt),
    string_eq.test_iff old credential,
    collision_free old credential,
  )

  -- After a rotation the new credential is the only one that an agent is accepted with, and a
  -- revoked agent is accepted with none: where no two credentials have one hash under the new salt,
  -- and neither the salt nor the hash is empty.
  pub rotate_only_new :
      (agent_id credential salt presented : String) (s : Store) (a : Agent)
      → lookup agent_id s.agents ≡ some a
      → ((x y : String) → scrypt x salt ≡ scrypt y salt → x ≡ y)
      → salt ≢ ""
      → scrypt credential salt ≢ ""
      → authenticate scrypt agent_id presented
          (rotate_credential scrypt agent_id credential salt s).1
        ≡ (if not a.revoked && presented == credential
            then some
                (record a { credential_salt = salt; credential_hash = scrypt credential salt })
            else none)
  rotate_only_new agent_id credential salt presented s a known collision_free salted hashed =
      let rotated = record a { credential_salt = salt; credential_hash = scrypt credential salt } in
      rw (rotate-known agent_id credential salt s a known) (
        authenticate-known agent_id presented
          (record s { agents = insert agent_id rotated s.agents }) rotated
          (lookup-insert_self agent_id rotated s.agents)
        ∙ check_credential-rotated presented credential salt a collision_free salted hashed)
