-- ===== src/ControlPlane/Store/Agents.antt =====
-- Enrollment, authentication, revocation and rotation of store.py.
pub mod Credentials
use paperless_assistant.Base.{
  ℕ, Bool, true, false, ◌||◌, String, Option, none, some, [], if◌then◌else◌, ◌==◌, string_eq,
  pair_eq,
}
use paperless_assistant.Base.Dict.{lookup, insert, erase, set_default}
use paperless_assistant.Base.Json.{Json}
use paperless_assistant.ControlPlane.Store.{TokenInfo, Agent, Store}

unfoldable pub mint_enrollment_token : ℕ → String → String → Option String → Store → String × Store
mint_enrollment_token now token tenant agent_hint s =
    let info : TokenInfo = record { tenant = tenant; agent_hint = agent_hint; minted_at = now } in
    (token, record s { enrollment_tokens = insert token info s.enrollment_tokens })

pub record Enrolled : Type 0 where
  pub tenant : String
  pub agent_id : String
  pub agent_credential : String

-- `hashlib.scrypt` with the parameters of `_hash_credential`, on a credential and a salt.
module _ (scrypt : String → String → String) where
  -- the random credential and salt, with the hash that is kept
  unfoldable pub new_credential : String → String → String × String × String
  new_credential credential salt = (credential, salt, scrypt credential salt)

  unfoldable pub enroll : ℕ → String → String → String → String → Store → Option Enrolled × Store
  unfolding new_credential
  enroll now agent_id credential salt token s = elim (lookup token s.enrollment_tokens) [
    | none ↦ (none, s)
    | some info ↦
        let (plain, salt_hex, hash_hex) = new_credential credential salt in
        let agent : Agent = record {
          agent_id = agent_id;
          tenant = info.tenant;
          credential_salt = salt_hex;
          credential_hash = hash_hex;
          revoked = false;
          enrolled_at = now;
          last_heartbeat = none;
          last_status = none;
        } in
        (
          some (record { tenant = info.tenant; agent_id = agent_id; agent_credential = plain }),
          record s {
            enrollment_tokens = erase token s.enrollment_tokens;
            agents = insert agent_id agent s.agents;
            queues = set_default (info.tenant, agent_id) [] s.queues;
          },
        )
  ]

  -- the checks of `authenticate` on the record that it found
  unfoldable pub check_credential : String → Agent → Option Agent
  check_credential credential agent =
      if agent.revoked
      then none
      else if agent.credential_salt == "" || agent.credential_hash == ""
      then none
      else if scrypt credential agent.credential_salt == agent.credential_hash
      then some agent
      else none

  unfoldable pub authenticate : String → String → Store → Option Agent
  unfolding check_credential
  authenticate agent_id credential s = elim (lookup agent_id s.agents) [
    | none ↦ none
    | some agent ↦ check_credential credential agent
  ]

  unfoldable pub rotate_credential : String → String → String → Store → Option String × Store
  unfolding new_credential
  rotate_credential agent_id credential salt s = elim (lookup agent_id s.agents) [
    | none ↦ (none, s)
    | some agent ↦
        let (plain, salt_hex, hash_hex) = new_credential credential salt in
        let agent' = record agent { credential_salt = salt_hex; credential_hash = hash_hex } in
        (some plain, record s { agents = insert agent_id agent' s.agents })
  ]

unfoldable pub revoke : String → Store → Bool × Store
revoke agent_id s = elim (lookup agent_id s.agents) [
  | none ↦ (false, s)
  | some agent ↦
      (true, record s { agents = insert agent_id (record agent { revoked = true }) s.agents })
]

unfoldable pub record_heartbeat : ℕ → String → Json → Store → Store
record_heartbeat now agent_id status s = elim (lookup agent_id s.agents) [
  | none ↦ s
  | some agent ↦
      let agent' = record agent { last_heartbeat = some now; last_status = some status } in
      record s { agents = insert agent_id agent' s.agents }
]

unfoldable pub agent : String → Store → Option Agent
agent agent_id s = lookup agent_id s.agents
