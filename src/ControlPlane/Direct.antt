-- ===== src/ControlPlane/Direct.antt =====
-- src/paperless_control_plane/direct.py: the registry of direct targets. A target id `dt_{n:06d}` is
-- its number n. `urlsplit(url).hostname` is a parameter. The file of the registry is not modelled.
pub mod Runner
pub mod Registry
pub mod Revoked
pub mod Egress
pub mod Metered
pub mod Refusals
mod Examples
use paperless_assistant.Base.{
  ℕ, zero, suc, ◌+◌, refl, inl, inr, Bool, true, false, not, String, Option, none, some, List, [],
  ◌∷◌, ◌++◌, map, arith, filter, ◌==◌, nat_eq, string_eq, pair_eq, if◌then◌else◌, contains,
}
use paperless_assistant.Base.Dict.{Dict, lookup, insert, erase}
use mathlib.Core.Option
use paperless_assistant.Base.Sorted.{sorted_set}
use paperless_assistant.Base.Text.{lower_case, rstrip_slash}
use paperless_assistant.ControlPlane.Inference.{or_else}

-- the counts of `record_review`
pub record Review : Type 0 where
  pub superseded : ℕ
  pub ai_new_taxonomy : ℕ
  pub at : ℕ

pub record Target : Type 0 where
  pub target_id : ℕ
  pub tenant : String
  pub paperless_url : String
  pub allowed_hosts : List String
  pub enabled : Bool
  pub created_at : ℕ
  pub updated_at : ℕ
  pub token : String
  pub last_review : Option Review

-- what `_public` leaves of a target
pub record PublicTarget : Type 0 where
  pub target_id : ℕ
  pub tenant : String
  pub paperless_url : String
  pub allowed_hosts : List String
  pub enabled : Bool
  pub created_at : ℕ
  pub updated_at : ℕ
  pub last_review : Option Review
  pub token_configured : Bool

pub record TargetStore : Type 0 where
  pub targets : Dict ℕ Target
  pub seq : ℕ

abbrev pub empty_targets : TargetStore
empty_targets = record { targets = []; seq = 0 }

-- the `DirectTargetError`s of `add_target`
pub data AddError : Type 0 where
  url_required token_required no_host : AddError

pub data Added : Type 0 where
  refused : AddError → Added
  added : PublicTarget → Added

-- `_public`
unfoldable pub public_view : Target → PublicTarget
public_view t = record {
  target_id = t.target_id;
  tenant = t.tenant;
  paperless_url = t.paperless_url;
  allowed_hosts = t.allowed_hosts;
  enabled = t.enabled;
  created_at = t.created_at;
  updated_at = t.updated_at;
  last_review = t.last_review;
  token_configured = not (t.token == "");
}

-- `[h.lower() for h in hosts if h]`
unfoldable pub lower_all : List String → List String
lower_all [] = []
lower_all (h ∷ hosts) = let rest = lower_all hosts in if h == "" then rest else lower_case h ∷ rest

-- `allowed_hosts or [host]`
abbrev pub hosts_or : Option (List String) → String → List String
hosts_or none host = host ∷ []
hosts_or (some []) host = host ∷ []
hosts_or (some (h ∷ hosts)) host = h ∷ hosts

-- The target's own host is always among them.
unfoldable pub hosts_of : Option (List String) → String → List String
unfolding lower_all
hosts_of allowed_hosts host =
    let hosts = lower_all (hosts_or allowed_hosts host) in
    if contains host hosts then hosts else hosts ++ host ∷ []

module _ (hostname : String → Option String) where
  -- `_host_of`
  unfoldable pub host_of : String → String
  unfolding or_else
  host_of url = lower_case (or_else (hostname url) "")

  -- The clock is read for `created_at` and again for `updated_at`.
  unfoldable pub add_target :
      ℕ
      → ℕ
      → String
      → String
      → String
      → Option (List String)
      → Bool
      → TargetStore
      → Added × TargetStore
  unfolding host_of hosts_of public_view
  add_target now now' tenant paperless_url token allowed_hosts enabled s =
      let url = rstrip_slash paperless_url in
      let host = host_of url in
      let target_id = s.seq + 1 in
      let target : Target = record {
        target_id = target_id;
        tenant = tenant;
        paperless_url = url;
        allowed_hosts = sorted_set (hosts_of allowed_hosts host);
        enabled = enabled;
        created_at = now;
        updated_at = now';
        token = token;
        last_review = none;
      } in
      if paperless_url == ""
      then (refused url_required, s)
      else if token == ""
      then (refused token_required, s)
      else if host == ""
      then (refused no_host, s)
      else (
        added (public_view target),
        record { targets = insert target_id target s.targets; seq = target_id },
      )

unfoldable pub get_target : ℕ → TargetStore → Option Target
get_target target_id s = lookup target_id s.targets

unfoldable pub public_target : ℕ → TargetStore → Option PublicTarget
unfolding public_view
public_target target_id s = Option.map public_view (lookup target_id s.targets)

-- `tenant is None or r["tenant"] == tenant`
abbrev pub is_of : Option String → Target → Bool
is_of none t = true
is_of (some tenant) t = t.tenant == tenant

abbrev pub values : Dict ℕ Target → List Target
values [] = []
values ((target_id, t) ∷ d) = t ∷ values d

unfoldable pub list_targets : Option String → TargetStore → List PublicTarget
unfolding public_view
list_targets tenant s = map public_view (filter (is_of tenant) (values s.targets))

unfoldable pub set_enabled : ℕ → ℕ → Bool → TargetStore → Bool × TargetStore
set_enabled now target_id enabled s = elim (lookup target_id s.targets) [
  | none ↦ (false, s)
  | some t ↦
      let t' = record t { enabled = enabled; updated_at = now } in
      (true, record s { targets = insert target_id t' s.targets })
]

-- `revoke`
unfoldable pub revoke_target : ℕ → TargetStore → Bool × TargetStore
revoke_target target_id s = elim (lookup target_id s.targets) [
  | none ↦ (false, s)
  | some t ↦ (true, record s { targets = erase target_id s.targets })
]

unfoldable pub record_review : ℕ → ℕ → ℕ → ℕ → TargetStore → Bool × TargetStore
record_review now target_id superseded ai_new_taxonomy s = elim (lookup target_id s.targets) [
  | none ↦ (false, s)
  | some t ↦
      let review : Review = record {
        superseded = superseded;
        ai_new_taxonomy = ai_new_taxonomy;
        at = now;
      } in
      let t' = record t { last_review = some review } in
      (true, record s { targets = insert target_id t' s.targets })
]

-- `tenants`
unfoldable pub target_tenants : TargetStore → List String
target_tenants s = sorted_set (map (λ (t : Target). t.tenant) (values s.targets))
