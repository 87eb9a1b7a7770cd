-- ===== src/Providers/Hosted.antt =====
-- src/paperless_assistant/providers/hosted_provider.py: the call of the control plane's inference
-- proxy and how its answers are told apart. `none` for an answer is a TransportError.
use paperless_assistant.Base.{
  ℕ, Bool, ◌||◌, String, Option, none, some, nat_beq, ◌==◌, nat_eq, string_eq, pair_eq,
  if◌then◌else◌,
}
use paperless_assistant.ControlPlane.Inference.{or_else}

-- the keys of an answer's body that `_call` reads; the type of the result is left open
pub record ProxyBody (R : Type 0) : Type 0 where
  pub result : Option R
  pub reason : Option String

-- The result, a HostedInferenceError, or a HostedInferenceRefused with its reason and status.
pub data HostedCall (R : Type 0) : Type 0 where
  gave : R → HostedCall R
  hosted_error : HostedCall R
  hosted_refused : String → ℕ → HostedCall R

-- `status in (402, 429) or reason in ("unentitled", "spend_cap")`
unfoldable pub is_refusal : ℕ → String → Bool
is_refusal status reason =
    nat_beq status 402 || nat_beq status 429 || reason == "unentitled" || reason == "spend_cap"

-- `_call`
unfoldable pub hosted_call : {R : Type 0} → Option (ℕ × ProxyBody R) → HostedCall R
unfolding is_refusal or_else
hosted_call none = hosted_error
hosted_call (some (status, body)) =
    let reason = or_else body.reason "error" in
    if nat_beq status 200
    then elim body.result [ none ↦ hosted_error | some r ↦ gave r ]
    else if is_refusal status reason
    then hosted_refused reason status
    else hosted_error
