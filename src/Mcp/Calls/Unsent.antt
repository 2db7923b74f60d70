-- ===== src/Mcp/Calls/Unsent.antt =====
-- internal/mcp/server.go: calls that toolsCall refuses late, or for want of an argument.
use hermes_security_skills.Base.{
  All, All-map, Bool, Option-cases, [], ap, arith, err, inl, inr, none, ok, refl, true, ◌||◌, ◌∷◌,
  ◌≡◌, ◌≢◌,
}
use hermes_security_skills.Base.Text.{Text, codes, is_empty, to_upper, trim_space}
use hermes_security_skills.Capability.{Capability}
use hermes_security_skills.Document.{Fields, get_field}
use hermes_security_skills.Mcp.{Moment, Server, World, invalid_params, rpc_stop, text_arg}
use hermes_security_skills.Mcp.Calls.{active_call, dispatch, headers_from_args}
use hermes_security_skills.Mcp.Calls.Checked.{IsApproved, gate-IsAllowed}
use hermes_security_skills.Mcp.Checks.{Call, gate, prepare}
use hermes_security_skills.Mcp.Reading.{answer_with}
use hermes_security_skills.Mcp.Tools.{built_schema, input_schema_for, read_only_schema}
use hermes_security_skills.Risk.{action_automatic}

-- A call that needs an approval and has headers that are no mapping of texts is refused with an
-- error of JSON-RPC and sends nothing, but a request of the approval is used up.
pub active_call-IsApproved :
    (s : Server) (m : Moment) (c : Capability) (tool : Text) (args : Fields) (w : World)
    (call : Call)
    → prepare s m c args ≡ ok call
    → (gate s m c call w.approvals).0 ≡ ok tt
    → call.action ≢ action_automatic
    → headers_from_args args ≡ none
    → ((active_call s m c tool args w).0 ≡ err invalid_params)
      × ((active_call s m c tool args w).1.sent ≡ w.sent)
      × IsApproved s m c call w.approvals (active_call s m c tool args w).1.approvals
unfolding active_call dispatch
active_call-IsApproved s m c tool args w call e f manual g =
    elim (gate-IsAllowed s m c call w.approvals f) [
      | inl (automatic, _) ↦ absurd (manual automatic)
      | inr (_, approved) ↦ rw (e, f, g, active_call, dispatch) (refl, refl, approved)
    ]

text_arg-none : (key : Text) (args : Fields) → get_field key args ≡ none → text_arg key args ≡ []
unfolding text_arg
text_arg-none key args h = rw (h, text_arg) refl

-- The first test of an active operation.
abbrev pub lacks_target : Fields → Bool
lacks_target args =
    is_empty (trim_space (text_arg (codes "url") args))
    || is_empty (to_upper (trim_space (text_arg (codes "method") args)))

lacks_target-required :
    (args : Fields)
    → All
        (λ p. get_field p args ≡ none → lacks_target args ≡ true)
        (codes "url" ∷ codes "method" ∷ [])
unfolding trim_space to_upper
lacks_target-required args = (
  λ h.
      ap
        (λ x.
          is_empty (trim_space x)
          || is_empty (to_upper (trim_space (text_arg (codes "method") args))))
        (text_arg-none (codes "url") args h),
  (
    λ h.
        let empty : is_empty (to_upper (trim_space (text_arg (codes "method") args))) ≡ true =
          ap (λ x. is_empty (to_upper (trim_space x))) (text_arg-none (codes "method") args h) in
        ground arith,
    tt,
  ),
)

active_call-lacks_target :
    (s : Server) (m : Moment) (c : Capability) (tool : Text) (args : Fields) (w : World)
    → lacks_target args ≡ true
    → active_call s m c tool args w ≡ (err invalid_params, w)
unfolding active_call prepare answer_with
active_call-lacks_target s m c tool args w h =
    let refused : prepare s m c args ≡ err (rpc_stop invalid_params) = rw (h, prepare) refl in
    rw (refused, active_call, answer_with) refl

input_schema_for-networked :
    (c : Capability)
    → c.requires_network ≡ true
    → (input_schema_for c).required ≡ codes "url" ∷ codes "method" ∷ []
unfolding input_schema_for built_schema
input_schema_for-networked c networked = elim (Option-cases (read_only_schema c.name)) [
  | inl e ↦ rw (e, networked, input_schema_for, built_schema) refl
  | inr (_, e) ↦ rw (e, networked, input_schema_for, built_schema) refl
]

-- Where the input schema of a capability that goes to the network calls an argument required, a call
-- without that argument is refused with an error of JSON-RPC and changes nothing.
pub active_call-input_schema_for :
    (s : Server) (m : Moment) (c : Capability) (tool : Text) (args : Fields) (w : World)
    → c.requires_network ≡ true
    → All
        (λ p. get_field p args ≡ none → active_call s m c tool args w ≡ (err invalid_params, w))
        (input_schema_for c).required
active_call-input_schema_for s m c tool args w networked =
    let required =
      All-map (λ p. get_field p args ≡ none → lacks_target args ≡ true)
        (λ p. get_field p args ≡ none → active_call s m c tool args w ≡ (err invalid_params, w))
        (λ p lacking gone. active_call-lacks_target s m c tool args w (lacking gone))
        (codes "url" ∷ codes "method" ∷ []) (lacks_target-required args) in
    rw (input_schema_for-networked c networked) required
