-- ===== src/Mcp/Calls/Checked.antt =====
-- internal/mcp/server.go: the checks of toolsCall that a call has passed when it is let through.
use mathlib.Core.Path.{subst}
use hermes_security_skills.Base.{
  >>=-eq-ok, Bool-cases, List, Option, Option-cases, Result, Result-cases, ap, err, false,
  guard-eq-ok, inl, inr, map_err-eq-ok, none, not, ok, ok-injective, refl, some, true, ◌||◌, ◌∙◌,
  ◌≡◌, ◌⊎◌,
}
use hermes_security_skills.Approval.Store.{File, Record, StoreError, consume, find_active}
use hermes_security_skills.Base.Text.{Text, codes, is_empty, to_upper, trim_space, ◌==◌}
use hermes_security_skills.Base.Text.Laws.{==_iff}
use hermes_security_skills.Capability.{Capability}
use hermes_security_skills.Document.{Fields}
use hermes_security_skills.Files.{Tree}
use hermes_security_skills.Jobs.{is_aborted, valid_id}
use hermes_security_skills.Mcp.{
  Moment, Server, bad_case, deny_stop, invalid_params, no_approval_store, rpc_stop, text_arg,
}
use hermes_security_skills.Mcp.Checks.{
  Call, call_url, check_abort, check_approval, check_scope, decide_action, found_approval, gate,
  prepare, query_for, scope_checker, use_approval,
}
use hermes_security_skills.Risk.{
  action_approval_required, action_automatic, action_conditional, action_disabled,
}
use hermes_security_skills.Scope.Allowlist.{HostPort, Url}
use hermes_security_skills.Scope.Check.{check}

-- The scope that an operation must be in.
abbrev pub InScope : Server → Capability → Text → Type 0
InScope s c url =
    (entries : List HostPort) × (scope_checker s ≡ ok (some entries))
    × (check s.net entries url ≡ ok tt)

-- An approval of the store that covers the call, of which one request is used.
pub record IsApproved (s : Server) (m : Moment) (c : Capability) (call : Call) (file file' : File)
    : Type 0 where
  pub approval : Record
  pub url : Url
  pub asked : find_active m.find_env (query_for s c call url.hostname) file ≡ ok (some approval)
  pub used_up : consume m.consume_env approval.id file ≡ (ok tt, file')

-- What lets a call through: the action of the policy, and the approval where it asks for one.
abbrev pub IsAllowed : Server → Moment → Capability → Call → File → File → Type 0
IsAllowed s m c call file file' =
    ((call.action ≡ action_automatic) × (file' ≡ file))
    ⊎ (((call.action == action_conditional || call.action == action_approval_required) ≡ true)
        × IsApproved s m c call file file')

-- The call that the arguments ask for, and the checks that it has passed.
pub record IsChecked (s : Server) (m : Moment) (c : Capability) (args : Fields) (call : Call)
    : Type 0 where
  pub url_asked : call.url ≡ trim_space (text_arg (codes "url") args)
  pub method_asked : call.method ≡ to_upper (trim_space (text_arg (codes "method") args))
  pub case_asked : call.case_id ≡ trim_space (text_arg (codes "case") args)
  pub in_scope : c.requires_scope ≡ true → InScope s c call.url
  pub not_aborted :
      is_empty call.case_id ≡ false
      → is_empty s.jobs_dir ≡ false
      → is_aborted call.case_id m.jobs ≡ false
  pub action : decide_action s c call.method ≡ ok call.action

check_scope-InScope :
    (s : Server) (c : Capability) (url : Text)
    → check_scope s c url ≡ ok tt
    → c.requires_scope ≡ true
    → InScope s c url
unfolding check_scope
check_scope-InScope s c url h scoped =
    let (checker, made, passed) = >>=-eq-ok (scope_checker s) _ h in
    elim (Option-cases checker) [
      | inl e ↦ (let impossible = rw (scoped, e) at passed in cc)
      | inr (entries, e) ↦ elim (Result-cases (check s.net entries url)) [
        | inl (tt, f) ↦ (entries, made ∙ ap (λ x. ok x) e, f)
        | inr (_, f) ↦ (let impossible = rw (scoped, e, f) at passed in cc)
      ]
    ]

check_abort-not_aborted :
    (s : Server) (jobs : Tree) (case_id : Text)
    → check_abort s jobs case_id ≡ ok tt
    → is_empty case_id ≡ false
    → is_empty s.jobs_dir ≡ false
    → is_aborted case_id jobs ≡ false
unfolding check_abort
check_abort-not_aborted s jobs case_id h named configured =
    let checked = rw (named, configured) at h in
    let (_, h1) = guard-eq-ok (not (valid_id case_id)) (deny_stop bad_case) _ checked in
    elim (Bool-cases (is_aborted case_id jobs)) [
      | inl e ↦ (let impossible = rw e at h1 in cc)
      | inr e ↦ e
    ]

pub prepare-IsChecked :
    (s : Server) (m : Moment) (c : Capability) (args : Fields) (call : Call)
    → prepare s m c args ≡ ok call
    → IsChecked s m c args call
unfolding prepare
prepare-IsChecked s m c args call h =
    let url = trim_space (text_arg (codes "url") args) in
    let method = to_upper (trim_space (text_arg (codes "method") args)) in
    let case_id = trim_space (text_arg (codes "case") args) in
    let (_, h1) = guard-eq-ok (is_empty url || is_empty method) (rpc_stop invalid_params) _ h in
    let (_, scoped, h2) = >>=-eq-ok (check_scope s c url) _ h1 in
    let (_, live, h3) = >>=-eq-ok (check_abort s m.jobs case_id) _ h2 in
    let (action, decided, h4) = >>=-eq-ok (decide_action s c method) _ h3 in
    subst (IsChecked s m c args) (ok-injective h4) (record {
      url_asked = refl;
      method_asked = refl;
      case_asked = refl;
      in_scope = check_scope-InScope s c url scoped;
      not_aborted = check_abort-not_aborted s m.jobs case_id live;
      action = decided;
    })

found_approval-eq-ok :
    (found : Result StoreError (Option Record)) (r : Record)
    → found_approval found ≡ ok r
    → found ≡ ok (some r)
found_approval-eq-ok (err e) r h = cc
found_approval-eq-ok (ok none) r h = cc
found_approval-eq-ok (ok (some r')) r h = ap (λ x. ok (some x)) (ok-injective h)

check_approval-found :
    (s : Server) (m : Moment) (c : Capability) (call : Call) (file : File) (r : Record)
    → check_approval s m c call file ≡ ok r
    → (u : Url) × (find_active m.find_env (query_for s c call u.hostname) file ≡ ok (some r))
unfolding check_approval
check_approval-found s m c call file r h =
    let (_, h1) = guard-eq-ok (not s.has_store) no_approval_store _ h in
    let (u, _, h2) = >>=-eq-ok (call_url s call) _ h1 in (u, found_approval-eq-ok _ r h2)

use_approval-IsApproved :
    (s : Server) (m : Moment) (c : Capability) (call : Call) (file : File)
    → (use_approval m file (check_approval s m c call file)).0 ≡ ok tt
    → IsApproved s m c call file (use_approval m file (check_approval s m c call file)).1
use_approval-IsApproved s m c call file h = elim (Result-cases (check_approval s m c call file)) [
  | inr (_, e) ↦ (let impossible = rw e at h in cc)
  | inl (r, e) ↦
      let (u, asked) = check_approval-found s m c call file r e in
      let used = map_err-eq-ok _ (consume m.consume_env r.id file).0 tt (rw e at h) in
      rw e (record {
        approval = r;
        url = u;
        asked = asked;
        used_up = ap (λ x. (x, (consume m.consume_env r.id file).1)) used;
      })
]

-- An open gate is one that the action opens, or an approval.
pub gate-IsAllowed :
    (s : Server) (m : Moment) (c : Capability) (call : Call) (file : File)
    → (gate s m c call file).0 ≡ ok tt
    → IsAllowed s m c call file (gate s m c call file).1
unfolding gate
gate-IsAllowed s m c call file h = elim (Bool-cases (call.action == action_automatic)) [
  | inl e ↦ rw (e, gate) (inl ((==_iff call.action action_automatic).0 e, refl))
  | inr e ↦
      elim (Bool-cases
        (call.action == action_conditional || call.action == action_approval_required)) [
          | inl f ↦ elim (Bool-cases (is_empty call.case_id)) [
            | inl g ↦ (let impossible = rw (e, f, g, gate) at h in cc)
            | inr g ↦
                rw (e, f, g, gate)
                  (inr (refl, use_approval-IsApproved s m c call file (rw (e, f, g, gate) at h)))
          ]
          | inr f ↦ elim (Bool-cases (call.action == action_disabled)) [
            | inl g ↦ (let impossible = rw (e, f, g, gate) at h in cc)
            | inr g ↦ (let impossible = rw (e, f, g, gate) at h in cc)
          ]
        ]
]
