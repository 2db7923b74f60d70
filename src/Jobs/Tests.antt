-- ===== src/Jobs/Tests.antt =====
-- The theorems on the workspaces at a concrete tree.
use mathlib.Core.Option.{some-injective, some-ne-none}
use mathlib.Core.Path.{subst}
use hermes_security_skills.Base.{
  List, Option, [], all, any, arith, false, keep, none, not, ok, refl, some, sym, true, ◌↔◌, ◌∷◌,
  ◌≡◌, ◌⊎◌,
}
use hermes_security_skills.Base.Text.{Text, codes, has_prefix, split, ◌==◌}
use hermes_security_skills.Files.{
  Disk, Names, directory, entry_at, lies_below, make_dir, mkdir_all, node_at, path_eq, regular,
  remove, remove_all, write_file,
}
use hermes_security_skills.Files.Apart.{SameBelow}
use hermes_security_skills.Files.Paths.{
  clean_names, clean_path, in_order, join_slash, joined_names, joined_path, write_at,
}
use hermes_security_skills.Jobs.{
  aborted_file, cleanup, create, dir_text, ends_outside, is_aborted, is_outside_root, make_all,
  mark_aborted, matches_id, remove_each, valid_id, workspace, write_log,
}
use hermes_security_skills.Jobs.Confined.{IsMade, run_ops-SameBelow}
use hermes_security_skills.Jobs.Ids.{IsName, create-is_outside_root, valid_id-IsName}
use hermes_security_skills.Jobs.Making.{create-is_aborted}
use hermes_security_skills.Jobs.Marker.{
  JobOp, cleans_up, creates, mark_aborted-is_aborted, run_op, run_ops, writes_log,
}

jobs : Unit {0}
unfolding create make_all mkdir_all make_dir node_at entry_at path_eq valid_id matches_id all
    mark_aborted write_file is_aborted cleanup remove_all remove lies_below keep any dir_text
    is_outside_root has_prefix run_ops run_op remove_each clean_path clean_names join_slash in_order
    split write_log write_at joined_path joined_names ◌==◌
jobs = tt

abbrev free : Disk
free p = true

abbrev case_one : Text
case_one = codes "case-1"

abbrev task_one : Text
task_one = codes "t1"

-- A directory of jobs with one aborted case.
abbrev ops : List (Disk × JobOp)
ops =
    (free, creates (codes "jobs") case_one task_one)
    ∷ (free, writes_log (ends_outside true) (codes "jobs") case_one task_one (codes "x.log") [])
    ∷ (free, writes_log (ends_outside true) (codes "jobs") case_one task_one (codes "../../a") [])
    ∷ (free, cleans_up (codes "jobs") case_one task_one false)
    ∷ []

aborted_first : (mark_aborted free case_one (codes "x") []).0 ≡ ok (case_one ∷ aborted_file ∷ [])
unfolding jobs
aborted_first = refl

mark_aborted-is_aborted_example :
    is_aborted case_one (run_ops ops (mark_aborted free case_one (codes "x") []).1) ≡ true
mark_aborted-is_aborted_example =
    mark_aborted-is_aborted free case_one (codes "x") [] (case_one ∷ aborted_file ∷ []) ops
      aborted_first (tt, (tt, (tt, ((λ e. cc), tt))))

-- A log is not in case-2 where its file is known not to be.
log_elsewhere :
    (target : Option Names)
    → (elim target [ none ↦ true | some p ↦ not (lies_below (codes "case-2" ∷ []) p) ]) ≡ true
    → (p : Names) → target ≡ some p
    → lies_below (codes "case-2" ∷ []) p ≡ false
log_elsewhere none h p e = absurd (some-ne-none p (sym e))
log_elsewhere (some q) h p e =
    subst (λ x. lies_below (codes "case-2" ∷ []) x ≡ false) (some-injective q p e) (ground arith)

-- A name with enough dots leads a log into another case.
log_escapes :
    (write_log free
      (ends_outside true)
      (workspace (codes "jobs") case_one task_one)
      (codes "../../../case-2/a")
      (codes "x")
      ((codes "case-2" ∷ [], directory) ∷ [])).1
    ≡ (codes "case-2" ∷ codes "a" ∷ [], regular (codes "x")) ∷ (codes "case-2" ∷ [], directory) ∷ []
unfolding jobs
log_escapes = refl

cleaned : clean_path (codes "/a/./b//../../../c/") ≡ codes "/c"
unfolding jobs
cleaned = refl

cleaned_relative : clean_path (codes "../a/../../b") ≡ codes "../../b"
unfolding jobs
cleaned_relative = refl

id_valid : valid_id case_one ≡ true
unfolding jobs
id_valid = refl

case_one-IsMade : IsMade case_one task_one
unfolding jobs
case_one-IsMade = (refl, refl)

run_ops-SameBelow_example : SameBelow (codes "case-2") [] (run_ops ops [])
unfolding jobs
run_ops-SameBelow_example = run_ops-SameBelow ops (codes "case-2") [] (
  refl,
  (
    (
      case_one-IsMade,
      log_elsewhere (some (case_one ∷ task_one ∷ codes "logs" ∷ codes "x.log" ∷ [])) refl,
    ),
    (
      (case_one-IsMade, log_elsewhere (some (case_one ∷ codes "a" ∷ [])) refl),
      ((case_one-IsMade, refl), tt),
    ),
  ),
)

valid_id-IsName_example : IsName case_one
valid_id-IsName_example = valid_id-IsName case_one id_valid

created :
    (create free (codes "./") case_one task_one []).0
    ≡ ok (workspace (codes "./") case_one task_one)
unfolding jobs
created = refl

create-is_outside_root_example :
    (is_outside_root (workspace (codes "./") case_one task_one) ≡ true)
    ↔ ((clean_path (codes "./") ≡ codes ".") ⊎ (clean_path (codes "./") ≡ codes "/"))
create-is_outside_root_example =
    create-is_outside_root free (codes "./") case_one task_one []
      (workspace (codes "./") case_one task_one) created

shadow_created :
    (create free (codes "jobs") case_one aborted_file []).0
    ≡ ok (workspace (codes "jobs") case_one aborted_file)
unfolding jobs
shadow_created = refl

create-is_aborted_example :
    is_aborted case_one (create free (codes "jobs") case_one aborted_file []).1 ≡ true
create-is_aborted_example =
    create-is_aborted free (codes "jobs") case_one []
      (workspace (codes "jobs") case_one aborted_file) shadow_created
