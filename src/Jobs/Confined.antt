-- ===== src/Jobs/Confined.antt =====
-- internal/jobs/jobs.go: the operations on one case, and the directories of the others.
use hermes_security_skills.Base.{
  All, Bool, Bool-cases, List, Option, Option-cases, [], false, inl, inr, map, none, refl, some,
  true, ◌++◌, ◌∙◌, ◌∷◌, ◌≡◌,
}
use hermes_security_skills.Base.Text.{Text, codes, ◌==◌}
use hermes_security_skills.Files.{Disk, Names, Tree, lies_below, mkdir_all, remove_all, write_file}
use hermes_security_skills.Files.Apart.{
  SameBelow, SameBelow-refl, mkdir_all-SameBelow, remove-SameBelow, remove_all-SameBelow,
  write_file-SameBelow,
}
use hermes_security_skills.Files.Paths.{joined_path, write_at, write_at-SameBelow}
use hermes_security_skills.Jobs.{
  Away, Workspace, aborted_file, and_case, back_at, cleanup, create, ends_outside, is_outside_root,
  make_all, mark_aborted, marking, remove_each, task_file, task_path, valid_id, workspace,
  write_log, write_task,
}
use hermes_security_skills.Jobs.Making.{returning-world, write_result-world}
use hermes_security_skills.Jobs.Marker.{
  JobOp, aborts, cleans_up, creates, run_op, run_ops, writes_log, writes_task,
}

-- The file that a log is written to, if it is below the root of the jobs.
abbrev pub log_target : Away → Option Names → Option Names
log_target away (some p) = some p
log_target (ends_outside _) none = none
log_target (back_at p) none = some p

-- The ids of a workspace that Create makes.
abbrev pub IsMade : Text → Text → Type 0
IsMade case_id task_id = (valid_id case_id ≡ true) × (valid_id task_id ≡ true)

-- The operation is not about the case, and its workspace is one that Create makes; a log counts by the file that its name leads to.
abbrev pub Avoids : Text → JobOp → Type 0
Avoids c (creates _ d _) = d == c ≡ false
Avoids c (writes_task _ d task_id _) = IsMade d task_id × (d == c ≡ false)
Avoids c (writes_log away root d task_id name _) =
    IsMade d task_id
    × ((p : Names)
        → log_target away (joined_path (workspace root d task_id).logs_dir name) ≡ some p
        → lies_below (c ∷ []) p ≡ false)
Avoids c (cleans_up _ d task_id _) = IsMade d task_id × (d == c ≡ false)
Avoids c (aborts d _) = d == c ≡ false

module _ (c d : Text) (apart : d == c ≡ false) where
  make_all-SameBelow :
      (disk : Disk) (ps : List Names) (t : Tree)
      → SameBelow c t (make_all disk (map (λ p. d ∷ p) ps) t).1
  unfolding make_all
  make_all-SameBelow disk [] t = SameBelow-refl c t
  make_all-SameBelow disk (p ∷ ps) t =
      let first = mkdir_all-SameBelow c d apart disk p t in
      elim (Bool-cases (mkdir_all disk [] (d ∷ p) t).0) [
        | inl e ↦
            rw (e, make_all)
              (λ r. make_all-SameBelow disk ps (mkdir_all disk [] (d ∷ p) t).1 r ∙ first r)
        | inr e ↦ rw (e, make_all) first
      ]

  create-SameBelow :
      (disk : Disk) (root task_id : Text) (t : Tree)
      → SameBelow c t (create disk root d task_id t).1
  unfolding create
  create-SameBelow disk root task_id t = elim (Bool-cases (valid_id d)) [
    | inr e ↦ rw (e, create) (SameBelow-refl c t)
    | inl e ↦ elim (Bool-cases (valid_id task_id)) [
      | inr f ↦ rw (e, f, create) (SameBelow-refl c t)
      | inl f ↦
          rw (e, f, create, returning-world (workspace root d task_id))
            (make_all-SameBelow disk
              ((task_id ∷ codes "input" ∷ [])
                ∷ (task_id ∷ codes "output" ∷ [])
                ∷ (task_id ∷ codes "artifacts" ∷ [])
                ∷ (task_id ∷ codes "logs" ∷ [])
                ∷ [])
              t)
    ]
  ]

  remove_each-SameBelow :
      (disk : Disk) (ps : List Names) (t : Tree)
      → SameBelow c t (remove_each disk (map (λ p. d ∷ p) ps) t).1
  unfolding remove_each
  remove_each-SameBelow disk [] t = SameBelow-refl c t
  remove_each-SameBelow disk (p ∷ ps) t =
      let first = remove_all-SameBelow c d apart disk p t in
      elim (Bool-cases (remove_all disk (d ∷ p) t).0) [
        | inl e ↦
            rw (e, remove_each)
              (λ r. remove_each-SameBelow disk ps (remove_all disk (d ∷ p) t).1 r ∙ first r)
        | inr e ↦ rw (e, remove_each) first
      ]

  and_case-SameBelow :
      (disk : Disk) (root task_id : Text) (removed : Bool) (t : Tree)
      → SameBelow c t (and_case disk (workspace root d task_id) (removed, t)).1
  and_case-SameBelow disk root task_id false t = SameBelow-refl c t
  and_case-SameBelow disk root task_id true t = remove-SameBelow c d apart disk [] t

  cleanup-SameBelow :
      (disk : Disk) (root task_id : Text) (keep_artifacts : Bool) (t : Tree)
      → SameBelow c t (cleanup disk (workspace root d task_id) keep_artifacts t).1
  unfolding cleanup
  cleanup-SameBelow disk root task_id keep_artifacts t =
      let w = workspace root d task_id in
      elim (Bool-cases (is_outside_root w)) [
        | inl e ↦ rw (e, cleanup) (SameBelow-refl c t)
        | inr e ↦ elim (Bool-cases keep_artifacts) [
          | inl f ↦
              rw (e, f, cleanup)
                (remove_each-SameBelow disk
                  ((task_id ∷ codes "input" ∷ [])
                    ∷ (task_id ∷ codes "output" ∷ [])
                    ∷ (task_id ∷ codes "logs" ∷ [])
                    ∷ [])
                  t)
          | inr f ↦
              let removed = remove_all disk w.dir t in
              let first = remove_all-SameBelow c d apart disk (task_id ∷ []) t in
              rw (e, f, cleanup)
                (λ r. and_case-SameBelow disk root task_id removed.0 removed.1 r ∙ first r)
        ]
      ]

  marking-SameBelow :
      (disk : Disk) (content : Text) (made : Bool) (t : Tree)
      → SameBelow c t (marking disk d content (made, t)).1
  marking-SameBelow disk content false t = SameBelow-refl c t
  marking-SameBelow disk content true t =
      rw
        (write_result-world (d ∷ aborted_file ∷ [])
          (write_file disk (d ∷ []) aborted_file content t))
        (write_file-SameBelow c d apart disk [] aborted_file content t)

  mark_aborted-SameBelow :
      (disk : Disk) (content : Text) (t : Tree) → SameBelow c t (mark_aborted disk d content t).1
  unfolding mark_aborted
  mark_aborted-SameBelow disk content t = elim (Bool-cases (valid_id d)) [
    | inr e ↦ rw (e, mark_aborted) (SameBelow-refl c t)
    | inl e ↦
        let made = mkdir_all disk [] (d ∷ []) t in
        rw (e, mark_aborted, returning-world (d ∷ aborted_file ∷ []) (marking disk d content made))
          (λ r.
            marking-SameBelow disk content made.0 made.1 r
            ∙ mkdir_all-SameBelow c d apart disk [] t r)
  ]

write_log-SameBelow :
    (c : Text) (disk : Disk) (away : Away) (w : Workspace) (name bytes : Text) (t : Tree)
    → ((p : Names)
        → log_target away (joined_path w.logs_dir name) ≡ some p
        → lies_below (c ∷ []) p ≡ false)
    → SameBelow c t (write_log disk away w name bytes t).1
unfolding write_log
write_log-SameBelow c disk (ends_outside written) w name bytes t apart =
    elim (Option-cases (joined_path w.logs_dir name)) [
      | inl e ↦ rw (e, write_log, write_result-world [] (written, t)) (SameBelow-refl c t)
      | inr (p, e) ↦
          let elsewhere = apart p (rw e refl) in
          rw (e, write_log, write_result-world p (write_at disk [] p bytes t))
            (write_at-SameBelow c disk p bytes t elsewhere)
    ]
write_log-SameBelow c disk (back_at q) w name bytes t apart =
    elim (Option-cases (joined_path w.logs_dir name)) [
      | inl e ↦
          let elsewhere = apart q (rw e refl) in
          rw (e, write_log, write_result-world [] (write_at disk [] q bytes t))
            (write_at-SameBelow c disk q bytes t elsewhere)
      | inr (p, e) ↦
          let elsewhere = apart p (rw e refl) in
          rw (e, write_log, write_result-world p (write_at disk [] p bytes t))
            (write_at-SameBelow c disk p bytes t elsewhere)
    ]

run_op-SameBelow :
    (disk : Disk) (op : JobOp) (c : Text) (t : Tree)
    → Avoids c op
    → SameBelow c t (run_op disk op t)
unfolding run_op write_task write_log
run_op-SameBelow disk (creates root d task_id) c t apart =
    create-SameBelow c d apart disk root task_id t
run_op-SameBelow disk (writes_task root d task_id none) c t (_, apart) = SameBelow-refl c t
run_op-SameBelow disk (writes_task root d task_id (some bytes)) c t (_, apart) =
    let w = workspace root d task_id in
    rw
      (write_result-world (task_path w)
        (write_file disk w.input_dir task_file (bytes ++ codes "\n") t))
      (write_file-SameBelow c d apart disk (task_id ∷ codes "input" ∷ []) task_file
        (bytes ++ codes "\n") t)
run_op-SameBelow disk (writes_log away root d task_id name bytes) c t (_, apart) =
    write_log-SameBelow c disk away (workspace root d task_id) name bytes t apart
run_op-SameBelow disk (cleans_up root d task_id keep_artifacts) c t (_, apart) =
    cleanup-SameBelow c d apart disk root task_id keep_artifacts t
run_op-SameBelow disk (aborts d content) c t apart = mark_aborted-SameBelow c d apart disk content t

-- Operations that are about other cases, on workspaces that Create makes, change nothing in the
-- directory of a case, whether they succeed or fail; of a log that means that its name, a path, does
-- not lead into that directory.
pub run_ops-SameBelow :
    (ops : List (Disk × JobOp)) (c : Text) (t : Tree)
    → All (λ o. Avoids c o.1) ops
    → SameBelow c t (run_ops ops t)
unfolding run_ops
run_ops-SameBelow [] c t apart = SameBelow-refl c t
run_ops-SameBelow ((disk, op) ∷ ops) c t (here, rest) =
    λ p. run_ops-SameBelow ops c (run_op disk op t) rest p ∙ run_op-SameBelow disk op c t here p
