-- ===== src/Jobs/Marker.antt =====
-- internal/jobs/jobs.go: the marker of an aborted case, over the operations on the workspaces.
use hermes_security_skills.Base.{
  All, Bool, Bool-cases, List, Option, [], arith, false, inl, inr, none, ok, refl, some, true, ◌++◌,
  ◌∷◌, ◌≡◌, ◌≢◌,
}
use hermes_security_skills.Base.Text.{Text, codes}
use hermes_security_skills.Base.Text.Laws.{==_cases}
use hermes_security_skills.Files.{
  Disk, Names, Tree, lies_below, mkdir_all, path_eq, remove_all, write_file,
}
use hermes_security_skills.Files.Growing.{HasNode, write_file-Grows, write_file-HasNode}
use hermes_security_skills.Files.Keeping.{remove-HasNode, remove_all-HasNode}
use hermes_security_skills.Jobs.{
  Away, Workspace, aborted_file, and_case, cleanup, create, is_aborted, is_outside_root,
  mark_aborted, marking, remove_each, returning, task_file, task_path, valid_id, workspace,
  write_log, write_result, write_task,
}
use hermes_security_skills.Jobs.Making.{
  create-Grows, mark_aborted-Grows, returning-world, write_log-Grows, write_result-world,
}

-- An operation on the directory of the jobs: the root, the case and the task of its workspace, and
-- what else the operation takes.
pub data JobOp : Type 0 where
  creates : Text → Text → Text → JobOp
  writes_task : Text → Text → Text → Option Text → JobOp
  writes_log : Away → Text → Text → Text → Text → Text → JobOp
  cleans_up : Text → Text → Text → Bool → JobOp
  aborts : Text → Text → JobOp

unfoldable pub run_op : Disk → JobOp → Tree → Tree
unfolding create write_task write_log cleanup mark_aborted
run_op disk (creates root case_id task_id) t = (create disk root case_id task_id t).1
run_op disk (writes_task root case_id task_id task) t =
    (write_task disk (workspace root case_id task_id) task t).1
run_op disk (writes_log away root case_id task_id name bytes) t =
    (write_log disk away (workspace root case_id task_id) name bytes t).1
run_op disk (cleans_up root case_id task_id keep_artifacts) t =
    (cleanup disk (workspace root case_id task_id) keep_artifacts t).1
run_op disk (aborts case_id content) t = (mark_aborted disk case_id content t).1

-- The operations, each with the disk that it meets.
unfoldable pub run_ops : List (Disk × JobOp) → Tree → Tree
unfolding run_op
run_ops [] t = t
run_ops ((disk, op) ∷ ops) t = run_ops ops (run_op disk op t)

-- The task of an operation that removes something is not called ABORTED.
abbrev pub SparesMarker : JobOp → Type 0
SparesMarker (creates _ _ _) = Unit
SparesMarker (writes_task _ _ _ _) = Unit
SparesMarker (writes_log _ _ _ _ _ _) = Unit
SparesMarker (cleans_up _ _ task_id _) = task_id ≢ aborted_file
SparesMarker (aborts _ _) = Unit

-- The path of the marker.
abbrev pub marker : Text → Names
marker case_id = case_id ∷ aborted_file ∷ []

lies_below-marker :
    (case_id other task_id : Text) (rest : Names)
    → task_id ≢ aborted_file
    → lies_below (other ∷ task_id ∷ rest) (marker case_id) ≡ false
unfolding lies_below
lies_below-marker case_id other task_id rest spares = elim (==_cases task_id aborted_file) [
  | inl (_, e) ↦ absurd (spares e)
  | inr (e, _) ↦ rw e (ground arith)
]

remove_each-HasNode :
    (disk : Disk) (p : Names) (ds : List Names) (t : Tree)
    → All (λ d. lies_below d p ≡ false) ds
    → HasNode p t
    → HasNode p (remove_each disk ds t).1
unfolding remove_each
remove_each-HasNode disk p [] t outside h = h
remove_each-HasNode disk p (d ∷ ds) t (here, rest) h =
    let kept = remove_all-HasNode disk d p t here h in
    elim (Bool-cases (remove_all disk d t).0) [
      | inl e ↦
          rw (e, remove_each) (remove_each-HasNode disk p ds (remove_all disk d t).1 rest kept)
      | inr e ↦ rw (e, remove_each) kept
    ]

and_case-HasNode :
    (disk : Disk) (w : Workspace) (case_id : Text) (removed : Bool) (t : Tree)
    → HasNode (marker case_id) t
    → HasNode (marker case_id) (and_case disk w (removed, t)).1
unfolding path_eq
and_case-HasNode disk w case_id false t h = h
and_case-HasNode disk w case_id true t h =
    remove-HasNode disk (w.case_id ∷ []) case_id (aborted_file ∷ []) t (ground arith) h

cleanup-HasNode :
    (disk : Disk) (root other task_id case_id : Text) (keep_artifacts : Bool) (t : Tree)
    → task_id ≢ aborted_file
    → HasNode (marker case_id) t
    → HasNode (marker case_id) (cleanup disk (workspace root other task_id) keep_artifacts t).1
unfolding cleanup
cleanup-HasNode disk root other task_id case_id keep_artifacts t spares h =
    let w = workspace root other task_id in
    elim (Bool-cases (is_outside_root w)) [
      | inl e ↦ rw (e, cleanup) h
      | inr e ↦ elim (Bool-cases keep_artifacts) [
        | inl f ↦
            rw (e, f, cleanup)
              (remove_each-HasNode disk (marker case_id)
                (w.input_dir ∷ w.output_dir ∷ w.logs_dir ∷ []) t
                (
                  lies_below-marker case_id other task_id (codes "input" ∷ []) spares,
                  (
                    lies_below-marker case_id other task_id (codes "output" ∷ []) spares,
                    (lies_below-marker case_id other task_id (codes "logs" ∷ []) spares, tt),
                  ),
                )
                h)
        | inr f ↦
            let removed = remove_all disk w.dir t in
            let kept =
              remove_all-HasNode disk w.dir (marker case_id) t
                (lies_below-marker case_id other task_id [] spares) h in
            rw (e, f, cleanup) (and_case-HasNode disk w case_id removed.0 removed.1 kept)
      ]
    ]

run_op-HasNode :
    (disk : Disk) (op : JobOp) (case_id : Text) (t : Tree)
    → SparesMarker op
    → HasNode (marker case_id) t
    → HasNode (marker case_id) (run_op disk op t)
unfolding run_op write_task write_log
run_op-HasNode disk (creates root other task_id) case_id t spares h =
    create-Grows disk root other task_id t (marker case_id) h
run_op-HasNode disk (writes_task root other task_id none) case_id t spares h = h
run_op-HasNode disk (writes_task root other task_id (some bytes)) case_id t spares h =
    let w = workspace root other task_id in
    rw
      (write_result-world (task_path w)
        (write_file disk w.input_dir task_file (bytes ++ codes "\n") t))
      (write_file-Grows disk w.input_dir task_file (bytes ++ codes "\n") t (marker case_id) h)
run_op-HasNode disk (writes_log away root other task_id name bytes) case_id t spares h =
    write_log-Grows disk away (workspace root other task_id) name bytes t (marker case_id) h
run_op-HasNode disk (cleans_up root other task_id keep_artifacts) case_id t spares h =
    cleanup-HasNode disk root other task_id case_id keep_artifacts t spares h
run_op-HasNode disk (aborts other content) case_id t spares h =
    mark_aborted-Grows disk other content t (marker case_id) h

run_ops-HasNode :
    (ops : List (Disk × JobOp)) (case_id : Text) (t : Tree)
    → All (λ o. SparesMarker o.1) ops
    → HasNode (marker case_id) t
    → HasNode (marker case_id) (run_ops ops t)
unfolding run_ops
run_ops-HasNode [] case_id t spares h = h
run_ops-HasNode ((disk, op) ∷ ops) case_id t (here, rest) h =
    run_ops-HasNode ops case_id (run_op disk op t) rest (run_op-HasNode disk op case_id t here h)

returning-write_result :
    {A : Type 0} (a b : A) (p : Names) (q : Bool × Tree)
    → (returning a (write_result p q)).0 ≡ ok b
    → q.0 ≡ true
returning-write_result a b p (true, t) h = refl
returning-write_result a b p (false, t) h = cc

marking-HasNode :
    (disk : Disk) (case_id content : Text) (made : Bool × Tree) (p : Names)
    → (returning (marker case_id) (marking disk case_id content made)).0 ≡ ok p
    → HasNode (marker case_id) (marking disk case_id content made).1
marking-HasNode disk case_id content (false, t) p h = cc
marking-HasNode disk case_id content (true, t) p h =
    let q = write_file disk (case_id ∷ []) aborted_file content t in
    rw (write_result-world (marker case_id) q) (
      write_file-HasNode disk (case_id ∷ []) aborted_file content t
        (returning-write_result (marker case_id) p (marker case_id) q h))

mark_aborted-HasNode :
    (disk : Disk) (case_id content : Text) (t : Tree) (p : Names)
    → (mark_aborted disk case_id content t).0 ≡ ok p
    → (valid_id case_id ≡ true) × HasNode (marker case_id) (mark_aborted disk case_id content t).1
unfolding mark_aborted
mark_aborted-HasNode disk case_id content t p h = elim (Bool-cases (valid_id case_id)) [
  | inr e ↦ (let impossible = rw (e, mark_aborted) at h in cc)
  | inl e ↦
      let made = mkdir_all disk [] (case_id ∷ []) t in
      let marked = marking disk case_id content made in
      (
        e,
        rw (e, mark_aborted, returning-world (marker case_id) marked)
            (marking-HasNode disk case_id content made p (rw (e, mark_aborted) at h)),
      )
]

-- Once MarkAborted has returned without error, the case stays aborted through any operations on any
-- workspaces, whatever of them fail, as long as no workspace of a task called ABORTED is cleaned up.
pub mark_aborted-is_aborted :
    (disk : Disk) (case_id content : Text) (t : Tree) (p : Names) (ops : List (Disk × JobOp))
    → (mark_aborted disk case_id content t).0 ≡ ok p
    → All (λ o. SparesMarker o.1) ops
    → is_aborted case_id (run_ops ops (mark_aborted disk case_id content t).1) ≡ true
unfolding is_aborted
mark_aborted-is_aborted disk case_id content t p ops h spares =
    let (valid, marked) = mark_aborted-HasNode disk case_id content t p h in
    let (n, e) =
      run_ops-HasNode ops case_id (mark_aborted disk case_id content t).1 spares marked in
    rw (valid, e, is_aborted) refl
