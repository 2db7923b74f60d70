-- ===== src/Jobs/Making.antt =====
-- internal/jobs/jobs.go: Create and MarkAborted on the tree, of which they remove nothing.
use mathlib.Core.Path.{subst}
use hermes_security_skills.Base.{
  Bool, Bool-cases, List, Option-cases, Result, [], ap, err, false, inl, inr, ok, refl, sym, true,
  ◌∙◌, ◌∷◌, ◌≡◌,
}
use hermes_security_skills.Base.Text.{Text, codes}
use hermes_security_skills.Files.{Disk, Names, Tree, make_dir, mkdir_all, write_file}
use hermes_security_skills.Files.Growing.{
  Grows, Grows-refl, HasNode, mkdir_all-Grows, mkdir_all-first, write_file-Grows,
}
use hermes_security_skills.Files.Paths.{joined_path, write_at, write_at-Grows}
use hermes_security_skills.Jobs.{
  Away, JobError, Workspace, aborted_file, back_at, create, dirs_of, ends_outside, is_aborted,
  make_all, mark_aborted, marking, returning, valid_id, workspace, write_away, write_log,
  write_result,
}
use hermes_security_skills.Jobs.Ids.{create-eq-ok}

pub returning-world :
    {A : Type 0} (a : A) (p : Result JobError (Unit {0}) × Tree) → (returning a p).1 ≡ p.1
returning-world a (err e, t) = refl
returning-world a (ok _, t) = refl

pub write_result-world : (p : Names) (q : Bool × Tree) → (write_result p q).1 ≡ q.1
write_result-world p (true, t) = refl
write_result-world p (false, t) = refl

pub make_all-Grows : (disk : Disk) (ds : List Names) (t : Tree) → Grows t (make_all disk ds t).1
unfolding make_all
make_all-Grows disk [] t = Grows-refl t
make_all-Grows disk (d ∷ ds) t =
    let grown = mkdir_all-Grows disk [] d t in
    elim (Bool-cases (mkdir_all disk [] d t).0) [
      | inl e ↦
          rw (e, make_all) (λ q h. make_all-Grows disk ds (mkdir_all disk [] d t).1 q (grown q h))
      | inr e ↦ rw (e, make_all) grown
    ]

pub create-Grows :
    (disk : Disk) (root case_id task_id : Text) (t : Tree)
    → Grows t (create disk root case_id task_id t).1
unfolding create
create-Grows disk root case_id task_id t = elim (Bool-cases (valid_id case_id)) [
  | inr e ↦ rw (e, create) (Grows-refl t)
  | inl e ↦ elim (Bool-cases (valid_id task_id)) [
    | inr f ↦ rw (e, f, create) (Grows-refl t)
    | inl f ↦
        rw (e, f, create, returning-world (workspace root case_id task_id))
          (make_all-Grows disk (dirs_of (workspace root case_id task_id)) t)
  ]
]

write_away-Grows :
    (disk : Disk) (away : Away) (bytes : Text) (t : Tree) → Grows t (write_away disk away bytes t).1
write_away-Grows disk (ends_outside written) bytes t = Grows-refl t
write_away-Grows disk (back_at p) bytes t = write_at-Grows disk [] p bytes t

-- A log removes nothing, wherever its name leads.
pub write_log-Grows :
    (disk : Disk) (away : Away) (w : Workspace) (name bytes : Text) (t : Tree)
    → Grows t (write_log disk away w name bytes t).1
unfolding write_log
write_log-Grows disk away w name bytes t = elim (Option-cases (joined_path w.logs_dir name)) [
  | inl e ↦
      rw (e, write_log, write_result-world [] (write_away disk away bytes t))
        (write_away-Grows disk away bytes t)
  | inr (p, e) ↦
      rw (e, write_log, write_result-world p (write_at disk [] p bytes t))
        (write_at-Grows disk [] p bytes t)
]

marking-Grows :
    (disk : Disk) (case_id content : Text) (made : Bool) (t : Tree)
    → Grows t (marking disk case_id content (made, t)).1
marking-Grows disk case_id content false t = Grows-refl t
marking-Grows disk case_id content true t =
    rw
      (write_result-world (case_id ∷ aborted_file ∷ [])
        (write_file disk (case_id ∷ []) aborted_file content t))
      (write_file-Grows disk (case_id ∷ []) aborted_file content t)

pub mark_aborted-Grows :
    (disk : Disk) (case_id content : Text) (t : Tree)
    → Grows t (mark_aborted disk case_id content t).1
unfolding mark_aborted
mark_aborted-Grows disk case_id content t = elim (Bool-cases (valid_id case_id)) [
  | inr e ↦ rw (e, mark_aborted) (Grows-refl t)
  | inl e ↦
      let made = mkdir_all disk [] (case_id ∷ []) t in
      rw
        (
          e,
          mark_aborted,
          returning-world (case_id ∷ aborted_file ∷ []) (marking disk case_id content made),
        )
        (λ q h.
          marking-Grows disk case_id content made.0 made.1 q
            (mkdir_all-Grows disk [] (case_id ∷ []) t q h))
]

-- Where the loop over directories has succeeded, the first two directories of the first path are there.
make_all-HasNode :
    (disk : Disk) (c d : Text) (p : Names) (ds : List Names) (t : Tree)
    → (make_all disk ((c ∷ d ∷ p) ∷ ds) t).0 ≡ ok tt
    → HasNode (c ∷ d ∷ []) (make_all disk ((c ∷ d ∷ p) ∷ ds) t).1
unfolding make_all
make_all-HasNode disk c d p ds t h = elim (Bool-cases (mkdir_all disk [] (c ∷ d ∷ p) t).0) [
  | inr e ↦ (let impossible = rw (e, make_all) at h in cc)
  | inl e ↦
      let (_, split_first) = mkdir_all-first disk [] c (d ∷ p) t e in
      let t1 = (make_dir disk (c ∷ []) t).1 in
      let succeeded = ap (λ (q : Bool × Tree). q.0) (sym split_first) ∙ e in
      let (there, _) = mkdir_all-first disk (c ∷ []) d p t1 succeeded in
      let made = subst (λ (q : Bool × Tree). HasNode (c ∷ d ∷ []) q.1) (sym split_first) there in
      rw (e, make_all)
        (make_all-Grows disk ds (mkdir_all disk [] (c ∷ d ∷ p) t).1 (c ∷ d ∷ []) made)
]

returning-ok :
    {A : Type 0} (a b : A) (p : Result JobError (Unit {0}) × Tree)
    → (returning a p).0 ≡ ok b
    → p.0 ≡ ok tt
returning-ok a b (err e, t) h = cc
returning-ok a b (ok _, t) h = refl

-- A workspace that Create has made for a task called ABORTED marks its case as aborted, though
-- nobody has aborted it.
pub create-is_aborted :
    (disk : Disk) (root case_id : Text) (t : Tree) (w : Workspace)
    → (create disk root case_id aborted_file t).0 ≡ ok w
    → is_aborted case_id (create disk root case_id aborted_file t).1 ≡ true
unfolding is_aborted create
create-is_aborted disk root case_id t w h =
    let (valid, valid_task, _) = create-eq-ok disk root case_id aborted_file t w h in
    let new_dirs = dirs_of (workspace root case_id aborted_file) in
    let made =
      returning-ok (workspace root case_id aborted_file) w (make_all disk new_dirs t)
        (rw (valid, valid_task, create) at h) in
    let (n, e) =
      make_all-HasNode disk case_id aborted_file (codes "input" ∷ [])
        ((case_id ∷ aborted_file ∷ codes "output" ∷ [])
          ∷ (case_id ∷ aborted_file ∷ codes "artifacts" ∷ [])
          ∷ (case_id ∷ aborted_file ∷ codes "logs" ∷ [])
          ∷ [])
        t made in
    rw
      (
        valid,
        is_aborted,
        valid_task,
        create,
        returning-world (workspace root case_id aborted_file),
        e,
      )
      refl
