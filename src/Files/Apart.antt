-- ===== src/Files/Apart.antt =====
-- The operations of the file system below one directory, and the paths below another one.
use hermes_security_skills.Base.{
  Bool, Bool-cases, Option-cases, [], any, false, inl, inr, not, refl, true, ◌&&◌, ◌++◌, ◌||◌, ◌∙◌,
  ◌∷◌, ◌≡◌,
}
use hermes_security_skills.Base.Text.{Text, ◌==◌}
use hermes_security_skills.Base.Text.Laws.{==_apart}
use hermes_security_skills.Files.{
  Disk, Names, Node, Tree, directory, entry_at, lies_below, make_dir, mkdir_all, node_at, path_eq,
  put_if, regular, remove, remove_all, write_file,
}
use hermes_security_skills.Files.Keeping.{keep-entry_at}

-- The tree has the same at every path below the directory `c`.
abbrev pub SameBelow : Text → Tree → Tree → Type 0
SameBelow c t t' = (p : Names) → node_at (c ∷ p) t' ≡ node_at (c ∷ p) t

pub SameBelow-refl : (c : Text) (t : Tree) → SameBelow c t t
SameBelow-refl c t p = refl

pub SameBelow-trans :
    (c : Text) (t t' t'' : Tree) → SameBelow c t t' → SameBelow c t' t'' → SameBelow c t t''
SameBelow-trans c t t' t'' h k p = k p ∙ h p

module _ (c d : Text) (apart : d == c ≡ false) where
  put-SameBelow : (q : Names) (n : Node) (t : Tree) → SameBelow c t ((d ∷ q, n) ∷ t)
  unfolding node_at entry_at path_eq
  put-SameBelow q n t p = rw (apart, entry_at) refl

  put_if-SameBelow :
      (b : Bool) (q : Names) (n : Node) (t : Tree) → SameBelow c t (put_if b (d ∷ q) n t).1
  put_if-SameBelow true q n t = put-SameBelow q n t
  put_if-SameBelow false q n t = SameBelow-refl c t

  make_dir-SameBelow :
      (disk : Disk) (q : Names) (t : Tree) → SameBelow c t (make_dir disk (d ∷ q) t).1
  unfolding make_dir
  make_dir-SameBelow disk q t = elim (Option-cases (node_at (d ∷ q) t)) [
    | inl e ↦ rw (e, make_dir) (put_if-SameBelow (disk (d ∷ q)) q directory t)
    | inr (directory, e) ↦ rw (e, make_dir) (SameBelow-refl c t)
    | inr (regular b, e) ↦ rw (e, make_dir) (SameBelow-refl c t)
  ]

  mkdir_all_in :
      (disk : Disk) (prefix p : Names) (t : Tree)
      → SameBelow c t (mkdir_all disk (d ∷ prefix) p t).1
  unfolding mkdir_all
  mkdir_all_in disk prefix [] t = SameBelow-refl c t
  mkdir_all_in disk prefix (x ∷ p) t =
      let q = prefix ++ x ∷ [] in
      let t' = (make_dir disk (d ∷ q) t).1 in
      let first = make_dir-SameBelow disk q t in
      elim (Bool-cases (make_dir disk (d ∷ q) t).0) [
        | inl e ↦ rw (e, mkdir_all) (λ r. mkdir_all_in disk q p t' r ∙ first r)
        | inr e ↦ rw (e, mkdir_all) first
      ]

  pub mkdir_all-SameBelow :
      (disk : Disk) (p : Names) (t : Tree) → SameBelow c t (mkdir_all disk [] (d ∷ p) t).1
  unfolding mkdir_all
  mkdir_all-SameBelow disk p t =
      let t' = (make_dir disk (d ∷ []) t).1 in
      let first = make_dir-SameBelow disk [] t in
      elim (Bool-cases (make_dir disk (d ∷ []) t).0) [
        | inl e ↦ rw (e, mkdir_all) (λ r. mkdir_all_in disk [] p t' r ∙ first r)
        | inr e ↦ rw (e, mkdir_all) first
      ]

  pub write_file-SameBelow :
      (disk : Disk) (dir : Names) (name bytes : Text) (t : Tree)
      → SameBelow c t (write_file disk (d ∷ dir) name bytes t).1
  unfolding write_file
  write_file-SameBelow disk dir name bytes t =
      let q = dir ++ name ∷ [] in
      elim (Option-cases (node_at (d ∷ dir) t)) [
        | inl e ↦ rw (e, write_file) (SameBelow-refl c t)
        | inr (regular b, e) ↦ rw (e, write_file) (SameBelow-refl c t)
        | inr (directory, e) ↦ elim (Option-cases (node_at (d ∷ q) t)) [
          | inl f ↦ rw (e, f, write_file) (put_if-SameBelow (disk (d ∷ q)) q (regular bytes) t)
          | inr (directory, f) ↦ rw (e, f, write_file) (SameBelow-refl c t)
          | inr (regular b, f) ↦
              rw (e, f, write_file) (put_if-SameBelow (disk (d ∷ q)) q (regular bytes) t)
        ]
      ]

  pub write_first-SameBelow :
      (disk : Disk) (bytes : Text) (t : Tree) → SameBelow c t (write_file disk [] d bytes t).1
  unfolding write_file node_at
  write_first-SameBelow disk bytes t = elim (Option-cases (entry_at (d ∷ []) t)) [
    | inl f ↦ rw (f, write_file) (put_if-SameBelow (disk (d ∷ [])) [] (regular bytes) t)
    | inr (directory, f) ↦ rw (f, write_file) (SameBelow-refl c t)
    | inr (regular b, f) ↦
        rw (f, write_file) (put_if-SameBelow (disk (d ∷ [])) [] (regular bytes) t)
  ]

  pub remove_all-SameBelow :
      (disk : Disk) (q : Names) (t : Tree) → SameBelow c t (remove_all disk (d ∷ q) t).1
  unfolding remove_all node_at lies_below
  remove_all-SameBelow disk q t = elim (Bool-cases (disk (d ∷ q))) [
    | inl e ↦
        rw (e, remove_all)
          (λ p. keep-entry_at (λ x. not (lies_below (d ∷ q) x)) (c ∷ p) t (rw apart refl))
    | inr e ↦ rw (e, remove_all) (λ p. refl)
  ]

  pub remove-SameBelow :
      (disk : Disk) (q : Names) (t : Tree) → SameBelow c t (remove disk (d ∷ q) t)
  unfolding remove node_at path_eq
  remove-SameBelow disk q t =
      elim (Bool-cases
        (any (λ e. lies_below (d ∷ q) e.0 && not (path_eq e.0 (d ∷ q))) t || not (disk (d ∷ q)))) [
          | inl e ↦ rw (e, remove) (λ p. refl)
          | inr e ↦
              rw (e, remove)
                (λ p.
                  keep-entry_at (λ x. not (path_eq x (d ∷ q))) (c ∷ p) t
                    (rw (==_apart d c apart) refl))
        ]
