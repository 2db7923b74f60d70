-- ===== src/Files/Growing.antt =====
-- The operations of the file system that add nodes: MkdirAll and WriteFile.
use mathlib.Core.Path.{subst, ap₂}
use hermes_security_skills.Base.{
  &&-eq-true, Bool, Bool-cases, Option-cases, [], false, inl, inr, refl, some, true, ◌++◌, ◌↔◌, ◌∷◌,
  ◌≡◌,
}
use hermes_security_skills.Base.Text.{Text, ◌==◌}
use hermes_security_skills.Base.Text.Laws.{==_iff, ==_refl}
use hermes_security_skills.Files.{
  Disk, Names, Node, Tree, directory, entry_at, make_dir, mkdir_all, node_at, path_eq, put_if,
  regular, write_file,
}

path_eq_sound : (p q : Names) → path_eq p q ≡ true → p ≡ q
unfolding path_eq
path_eq_sound [] [] h = refl
path_eq_sound [] (b ∷ q) h = cc
path_eq_sound (a ∷ p) [] h = cc
path_eq_sound (a ∷ p) (b ∷ q) h =
    let (here, rest) = &&-eq-true (a == b) (path_eq p q) h in
    ap₂ (λ x y. x ∷ y) ((==_iff a b).0 here) (path_eq_sound p q rest)

path_eq_refl : (p : Names) → path_eq p p ≡ true
unfolding path_eq
path_eq_refl [] = refl
path_eq_refl (a ∷ p) = rw (==_refl a, path_eq_refl p) refl

pub path_eq_iff : (p q : Names) → (path_eq p q ≡ true) ↔ (p ≡ q)
unfolding path_eq
path_eq_iff p q = (path_eq_sound p q, λ e. subst (λ x. path_eq p x ≡ true) e (path_eq_refl p))

-- Something has the path.
abbrev pub HasNode : Names → Tree → Type 0
HasNode p t = (n : Node) × (node_at p t ≡ some n)

-- What has a node still has one.
abbrev pub Grows : Tree → Tree → Type 0
Grows t t' = (p : Names) → HasNode p t → HasNode p t'

pub Grows-refl : (t : Tree) → Grows t t
Grows-refl t p h = h

put-Grows : (q : Names) (n : Node) (t : Tree) → Grows t ((q, n) ∷ t)
unfolding node_at entry_at
put-Grows q n t [] h = h
put-Grows q n t (c ∷ p) (m, h) = elim (Bool-cases (path_eq q (c ∷ p))) [
  | inl e ↦ (n, rw (e, entry_at) refl)
  | inr e ↦ (m, rw (e, entry_at) h)
]

put-HasNode : (p : Names) (n : Node) (t : Tree) → HasNode p ((p, n) ∷ t)
unfolding node_at entry_at
put-HasNode [] n t = (directory, refl)
put-HasNode (c ∷ p) n t = (n, rw ((path_eq_iff (c ∷ p) (c ∷ p)).1 refl, entry_at) refl)

make_dir-Grows : (disk : Disk) (p : Names) (t : Tree) → Grows t (make_dir disk p t).1
unfolding make_dir
make_dir-Grows disk p t = elim (Option-cases (node_at p t)) [
  | inl e ↦ elim (Bool-cases (disk p)) [
    | inl f ↦ rw (e, f, make_dir) (put-Grows p directory t)
    | inr f ↦ rw (e, f, make_dir) (Grows-refl t)
  ]
  | inr (directory, e) ↦ rw (e, make_dir) (Grows-refl t)
  | inr (regular b, e) ↦ rw (e, make_dir) (Grows-refl t)
]

make_dir-HasNode :
    (disk : Disk) (p : Names) (t : Tree)
    → (make_dir disk p t).0 ≡ true
    → HasNode p (make_dir disk p t).1
unfolding make_dir
make_dir-HasNode disk p t h = elim (Option-cases (node_at p t)) [
  | inl e ↦ elim (Bool-cases (disk p)) [
    | inl f ↦ rw (e, f, make_dir) (put-HasNode p directory t)
    | inr f ↦ (let impossible = rw (e, f, make_dir) at h in cc)
  ]
  | inr (directory, e) ↦ rw (e, make_dir) (directory, e)
  | inr (regular b, e) ↦ (let impossible = rw (e, make_dir) at h in cc)
]

pub mkdir_all-Grows :
    (disk : Disk) (prefix p : Names) (t : Tree) → Grows t (mkdir_all disk prefix p t).1
unfolding mkdir_all
mkdir_all-Grows disk prefix [] t = Grows-refl t
mkdir_all-Grows disk prefix (c ∷ p) t = elim (Bool-cases (make_dir disk (prefix ++ c ∷ []) t).0) [
  | inl e ↦
      rw (e, mkdir_all)
        (λ q h.
          mkdir_all-Grows disk (prefix ++ c ∷ []) p (make_dir disk (prefix ++ c ∷ []) t).1 q
            (make_dir-Grows disk (prefix ++ c ∷ []) t q h))
  | inr e ↦ rw (e, mkdir_all) (make_dir-Grows disk (prefix ++ c ∷ []) t)
]

-- A MkdirAll that succeeds has made the first directory of the path, and the others below it.
pub mkdir_all-first :
    (disk : Disk) (prefix : Names) (c : Text) (p : Names) (t : Tree)
    → (mkdir_all disk prefix (c ∷ p) t).0 ≡ true
    → HasNode (prefix ++ c ∷ []) (mkdir_all disk prefix (c ∷ p) t).1
      × ((mkdir_all disk prefix (c ∷ p) t)
          ≡ mkdir_all disk (prefix ++ c ∷ []) p (make_dir disk (prefix ++ c ∷ []) t).1)
unfolding mkdir_all
mkdir_all-first disk prefix c p t h =
    let here = prefix ++ c ∷ [] in
    elim (Bool-cases (make_dir disk here t).0) [
      | inl e ↦
          rw (e, mkdir_all)
            (
              mkdir_all-Grows disk here p (make_dir disk here t).1 here
                  (make_dir-HasNode disk here t e),
              refl,
            )
      | inr e ↦ (let impossible = rw (e, mkdir_all) at h in cc)
    ]

put_if-Grows : (b : Bool) (p : Names) (n : Node) (t : Tree) → Grows t (put_if b p n t).1
put_if-Grows true p n t = put-Grows p n t
put_if-Grows false p n t = Grows-refl t

pub write_file-Grows :
    (disk : Disk) (dir : Names) (name bytes : Text) (t : Tree)
    → Grows t (write_file disk dir name bytes t).1
unfolding write_file
write_file-Grows disk dir name bytes t =
    let p = dir ++ name ∷ [] in
    elim (Option-cases (node_at dir t)) [
      | inl e ↦ rw (e, write_file) (Grows-refl t)
      | inr (regular b, e) ↦ rw (e, write_file) (Grows-refl t)
      | inr (directory, e) ↦ elim (Option-cases (node_at p t)) [
        | inl f ↦ rw (e, f, write_file) (put_if-Grows (disk p) p (regular bytes) t)
        | inr (directory, f) ↦ rw (e, f, write_file) (Grows-refl t)
        | inr (regular b, f) ↦ rw (e, f, write_file) (put_if-Grows (disk p) p (regular bytes) t)
      ]
    ]

-- The file that WriteFile has written is there.
pub write_file-HasNode :
    (disk : Disk) (dir : Names) (name bytes : Text) (t : Tree)
    → (write_file disk dir name bytes t).0 ≡ true
    → HasNode (dir ++ name ∷ []) (write_file disk dir name bytes t).1
unfolding write_file
write_file-HasNode disk dir name bytes t h =
    let p = dir ++ name ∷ [] in
    elim (Option-cases (node_at dir t)) [
      | inl e ↦ (let impossible = rw (e, write_file) at h in cc)
      | inr (regular b, e) ↦ (let impossible = rw (e, write_file) at h in cc)
      | inr (directory, e) ↦ elim (Bool-cases (disk p)) [
        | inl g ↦ elim (Option-cases (node_at p t)) [
          | inl f ↦ rw (e, f, g, write_file) (put-HasNode p (regular bytes) t)
          | inr (directory, f) ↦ (let impossible = rw (e, f, write_file) at h in cc)
          | inr (regular b, f) ↦ rw (e, f, g, write_file) (put-HasNode p (regular bytes) t)
        ]
        | inr g ↦ elim (Option-cases (node_at p t)) [
          | inl f ↦ (let impossible = rw (e, f, g, write_file) at h in cc)
          | inr (directory, f) ↦ (let impossible = rw (e, f, write_file) at h in cc)
          | inr (regular b, f) ↦ (let impossible = rw (e, f, g, write_file) at h in cc)
        ]
      ]
    ]
