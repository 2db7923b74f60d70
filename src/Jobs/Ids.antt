-- ===== src/Jobs/Ids.antt =====
-- internal/jobs/jobs.go: what an id may be, and the test that guards Cleanup.
use mathlib.Core.Path.{subst}
use mathlib.Core.Bool.{false≢true}
use hermes_security_skills.Base.{
  &&-eq-true, Bool-cases, Result, [], all, ap, arith, eqb, err, false, inl, inr, leb, leb→le,
  length, not, ok, ok-injective, refl, sym, true, ℕ, ◌&&◌, ◌++◌, ◌↔◌, ◌∙◌, ◌∷◌, ◌≡◌, ◌≢◌, ◌≤◌, ◌⊎◌,
}
use hermes_security_skills.Base.Text.{Text, codes, contains_rune, has_prefix, ◌==◌}
use hermes_security_skills.Base.Text.Laws.{==_iff}
use hermes_security_skills.Files.{Disk, Tree}
use hermes_security_skills.Files.Paths.{clean_path}
use hermes_security_skills.Jobs.{
  JobError, Workspace, create, dir_text, is_alphanumeric, is_id_rune, is_outside_root, matches_id,
  returning, valid_id, workspace,
}

-- The id is one name of a path: no separator, and neither the directory itself nor its parent.
pub record IsName (id : Text) : Type 0 where
  pub not_empty : id ≢ []
  pub not_dot : id ≢ codes "."
  pub not_parent : id ≢ codes ".."
  pub one_name : contains_rune id b'/' ≡ false
  pub short : length id ≤ 64

is_id_rune-slash : (c : ℕ) → is_id_rune c ≡ true → eqb c b'/' ≡ false
is_id_rune-slash c h = ground arith

all-no_slash : (s : Text) → all is_id_rune s ≡ true → contains_rune s b'/' ≡ false
unfolding all contains_rune
all-no_slash [] h = refl
all-no_slash (c ∷ s) h =
    let (here, rest) = &&-eq-true (is_id_rune c) (all is_id_rune s) h in
    rw (is_id_rune-slash c here, all-no_slash s rest) refl

-- The parts of an id: its first character, which is a letter or a digit, and the others.
matches_id-parts :
    (id : Text)
    → valid_id id ≡ true
    → (c : ℕ) × (s : Text) × (id ≡ c ∷ s)
      × (is_alphanumeric c ≡ true)
      × (all is_id_rune s ≡ true)
      × (length s ≤ 63)
unfolding valid_id matches_id
matches_id-parts [] h = cc
matches_id-parts (c ∷ s) h =
    let (matched, _) = &&-eq-true (matches_id (c ∷ s)) (not (c ∷ s == codes "..")) h in
    let (most, short) =
      &&-eq-true (is_alphanumeric c && all is_id_rune s) (leb (length s) 63) matched in
    let (first, rest) = &&-eq-true (is_alphanumeric c) (all is_id_rune s) most in
    (c, s, refl, first, rest, leb→le (length s) 63 short)

abbrev first_rune : Text → ℕ
first_rune [] = 0
first_rune (c ∷ s) = c

parts-IsName :
    (c : ℕ) (s : Text)
    → is_alphanumeric c ≡ true
    → all is_id_rune s ≡ true
    → length s ≤ 63
    → IsName (c ∷ s)
unfolding contains_rune
parts-IsName c s first rest short =
    let letter : ¬ (c ≡ b'.') = λ e. ground arith in
    record {
      not_empty = λ e. cc;
      not_dot = λ e. letter (ap first_rune e);
      not_parent = λ e. letter (ap first_rune e);
      one_name = rw (all-no_slash s rest) (ground arith);
      short = omega (arith, short);
    }

-- A valid id is a name: it has from 1 to 64 characters, no separator, and is not `.` or `..`.
pub valid_id-IsName : (id : Text) → valid_id id ≡ true → IsName id
valid_id-IsName id h =
    let (c, s, same, first, rest, short) = matches_id-parts id h in
    subst IsName (sym same) (parts-IsName c s first rest short)

-- The start of the path of a workspace that Create makes, after the root.
has_prefix-++ : (s t : Text) → has_prefix (s ++ t) s ≡ true
unfolding has_prefix
has_prefix-++ [] t = refl
has_prefix-++ (c ∷ s) t = ground (arith, has_prefix-++ s t)

pub returning-eq-ok :
    {A : Type 0} (a b : A) (p : Result JobError (Unit {0}) × Tree)
    → (returning a p).0 ≡ ok b
    → a ≡ b
returning-eq-ok a b (err e, t) h = cc
returning-eq-ok a b (ok _, t) h = ok-injective h

-- The workspace that Create has made, and its ids.
pub create-eq-ok :
    (disk : Disk) (root case_id task_id : Text) (t : Tree) (w : Workspace)
    → (create disk root case_id task_id t).0 ≡ ok w
    → (valid_id case_id ≡ true) × (valid_id task_id ≡ true) × (workspace root case_id task_id ≡ w)
unfolding create
create-eq-ok disk root case_id task_id t w h = elim (Bool-cases (valid_id case_id)) [
  | inr e ↦ (let impossible = rw (e, create) at h in cc)
  | inl e ↦ elim (Bool-cases (valid_id task_id)) [
    | inr f ↦ (let impossible = rw (e, f, create) at h in cc)
    | inl f ↦ (e, f, returning-eq-ok (workspace root case_id task_id) w _ (rw (e, f, create) at h))
  ]
]

-- The workspace with the root as Create leaves it.
abbrev at_root : Text → Text → Text → Workspace
at_root r case_id task_id = record (workspace (codes ".") case_id task_id) { root = r }

inside_root :
    (root case_id task_id : Text)
    → root == codes "." ≡ false
    → root == codes "/" ≡ false
    → is_outside_root (at_root root case_id task_id) ≡ false
unfolding is_outside_root dir_text
inside_root root case_id task_id e f =
    let starts = has_prefix-++ (root ++ codes "/") (case_id ++ codes "/" ++ task_id) in
    let named : dir_text (at_root root case_id task_id)
        ≡ root ++ codes "/" ++ (case_id ++ codes "/" ++ task_id) =
      rw (e, f, dir_text) refl in
    rw (is_outside_root, named, starts) refl

outside_root_dot :
    (c : ℕ) (s task_id : Text)
    → is_alphanumeric c ≡ true
    → (is_outside_root (at_root (codes ".") (c ∷ s) task_id) ≡ true)
      × (is_outside_root (at_root (codes "/") (c ∷ s) task_id) ≡ true)
unfolding is_outside_root dir_text has_prefix ◌==◌
outside_root_dot c s task_id letter = (ground arith, ground arith)

-- Cleanup refuses a workspace that Create has made exactly where the root of the jobs, as
-- filepath.Clean leaves it, is the working directory or the root of the file system.
pub create-is_outside_root :
    (disk : Disk) (root case_id task_id : Text) (t : Tree) (w : Workspace)
    → (create disk root case_id task_id t).0 ≡ ok w
    → (is_outside_root w ≡ true) ↔ ((clean_path root ≡ codes ".") ⊎ (clean_path root ≡ codes "/"))
create-is_outside_root disk root case_id task_id t w h =
    let (valid, _, same) = create-eq-ok disk root case_id task_id t w h in
    let (c, s, named, letter, _, _) = matches_id-parts case_id valid in
    let r = clean_path root in
    let (dot, slash) = outside_root_dot c s task_id letter in
    subst (λ x. (is_outside_root x ≡ true) ↔ ((r ≡ codes ".") ⊎ (r ≡ codes "/")))
      (ap (λ x. at_root r x task_id) (sym named) ∙ same)
      (
        λ refused. elim (Bool-cases (r == codes ".")) [
          | inl e ↦ inl ((==_iff r (codes ".")).0 e)
          | inr e ↦ elim (Bool-cases (r == codes "/")) [
            | inl f ↦ inr ((==_iff r (codes "/")).0 f)
            | inr f ↦ absurd (false≢true (sym (inside_root r (c ∷ s) task_id e f) ∙ refused))
          ]
        ],
        λ where_root. elim where_root [ inl e ↦ rw e dot | inr e ↦ rw e slash ],
      )
