-- ===== src/Files/Keeping.antt =====
-- The operations of the file system that remove nodes: RemoveAll and Remove.
use mathlib.Core.Bool.{false≢true}
use hermes_security_skills.Base.{
  Bool, Bool-cases, [], any, ap, false, if◌then◌else◌, inl, inr, keep, not, refl, some, sym, true,
  ◌&&◌, ◌||◌, ◌∙◌, ◌∷◌, ◌≡◌,
}
use hermes_security_skills.Base.Text.{Text}
use hermes_security_skills.Files.{
  Disk, Names, Tree, entry_at, lies_below, node_at, path_eq, remove, remove_all,
}
use hermes_security_skills.Files.Growing.{HasNode, path_eq_iff}

-- What is kept by a test on paths that the path passes.
pub keep-entry_at :
    (f : Names → Bool) (p : Names) (t : Tree)
    → f p ≡ true
    → entry_at p (keep (λ e. f e.0) t) ≡ entry_at p t
unfolding keep entry_at
keep-entry_at f p [] h = refl
keep-entry_at f p ((q, n) ∷ t) h = elim (Bool-cases (f q)) [
  | inl e ↦
      rw (e, keep, entry_at) (ap (λ x. if path_eq q p then some n else x) (keep-entry_at f p t h))
  | inr e ↦ elim (Bool-cases (path_eq q p)) [
    | inl same ↦ absurd (false≢true (sym e ∙ ap f ((path_eq_iff q p).0 same) ∙ h))
    | inr other ↦ rw (e, other, keep, entry_at) (keep-entry_at f p t h)
  ]
]

keep-HasNode :
    (f : Names → Bool) (p : Names) (t : Tree)
    → f p ≡ true
    → HasNode p t
    → HasNode p (keep (λ e. f e.0) t)
unfolding node_at
keep-HasNode f [] t h (n, e) = (n, e)
keep-HasNode f (c ∷ p) t h (n, e) = (n, keep-entry_at f (c ∷ p) t h ∙ e)

-- RemoveAll keeps what does not lie below the path.
pub remove_all-HasNode :
    (disk : Disk) (q p : Names) (t : Tree)
    → lies_below q p ≡ false
    → HasNode p t
    → HasNode p (remove_all disk q t).1
unfolding remove_all
remove_all-HasNode disk q p t outside h = elim (Bool-cases (disk q)) [
  | inl e ↦ rw (e, remove_all) (keep-HasNode (λ x. not (lies_below q x)) p t (ap not outside) h)
  | inr e ↦ rw (e, remove_all) h
]

-- Remove keeps every other path.
pub remove-HasNode :
    (disk : Disk) (q : Names) (c : Text) (p : Names) (t : Tree)
    → path_eq (c ∷ p) q ≡ false
    → HasNode (c ∷ p) t
    → HasNode (c ∷ p) (remove disk q t)
unfolding remove
remove-HasNode disk q c p t other h =
    elim (Bool-cases (any (λ e. lies_below q e.0 && not (path_eq e.0 q)) t || not (disk q))) [
      | inl e ↦ rw (e, remove) h
      | inr e ↦ rw (e, remove) (keep-HasNode (λ x. not (path_eq x q)) (c ∷ p) t (ap not other) h)
    ]
