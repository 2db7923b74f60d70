-- ===== src/Files.antt =====
-- The file system of the operating system, as internal/jobs/jobs.go uses it through the package `os`:
-- MkdirAll, WriteFile, RemoveAll, Remove and Stat. An operation returns whether it succeeded.
pub mod Growing
pub mod Keeping
pub mod Apart
pub mod Paths
use hermes_security_skills.Base.{
  Bool, List, Option, [], any, false, if◌then◌else◌, keep, none, not, some, true, ◌&&◌, ◌++◌, ◌||◌,
  ◌∷◌,
}
use hermes_security_skills.Base.Text.{Text, ◌==◌}

pub data Node : Type 0 where
  directory : Node
  regular : Text → Node

abbrev pub Names : Type 0
Names = List Text

-- The entries of the tree, the latest of a path first.
abbrev pub Tree : Type 0
Tree = List (Names × Node)

-- The paths that the disk lets an operation change.
abbrev pub Disk : Type 0
Disk = Names → Bool

unfoldable pub path_eq : Names → Names → Bool
path_eq [] [] = true
path_eq (a ∷ p) (b ∷ q) = a == b && path_eq p q
path_eq _ _ = false

-- `q` is `p`, or lies below it.
unfoldable pub lies_below : Names → Names → Bool
lies_below [] q = true
lies_below (a ∷ p) [] = false
lies_below (a ∷ p) (b ∷ q) = a == b && lies_below p q

unfoldable pub entry_at : Names → Tree → Option Node
unfolding path_eq
entry_at p [] = none
entry_at p ((q, n) ∷ t) = if path_eq q p then some n else entry_at p t

-- Stat and ReadFile
unfoldable pub node_at : Names → Tree → Option Node
unfolding entry_at
node_at [] t = some directory
node_at (c ∷ p) t = entry_at (c ∷ p) t

-- A node is put at the path, where the disk lets it.
abbrev pub put_if : Bool → Names → Node → Tree → Bool × Tree
put_if true p n t = (true, (p, n) ∷ t)
put_if false p n t = (false, t)

-- One directory, unless it is there.
unfoldable pub make_dir : Disk → Names → Tree → Bool × Tree
unfolding node_at
make_dir disk p t = elim (node_at p t) [
  | some directory ↦ (true, t)
  | some (regular _) ↦ (false, t)
  | none ↦ put_if (disk p) p directory t
]

-- MkdirAll of a path below the directory `prefix`.
unfoldable pub mkdir_all : Disk → Names → Names → Tree → Bool × Tree
unfolding make_dir
mkdir_all disk prefix [] t = (true, t)
mkdir_all disk prefix (c ∷ p) t =
    let (made, t') = make_dir disk (prefix ++ c ∷ []) t in
    elim made [ true ↦ mkdir_all disk (prefix ++ c ∷ []) p t' | false ↦ (false, t') ]

-- WriteFile
unfoldable pub write_file : Disk → Names → Text → Text → Tree → Bool × Tree
unfolding node_at
write_file disk dir name bytes t =
    let p = dir ++ name ∷ [] in
    elim (node_at dir t) [
      | none ↦ (false, t)
      | some (regular _) ↦ (false, t)
      | some directory ↦ elim (node_at p t) [
        | some directory ↦ (false, t)
        | some (regular _) ↦ put_if (disk p) p (regular bytes) t
        | none ↦ put_if (disk p) p (regular bytes) t
      ]
    ]

-- RemoveAll
unfoldable pub remove_all : Disk → Names → Tree → Bool × Tree
unfolding lies_below
remove_all disk p t = if disk p then (true, keep (λ e. not (lies_below p e.0)) t) else (false, t)

-- Remove of a directory, which must be empty; its error is ignored.
unfoldable pub remove : Disk → Names → Tree → Tree
unfolding lies_below path_eq
remove disk p t =
    if any (λ e. lies_below p e.0 && not (path_eq e.0 p)) t || not (disk p)
    then t
    else keep (λ e. not (path_eq e.0 p)) t
