-- ===== src/Files/Paths.antt =====
-- The functions of the package path/filepath that internal/jobs/jobs.go uses, on Unix: Clean, and Join
-- of a directory below the root of the jobs with the text of a path.
use hermes_security_skills.Base.{
  Bool, List, Option, [], arith, false, if◌then◌else◌, none, some, true, ◌++◌, ◌||◌, ◌∷◌, ◌≡◌,
}
use hermes_security_skills.Base.Text.{Text, codes, has_prefix, is_empty, split, ◌==◌}
use hermes_security_skills.Base.Text.Laws.{==_apart}
use hermes_security_skills.Files.{Disk, Names, Tree, lies_below, write_file}
use hermes_security_skills.Files.Apart.{
  SameBelow, SameBelow-refl, write_file-SameBelow, write_first-SameBelow,
}
use hermes_security_skills.Files.Growing.{Grows, Grows-refl, write_file-Grows}

-- The latest name first, put before the others.
unfoldable pub in_order : List Text → List Text → List Text
in_order [] names = names
in_order (n ∷ st) names = in_order st (n ∷ names)

abbrev pub stays : Text → Bool
stays n = is_empty n || n == codes "."

-- The name `..` behind the names so far.
abbrev pub go_up : Bool → List Text → List Text
go_up rooted [] = if rooted then [] else codes ".." ∷ []
go_up rooted (n ∷ st) = if n == codes ".." then codes ".." ∷ n ∷ st else st

unfoldable pub clean_names : Bool → List Text → List Text → List Text
unfolding in_order ◌==◌
clean_names rooted st [] = in_order st []
clean_names rooted st (n ∷ ns) =
    clean_names rooted (if stays n then st else if n == codes ".." then go_up rooted st else n ∷ st)
      ns

unfoldable pub join_slash : List Text → Text
join_slash [] = []
join_slash (n ∷ []) = n
join_slash (n ∷ m ∷ ns) = n ++ codes "/" ++ join_slash (m ∷ ns)

abbrev pub or_dot : Text → Text
or_dot [] = codes "."
or_dot (c ∷ s) = c ∷ s

-- filepath.Clean
unfoldable pub clean_path : Text → Text
unfolding clean_names join_slash split has_prefix
clean_path p =
    if has_prefix p (codes "/")
    then codes "/" ++ join_slash (clean_names true [] (split b'/' p))
    else or_dot (join_slash (clean_names false [] (split b'/' p)))

-- The names below the root, the latest of the directory first, after the names of a path; none where
-- the path leaves the root on its way.
unfoldable pub joined_names : Names → List Text → Option Names
unfolding in_order ◌==◌
joined_names st [] = some (in_order st [])
joined_names [] (n ∷ ns) = elim (stays n) [
  | true ↦ joined_names [] ns
  | false ↦ elim (n == codes "..") [ true ↦ none | false ↦ joined_names (n ∷ []) ns ]
]
joined_names (m ∷ st) (n ∷ ns) = elim (stays n) [
  | true ↦ joined_names (m ∷ st) ns
  | false ↦ elim (n == codes "..") [
    | true ↦ joined_names st ns
    | false ↦ joined_names (n ∷ m ∷ st) ns
  ]
]

-- filepath.Join of a directory below the root and a path.
unfoldable pub joined_path : Names → Text → Option Names
unfolding joined_names in_order split
joined_path dir name = joined_names (in_order dir []) (split b'/' name)

-- WriteFile of a whole path below the directory `dir`.
unfoldable pub write_at : Disk → Names → Names → Text → Tree → Bool × Tree
unfolding write_file
write_at disk dir [] bytes t = (false, t)
write_at disk dir (n ∷ []) bytes t = write_file disk dir n bytes t
write_at disk dir (n ∷ m ∷ p) bytes t = write_at disk (dir ++ n ∷ []) (m ∷ p) bytes t

pub write_at-Grows :
    (disk : Disk) (dir p : Names) (bytes : Text) (t : Tree)
    → Grows t (write_at disk dir p bytes t).1
unfolding write_at
write_at-Grows disk dir [] bytes t = Grows-refl t
write_at-Grows disk dir (n ∷ []) bytes t = write_file-Grows disk dir n bytes t
write_at-Grows disk dir (n ∷ m ∷ p) bytes t = write_at-Grows disk (dir ++ n ∷ []) (m ∷ p) bytes t

write_below-SameBelow :
    (c d : Text) (apart : d == c ≡ false) (disk : Disk) (dir p : Names) (bytes : Text) (t : Tree)
    → SameBelow c t (write_at disk (d ∷ dir) p bytes t).1
unfolding write_at
write_below-SameBelow c d apart disk dir [] bytes t = SameBelow-refl c t
write_below-SameBelow c d apart disk dir (n ∷ []) bytes t =
    write_file-SameBelow c d apart disk dir n bytes t
write_below-SameBelow c d apart disk dir (n ∷ m ∷ p) bytes t =
    write_below-SameBelow c d apart disk (dir ++ n ∷ []) (m ∷ p) bytes t

no_case : (c n : Text) (p : Names) → lies_below (c ∷ []) (n ∷ p) ≡ false → c == n ≡ false
unfolding lies_below
no_case c n p h = ground arith

-- A path that does not lead into the directory `c` changes nothing there.
pub write_at-SameBelow :
    (c : Text) (disk : Disk) (p : Names) (bytes : Text) (t : Tree)
    → lies_below (c ∷ []) p ≡ false
    → SameBelow c t (write_at disk [] p bytes t).1
unfolding write_at lies_below
write_at-SameBelow c disk [] bytes t h = SameBelow-refl c t
write_at-SameBelow c disk (n ∷ []) bytes t h =
    write_first-SameBelow c n (==_apart c n (no_case c n [] h)) disk bytes t
write_at-SameBelow c disk (n ∷ m ∷ p) bytes t h =
    write_below-SameBelow c n (==_apart c n (no_case c n (m ∷ p) h)) disk [] (m ∷ p) bytes t
