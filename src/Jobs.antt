-- ===== src/Jobs.antt =====
-- internal/jobs/jobs.go: the workspaces of the tasks, and the marker of an aborted case, on a file
-- system. A path is its list of names below the root of the jobs, which exists; a symbolic link does
-- not occur. `Disk` tells which paths the disk lets an operation change. Paths are those of Unix.
pub mod Making
pub mod Confined
pub mod Marker
pub mod Ids
pub mod Tests
use hermes_security_skills.Base.{
  Bool, List, Option, Result, [], all, eqb, err, false, if◌then◌else◌, leb, length, none, not, ok,
  some, true, ℕ, ◌&&◌, ◌++◌, ◌||◌, ◌∷◌,
}
use hermes_security_skills.Base.Text.{Text, codes, has_prefix, ◌==◌}
use hermes_security_skills.Document.{Fields}
use hermes_security_skills.Files.{
  Disk, Names, Tree, directory, lies_below, mkdir_all, node_at, regular, remove, remove_all,
  write_file,
}
use hermes_security_skills.Files.Paths.{clean_path, joined_path, write_at}

abbrev pub task_file : Text
task_file = codes "validation-task.json"

abbrev pub result_file : Text
result_file = codes "validation-result.json"

abbrev pub aborted_file : Text
aborted_file = codes "ABORTED"

-- [a-zA-Z0-9] and [a-zA-Z0-9_.-]
abbrev pub is_alphanumeric : ℕ → Bool
is_alphanumeric c = leb b'a' c && leb c b'z' || leb b'A' c && leb c b'Z' || leb b'0' c && leb c b'9'

abbrev pub is_id_rune : ℕ → Bool
is_id_rune c = is_alphanumeric c || eqb c b'_' || eqb c b'.' || eqb c b'-'

-- The expression validID.
unfoldable pub matches_id : Text → Bool
matches_id [] = false
matches_id (c ∷ s) = is_alphanumeric c && all is_id_rune s && leb (length s) 63

unfoldable pub valid_id : Text → Bool
unfolding matches_id
valid_id id = matches_id id && not (id == codes "..")

pub data JobError : Type 0 where
  bad_case_id bad_task_id : JobError
  not_created : Names → JobError
  not_marshalled no_result unreadable_result unparsable_result outside_root : JobError
  not_stored not_removed : Names → JobError

-- `root` is clean, as Create leaves it; the directories are below it.
pub record Workspace : Type 0 where
  pub root : Text
  pub case_id : Text
  pub task_id : Text
  pub dir : Names
  pub input_dir : Names
  pub output_dir : Names
  pub artifacts_dir : Names
  pub logs_dir : Names

-- The workspace that Create fills in; filepath.Clean is applied to the root.
abbrev pub workspace : Text → Text → Text → Workspace
workspace root case_id task_id = record {
  root = clean_path root;
  case_id = case_id;
  task_id = task_id;
  dir = case_id ∷ task_id ∷ [];
  input_dir = case_id ∷ task_id ∷ codes "input" ∷ [];
  output_dir = case_id ∷ task_id ∷ codes "output" ∷ [];
  artifacts_dir = case_id ∷ task_id ∷ codes "artifacts" ∷ [];
  logs_dir = case_id ∷ task_id ∷ codes "logs" ∷ [];
}

-- The loop over directories in Create.
unfoldable pub make_all : Disk → List Names → Tree → Result JobError (Unit {0}) × Tree
unfolding mkdir_all
make_all disk [] t = (ok tt, t)
make_all disk (d ∷ ds) t =
    let (made, t') = mkdir_all disk [] d t in
    elim made [ true ↦ make_all disk ds t' | false ↦ (err (not_created d), t') ]

-- A result, with the value that the function returns on success.
abbrev pub returning :
    {A : Type 0} → A → Result JobError (Unit {0}) × Tree → Result JobError A × Tree
returning a (ok _, t) = (ok a, t)
returning a (err e, t) = (err e, t)

abbrev pub dirs_of : Workspace → List Names
dirs_of w = w.input_dir ∷ w.output_dir ∷ w.artifacts_dir ∷ w.logs_dir ∷ []

-- Create; on Unix its test of the root never fails.
unfoldable pub create : Disk → Text → Text → Text → Tree → Result JobError Workspace × Tree
unfolding make_all
create disk root case_id task_id t =
    if not (valid_id case_id)
    then (err bad_case_id, t)
    else if not (valid_id task_id)
    then (err bad_task_id, t)
    else let w = workspace root case_id task_id in returning w (make_all disk (dirs_of w) t)

-- os.WriteFile of a file in a directory, with the error of the caller.
abbrev pub write_result : Names → Bool × Tree → Result JobError (Unit {0}) × Tree
write_result p (true, t) = (ok tt, t)
write_result p (false, t) = (err (not_stored p), t)

-- TaskPath, ResultPath and ContainerLogPath
abbrev pub task_path : Workspace → Names
task_path w = w.input_dir ++ task_file ∷ []

abbrev pub result_path : Workspace → Names
result_path w = w.output_dir ++ result_file ∷ []

abbrev pub container_log_path : Workspace → Names
container_log_path w = w.logs_dir ++ codes "container.log" ∷ []

-- WriteTask; the task is what json.MarshalIndent made of it.
unfoldable pub write_task :
    Disk → Workspace → Option Text → Tree → Result JobError (Unit {0}) × Tree
unfolding write_file
write_task disk w task t = elim task [
  | none ↦ (err not_marshalled, t)
  | some bytes ↦
      write_result (task_path w) (write_file disk w.input_dir task_file (bytes ++ codes "\n") t)
]

-- Where the system finds a path that leaves the root of the jobs: outside, where the file may be
-- written or not, or at a path below the root after all.
pub data Away : Type 0 where
  ends_outside : Bool → Away
  back_at : Names → Away

abbrev pub write_away : Disk → Away → Text → Tree → Bool × Tree
write_away disk (ends_outside written) bytes t = (written, t)
write_away disk (back_at p) bytes t = write_at disk [] p bytes t

-- WriteLog; the name is a path, which filepath.Join follows.
unfoldable pub write_log :
    Disk → Away → Workspace → Text → Text → Tree → Result JobError (Unit {0}) × Tree
unfolding write_at joined_path
write_log disk away w name bytes t = elim (joined_path w.logs_dir name) [
  | none ↦ write_result [] (write_away disk away bytes t)
  | some p ↦ write_result p (write_at disk [] p bytes t)
]

-- CollectResult; `decode` is json.Unmarshal.
unfoldable pub collect_result : (Text → Option Fields) → Workspace → Tree → Result JobError Fields
unfolding node_at
collect_result decode w t = elim (node_at (result_path w) t) [
  | none ↦ err no_result
  | some directory ↦ err unreadable_result
  | some (regular bytes) ↦ elim (decode bytes) [ none ↦ err unparsable_result | some r ↦ ok r ]
]

-- The text of the path of the workspace: filepath.Join of the root and two valid ids.
unfoldable pub dir_text : Workspace → Text
dir_text w =
    let lies_below = w.case_id ++ codes "/" ++ w.task_id in
    if w.root == codes "."
    then lies_below
    else if w.root == codes "/"
    then w.root ++ lies_below
    else w.root ++ codes "/" ++ lies_below

-- The first test of Cleanup.
unfoldable pub is_outside_root : Workspace → Bool
unfolding dir_text has_prefix
is_outside_root w =
    not (has_prefix (dir_text w) (w.root ++ codes "/")) && not (dir_text w == w.root)

-- The loop of RemoveAll.
unfoldable pub remove_each : Disk → List Names → Tree → Result JobError (Unit {0}) × Tree
unfolding remove_all
remove_each disk [] t = (ok tt, t)
remove_each disk (d ∷ ds) t =
    let (removed, t') = remove_all disk d t in
    elim removed [ true ↦ remove_each disk ds t' | false ↦ (err (not_removed d), t') ]

-- The directory of the case goes too, where that leaves it empty.
abbrev pub and_case : Disk → Workspace → Bool × Tree → Result JobError (Unit {0}) × Tree
and_case disk w (true, t) = (ok tt, remove disk (w.case_id ∷ []) t)
and_case disk w (false, t) = (err (not_removed w.dir), t)

unfoldable pub cleanup : Disk → Workspace → Bool → Tree → Result JobError (Unit {0}) × Tree
unfolding is_outside_root remove_each remove_all remove
cleanup disk w keep_artifacts t =
    if is_outside_root w
    then (err outside_root, t)
    else if not keep_artifacts
    then and_case disk w (remove_all disk w.dir t)
    else remove_each disk (w.input_dir ∷ w.output_dir ∷ w.logs_dir ∷ []) t

-- The marker is written after the directory of the case was made.
abbrev pub marking : Disk → Text → Text → Bool × Tree → Result JobError (Unit {0}) × Tree
marking disk case_id content (true, t) =
    write_result (case_id ∷ aborted_file ∷ [])
      (write_file disk (case_id ∷ []) aborted_file content t)
marking disk case_id content (false, t) = (err (not_created (case_id ∷ [])), t)

-- MarkAborted; `content` is the line with the case and the time.
unfoldable pub mark_aborted : Disk → Text → Text → Tree → Result JobError Names × Tree
unfolding mkdir_all write_file
mark_aborted disk case_id content t =
    if not (valid_id case_id)
    then (err bad_case_id, t)
    else returning (case_id ∷ aborted_file ∷ [])
        (marking disk case_id content (mkdir_all disk [] (case_id ∷ []) t))

-- os.Stat succeeds on whatever has the name of the marker.
unfoldable pub is_aborted : Text → Tree → Bool
unfolding node_at
is_aborted case_id t =
    if not (valid_id case_id)
    then false
    else elim (node_at (case_id ∷ aborted_file ∷ []) t) [ none ↦ false | some _ ↦ true ]
