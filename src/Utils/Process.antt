-- ===== src/Utils/Process.antt =====
-- sensor/internal/utils/process.go: the search of a process in /proc, and its command line.
mod Tests
pub mod GetArg
pub mod Locate
use host_scanner.Prelude.{
  ℕ, zero, suc, Bool, true, false, not, ◌&&◌, ◌||◌, Option, none, some, List, [], ◌∷◌, ◌++◌, length,
  drop, ◌==◌, leb, ltb, if◌then◌else◌,
}
use host_scanner.Prelude.Bytes.{Bytes, codes, has_prefix, has_suffix, split, join}
use host_scanner.Prelude.FilePath.{slash, path_join}
use host_scanner.Prelude.Int.{ℤ, atoi, to_i32, format_int}
use host_scanner.GoError.{GoError, eof, failure, errorf, Result, ok, err, ◌>>=◌}
use host_scanner.Host.{Host, File}

abbrev pub proc_dir_name : Bytes
proc_dir_name = codes "/proc"

pub record ProcessDetails : Type 0 where
  pub cmd_line : List Bytes
  pub pid : ℤ

-- Whether the executable of a command line ends in a suffix. A name that is no path and no kernel
-- thread gets a slash in front.
unfoldable pub exec_name : Bytes → Bytes
exec_name [] = []
exec_name (c ∷ s) = if not (c == slash) && not (c == b'[') then slash ∷ c ∷ s else c ∷ s

unfoldable pub exec_matches : Bytes → List Bytes → Bool
exec_matches suffix [] = false
exec_matches suffix ([] ∷ args) = false
exec_matches suffix ((c ∷ s) ∷ args) = has_suffix (exec_name (c ∷ s)) suffix

-- The error when the search ends with that error of `Readdirnames`; `io.EOF` is compared with `!=`.
unfoldable pub not_found : GoError → GoError
not_found eof = failure (codes "no process with given suffix found")
not_found e = errorf (codes "failed to read processes dir names: ") e

abbrev pub process_or : GoError → Option ProcessDetails → Result ProcessDetails
process_or e none = err e
process_or e (some p) = ok p

module _ (host : Host) (suffix : Bytes) where
  -- One entry of /proc: a process with the suffix, or nothing. Errors are ignored.
  unfoldable pub check_entry : Bytes → Option ProcessDetails
  check_entry name = elim (atoi name) [
    | none ↦ none
    | some pid ↦ elim (host.read_file (path_join (proc_dir_name ∷ name ∷ codes "cmdline" ∷ []))) [
      | err e ↦ none
      | ok cmd_line ↦
          if exec_matches suffix (split 0 cmd_line)
          then some (record { cmd_line = split 0 cmd_line; pid = to_i32 pid })
          else none
    ]
  ]

  -- The names of one call of `Readdirnames`.
  unfoldable pub check_names : List Bytes → Option ProcessDetails
  check_names [] = none
  check_names (name ∷ names) = elim (check_entry name) [
    | some p ↦ some p
    | none ↦ check_names names
  ]

  unfoldable pub check_batches : List (List Bytes) → Option ProcessDetails
  check_batches [] = none
  check_batches (names ∷ batches) = elim (check_names names) [
    | some p ↦ some p
    | none ↦ check_batches batches
  ]

  unfoldable pub locate_in : File → Result ProcessDetails
  unfolding check_batches check_names check_entry exec_matches exec_name not_found
  locate_in dir = process_or (not_found dir.batches_end) (check_batches dir.batches)

  unfoldable pub locate_process_by_exec_suffix : Result ProcessDetails
  unfolding locate_in
  locate_process_by_exec_suffix = elim (host.open_file proc_dir_name) [
    | err e ↦ err (errorf (codes "failed to open processes dir: ") e)
    | ok dir ↦ locate_in dir
  ]

-- The value after a bare flag: the argument behind it, empty at the end.
abbrev next_arg : List Bytes → Bytes
next_arg [] = []
next_arg (arg ∷ args) = arg

-- What one argument says of a flag: nothing, a value behind `=`, or the bare flag.
pub data ArgKind : Type 0 where
  other bare : ArgKind
  with_value : Bytes → ArgKind

abbrev kind_of_rest : Bytes → ArgKind
kind_of_rest [] = bare
kind_of_rest (c ∷ val) = if c == b'=' then with_value val else other

unfoldable pub arg_kind : Bytes → Bytes → ArgKind
arg_kind arg_name arg =
    if has_prefix arg arg_name then kind_of_rest (drop (length arg_name) arg) else other

-- The loop of `GetArg`: the value and `ok`.
unfoldable pub find_arg : List Bytes → Bytes → Bytes × Bool
unfolding arg_kind
find_arg [] arg_name = ([], false)
find_arg (arg ∷ args) arg_name = elim (arg_kind arg_name arg) [
  | other ↦ find_arg args arg_name
  | with_value val ↦ (val, true)
  | bare ↦ (next_arg args, true)
]

unfoldable pub get_arg : ProcessDetails → Bytes → Bytes × Bool
unfolding find_arg
get_arg p arg_name = find_arg p.cmd_line arg_name

unfoldable pub raw_cmd : ProcessDetails → Bytes
raw_cmd p = join p.cmd_line (codes " ")

unfoldable pub root_dir : ProcessDetails → Bytes
root_dir p = codes "/proc/" ++ (format_int p.pid ++ codes "/root")

unfoldable pub containered_path : ProcessDetails → Bytes → Bytes
unfolding root_dir
containered_path p file_path = path_join (root_dir p ∷ file_path ∷ [])
