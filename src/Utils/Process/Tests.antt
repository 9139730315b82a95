-- ===== src/Utils/Process/Tests.antt =====
-- Searches of /proc and of command lines, and the theorems at concrete data.
use mathlib.Core.List.{flatten}
use host_scanner.Prelude.{◌≡◌, ◌↔◌, refl, false, [], ◌∷◌, ◌++◌, All, find_map, if◌then◌else◌}
use host_scanner.Prelude.Bytes.{Bytes, codes, bytes_eq, split, has_suffix}
use host_scanner.Prelude.FilePath.{path_join}
use host_scanner.Prelude.Int.{pos, atoi, to_i32}
use host_scanner.GoError.{eof, not_exist, ok, err}
use host_scanner.Host.{Host, File}
use host_scanner.Utils.Process.{
  ProcessDetails, check_entry, process_or, not_found, locate_process_by_exec_suffix, get_arg,
}
use host_scanner.Utils.Process.Locate.{
  IsProcess, locate_process_by_exec_suffix-find_map, locate_process_by_exec_suffix_sound,
}
use host_scanner.Utils.Process.GetArg.{IsOther, get_arg_absent}

abbrev proc_dir : File
proc_dir = record {
  batches = (codes "self" ∷ codes "1" ∷ []) ∷ (codes "42" ∷ []) ∷ [];
  batches_end = eof;
  content = [];
  content_end = eof;
  info = err eof;
}

-- The executable, the flag and its value, each ended by a NUL byte.
abbrev kubelet_text : Bytes
kubelet_text =
    codes "kubelet" ++ (0 ∷ codes "--config=/c" ++ (0 ∷ codes "--v" ++ (0 ∷ codes "2" ++ (0 ∷ []))))

abbrev host : Host
host = record {
  open_file = λ p. if bytes_eq p (codes "/proc") then ok proc_dir else err (not_exist p);
  stat = λ p. err (not_exist p);
  read_file =
      λ p. if bytes_eq p (codes "/proc/42/cmdline") then ok kubelet_text else err (not_exist p);
  read_dir = λ p. err (not_exist p);
}

abbrev kubelet : ProcessDetails
kubelet = record {
  cmd_line = codes "kubelet" ∷ codes "--config=/c" ∷ codes "--v" ∷ codes "2" ∷ [] ∷ [];
  pid = pos 42;
}

located : locate_process_by_exec_suffix host (codes "/kubelet") ≡ ok kubelet
unfolding locate_process_by_exec_suffix bytes_eq atoi path_join split has_suffix to_i32
located = refl

locate_process_by_exec_suffix-find_map_example :
    locate_process_by_exec_suffix host (codes "/kubelet")
    ≡ process_or
        (not_found eof)
        (find_map (check_entry host (codes "/kubelet")) (flatten proc_dir.batches))
unfolding bytes_eq
locate_process_by_exec_suffix-find_map_example =
    locate_process_by_exec_suffix-find_map host (codes "/kubelet") proc_dir refl

locate_process_by_exec_suffix_sound_example :
    (name : Bytes) × IsProcess host (codes "/kubelet") name kubelet
locate_process_by_exec_suffix_sound_example =
    locate_process_by_exec_suffix_sound host (codes "/kubelet") kubelet located

get_arg_absent_example :
    (get_arg kubelet (codes "--conf") ≡ ([], false))
    ↔ All (IsOther (codes "--conf")) kubelet.cmd_line
get_arg_absent_example = get_arg_absent kubelet (codes "--conf")
