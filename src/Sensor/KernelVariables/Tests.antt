-- ===== src/Sensor/KernelVariables/Tests.antt =====
-- The kernel variables of one host.
use mathlib.Core.List.{flatten}
use host_scanner.Prelude.{
  ◌≡◌, ap, subst, ◌∙◌, refl, true, false, none, List, [], ◌∷◌, All, if◌then◌else◌,
}
use host_scanner.Prelude.Bytes.{Bytes, codes, bytes_eq, split}
use host_scanner.Prelude.FilePath.{path_join}
use host_scanner.GoError.{eof, failure, ok-injective, ok, err}
use host_scanner.Host.{Host, File, Stat}
use host_scanner.Sensor.KernelVariables.{
  KernelVariable, done, file_variables, entry_variables, names_variables, walk_vars_dir,
  at_end_of_dir, sense_proc_sys_kernel, sense_kernel_variables, proc_sys_kernel_dir,
}
use host_scanner.Sensor.KernelVariables.Sound.{IsVariable, sense_kernel_variables_sound}
use host_scanner.Sensor.KernelVariables.Depth.{Ends, Nested, walk_vars_dir-Ends}

abbrev directory : List Bytes → File
directory names = record {
  batches = names ∷ [];
  batches_end = eof;
  content = [];
  content_end = eof;
  info = ok (record { perm = 365; is_dir = true; is_regular = false; owner = none });
}

abbrev regular : Bytes → File
regular content = record {
  batches = [];
  batches_end = eof;
  content = content;
  content_end = eof;
  info = ok (record { perm = 292; is_dir = false; is_regular = true; owner = none });
}

abbrev root : File
root = directory (codes "ostype" ∷ codes "random" ∷ [])

abbrev host : Host
host = record {
  open_file = λ p.
      if bytes_eq p proc_sys_kernel_dir
      then ok root
      else if bytes_eq p (codes "/proc/sys/kernel/ostype")
      then ok (regular (codes "Linux"))
      else if bytes_eq p (codes "/proc/sys/kernel/random")
      then ok (directory (codes "uuid" ∷ []))
      else if bytes_eq p (codes "/proc/sys/kernel/random/uuid")
      then ok (regular (codes "1b4e"))
      else err (failure p);
  stat = λ p. err (failure p);
  read_file = λ p. err (failure p);
  read_dir = λ p. err (failure p);
}

abbrev variables : List KernelVariable
variables =
    (record {
      key = codes "ostype";
      value = codes "Linux";
      source = codes "/proc/sys/kernel/ostype";
    })
    ∷ (record {
      key = codes "uuid";
      value = codes "1b4e";
      source = codes "/proc/sys/kernel/random/uuid";
    })
    ∷ []

sensed : sense_kernel_variables host 2 ≡ done variables
unfolding sense_kernel_variables sense_proc_sys_kernel walk_vars_dir names_variables entry_variables
    file_variables at_end_of_dir flatten bytes_eq path_join split
sensed = refl

sense_kernel_variables_sound_example : All (IsVariable host) variables
sense_kernel_variables_sound_example = sense_kernel_variables_sound host 2 variables sensed

not_a_directory :
    (c : Bytes) (g : File) (info : Stat)
    → ok (regular c) ≡ ok g
    → g.info ≡ ok info
    → info.is_dir ≡ true
    → ⊥
not_a_directory c g info o q d =
    let i = ok-injective (ap (λ f. f.info) (ok-injective o) ∙ q) in cc (ap (λ x. x.is_dir) i ∙ d)

abbrev random : Bytes
random = codes "/proc/sys/kernel/random"

-- The directory random holds no directory.
random-Nested : (g : File) → host.open_file random ≡ ok g → Nested host 1 random g
unfolding flatten bytes_eq path_join split
random-Nested g o =
    subst (λ f. Nested host 1 random f) (ok-injective o)
      ((λ g' info' o' q' d'. not_a_directory (codes "1b4e") g' info' o' q' d'), tt)

walk_vars_dir-Ends_example : Ends (walk_vars_dir host 2 proc_sys_kernel_dir root)
unfolding flatten bytes_eq path_join split
walk_vars_dir-Ends_example = walk_vars_dir-Ends host 2 proc_sys_kernel_dir root (
  (λ g info o q d. absurd (not_a_directory (codes "Linux") g info o q d)),
  ((λ g info o q d. random-Nested g o), tt),
)
