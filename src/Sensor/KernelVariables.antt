-- ===== src/Sensor/KernelVariables.antt =====
-- sensor/kernelvariables.go: the variables of the kernel, from the files below /proc/sys/kernel.
pub mod Laws
pub mod Sound
pub mod Depth
pub mod Panics
mod Tests
use mathlib.Core.List.{flatten}
use host_scanner.Prelude.{
  ℕ, zero, suc, Bool, true, false, Option, none, some, List, [], ◌∷◌, ◌++◌, if◌then◌else◌,
}
use host_scanner.Prelude.Bytes.{Bytes, codes, contains}
use host_scanner.Prelude.FilePath.{path_join}
use host_scanner.GoError.{
  GoError, eof, not_exist, wrap, sense, failure, error_text, errorf, Result, ok, err,
}
use host_scanner.Host.{Host, File, Stat}

abbrev pub proc_sys_kernel_dir : Bytes
proc_sys_kernel_dir = codes "/proc/sys/kernel"

pub record KernelVariable : Type 0 where
  pub key : Bytes
  pub value : Bytes
  pub source : Bytes

-- How a walk ends: with the variables, with an error, or with a panic.
pub data Outcome : Type 0 where
  done : List KernelVariable → Outcome
  failed : GoError → Outcome
  panic out_of_fuel : Outcome

-- The `%v` of the variables.
unfoldable pub variables_text : List KernelVariable → Bytes
variables_text [] = codes "]"
variables_text (v ∷ []) =
    codes "{" ++ (v.key ++ (codes " " ++ (v.value ++ (codes " " ++ (v.source ++ codes "}]")))))
variables_text (v ∷ w ∷ vs) =
    codes "{"
    ++ (v.key
        ++ (codes " "
            ++ (v.value ++ (codes " " ++ (v.source ++ (codes "} " ++ variables_text (w ∷ vs)))))))

-- The error behind the loop, which is compared with `io.EOF` by `!=`. It names
-- /proc/sys/kernel also in an inner directory. Its cause, which no caller asks for, is told by its
-- text.
unfoldable pub at_end_of_dir : GoError → List KernelVariable → Outcome
at_end_of_dir eof vars = done vars
at_end_of_dir e vars = failed (
    failure (
      codes "failed to Readdirnames of procSysKernelDir dir("
      ++ (proc_sys_kernel_dir
          ++ (codes "): "
              ++ (error_text e ++ (codes "; found so far: [" ++ variables_text vars))))))

-- What follows the walk of an inner directory.
abbrev pub with_inner : Bytes → List KernelVariable → Outcome → Outcome
with_inner path vars (done inner) = done (vars ++ inner)
with_inner path vars (failed e) =
    failed (errorf (codes "failed to walkVarsDir file (" ++ (path ++ codes "): ")) e)
with_inner path vars panic = panic
with_inner path vars out_of_fuel = out_of_fuel

abbrev pub continue_with : Outcome → (List KernelVariable → Outcome) → Outcome
continue_with (done vars) k = k vars
continue_with (failed e) k = failed e
continue_with panic k = panic
continue_with out_of_fuel k = out_of_fuel

-- An open file: the walk of a directory, the content of a regular file, or nothing. An error of the
-- copy is not looked at, and the one of `Stat` leaves a nil info, which is used.
unfoldable pub file_variables :
    (Bytes → File → Outcome) → Bytes → Bytes → File → Result Stat → List KernelVariable → Outcome
file_variables walk name path f (err e) vars = panic
file_variables walk name path f (ok info) vars =
    if info.is_dir
    then with_inner path vars (walk path f)
    else if info.is_regular
    then done (vars ++ ((record { key = name; value = f.content; source = path }) ∷ []))
    else done vars

-- There are none yet.
abbrev pub sense_kernel_confs : List KernelVariable
sense_kernel_confs = []

module _ (host : Host) where
  -- One name of a directory. A file that may not be opened is passed over; for another reason the
  -- error tells the nil error of the listing.
  unfoldable pub entry_variables :
      (Bytes → File → Outcome) → Bytes → Bytes → List KernelVariable → Outcome
  entry_variables walk dir name vars =
      let path = path_join (dir ∷ name ∷ []) in
      elim (host.open_file path) [
        | err e ↦
            if contains (error_text e) (codes "permission denied")
            then done vars
            else failed (failure (codes "failed to open file (" ++ (path ++ codes "): <nil>")))
        | ok f ↦ file_variables walk name path f f.info vars
      ]

  unfoldable pub names_variables :
      (Bytes → File → Outcome) → Bytes → List Bytes → List KernelVariable → Outcome
  names_variables walk dir [] vars = done vars
  names_variables walk dir (name ∷ names) vars =
      continue_with (entry_variables walk dir name vars)
        (λ vars'. names_variables walk dir names vars')

  -- A level of directories takes one fuel.
  unfoldable pub walk_vars_dir : ℕ → Bytes → File → Outcome
  walk_vars_dir zero dir f = out_of_fuel
  walk_vars_dir (suc fuel) dir f =
      continue_with (names_variables (walk_vars_dir fuel) dir (flatten f.batches) [])
        (at_end_of_dir f.batches_end)

  unfoldable pub sense_proc_sys_kernel : ℕ → Outcome
  sense_proc_sys_kernel fuel = elim (host.open_file proc_sys_kernel_dir) [
    | err e ↦
        failed (
          errorf (codes "failed to procSysKernelDir dir(" ++ (proc_sys_kernel_dir ++ codes "): "))
            e)
    | ok f ↦ walk_vars_dir fuel proc_sys_kernel_dir f
  ]

  -- The variables of the configuration files are put behind, unless there is an error.
  unfoldable pub sense_kernel_variables : ℕ → Outcome
  sense_kernel_variables fuel =
      continue_with (sense_proc_sys_kernel fuel) (λ vars. done (vars ++ sense_kernel_confs))
