-- ===== src/Sensor/KernelVariables/Panics.antt =====
-- A file whose `Stat` fails ends the walk of the kernel variables in a panic.
use mathlib.Core.List.{flatten}
use host_scanner.Prelude.{ℕ, suc, ◌≡◌, refl, ap, ◌∙◌, List, [], ◌∷◌, ◌++◌}
use host_scanner.Prelude.Bytes.{Bytes}
use host_scanner.Prelude.FilePath.{path_join}
use host_scanner.GoError.{GoError, ok, err}
use host_scanner.Host.{Host, File}
use host_scanner.Sensor.KernelVariables.{
  Outcome, done, failed, panic, out_of_fuel, KernelVariable, continue_with, file_variables,
  entry_variables, names_variables, walk_vars_dir, sense_proc_sys_kernel, sense_kernel_variables,
  proc_sys_kernel_dir, at_end_of_dir, sense_kernel_confs,
}

module _ (host : Host) where
  names_variables-append :
      (walk : Bytes → File → Outcome) (dir : Bytes) (xs ys : List Bytes)
      (vars : List KernelVariable)
      → names_variables host walk dir (xs ++ ys) vars
        ≡ continue_with (names_variables host walk dir xs vars) (names_variables host walk dir ys)
  unfolding names_variables
  names_variables-append walk dir [] ys vars = refl
  names_variables-append walk dir (x ∷ xs) ys vars =
      of_entry (entry_variables host walk dir x vars) (names_variables-append walk dir xs ys)
    where
      of_entry :
          (o : Outcome)
          → ((vars : List KernelVariable)
              → names_variables host walk dir (xs ++ ys) vars
                ≡ continue_with
                    (names_variables host walk dir xs vars)
                    (names_variables host walk dir ys))
          → continue_with o (names_variables host walk dir (xs ++ ys))
            ≡ continue_with
                (continue_with o (names_variables host walk dir xs))
                (names_variables host walk dir ys)
      of_entry (done vars) ih = ih vars
      of_entry (failed e) ih = refl
      of_entry panic ih = refl
      of_entry out_of_fuel ih = refl

  -- An entry of the directory that can be opened and not be stat'ed.
  entry_panics :
      (walk : Bytes → File → Outcome) (dir name : Bytes) (vars : List KernelVariable) (f : File)
      (e : GoError)
      → host.open_file (path_join (dir ∷ name ∷ [])) ≡ ok f
      → f.info ≡ err e
      → entry_variables host walk dir name vars ≡ panic
  unfolding entry_variables file_variables
  entry_panics walk dir name vars f e o i = rw (o, entry_variables) (rw (i, file_variables) refl)

  names_panic :
      (walk : Bytes → File → Outcome) (dir : Bytes) (before : List Bytes) (name : Bytes)
      (after : List Bytes) (vars : List KernelVariable) (f : File) (e : GoError)
      → names_variables host walk dir before [] ≡ done vars
      → host.open_file (path_join (dir ∷ name ∷ [])) ≡ ok f
      → f.info ≡ err e
      → names_variables host walk dir (before ++ (name ∷ after)) [] ≡ panic
  unfolding names_variables
  names_panic walk dir before name after vars f e d o i =
      names_variables-append walk dir before (name ∷ after) []
      ∙ ap (λ x. continue_with x (names_variables host walk dir (name ∷ after))) d
      ∙ ap (λ x. continue_with x (names_variables host walk dir after))
          (entry_panics walk dir name vars f e o i)

  -- If an entry of /proc/sys/kernel can be opened and not be stat'ed, and the entries before it give
  -- variables, the whole walk ends in a panic.
  pub sense_kernel_variables_panic :
      (fuel : ℕ) (kernel : File) (before : List Bytes) (name : Bytes) (after : List Bytes)
      (vars : List KernelVariable) (f : File) (e : GoError)
      → host.open_file proc_sys_kernel_dir ≡ ok kernel
      → flatten kernel.batches ≡ before ++ (name ∷ after)
      → names_variables host (walk_vars_dir host fuel) proc_sys_kernel_dir before [] ≡ done vars
      → host.open_file (path_join (proc_sys_kernel_dir ∷ name ∷ [])) ≡ ok f
      → f.info ≡ err e
      → sense_kernel_variables host (suc fuel) ≡ panic
  unfolding sense_kernel_variables sense_proc_sys_kernel walk_vars_dir
  sense_kernel_variables_panic fuel kernel before name after vars f e k l d o i =
      rw (k, sense_proc_sys_kernel)
        (ap
          (λ x.
            continue_with (continue_with x (at_end_of_dir kernel.batches_end))
              (λ vs. done (vs ++ sense_kernel_confs)))
          (ap (λ ns. names_variables host (walk_vars_dir host fuel) proc_sys_kernel_dir ns []) l
            ∙ names_panic (walk_vars_dir host fuel) proc_sys_kernel_dir before name after vars f e d
                o i))
