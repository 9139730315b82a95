-- ===== src/Sensor/KernelVariables/Laws.antt =====
-- How one file of a directory ends, and the walk from the start.
use host_scanner.Prelude.{ℕ, ◌≡◌, refl, true, false, List, [], ◌∷◌, ◌++◌}
use host_scanner.Prelude.Bytes.{Bytes, codes, contains}
use host_scanner.Prelude.FilePath.{path_join}
use host_scanner.GoError.{GoError, errorf, error_text, failure, ok, err}
use host_scanner.Host.{Host, File}
use host_scanner.Sensor.KernelVariables.{
  KernelVariable, Outcome, done, failed, file_variables, entry_variables, walk_vars_dir,
  sense_proc_sys_kernel, proc_sys_kernel_dir,
}

module _ (host : Host) where
  pub opened :
      (walk : Bytes → File → Outcome) (dir name : Bytes) (vars : List KernelVariable) (f : File)
      → host.open_file (path_join (dir ∷ name ∷ [])) ≡ ok f
      → entry_variables host walk dir name vars
        ≡ file_variables walk name (path_join (dir ∷ name ∷ [])) f f.info vars
  unfolding entry_variables
  opened walk dir name vars f o = rw (o, entry_variables) refl

  pub passed_over :
      (walk : Bytes → File → Outcome) (dir name : Bytes) (vars : List KernelVariable) (e : GoError)
      → host.open_file (path_join (dir ∷ name ∷ [])) ≡ err e
      → contains (error_text e) (codes "permission denied") ≡ true
      → entry_variables host walk dir name vars ≡ done vars
  unfolding entry_variables
  passed_over walk dir name vars e o c = rw (o, c, entry_variables) refl

  pub refused :
      (walk : Bytes → File → Outcome) (dir name : Bytes) (vars : List KernelVariable) (e : GoError)
      → host.open_file (path_join (dir ∷ name ∷ [])) ≡ err e
      → contains (error_text e) (codes "permission denied") ≡ false
      → entry_variables host walk dir name vars
        ≡ failed (
            failure
              (codes "failed to open file (" ++ (path_join (dir ∷ name ∷ []) ++ codes "): <nil>")))
  unfolding entry_variables
  refused walk dir name vars e o c = rw (o, c, entry_variables) refl

  pub walked :
      (fuel : ℕ) (f : File)
      → host.open_file proc_sys_kernel_dir ≡ ok f
      → sense_proc_sys_kernel host fuel ≡ walk_vars_dir host fuel proc_sys_kernel_dir f
  unfolding sense_proc_sys_kernel
  walked fuel f o = rw (o, sense_proc_sys_kernel) refl

  pub unopened :
      (fuel : ℕ) (e : GoError)
      → host.open_file proc_sys_kernel_dir ≡ err e
      → sense_proc_sys_kernel host fuel
        ≡ failed (
            errorf
              (codes "failed to procSysKernelDir dir(" ++ (proc_sys_kernel_dir ++ codes "): "))
              e)
  unfolding sense_proc_sys_kernel
  unopened fuel e o = rw (o, sense_proc_sys_kernel) refl
