-- ===== src/Sensor/KernelVariables/Sound.antt =====
-- What the variables stand for.
use mathlib.Core.List.{flatten}
use host_scanner.Prelude.{
  ℕ, zero, suc, ◌≡◌, refl, sym, subst, inl, inr, true, false, List, [], ◌∷◌, ◌++◌, All, All-append,
  Any, at_head, behind, Bool-cases,
}
use host_scanner.Prelude.Bytes.{Bytes, codes, contains}
use host_scanner.Prelude.FilePath.{path_join}
use host_scanner.GoError.{
  GoError, error_text, eof, not_exist, failure, wrap, sense, Result, ok, err, Result-cases,
}
use host_scanner.Host.{Host, File, Stat}
use host_scanner.Sensor.KernelVariables.{
  KernelVariable, Outcome, done, failed, panic, out_of_fuel, at_end_of_dir, with_inner,
  continue_with, file_variables, entry_variables, names_variables, walk_vars_dir,
  sense_proc_sys_kernel, sense_kernel_variables, proc_sys_kernel_dir, sense_kernel_confs,
}
use host_scanner.Sensor.KernelVariables.Laws.{opened, passed_over, refused, walked, unopened}

-- What holds if the outcome is a list of variables.
abbrev pub IfDone : (List KernelVariable → Type 0) → Outcome → Type 0
IfDone P (done vars) = P vars
IfDone P (failed e) = Unit
IfDone P panic = Unit
IfDone P out_of_fuel = Unit

module _ (host : Host) where
  -- A path of names that the directories list, from an open directory to a file with a name: each
  -- name but the last is that of a directory which could be opened.
  pub data LeadsTo (name : Bytes) : Bytes → File → Bytes → Type 0 where
    listed :
        {dir : Bytes} {f : File}
        → Any (λ n. n ≡ name) (flatten f.batches)
        → LeadsTo name dir f (path_join (dir ∷ name ∷ []))
    below :
        {dir sub path : Bytes} {f g : File} {info : Stat}
        → Any (λ n. n ≡ sub) (flatten f.batches)
        → host.open_file (path_join (dir ∷ sub ∷ [])) ≡ ok g
        → g.info ≡ ok info
        → info.is_dir ≡ true
        → LeadsTo name (path_join (dir ∷ sub ∷ [])) g path
        → LeadsTo name dir f path

  -- A variable stands for a regular file below an open directory: its key is the name of the file
  -- in the last directory, and its value is what was read of it.
  pub record IsVariableOf (dir : Bytes) (d : File) (v : KernelVariable) : Type 0 where
    pub leads : LeadsTo v.key dir d v.source
    pub file : File
    pub info : Stat
    pub opens : host.open_file v.source ≡ ok file
    pub stats : file.info ≡ ok info
    pub no_dir : info.is_dir ≡ false
    pub regular : info.is_regular ≡ true
    pub value : v.value ≡ file.content

  abbrev pub IsVariable : KernelVariable → Type 0
  IsVariable v =
      (d : File) × (host.open_file proc_sys_kernel_dir ≡ ok d)
      × IsVariableOf proc_sys_kernel_dir d v

  in_directory :
      {dir name : Bytes} {d f : File} {info : Stat} {v : KernelVariable}
      → Any (λ n. n ≡ name) (flatten d.batches)
      → host.open_file (path_join (dir ∷ name ∷ [])) ≡ ok f
      → f.info ≡ ok info
      → info.is_dir ≡ true
      → IsVariableOf (path_join (dir ∷ name ∷ [])) f v
      → IsVariableOf dir d v
  in_directory l o q i t = record {
    leads = below l o q i t.leads;
    file = t.file;
    info = t.info;
    opens = t.opens;
    stats = t.stats;
    no_dir = t.no_dir;
    regular = t.regular;
    value = t.value;
  }

module _ (host : Host) (Q : KernelVariable → Type 0) where
  abbrev AllOk : Outcome → Type 0
  AllOk o = IfDone (All Q) o

  continue_with-AllOk :
      (o : Outcome) (k : List KernelVariable → Outcome)
      → AllOk o
      → ((vars : List KernelVariable) → All Q vars → AllOk (k vars))
      → AllOk (continue_with o k)
  continue_with-AllOk (done vars) k a h = h vars a
  continue_with-AllOk (failed e) k a h = tt
  continue_with-AllOk panic k a h = tt
  continue_with-AllOk out_of_fuel k a h = tt

  with_inner-AllOk :
      (path : Bytes) (vars : List KernelVariable) (o : Outcome)
      → All Q vars
      → AllOk o
      → AllOk (with_inner path vars o)
  with_inner-AllOk path vars (done inner) a h = All-append Q vars inner a h
  with_inner-AllOk path vars (failed e) a h = tt
  with_inner-AllOk path vars panic a h = tt
  with_inner-AllOk path vars out_of_fuel a h = tt

  file_variables-AllOk :
      (walk : Bytes → File → Outcome) (d : File) (dir name : Bytes) (f : File) (r : Result Stat)
      (vars : List KernelVariable)
      → Any (λ n. n ≡ name) (flatten d.batches)
      → host.open_file (path_join (dir ∷ name ∷ [])) ≡ ok f
      → f.info ≡ r
      → ((v : KernelVariable) → IsVariableOf host dir d v → Q v)
      → (((v : KernelVariable) → IsVariableOf host (path_join (dir ∷ name ∷ [])) f v → Q v)
          → AllOk (walk (path_join (dir ∷ name ∷ [])) f))
      → All Q vars
      → AllOk (file_variables walk name (path_join (dir ∷ name ∷ [])) f r vars)
  unfolding file_variables
  file_variables-AllOk walk d dir name f (err e) vars l o q h w a = tt
  file_variables-AllOk walk d dir name f (ok info) vars l o q h w a =
      elim (Bool-cases info.is_dir) [
        | inl i ↦
            rw (i, file_variables)
              (with_inner-AllOk _ vars _ a (w (λ v t. h v (in_directory host l o q i t))))
        | inr i ↦ elim (Bool-cases info.is_regular) [
          | inl g ↦
              rw (i, g, file_variables)
                (All-append Q vars _ a (
                  h _ (record {
                    leads = listed l;
                    file = f;
                    info = info;
                    opens = o;
                    stats = q;
                    no_dir = i;
                    regular = g;
                    value = refl;
                  }),
                  tt,
                ))
          | inr g ↦ rw (i, g, file_variables) a
        ]
      ]

  entry_variables-AllOk :
      (walk : Bytes → File → Outcome) (d : File) (dir name : Bytes) (vars : List KernelVariable)
      → Any (λ n. n ≡ name) (flatten d.batches)
      → ((v : KernelVariable) → IsVariableOf host dir d v → Q v)
      → ((path : Bytes) (f : File)
          → ((v : KernelVariable) → IsVariableOf host path f v → Q v)
          → AllOk (walk path f))
      → All Q vars
      → AllOk (entry_variables host walk dir name vars)
  entry_variables-AllOk walk d dir name vars l h w a =
      elim (Result-cases (host.open_file (path_join (dir ∷ name ∷ [])))) [
        | inr (f, o) ↦
            subst AllOk (sym (opened host walk dir name vars f o))
              (file_variables-AllOk walk d dir name f f.info vars l o refl h (w _ f) a)
        | inl (e, o) ↦ elim (Bool-cases (contains (error_text e) (codes "permission denied"))) [
          | inl c ↦ subst AllOk (sym (passed_over host walk dir name vars e o c)) a
          | inr c ↦ subst AllOk (sym (refused host walk dir name vars e o c)) tt
        ]
      ]

  names_variables-AllOk :
      (walk : Bytes → File → Outcome) (dir : Bytes) (names : List Bytes)
      (vars : List KernelVariable)
      → ((name : Bytes)
          → Any (λ n. n ≡ name) names
          → (vars : List KernelVariable) → All Q vars
          → AllOk (entry_variables host walk dir name vars))
      → All Q vars
      → AllOk (names_variables host walk dir names vars)
  unfolding names_variables
  names_variables-AllOk walk dir [] vars h a = a
  names_variables-AllOk walk dir (name ∷ names) vars h a =
      continue_with-AllOk (entry_variables host walk dir name vars)
        (λ vars'. names_variables host walk dir names vars') (h name (at_head refl) vars a)
        (λ vars' a'. names_variables-AllOk walk dir names vars' (λ n m. h n (behind m)) a')

  at_end_of_dir-AllOk :
      (e : GoError) (vars : List KernelVariable) → All Q vars → AllOk (at_end_of_dir e vars)
  unfolding at_end_of_dir
  at_end_of_dir-AllOk eof vars a = a
  at_end_of_dir-AllOk (not_exist t) vars a = tt
  at_end_of_dir-AllOk (failure t) vars a = tt
  at_end_of_dir-AllOk (wrap t e) vars a = tt
  at_end_of_dir-AllOk (sense s) vars a = tt

  -- What holds of all variables below a directory holds of all that its walk gives.
  walk_vars_dir-AllOk :
      (fuel : ℕ) (dir : Bytes) (f : File)
      → ((v : KernelVariable) → IsVariableOf host dir f v → Q v)
      → AllOk (walk_vars_dir host fuel dir f)
  unfolding walk_vars_dir
  walk_vars_dir-AllOk zero dir f h = tt
  walk_vars_dir-AllOk (suc fuel) dir f h =
      continue_with-AllOk
        (names_variables host (walk_vars_dir host fuel) dir (flatten f.batches) [])
        (at_end_of_dir f.batches_end)
        (names_variables-AllOk (walk_vars_dir host fuel) dir (flatten f.batches) []
          (λ name l vars.
            entry_variables-AllOk (walk_vars_dir host fuel) f dir name vars l h
              (walk_vars_dir-AllOk fuel))
          tt)
        (at_end_of_dir-AllOk f.batches_end)

module _ (host : Host) where
  sense_proc_sys_kernel-AllOk :
      (fuel : ℕ) → AllOk host (IsVariable host) (sense_proc_sys_kernel host fuel)
  sense_proc_sys_kernel-AllOk fuel = elim (Result-cases (host.open_file proc_sys_kernel_dir)) [
    | inl (e, o) ↦ subst (AllOk host (IsVariable host)) (sym (unopened host fuel e o)) tt
    | inr (f, o) ↦
        subst (AllOk host (IsVariable host)) (sym (walked host fuel f o))
          (walk_vars_dir-AllOk host (IsVariable host) fuel proc_sys_kernel_dir f (λ v t. (f, o, t)))
  ]

  -- Every variable that is told of the kernel stands for a regular file that could be opened, which
  -- names listed by /proc/sys/kernel and its open directories lead to: its source is that path, its
  -- key the last of the names, and its value what was read.
  pub sense_kernel_variables_sound :
      (fuel : ℕ) (vars : List KernelVariable)
      → sense_kernel_variables host fuel ≡ done vars
      → All (IsVariable host) vars
  unfolding sense_kernel_variables
  sense_kernel_variables_sound fuel vars h = subst (AllOk host (IsVariable host)) h (
      continue_with-AllOk host (IsVariable host) (sense_proc_sys_kernel host fuel)
        (λ vars'. done (vars' ++ sense_kernel_confs)) (sense_proc_sys_kernel-AllOk fuel)
        (λ vars' a. All-append (IsVariable host) vars' [] a tt))
