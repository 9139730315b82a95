-- ===== src/Sensor/KernelVariables/Depth.antt =====
-- How much fuel the walk of the variables needs.
use mathlib.Core.List.{flatten}
use host_scanner.Prelude.{
  ℕ, zero, suc, ◌≡◌, refl, sym, subst, inl, inr, true, List, [], ◌∷◌, All, Bool-cases,
}
use host_scanner.Prelude.Bytes.{Bytes, codes, contains}
use host_scanner.Prelude.FilePath.{path_join}
use host_scanner.GoError.{
  GoError, error_text, eof, not_exist, failure, wrap, sense, Result, ok, err, Result-cases,
}
use host_scanner.Host.{Host, File, Stat}
use host_scanner.Sensor.KernelVariables.{
  KernelVariable, Outcome, done, failed, panic, out_of_fuel, at_end_of_dir, with_inner,
  continue_with, file_variables, entry_variables, names_variables, walk_vars_dir,
}
use host_scanner.Sensor.KernelVariables.Laws.{opened, passed_over, refused}

-- Whether a walk came to an end.
abbrev pub Ends : Outcome → Type 0
Ends (done vars) = Unit
Ends (failed e) = Unit
Ends panic = Unit
Ends out_of_fuel = ⊥

module _ (host : Host) where
  -- The directories below an open directory are nested less deep than a number.
  abbrev pub Nested : ℕ → Bytes → File → Type 0
  Nested zero dir f = ⊥
  Nested (suc n) dir f =
      All
        (λ name.
          (g : File) (info : Stat)
          → host.open_file (path_join (dir ∷ name ∷ [])) ≡ ok g
          → g.info ≡ ok info
          → info.is_dir ≡ true
          → Nested n (path_join (dir ∷ name ∷ [])) g)
        (flatten f.batches)

  continue_with-Ends :
      (o : Outcome) (k : List KernelVariable → Outcome)
      → Ends o
      → ((vars : List KernelVariable) → Ends (k vars))
      → Ends (continue_with o k)
  continue_with-Ends (done vars) k a h = h vars
  continue_with-Ends (failed e) k a h = tt
  continue_with-Ends panic k a h = tt
  continue_with-Ends out_of_fuel k a h = a

  with_inner-Ends :
      (path : Bytes) (vars : List KernelVariable) (o : Outcome)
      → Ends o
      → Ends (with_inner path vars o)
  with_inner-Ends path vars (done inner) h = tt
  with_inner-Ends path vars (failed e) h = tt
  with_inner-Ends path vars panic h = tt
  with_inner-Ends path vars out_of_fuel h = h

  file_variables-Ends :
      (walk : Bytes → File → Outcome) (name path : Bytes) (f : File) (r : Result Stat)
      (vars : List KernelVariable)
      → ((info : Stat) → r ≡ ok info → info.is_dir ≡ true → Ends (walk path f))
      → Ends (file_variables walk name path f r vars)
  unfolding file_variables
  file_variables-Ends walk name path f (err e) vars w = tt
  file_variables-Ends walk name path f (ok info) vars w = elim (Bool-cases info.is_dir) [
    | inl d ↦ rw (d, file_variables) (with_inner-Ends path vars (walk path f) (w info refl d))
    | inr d ↦ elim (Bool-cases info.is_regular) [
      | inl g ↦ rw (d, g, file_variables) tt
      | inr g ↦ rw (d, g, file_variables) tt
    ]
  ]

  names_variables-Ends :
      (walk : Bytes → File → Outcome) (dir : Bytes) (names : List Bytes)
      (vars : List KernelVariable)
      → All
          (λ name.
            (g : File) (info : Stat)
            → host.open_file (path_join (dir ∷ name ∷ [])) ≡ ok g
            → g.info ≡ ok info
            → info.is_dir ≡ true
            → Ends (walk (path_join (dir ∷ name ∷ [])) g))
          names
      → Ends (names_variables host walk dir names vars)
  unfolding names_variables
  names_variables-Ends walk dir [] vars h = tt
  names_variables-Ends walk dir (name ∷ names) vars h =
      continue_with-Ends (entry_variables host walk dir name vars)
        (λ vars'. names_variables host walk dir names vars')
        (elim (Result-cases (host.open_file (path_join (dir ∷ name ∷ [])))) [
          | inr (f, o) ↦ subst Ends (sym (opened host walk dir name vars f o)) (
              file_variables-Ends walk name (path_join (dir ∷ name ∷ [])) f f.info vars
                (λ info q d. h.0 f info o q d))
          | inl (e, o) ↦ elim (Bool-cases (contains (error_text e) (codes "permission denied"))) [
            | inl c ↦ subst Ends (sym (passed_over host walk dir name vars e o c)) tt
            | inr c ↦ subst Ends (sym (refused host walk dir name vars e o c)) tt
          ]
        ])
        (λ vars'. names_variables-Ends walk dir names vars' h.1)

  at_end_of_dir-Ends : (e : GoError) (vars : List KernelVariable) → Ends (at_end_of_dir e vars)
  unfolding at_end_of_dir
  at_end_of_dir-Ends eof vars = tt
  at_end_of_dir-Ends (not_exist t) vars = tt
  at_end_of_dir-Ends (failure t) vars = tt
  at_end_of_dir-Ends (wrap t e) vars = tt
  at_end_of_dir-Ends (sense s) vars = tt

  All-map :
      {P Q : Bytes → Type 0} (xs : List Bytes) → ((x : Bytes) → P x → Q x) → All P xs → All Q xs
  All-map [] h a = tt
  All-map (x ∷ xs) h a = (h x a.0, All-map xs h a.1)

  -- A walk with fuel above the depth to which directories are nested comes to an end: with
  -- variables, with an error, or with a panic.
  pub walk_vars_dir-Ends :
      (fuel : ℕ) (dir : Bytes) (f : File) → Nested fuel dir f → Ends (walk_vars_dir host fuel dir f)
  unfolding walk_vars_dir
  walk_vars_dir-Ends zero dir f n = n
  walk_vars_dir-Ends (suc fuel) dir f n =
      continue_with-Ends (names_variables host (walk_vars_dir host fuel) dir (flatten f.batches) [])
        (at_end_of_dir f.batches_end)
        (names_variables-Ends (walk_vars_dir host fuel) dir (flatten f.batches) [] (
          All-map (flatten f.batches)
            (λ name h g info o q d.
              walk_vars_dir-Ends fuel (path_join (dir ∷ name ∷ [])) g (h g info o q d))
            n))
        (at_end_of_dir-Ends f.batches_end)
