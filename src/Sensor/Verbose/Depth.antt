-- ===== src/Sensor/Verbose/Depth.antt =====
-- The limit of the depth ends the walk.
use host_scanner.Prelude.{
  ℕ, zero, suc, ◌+◌, ◌≤◌, ◌<◌, ◌==◌, ◌≡◌, ◌≢◌, refl, sym, ap, ◌∙◌, [], ◌∷◌, inl, inr, true, List,
  ==_iff, arith, Bool-cases,
}
use host_scanner.Prelude.Bytes.{Bytes}
use host_scanner.Prelude.FilePath.{path_join}
use host_scanner.GoError.{Result-cases}
use host_scanner.Host.{Host}
use mathlib.Core.Path.{fun_ext}
use host_scanner.Utils.Users.{M}
use host_scanner.Utils.FileInfo.{FileInfo, host_path}
use host_scanner.Sensor.Verbose.{
  Listing, max_recursion_depth, visit, visit_dir, list_dir, make_host_dir_files_info_verbose,
}

module _ (host : Host) where
  visit_dir_at_limit :
      (walk walk' : Bytes → List FileInfo → M Listing) (level : ℕ)
      → (level + 1 == max_recursion_depth) ≡ true
      → visit_dir host walk level ≡ visit_dir host walk' level
  unfolding visit_dir
  visit_dir_at_limit walk walk' level e = rw (e, visit_dir) refl

  visit_at_limit :
      (walk walk' : Bytes → List FileInfo → M Listing) (level : ℕ) (dir name : Bytes)
      (infos : List FileInfo)
      → (level + 1 == max_recursion_depth) ≡ true
      → visit host walk level dir name infos ≡ visit host walk' level dir name infos
  unfolding visit
  visit_at_limit walk walk' level dir name infos e =
      let path = path_join (dir ∷ name ∷ []) in
      elim (Result-cases (host.stat (host_path path))) [
        | inl (e', s) ↦ rw (s, visit) refl
        | inr (stats, s) ↦ elim (Bool-cases stats.is_dir) [
          | inl d ↦
              rw (s, d, visit) (ap (λ v. v path infos) (visit_dir_at_limit walk walk' level e))
          | inr d ↦ rw (s, d, visit) refl
        ]
      ]

  -- Whatever the directories hold, links to themselves included: from a level below the limit the
  -- fuel that is left to the limit is enough, since any two fuels which are at least that give the
  -- same walk.
  pub make_host_dir_files_info_verbose_enough :
      (fuel fuel' level : ℕ)
      → level < max_recursion_depth
      → max_recursion_depth ≤ level + fuel
      → max_recursion_depth ≤ level + fuel'
      → make_host_dir_files_info_verbose host fuel level
        ≡ make_host_dir_files_info_verbose host fuel' level
  unfolding make_host_dir_files_info_verbose
  make_host_dir_files_info_verbose_enough zero fuel' level l h h' = absurd (omega (arith, l, h))
  make_host_dir_files_info_verbose_enough fuel zero level l h h' = absurd (omega (arith, l, h'))
  make_host_dir_files_info_verbose_enough (suc fuel) (suc fuel') level l h h' =
      let ih = λ (b : suc level < max_recursion_depth).
        make_host_dir_files_info_verbose_enough fuel fuel' (suc level) b (omega (arith, h))
          (omega (arith, h')) in
      fun_ext λ dir. fun_ext λ infos.
        ap (λ v. list_dir host v dir infos)
          (fun_ext λ name. fun_ext λ infos'. same ih dir name infos')
    where
      walk : ℕ → Bytes → List FileInfo → M Listing
      walk f = make_host_dir_files_info_verbose host f (suc level)

      same :
          (suc level < max_recursion_depth → walk fuel ≡ walk fuel')
          → (dir name : Bytes) (infos : List FileInfo)
          → visit host (walk fuel) level dir name infos
            ≡ visit host (walk fuel') level dir name infos
      same ih dir name infos = elim (Bool-cases (level + 1 == max_recursion_depth)) [
        | inl e ↦ visit_at_limit (walk fuel) (walk fuel') level dir name infos e
        | inr e ↦
            let n : level + 1 ≢ max_recursion_depth = λ q. cc (sym e ∙ (==_iff _ _).1 q) in
            ap (λ w. visit host w level dir name infos) (ih (omega (arith, n, l)))
      ]
