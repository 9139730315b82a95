-- ===== src/Sensor/Verbose/Listed.antt =====
-- What the list of the files of a directory holds.
use mathlib.Core.List.{flatten}
use host_scanner.Prelude.{
  ℕ, zero, suc, ◌+◌, ◌≤◌, ◌<◌, ◌==◌, ◌≡◌, sym, ap, ◌∙◌, inl, inr, false, none, some, List, [], ◌∷◌,
  map, length, refl, true, Any, at_head, behind, Any-append, All, All-append, arith, Bool-cases,
  Option-cases, some_inv,
}
use host_scanner.Prelude.Bytes.{Bytes}
use host_scanner.Prelude.FilePath.{path_join}
use host_scanner.Prelude.Sorting.{sort_strings, sort_strings-Any_back}
use host_scanner.GoError.{ok, Result-cases, ok-injective}
use host_scanner.Host.{Host, Stat}
use host_scanner.Utils.Users.{Cache, M}
use host_scanner.Utils.FileInfo.{
  FileInfo, host_path, make_file_info, make_changed_root_file_info,
  host_file_system_default_location,
}
use host_scanner.Utils.FileInfo.Laws.{make_file_info_sound}
use host_scanner.Utils.Cached.{fold}
use host_scanner.Sensor.Verbose.Below.{descend, IsNameIn, IsAt, LeadsToFile}
use host_scanner.Sensor.Verbose.{
  Listing, max_recursion_depth, make_changed_root_file_info_verbose, make_host_file_info_verbose,
  visit, visit_dir, visit_file, list_dir, make_host_dir_files_info_verbose, host_dir_files_info,
}

pub fold-preserves :
    {A S : Type 0} (P : S → Type 0) (f : A → S → M S)
    → ((x : A) (s : S) (cache : Cache) → P s → P (f x s cache).0)
    → (xs : List A) (s : S) (cache : Cache) → P s
    → P (fold f xs s cache).0
unfolding fold
fold-preserves P f h [] s cache p = p
fold-preserves P f h (x ∷ xs) s cache p =
    fold-preserves P f h xs (f x s cache).0 (f x s cache).1 (h x s cache p)

-- The same where the step is known to be for a member of the list.
fold-each :
    {A S : Type 0} (P : S → Type 0) (f : A → S → M S) (xs : List A)
    → ((x : A) → Any (λ y. y ≡ x) xs → (s : S) (cache : Cache) → P s → P (f x s cache).0)
    → (s : S) (cache : Cache) → P s
    → P (fold f xs s cache).0
unfolding fold
fold-each P f [] h s cache p = p
fold-each P f (x ∷ xs) h s cache p =
    fold-each P f xs (λ y a. h y (behind a)) (f x s cache).0 (f x s cache).1
      (h x (at_head refl) s cache p)

-- A name of the batches in their order is one of a batch.
Any-sorted :
    (P : Bytes → Type 0) (batches : List (List Bytes))
    → Any P (flatten (map sort_strings batches))
    → Any (λ batch. Any P batch) batches
unfolding flatten
Any-sorted P [] a = elim a [ ]
Any-sorted P (b ∷ bs) a = elim (Any-append P (sort_strings b) a) [
  | inl h ↦ at_head (sort_strings-Any_back P b h)
  | inr h ↦ behind (Any-sorted P bs h)
]

module _ (host : Host) where
  -- An info of the file at a path, which is no directory: with its permissions and no content.
  abbrev pub IsInfoOf : Bytes → FileInfo → Type 0
  IsInfoOf path info =
      (stats : Stat) × (host.stat (host_path path) ≡ ok stats)
      × (stats.is_dir ≡ false)
      × (info.path ≡ path)
      × (info.permissions ≡ stats.perm)
      × (info.content ≡ none)

  pub made :
      (p : Bytes) (cache : Cache) (info : FileInfo)
      → (make_host_file_info_verbose host p false cache).0 ≡ some info
      → (obj : FileInfo) × (make_file_info host (host_path p) false ≡ ok obj)
        × (info.path ≡ p)
        × (info.permissions ≡ obj.permissions)
        × (info.content ≡ obj.content)
  unfolding make_host_file_info_verbose make_changed_root_file_info_verbose
      make_changed_root_file_info host_path
  made p cache info h =
      elim (Result-cases
        (make_file_info host (path_join (host_file_system_default_location ∷ p ∷ [])) false)) [
          | inl (e, q) ↦ absurd (cc (sym (rw (q, make_changed_root_file_info) at h)))
          | inr (obj, q) ↦
              let i = some_inv (rw (q, make_changed_root_file_info) at h) in
              (
                obj,
                q,
                ap (λ x. x.path) (sym i),
                ap (λ x. x.permissions) (sym i),
                ap (λ x. x.content) (sym i),
              )
        ]

  pub make_host_file_info_verbose_sound :
      (p : Bytes) (cache : Cache) (info : FileInfo) (stats : Stat)
      → host.stat (host_path p) ≡ ok stats
      → stats.is_dir ≡ false
      → (make_host_file_info_verbose host p false cache).0 ≡ some info
      → IsInfoOf p info
  make_host_file_info_verbose_sound p cache info stats s d h =
      let (obj, q, a, b, c) = made p cache info h in
      let (stats', s', _, perm, _, content) = make_file_info_sound host (host_path p) false obj q in
      (stats', s', ap (λ x. x.is_dir) (ok-injective (sym s' ∙ s)) ∙ d, a, b ∙ perm, c ∙ content)

  module _ (Q : FileInfo → Type 0) where
    visit_file-All :
        (path : Bytes) (stats : Stat)
        → host.stat (host_path path) ≡ ok stats
        → stats.is_dir ≡ false
        → ((info : FileInfo) → IsInfoOf path info → Q info)
        → (infos : List FileInfo) (cache : Cache) → All Q infos
        → All Q (visit_file host path infos cache).0
    unfolding visit_file
    visit_file-All path stats s d hf infos cache a =
        elim (Option-cases (make_host_file_info_verbose host path false cache).0) [
          | inl n ↦ rw (n, visit_file) a
          | inr (info, n) ↦
              rw (n, visit_file)
                (All-append Q infos (info ∷ []) a
                  (hf info (make_host_file_info_verbose_sound path cache info stats s d n), tt))
        ]

    visit_dir-All :
        (walk : Bytes → List FileInfo → M Listing) (level : ℕ) (path : Bytes)
        → ((infos : List FileInfo) (cache : Cache)
            → All Q infos
            → All Q (walk path infos cache).0.file_infos)
        → (infos : List FileInfo) (cache : Cache) → All Q infos
        → All Q (visit_dir host walk level path infos cache).0
    unfolding visit_dir
    visit_dir-All walk level path hw infos cache a =
        elim (Bool-cases (level + 1 == max_recursion_depth)) [
          | inl e ↦ rw (e, visit_dir) a
          | inr e ↦ rw (e, visit_dir) (hw infos cache a)
        ]

    visit-All :
        (walk : Bytes → List FileInfo → M Listing) (level : ℕ) (dir name : Bytes)
        → (IsAt host true (path_join (dir ∷ name ∷ []))
            → (infos : List FileInfo) (cache : Cache) → All Q infos
            → All Q (walk (path_join (dir ∷ name ∷ [])) infos cache).0.file_infos)
        → (IsAt host false (path_join (dir ∷ name ∷ []))
            → (info : FileInfo) → IsInfoOf (path_join (dir ∷ name ∷ [])) info
            → Q info)
        → (infos : List FileInfo) (cache : Cache) → All Q infos
        → All Q (visit host walk level dir name infos cache).0
    unfolding visit
    visit-All walk level dir name hw hf infos cache a =
        let path = path_join (dir ∷ name ∷ []) in
        elim (Result-cases (host.stat (host_path path))) [
          | inl (e, s) ↦ rw (s, visit) a
          | inr (stats, s) ↦ elim (Bool-cases stats.is_dir) [
            | inl d ↦
                rw (s, d, visit) (visit_dir-All walk level path (hw (stats, s, d)) infos cache a)
            | inr d ↦
                rw (s, d, visit) (visit_file-All path stats s d (hf (stats, s, d)) infos cache a)
          ]
        ]

    -- What holds of all infos of files below the directory, at most so many names deep, holds of
    -- all that the walk adds.
    walk-All :
        (fuel level : ℕ) (dir : Bytes)
        → ((name : Bytes) (names : List Bytes) (info : FileInfo)
            → length names < fuel
            → LeadsToFile host dir name names
            → IsInfoOf (descend dir (name ∷ names)) info
            → Q info)
        → (infos : List FileInfo) (cache : Cache) → All Q infos
        → All Q (make_host_dir_files_info_verbose host fuel level dir infos cache).0.file_infos
          × All Q (make_host_dir_files_info_verbose host fuel level dir infos cache).0.returned
    unfolding make_host_dir_files_info_verbose list_dir
    walk-All zero level dir h infos cache a = (a, a)
    walk-All (suc fuel) level dir h infos cache a =
        elim (Result-cases (host.open_file (host_path dir))) [
          | inl (e, o) ↦ rw (o, list_dir) (a, tt)
          | inr (f, o) ↦
              let r =
                fold-each (All Q)
                  (visit host (make_host_dir_files_info_verbose host fuel (suc level)) level dir)
                  (flatten (map sort_strings f.batches))
                  (λ name m infos' cache' a'.
                    let named : IsNameIn host dir name = (f, o, Any-sorted _ f.batches m) in
                    visit-All (make_host_dir_files_info_verbose host fuel (suc level)) level dir
                      name
                      (λ d infos'' cache'' a''.
                        (walk-All fuel (suc level) (path_join (dir ∷ name ∷ []))
                          (λ n names info l p i.
                            h name (n ∷ names) info (omega (arith, l)) (named, d, p) i)
                          infos'' cache'' a'').0)
                      (λ d info i. h name [] info (omega arith) (named, d) i) infos' cache' a')
                  infos cache a in
              rw (o, list_dir) (r, r)
        ]

  -- Every info that the listing of a directory gives is that of a file which is no directory, with
  -- the permissions of the file and without content, at the path that at most ten names lead to
  -- from the directory: each is listed by the directory before it, which could be opened.
  pub host_dir_files_info_sound :
      (dir : Bytes) (cache : Cache)
      → All
          (λ info.
            (name : Bytes) × (names : List Bytes) × (length (name ∷ names) ≤ max_recursion_depth)
            × LeadsToFile host dir name names
            × IsInfoOf (descend dir (name ∷ names)) info)
          (host_dir_files_info host dir cache).0.0
  unfolding host_dir_files_info
  host_dir_files_info_sound dir cache =
      (walk-All _ max_recursion_depth 0 dir
        (λ name names info l p i. (name, names, omega (arith, l), p, i)) [] cache tt).1
