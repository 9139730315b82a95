-- ===== src/Sensor/Verbose/Complete.antt =====
-- No file of a directory is missing in its list.
use mathlib.Core.List.{flatten}
use host_scanner.Prelude.{
  ℕ, zero, suc, ◌+◌, ◌≤◌, ◌<◌, ◌==◌, ◌≡◌, sym, subst, inl, inr, true, false, some, List, [], ◌∷◌,
  map, length, Any, at_head, behind, Any-append_left, Any-append_right, Any-map, arith,
  Option-cases,
}
use host_scanner.Prelude.Bytes.{Bytes}
use host_scanner.Prelude.FilePath.{path_join}
use host_scanner.Prelude.Sorting.{sort_strings, sort_strings-Any}
use host_scanner.GoError.{ok, Result-cases}
use host_scanner.Host.{Host, Stat}
use host_scanner.Utils.Users.{Cache, M}
use host_scanner.Utils.FileInfo.{
  FileInfo, host_path, make_file_info, make_changed_root_file_info, get_file_permissions,
  get_file_unix_ownership, read_content,
}
use host_scanner.Utils.Cached.{fold}
use host_scanner.Sensor.Verbose.{
  Listing, max_recursion_depth, make_changed_root_file_info_verbose, make_host_file_info_verbose,
  visit, visit_dir, visit_file, list_dir, make_host_dir_files_info_verbose, host_dir_files_info,
}
use host_scanner.Sensor.Verbose.Keeping.{walk-Any, visit-Any}
use host_scanner.Sensor.Verbose.Below.{descend, IsNameIn, IsAt, LeadsToFile}
use host_scanner.Sensor.Verbose.Listed.{IsInfoOf, fold-preserves, make_host_file_info_verbose_sound}

-- A loop gets to what one of its members brings, if no other takes it away.
fold-reaches :
    {A S : Type 0} (P : S → Type 0) (f : A → S → M S)
    → ((x : A) (s : S) (cache : Cache) → P s → P (f x s cache).0)
    → {xs : List A} → Any (λ x. (s : S) (cache : Cache) → P (f x s cache).0) xs
    → (s : S) (cache : Cache) → P (fold f xs s cache).0
unfolding fold
fold-reaches P f keeps (at_head {x} {xs} h) s cache =
    fold-preserves P f keeps xs (f x s cache).0 (f x s cache).1 (h s cache)
fold-reaches P f keeps (behind {x} a) s cache =
    fold-reaches P f keeps a (f x s cache).0 (f x s cache).1

-- A name of one of the batches is one of the names in their order.
Any-batches :
    (P : Bytes → Type 0) {batches : List (List Bytes)}
    → Any (λ batch. Any P batch) batches
    → Any P (flatten (map sort_strings batches))
unfolding flatten
Any-batches P (at_head {x = b} {xs = bs} a) =
    Any-append_left P (flatten (map sort_strings bs)) (sort_strings-Any P b a)
Any-batches P (behind {x = b} a) = Any-append_right P (sort_strings b) (Any-batches P a)

module _ (host : Host) where
  file_made :
      (path : Bytes) (stats : Stat)
      → host.stat path ≡ ok stats
      → (obj : FileInfo) × (make_file_info host path false ≡ ok obj)
  unfolding make_file_info get_file_permissions get_file_unix_ownership read_content
  file_made path stats s = elim (Result-cases (make_file_info host path false)) [
    | inl (e, m) ↦ absurd (ground arith)
    | inr r ↦ r
  ]

  info_made :
      (path : Bytes) (stats : Stat) (cache : Cache)
      → host.stat (host_path path) ≡ ok stats
      → (info : FileInfo) × ((make_host_file_info_verbose host path false cache).0 ≡ some info)
  unfolding make_host_file_info_verbose make_changed_root_file_info_verbose
      make_changed_root_file_info host_path
  info_made path stats cache s =
      let (obj, m) = file_made (host_path path) stats s in
      elim (Option-cases (make_host_file_info_verbose host path false cache).0) [
        | inl n ↦ absurd (cc (sym (rw (m, make_changed_root_file_info) at n)))
        | inr r ↦ r
      ]

  module _ (Q : FileInfo → Type 0) where
    -- What visiting one name of a directory brings is in the list of the directory.
    name_reaches :
        (fuel level : ℕ) (dir name : Bytes)
        → IsNameIn host dir name
        → ((infos : List FileInfo) (cache : Cache)
            → Any Q
                (visit host
                  (make_host_dir_files_info_verbose host fuel (suc level))
                  level
                  dir
                  name
                  infos
                  cache).0)
        → (infos : List FileInfo) (cache : Cache)
        → let l = (make_host_dir_files_info_verbose host (suc fuel) level dir infos cache).0 in
          Any Q l.file_infos × Any Q l.returned
    unfolding make_host_dir_files_info_verbose list_dir
    name_reaches fuel level dir name (f, o, named) h infos cache =
        let visit_name =
          visit host (make_host_dir_files_info_verbose host fuel (suc level)) level dir in
        let r =
          fold-reaches (Any Q) visit_name
            (λ n.
              visit-Any host Q (make_host_dir_files_info_verbose host fuel (suc level)) level dir n
                (walk-Any host Q fuel (suc level)))
            (Any-batches
              (λ n. (infos : List FileInfo) (cache : Cache) → Any Q (visit_name n infos cache).0)
              (Any-map _ _
                (λ b. Any-map _ _ (λ n e.
                  subst
                    (λ m.
                      (infos : List FileInfo) (cache : Cache) → Any Q (visit_name m infos cache).0)
                    (sym e) h))
                named))
            infos cache in
        rw (o, list_dir) (r, r)

    file_reached :
        (walk : Bytes → List FileInfo → M Listing) (level : ℕ) (dir name : Bytes)
        → IsAt host false (path_join (dir ∷ name ∷ []))
        → ((info : FileInfo) → IsInfoOf host (path_join (dir ∷ name ∷ [])) info → Q info)
        → (infos : List FileInfo) (cache : Cache)
        → Any Q (visit host walk level dir name infos cache).0
    unfolding visit visit_file
    file_reached walk level dir name (stats, s, d) q infos cache =
        let path = path_join (dir ∷ name ∷ []) in
        let (info, m) = info_made path stats cache s in
        rw (s, d, m, visit, visit_file)
          (Any-append_right Q infos
            (at_head (q info (make_host_file_info_verbose_sound host path cache info stats s d m))))

    directory_reached :
        (walk : Bytes → List FileInfo → M Listing) (level : ℕ) (dir name : Bytes)
        → (level + 1 == max_recursion_depth) ≡ false
        → IsAt host true (path_join (dir ∷ name ∷ []))
        → ((infos : List FileInfo) (cache : Cache)
            → Any Q (walk (path_join (dir ∷ name ∷ [])) infos cache).0.file_infos)
        → (infos : List FileInfo) (cache : Cache)
        → Any Q (visit host walk level dir name infos cache).0
    unfolding visit visit_dir
    directory_reached walk level dir name l (stats, s, d) h infos cache =
        rw (s, d, l, visit, visit_dir) (h infos cache)

    walk_reaches :
        (names : List Bytes) (fuel level : ℕ) (dir name : Bytes)
        → length names < fuel
        → level + length (name ∷ names) ≤ max_recursion_depth
        → LeadsToFile host dir name names
        → ((info : FileInfo) → IsInfoOf host (descend dir (name ∷ names)) info → Q info)
        → (infos : List FileInfo) (cache : Cache)
        → let l = (make_host_dir_files_info_verbose host fuel level dir infos cache).0 in
          Any Q l.file_infos × Any Q l.returned
    walk_reaches names zero level dir name lt le h q infos cache = absurd (omega (arith, lt))
    walk_reaches [] (suc fuel) level dir name lt le (named, at_file) q infos cache =
        name_reaches fuel level dir name named
          (file_reached (make_host_dir_files_info_verbose host fuel (suc level)) level dir name
            at_file q)
          infos cache
    walk_reaches (n ∷ names) (suc fuel) level dir name lt le (named, at_dir, below) q infos cache =
        name_reaches fuel level dir name named
          (directory_reached (make_host_dir_files_info_verbose host fuel (suc level)) level dir name
            (ground (arith, le)) at_dir
            (λ infos' cache'.
              (walk_reaches names fuel (suc level) (path_join (dir ∷ name ∷ [])) n
                (omega (arith, lt)) (omega (arith, le)) below q infos' cache').0))
          infos cache

  -- Every file that at most ten names lead to from a directory, through directories that can be
  -- opened, has an info in the list of the directory: with its path and its permissions.
  pub host_dir_files_info_complete :
      (dir name : Bytes) (names : List Bytes) (cache : Cache)
      → length (name ∷ names) ≤ max_recursion_depth
      → LeadsToFile host dir name names
      → Any (IsInfoOf host (descend dir (name ∷ names))) (host_dir_files_info host dir cache).0.0
  unfolding host_dir_files_info
  host_dir_files_info_complete dir name names cache l h =
      (walk_reaches (IsInfoOf host (descend dir (name ∷ names))) names max_recursion_depth 0 dir
        name (omega (arith, l)) (omega (arith, l)) h (λ info i. i) [] cache).1
