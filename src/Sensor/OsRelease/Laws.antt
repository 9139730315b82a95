-- ===== src/Sensor/OsRelease/Laws.antt =====
-- Which file tells the release, and what the security modules show.
use mathlib.Core.List.{flatten}
use host_scanner.Prelude.{
  ◌≡◌, refl, inl, inr, true, false, none, some, List, [], ◌∷◌, ◌++◌, All, Option-cases, arith,
}
use host_scanner.Prelude.Bytes.{Bytes, has_suffix}
use host_scanner.Prelude.FilePath.{path_join}
use host_scanner.GoError.{GoError, ok, err}
use host_scanner.Host.{Host, File}
use host_scanner.Utils.FileInfo.{host_path, read_file_on_host_file_system}
use host_scanner.Sensor.OsRelease.{
  etc_dir_name, os_release_file_suffix, release_in, release_in_batches, get_os_release_file,
  sense_os_release,
}

release_in-append :
    (xs ys : List Bytes)
    → release_in (xs ++ ys) ≡ elim (release_in xs) [ some name ↦ some name | none ↦ release_in ys ]
unfolding release_in
release_in-append [] ys = refl
release_in-append (x ∷ xs) ys = ground (arith, release_in-append xs ys)

-- The batches are searched like one list.
release_in_batches-flatten :
    (e : GoError) (batches : List (List Bytes))
    → release_in_batches e batches
      ≡ elim (release_in (flatten batches)) [ some name ↦ ok name | none ↦ err e ]
unfolding release_in_batches flatten
release_in_batches-flatten e [] = unfold release_in in refl
release_in_batches-flatten e (names ∷ batches) = elim (Option-cases (release_in names)) [
  | inl n ↦
      rw (release_in-append names (flatten batches), n, release_in_batches)
        (release_in_batches-flatten e batches)
  | inr (name, n) ↦ rw (release_in-append names (flatten batches), n, release_in_batches) refl
]

release_in_first :
    (before : List Bytes) (name : Bytes) (after : List Bytes)
    → All (λ n. has_suffix n os_release_file_suffix ≡ false) before
    → has_suffix name os_release_file_suffix ≡ true
    → release_in (before ++ (name ∷ after)) ≡ some name
unfolding release_in
release_in_first [] name after b h = rw h refl
release_in_first (n ∷ before) name after b h = rw b.0 (release_in_first before name after b.1 h)

module _ (host : Host) where
  -- If /etc can be opened and a name of its listing ends in `os-release`, however the listing comes
  -- in batches, the release is the content of the first such file, or the error of reading it.
  pub sense_os_release_first :
      (etc : File) (before : List Bytes) (name : Bytes) (after : List Bytes)
      → host.open_file (host_path etc_dir_name) ≡ ok etc
      → flatten etc.batches ≡ before ++ (name ∷ after)
      → All (λ n. has_suffix n os_release_file_suffix ≡ false) before
      → has_suffix name os_release_file_suffix ≡ true
      → sense_os_release host ≡ host.read_file (host_path (path_join (etc_dir_name ∷ name ∷ [])))
  unfolding sense_os_release get_os_release_file read_file_on_host_file_system
  sense_os_release_first etc before name after o l b h =
      rw
        (
          o,
          release_in_batches-flatten etc.batches_end etc.batches,
          l,
          release_in_first before name after b h,
          get_os_release_file,
        )
        refl
