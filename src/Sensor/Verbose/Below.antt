-- ===== src/Sensor/Verbose/Below.antt =====
-- The files below a directory.
use host_scanner.Prelude.{◌≡◌, Bool, true, false, List, [], ◌∷◌, Any}
use host_scanner.Prelude.Bytes.{Bytes}
use host_scanner.Prelude.FilePath.{path_join}
use host_scanner.GoError.{ok}
use host_scanner.Host.{Host, File, Stat}
use host_scanner.Utils.FileInfo.{host_path}

-- The path that some names lead to from a directory.
abbrev pub descend : Bytes → List Bytes → Bytes
descend dir [] = dir
descend dir (name ∷ names) = descend (path_join (dir ∷ name ∷ [])) names

module _ (host : Host) where
  -- A name of an open directory.
  abbrev pub IsNameIn : Bytes → Bytes → Type 0
  IsNameIn dir name =
      (f : File) × (host.open_file (host_path dir) ≡ ok f)
      × Any (λ batch. Any (λ n. n ≡ name) batch) f.batches

  -- A file or a directory at a path.
  abbrev pub IsAt : Bool → Bytes → Type 0
  IsAt is_dir path =
      (stats : Stat) × (host.stat (host_path path) ≡ ok stats) × (stats.is_dir ≡ is_dir)

  -- Names that lead from a directory to a file: through directories that can be opened.
  abbrev pub LeadsToFile : Bytes → Bytes → List Bytes → Type 0
  LeadsToFile dir name [] = IsNameIn dir name × IsAt false (path_join (dir ∷ name ∷ []))
  LeadsToFile dir name (n ∷ names) =
      IsNameIn dir name
      × IsAt true (path_join (dir ∷ name ∷ []))
      × LeadsToFile (path_join (dir ∷ name ∷ [])) n names
