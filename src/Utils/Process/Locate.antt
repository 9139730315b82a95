-- ===== src/Utils/Process/Locate.antt =====
-- The process that `LocateProcessByExecSuffix` returns.
use mathlib.Core.List.{flatten}
use host_scanner.Prelude.{
  ◌≡◌, ◌≢◌, refl, sym, ap, ◌∙◌, inl, inr, true, none, some, List, [], ◌∷◌, ◌++◌, find_map,
  find_map-append, find_map_sound, arith, if◌then◌else◌, Option-cases, if_some_inv,
}
use host_scanner.Prelude.Bytes.{Bytes, codes, split, join}
use host_scanner.Prelude.Bytes.Laws.{has_suffix_sound}
use host_scanner.Prelude.Bytes.Cuts.{join-split}
use host_scanner.Prelude.Int.{ℤ, atoi, to_i32}
use host_scanner.Prelude.FilePath.{path_join}
use host_scanner.GoError.{ok, Result-cases, ok-injective}
use host_scanner.Host.{Host, File}
use host_scanner.Utils.Process.{
  ProcessDetails, proc_dir_name, exec_name, exec_matches, check_entry, check_names, check_batches,
  not_found, process_or, locate_process_by_exec_suffix,
}

module _ (host : Host) (suffix : Bytes) where
  check_names-find_map :
      (names : List Bytes)
      → check_names host suffix names ≡ find_map (check_entry host suffix) names
  unfolding check_names find_map
  check_names-find_map [] = refl
  check_names-find_map (n ∷ names) = ground (arith, check_names-find_map names)

  check_batches-find_map :
      (bs : List (List Bytes))
      → check_batches host suffix bs ≡ find_map (check_entry host suffix) (flatten bs)
  unfolding check_batches find_map flatten
  check_batches-find_map [] = refl
  check_batches-find_map (b ∷ bs) = ground (
    arith,
    check_names-find_map b,
    check_batches-find_map bs,
    find_map-append (check_entry host suffix) b (flatten bs),
  )

  -- If /proc can be opened, the entries of its whole listing are searched in order, however the
  -- calls of `Readdirnames` cut it up: the first that matches is returned, and with no match the
  -- error that tells a complete listing from a failed one.
  pub locate_process_by_exec_suffix-find_map :
      (dir : File)
      → host.open_file proc_dir_name ≡ ok dir
      → locate_process_by_exec_suffix host suffix
        ≡ process_or
            (not_found dir.batches_end)
            (find_map (check_entry host suffix) (flatten dir.batches))
  unfolding locate_process_by_exec_suffix
  locate_process_by_exec_suffix-find_map dir e =
      rw (e, locate_process_by_exec_suffix)
        (ap (process_or (not_found dir.batches_end)) (check_batches-find_map dir.batches))

  -- A process that an entry of /proc with that name stands for.
  pub record IsProcess (name : Bytes) (p : ProcessDetails) : Type 0 where
    pub pid : ℤ
    pub name_is_pid : atoi name ≡ some pid
    pub pid_kept : p.pid ≡ to_i32 pid
    pub text : Bytes
    pub read : host.read_file (path_join (proc_dir_name ∷ name ∷ codes "cmdline" ∷ [])) ≡ ok text
    pub args_spell : join p.cmd_line (0 ∷ []) ≡ text
    pub exec : Bytes
    pub args : List Bytes
    pub exec_first : p.cmd_line ≡ exec ∷ args
    pub exec_given : exec ≢ []
    pub before : Bytes
    pub has_suffix : exec_name exec ≡ before ++ suffix

  -- An executable with the suffix is given, and stands first.
  exec_matches_sound :
      (args : List Bytes)
      → exec_matches suffix args ≡ true
      → (exec : Bytes) × (rest : List Bytes) × (before : Bytes) × (args ≡ exec ∷ rest)
        × (exec ≢ [])
        × (exec_name exec ≡ before ++ suffix)
  unfolding exec_matches
  exec_matches_sound [] h = cc
  exec_matches_sound ([] ∷ args) h = cc
  exec_matches_sound ((c ∷ s) ∷ args) h =
      let (before, e) = has_suffix_sound (exec_name (c ∷ s)) suffix h in
      (c ∷ s, args, before, refl, λ q. cc q, e)

  matched :
      (text : Bytes) (pid : ℤ) (p : ProcessDetails)
      → (if exec_matches suffix (split 0 text)
          then some (record { cmd_line = split 0 text; pid = pid })
          else none)
        ≡ some p
      → (exec_matches suffix (split 0 text) ≡ true)
        × (record { cmd_line = split 0 text; pid = pid } ≡ p)
  matched text pid p h = if_some_inv (exec_matches suffix (split 0 text)) _ p h

  check_entry_read :
      (name text : Bytes) (pid : ℤ) (p : ProcessDetails)
      → atoi name ≡ some pid
      → host.read_file (path_join (proc_dir_name ∷ name ∷ codes "cmdline" ∷ [])) ≡ ok text
      → check_entry host suffix name ≡ some p
      → IsProcess name p
  unfolding check_entry
  check_entry_read name text pid p a r h =
      let (m, e) = matched text (to_i32 pid) p (rw (a, r, check_entry) at h) in
      let (exec, rest, before, f, g, t) = exec_matches_sound (split 0 text) m in
      record {
        pid = pid;
        name_is_pid = a;
        pid_kept = ap (λ q. q.pid) (sym e);
        text = text;
        read = r;
        args_spell = ap (λ q. join q.cmd_line (0 ∷ [])) (sym e) ∙ join-split 0 text;
        exec = exec;
        args = rest;
        exec_first = ap (λ q. q.cmd_line) (sym e) ∙ f;
        exec_given = g;
        before = before;
        has_suffix = t;
      }

  check_entry_sound :
      (name : Bytes) (p : ProcessDetails) → check_entry host suffix name ≡ some p → IsProcess name p
  unfolding check_entry
  check_entry_sound name p h = elim (Option-cases (atoi name)) [
    | inl e ↦ absurd (cc (rw (e, check_entry) at h))
    | inr (pid, a) ↦
        elim (Result-cases
          (host.read_file (path_join (proc_dir_name ∷ name ∷ codes "cmdline" ∷ [])))) [
            | inl (e, r) ↦ absurd (cc (rw (a, r, check_entry) at h))
            | inr (text, r) ↦ check_entry_read name text pid p a r h
          ]
  ]

  -- A process that is returned stands for an entry of /proc: the entry is named by its pid, its
  -- arguments put together with NUL bytes are the text of the cmdline file, and its executable is
  -- given and ends in the suffix, a slash put in front where the code puts one.
  pub locate_process_by_exec_suffix_sound :
      (p : ProcessDetails)
      → locate_process_by_exec_suffix host suffix ≡ ok p
      → (name : Bytes) × IsProcess name p
  unfolding locate_process_by_exec_suffix
  locate_process_by_exec_suffix_sound p h = elim (Result-cases (host.open_file proc_dir_name)) [
    | inl (e, o) ↦ absurd (cc (rw (o, locate_process_by_exec_suffix) at h))
    | inr (dir, o) ↦
        let found = find_map (check_entry host suffix) (flatten dir.batches) in
        let h' : process_or (not_found dir.batches_end) found ≡ ok p =
          sym (locate_process_by_exec_suffix-find_map dir o) ∙ h in
        elim (Option-cases found) [
          | inl e ↦ absurd (cc (rw e at h'))
          | inr (q, e) ↦
              let (name, n) = find_map_sound (check_entry host suffix) (flatten dir.batches) q e in
              (name, check_entry_sound name p (n ∙ ap some (ok-injective (rw e at h'))))
        ]
  ]
