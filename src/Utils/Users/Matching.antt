-- ===== src/Utils/Users/Matching.antt =====
-- What `matchUserIndexValue` and `matchGroupIndexValue` accept.
use host_scanner.Prelude.{
  ℕ, zero, suc, ◌<◌, ◌≤◌, ◌≡◌, sym, ap, subst, ◌∙◌, true, none, List, [], ◌∷◌, ◌++◌, arith, ltb,
  if◌then◌else◌, append_assoc,
}
use host_scanner.Prelude.Bytes.{Bytes, contains, count, split_cuts}
use host_scanner.Prelude.Bytes.Laws.{contains-append, bytes_eq_sound}
use host_scanner.Prelude.Bytes.Cuts.{part, part_first, part_later}
use host_scanner.GoError.{ok}
use host_scanner.Utils.ColonFile.{colon}
use host_scanner.Utils.Users.{
  needle, is_match, group_of, user_of, match_user_index_value, match_group_index_value,
}

needle-suc : (v : Bytes) (i : ℕ) → needle v (suc i) ≡ colon ∷ (v ++ (colon ∷ []))
unfolding needle
needle-suc v i = ground arith

-- A row with enough separators holds the needle of each of its parts.
contains-needle :
    (idx k : ℕ) (line : Bytes)
    → idx < k
    → k ≤ count colon line
    → contains line (needle (part idx (split_cuts colon k line)) idx) ≡ true
unfolding needle
contains-needle zero k line hk hc =
    let v = part 0 (split_cuts colon k line) in
    let (post, e) = part_first colon k line hk (omega arith) in
    subst (λ l. contains l (v ++ (colon ∷ [])) ≡ true) (append_assoc v (colon ∷ []) post ∙ sym e)
      (contains-append [] (v ++ (colon ∷ [])) post)
contains-needle (suc i) k line hk hc =
    let v = part (suc i) (split_cuts colon k line) in
    let n = colon ∷ (v ++ (colon ∷ [])) in
    let (pre, post, e) = part_later colon i k line hk (omega arith) in
    rw (needle-suc v i) (
      subst (λ l. contains l n ≡ true)
        (ap (λ t. pre ++ (colon ∷ t)) (append_assoc v (colon ∷ []) post) ∙ sym e)
        (contains-append pre n post))

-- The parts that are matched hold the value.
is_match-part :
    (value : Bytes) (idx wanted : ℕ) (parts : List Bytes)
    → is_match value idx wanted parts ≡ true
    → part idx parts ≡ value
unfolding is_match
is_match-part value idx wanted parts h = bytes_eq_sound (part idx parts) value (ground arith)

module _ (value : Bytes) (idx : ℕ) (line : Bytes) where
  contains_matched :
      (k wanted : ℕ)
      → idx < k
      → k ≤ count colon line
      → is_match value idx wanted (split_cuts colon k line) ≡ true
      → contains line (needle value idx) ≡ true
  contains_matched k wanted hk hc h =
      subst (λ v. contains line (needle v idx) ≡ true)
        (is_match-part value idx wanted (split_cuts colon k line) h)
        (contains-needle idx k line hk hc)

  -- For an index below 6 the search for the needle decides nothing: a row is matched as its colons
  -- and parts say.
  pub match_user_index_value-user_of :
      idx < 6
      → match_user_index_value value idx line
        ≡ ok
            (if ltb (count colon line) 6 then none else user_of value idx (split_cuts colon 6 line))
  unfolding match_user_index_value user_of
  match_user_index_value-user_of h = ground (arith, contains_matched 6 6 h)

  -- The same for groups, for an index below 3.
  pub match_group_index_value-group_of :
      idx < 3
      → match_group_index_value value idx line
        ≡ ok (
            if ltb (count colon line) 3 then none else group_of value idx (split_cuts colon 3 line))
  unfolding match_group_index_value group_of
  match_group_index_value-group_of h = ground (arith, contains_matched 3 4 h)
