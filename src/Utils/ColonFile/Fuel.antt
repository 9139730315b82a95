-- ===== src/Utils/ColonFile/Fuel.antt =====
-- Each `ReadLine` takes a byte at least, so the fuel of `chunks` is enough.
use host_scanner.Prelude.{
  ℕ, zero, suc, ◌+◌, ◌<◌, ◌≤◌, ◌≡◌, refl, sym, ap, ◌∙◌, inl, inr, Bool, true, false, none, some, [],
  ◌∷◌, ◌++◌, length, arith, ◌==◌, if◌then◌else◌, Option-cases,
}
use host_scanner.Prelude.Bytes.{Bytes, count}
use host_scanner.Utils.ColonFile.{
  Chunk, SliceEnd, line_feed, full, ended, slice, ends_in_cr, line_of, read_line, chunks,
}

-- How many bytes a slice takes, by its end.
abbrev Taken : ℕ → ℕ → ℕ → ℕ → SliceEnd → Type 0
Taken size s l r line_feed = r < s
Taken size s l r full = (l ≡ size) × (s ≡ l + r)
Taken size s l r ended = (s ≡ l) × (r ≡ 0)

abbrev SliceTaken : ℕ → Bytes → Bytes × Bytes × SliceEnd → Type 0
SliceTaken size s (l, r, e) = Taken size (length s) (length l) (length r) e

SliceTaken-step :
    (size c : ℕ) (s : Bytes) (b : Bool) (t : Bytes × Bytes × SliceEnd)
    → SliceTaken size s t
    → SliceTaken (suc size) (c ∷ s) (if b then ([], s, line_feed) else (c ∷ t.0, t.1, t.2))
SliceTaken-step size c s true t h = omega arith
SliceTaken-step size c s false (l, r, line_feed) h = omega arith
SliceTaken-step size c s false (l, r, full) h = omega arith
SliceTaken-step size c s false (l, r, ended) h = omega arith

slice_taken : (size : ℕ) (s : Bytes) → SliceTaken size s (slice size s)
unfolding slice
slice_taken zero s = omega arith
slice_taken (suc size) [] = omega arith
slice_taken (suc size) (c ∷ s) =
    SliceTaken-step size c s (c == b'\n') (slice size s) (slice_taken size s)

line_of_shorter :
    (size : ℕ) (s l r r' : Bytes) (e : SliceEnd) (c : Chunk)
    → 2 ≤ size
    → SliceTaken size s (l, r, e)
    → line_of l r e ≡ some (c, r')
    → length r' < length s
unfolding line_of
line_of_shorter size s l r r' line_feed c h t eq = ground arith
line_of_shorter size s l r r' full c h t eq = ground arith
line_of_shorter size s [] r r' ended c h t eq = cc
line_of_shorter size s (x ∷ l) r r' ended c h t eq = ground arith

read_line_shorter :
    (size : ℕ) (s r : Bytes) (c : Chunk)
    → 2 ≤ size
    → read_line size s ≡ some (c, r)
    → length r < length s
unfolding read_line
read_line_shorter size s r c h e =
    line_of_shorter size s (slice size s).0 (slice size s).1 r (slice size s).2 c h
      (slice_taken size s) e

chunks_step :
    (size fuel : ℕ) (s r : Bytes) (c : Chunk)
    → read_line size s ≡ some (c, r)
    → chunks size (suc fuel) s ≡ c ∷ chunks size fuel r
unfolding chunks
chunks_step size fuel s r c e = rw (e, chunks)

chunks_stop : (size fuel : ℕ) (s : Bytes) → read_line size s ≡ none → chunks size (suc fuel) s ≡ []
unfolding chunks
chunks_stop size fuel s e = rw (e, chunks)

-- With a buffer of at least two bytes, any two fuels above the number of bytes give the same calls
-- of `ReadLine`.
pub chunks_enough :
    (size fuel fuel' : ℕ) (s : Bytes)
    → 2 ≤ size
    → length s < fuel
    → length s < fuel'
    → chunks size fuel s ≡ chunks size fuel' s
chunks_enough size zero fuel' s h f f' = absurd (omega arith)
chunks_enough size (suc fuel) zero s h f f' = absurd (omega arith)
chunks_enough size (suc fuel) (suc fuel') s h f f' = elim (Option-cases (read_line size s)) [
  | inl e ↦ chunks_stop size fuel s e ∙ sym (chunks_stop size fuel' s e)
  | inr (p, e) ↦
      let l = read_line_shorter size s p.1 p.0 h e in
      chunks_step size fuel s p.1 p.0 e
      ∙ ap (λ cs. p.0 ∷ cs) (chunks_enough size fuel fuel' p.1 h (omega arith) (omega arith))
      ∙ sym (chunks_step size fuel' s p.1 p.0 e)
]

-- A full buffer without a line feed that does not end in a carriage return is a chunk.
slice_full :
    (size : ℕ) (l rest : Bytes)
    → length l ≡ size
    → count b'\n' l ≡ 0
    → slice size (l ++ rest) ≡ (l, rest, full)
unfolding slice count
slice_full zero [] rest e h = refl
slice_full (suc size) [] rest e h = absurd (omega arith)
slice_full zero (c ∷ l) rest e h = absurd (omega arith)
slice_full (suc size) (c ∷ l) rest e h = ground (arith, slice_full size l rest)

line_of_full : (l r : Bytes) → ends_in_cr l ≡ false → line_of l r full ≡ some ((l, true), r)
unfolding line_of
line_of_full l r c = rw c

pub chunks_full :
    (size fuel : ℕ) (l rest : Bytes)
    → length l ≡ size
    → count b'\n' l ≡ 0
    → ends_in_cr l ≡ false
    → chunks size (suc fuel) (l ++ rest) ≡ (l, true) ∷ chunks size fuel rest
unfolding read_line
chunks_full size fuel l rest e h c =
    chunks_step size fuel (l ++ rest) rest (l, true)
      (ap (λ t. line_of t.0 t.1 t.2) (slice_full size l rest e h) ∙ line_of_full l rest c)
