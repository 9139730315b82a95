-- ===== src/Prelude/Bytes/Cuts.antt =====
-- Cutting a text at a separator: what the parts are, and that they spell the text.
use Prim.Native.Nat.{ℕ, zero, suc, ◌<◌, ◌≤◌}
use mathlib.Core.Path.{◌≡◌, refl, sym, ap, ◌∙◌}
use mathlib.Core.Logic.{◌≢◌, inl, inr}
use mathlib.Core.Option.{none, some}
use mathlib.Core.List.{List, [], ◌∷◌, ◌++◌, append_assoc}
use native.Mathlib.Omega.{arith}
use host_scanner.Prelude.Tests.{==_iff, ==_self, Option-cases}
use host_scanner.Prelude.Lists.{length}
use host_scanner.Prelude.Bytes.{Bytes, count, cut, split_cuts, split, push, join}
use host_scanner.Prelude.Bytes.Laws.{count-append}

-- The part at an index, empty out of range.
abbrev pub part : ℕ → List Bytes → Bytes
part i [] = []
part zero (p ∷ ps) = p
part (suc i) (p ∷ ps) = part i ps

module _ (sep : ℕ) where
  -- A cut at the first separator takes the text apart.
  pub cut_sound : (s b a : Bytes) → cut sep s ≡ some (b, a) → (s ≡ b ++ sep ∷ a) × (count sep b ≡ 0)
  unfolding cut count
  cut_sound [] b a h = cc
  cut_sound (c ∷ s) b a h = elim (Option-cases (cut sep s)) [
    | inl e ↦ ground arith
    | inr (p, e) ↦ ground (arith, cut_sound s p.0 p.1)
  ]

  pub cut-none : (s : Bytes) → cut sep s ≡ none → count sep s ≡ 0
  unfolding cut count
  cut-none [] h = refl
  cut-none (c ∷ s) h = ground (arith, cut-none s)

  pub cut_complete : (b a : Bytes) → count sep b ≡ 0 → cut sep (b ++ sep ∷ a) ≡ some (b, a)
  unfolding cut count
  cut_complete [] a h = rw (==_self sep)
  cut_complete (c ∷ b) a h = ground (arith, cut_complete b a)

  pub cut-some :
      (s : Bytes) → 0 < count sep s → (b : Bytes) × (a : Bytes) × (cut sep s ≡ some (b, a))
  cut-some s h = elim (Option-cases (cut sep s)) [
    | inl e ↦ absurd (omega (arith, cut-none s e))
    | inr (p, e) ↦ (p.0, p.1, e)
  ]

  pub cut-count : (s b a : Bytes) → cut sep s ≡ some (b, a) → count sep s ≡ suc (count sep a)
  unfolding count
  cut-count s b a h =
      let (e, z) = cut_sound s b a h in rw e (ground (arith, count-append sep b (sep ∷ a)))

  split_cuts-some :
      (k : ℕ) (s b a : Bytes)
      → cut sep s ≡ some (b, a)
      → split_cuts sep (suc k) s ≡ b ∷ split_cuts sep k a
  unfolding split_cuts
  split_cuts-some k s b a e = rw (e, split_cuts)

  split_cuts-none : (k : ℕ) (s : Bytes) → cut sep s ≡ none → split_cuts sep (suc k) s ≡ s ∷ []
  unfolding split_cuts
  split_cuts-none k s e = rw (e, split_cuts)

  -- With enough separators every cut is made.
  pub length-split_cuts :
      (k : ℕ) (s : Bytes) → k ≤ count sep s → length (split_cuts sep k s) ≡ suc k
  unfolding split_cuts
  length-split_cuts zero s h = refl
  length-split_cuts (suc k) s h =
      let (b, a, e) = cut-some s (omega arith) in
      ap length (split_cuts-some k s b a e)
      ∙ ap suc (length-split_cuts k a (omega (arith, cut-count s b a e)))

  -- The first part ends at a separator.
  pub part_first :
      (k : ℕ) (s : Bytes)
      → 0 < k
      → 0 < count sep s
      → (post : Bytes) × (s ≡ part 0 (split_cuts sep k s) ++ (sep ∷ post))
  part_first zero s hk h = absurd (omega arith)
  part_first (suc k) s hk h =
      let (b, a, e) = cut-some s h in
      (a, (cut_sound s b a e).0 ∙ ap (λ l. part 0 l ++ (sep ∷ a)) (sym (split_cuts-some k s b a e)))

  -- A later part stands between two separators.
  pub part_later :
      (i k : ℕ) (s : Bytes)
      → suc i < k
      → suc i < count sep s
      → (pre : Bytes) × (post : Bytes) × (s
          ≡ pre ++ (sep ∷ (part (suc i) (split_cuts sep k s) ++ (sep ∷ post))))
  part_later i zero s hk h = absurd (omega arith)
  part_later zero (suc k) s hk h =
      let (b, a, e) = cut-some s (omega arith) in
      let (post, e') = part_first k a (omega arith) (omega (arith, cut-count s b a e)) in
      (
        b,
        post,
        (cut_sound s b a e).0
            ∙ ap (λ t. b ++ (sep ∷ t)) e'
            ∙ ap (λ l. b ++ (sep ∷ (part 1 l ++ (sep ∷ post)))) (sym (split_cuts-some k s b a e)),
      )
  part_later (suc i) (suc k) s hk h =
      let (b, a, e) = cut-some s (omega arith) in
      let (pre, post, e') = part_later i k a (omega arith) (omega (arith, cut-count s b a e)) in
      (
        b ++ (sep ∷ pre),
        post,
        (cut_sound s b a e).0
            ∙ ap (λ t. b ++ (sep ∷ t)) e'
            ∙ sym (append_assoc b (sep ∷ pre) _)
            ∙ ap (λ l. (b ++ (sep ∷ pre)) ++ (sep ∷ (part (suc (suc i)) l ++ (sep ∷ post))))
                (sym (split_cuts-some k s b a e)),
      )

  -- A text that begins with a part without separators is cut behind it.
  pub split_cuts-append :
      (k : ℕ) (b a : Bytes)
      → count sep b ≡ 0
      → split_cuts sep (suc k) (b ++ (sep ∷ a)) ≡ b ∷ split_cuts sep k a
  split_cuts-append k b a h = split_cuts-some k _ b a (cut_complete b a h)

  pub count-field : (b a : Bytes) → count sep b ≡ 0 → count sep (b ++ (sep ∷ a)) ≡ suc (count sep a)
  count-field b a h = cut-count _ b a (cut_complete b a h)

  join-push :
      (c : ℕ) (ps : List Bytes) → ps ≢ [] → join (push c ps) (sep ∷ []) ≡ c ∷ join ps (sep ∷ [])
  unfolding join
  join-push c [] h = absurd (h refl)
  join-push c (p ∷ []) h = refl
  join-push c (p ∷ q ∷ ps) h = refl

  pub split-ne-nil : (s : Bytes) → split sep s ≢ []
  unfolding split
  split-ne-nil [] h = cc
  split-ne-nil (c ∷ s) h = ground (arith, split-ne-nil s)

  join_empty_first :
      (ps : List Bytes) → ps ≢ [] → join ([] ∷ ps) (sep ∷ []) ≡ sep ∷ join ps (sep ∷ [])
  unfolding join
  join_empty_first [] h = absurd (h refl)
  join_empty_first (p ∷ ps) h = refl

  -- Joining the parts of a split gives the text back.
  pub join-split : (s : Bytes) → join (split sep s) (sep ∷ []) ≡ s
  unfolding split
  join-split [] = unfold join in refl
  join-split (c ∷ s) = ground (
    arith,
    join-split s,
    join-push c (split sep s) (split-ne-nil s),
    join_empty_first (split sep s) (split-ne-nil s),
    ==_iff c sep,
  )
