-- ===== src/Prelude/Dict.antt =====
-- Go maps with string keys as association lists, and their laws.
use mathlib.Core.Path.{◌≡◌, refl, ap₂, subst}
use mathlib.Core.Logic.{inl, inr}
use mathlib.Core.Option.{Option, none, some}
use mathlib.Core.List.{List, [], ◌∷◌}
use native.Mathlib.Omega.{arith}
use host_scanner.Prelude.Tests.{if◌then◌else◌, Bool-cases, some_inv}
use host_scanner.Prelude.Lists.{All}
use host_scanner.Prelude.Bytes.{Bytes, bytes_eq}
use host_scanner.Prelude.Bytes.Laws.{bytes_eq_iff}

abbrev pub Dict {ℓ} : Type ℓ → Type ℓ
Dict V = List (Bytes × V)

module _ {ℓ} {V : Type ℓ} where
  -- `m[k]` with its second result.
  unfoldable pub lookup : Bytes → Dict V → Option V
  lookup k [] = none
  lookup k ((j, v) ∷ m) = if bytes_eq j k then some v else lookup k m

  -- `m[k] = v`.
  unfoldable pub insert : Bytes → V → Dict V → Dict V
  insert k v [] = (k, v) ∷ []
  insert k v ((j, w) ∷ m) = if bytes_eq j k then (j, v) ∷ m else (j, w) ∷ insert k v m

  pub lookup-insert :
      (k j : Bytes) (v : V) (m : Dict V)
      → lookup j (insert k v m) ≡ (if bytes_eq k j then some v else lookup j m)
  unfolding lookup insert
  lookup-insert k j v [] = refl
  lookup-insert k j v ((i, w) ∷ m) =
      ground (arith, bytes_eq_iff k j, bytes_eq_iff i k, bytes_eq_iff i j, lookup-insert k j v m)

  -- What is looked up has the property that all members have.
  pub lookup-All {κ} :
      (P : Bytes × V → Type κ) (k : Bytes) (v : V) (m : Dict V)
      → All P m
      → lookup k m ≡ some v
      → P (k, v)
  unfolding lookup
  lookup-All P k v [] h e = absurd (cc)
  lookup-All P k v ((j, w) ∷ m) h e = elim (Bool-cases (bytes_eq j k)) [
    | inl b ↦
        subst P (ap₂ (λ i u. (i, u)) ((bytes_eq_iff j k).0 b) (some_inv (rw (b, lookup) at e))) h.0
    | inr b ↦ lookup-All P k v m h.1 (rw (b, lookup) at e)
  ]
