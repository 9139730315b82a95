-- ===== src/Prelude/Lists.antt =====
-- Lists over the native numbers, predicates on all members, and the search for a first hit.
use Prim.Native.Nat.{ℕ, zero, suc, ◌+◌}
use mathlib.Core.Path.{◌≡◌, refl, ap, ◌∙◌}
use mathlib.Core.List.{List, [], ◌∷◌, ◌++◌}
use mathlib.Core.Option.{Option, none, some}
use mathlib.Core.Logic.{◌⊎◌, inl, inr}
use host_scanner.Prelude.Tests.{Option-cases}
use native.Mathlib.Omega.{arith}

module _ {ℓ} {A : Type ℓ} where
  abbrev pub length : List A → ℕ
  length [] = 0
  length (x ∷ xs) = suc (length xs)

  abbrev pub take : ℕ → List A → List A
  take zero xs = []
  take (suc n) [] = []
  take (suc n) (x ∷ xs) = x ∷ take n xs

  abbrev pub drop : ℕ → List A → List A
  drop zero xs = xs
  drop (suc n) [] = []
  drop (suc n) (x ∷ xs) = drop n xs

  abbrev pub replicate : ℕ → A → List A
  replicate zero a = []
  replicate (suc n) a = a ∷ replicate n a

  pub length-append : (xs ys : List A) → length (xs ++ ys) ≡ length xs + length ys
  length-append [] ys = omega arith
  length-append (x ∷ xs) ys = omega (arith, length-append xs ys)

  pub take-append-drop : (n : ℕ) (xs : List A) → take n xs ++ drop n xs ≡ xs
  take-append-drop zero xs = refl
  take-append-drop (suc n) [] = refl
  take-append-drop (suc n) (x ∷ xs) = ap (λ l. x ∷ l) (take-append-drop n xs)

  pub drop-length-append : (xs ys : List A) → drop (length xs) (xs ++ ys) ≡ ys
  drop-length-append [] ys = refl
  drop-length-append (x ∷ xs) ys = drop-length-append xs ys

module _ {ℓ κ} {A : Type ℓ} (P : A → Type κ) where
  -- Every member has the property.
  abbrev pub All : List A → Type κ
  All [] = Unit
  All (x ∷ xs) = P x × All xs

  pub All-append : (xs ys : List A) → All xs → All ys → All (xs ++ ys)
  All-append [] ys hx hy = hy
  All-append (x ∷ xs) ys hx hy = (hx.0, All-append xs ys hx.1 hy)

module _ {ℓ κ} {A : Type ℓ} (P : A → Type κ) where
  -- A member has the property.
  pub data Any : List A → Type (ℓ ⊔ κ) where
    at_head : {x : A} {xs : List A} → P x → Any (x ∷ xs)
    behind : {x : A} {xs : List A} → Any xs → Any (x ∷ xs)

  pub Any-append : (xs : List A) {ys : List A} → Any (xs ++ ys) → Any xs ⊎ Any ys
  Any-append [] a = inr a
  Any-append (x ∷ xs) (at_head p) = inl (at_head p)
  Any-append (x ∷ xs) (behind a) = elim (Any-append xs a) [ inl h ↦ inl (behind h) | inr h ↦ inr h ]

  pub Any-append_left : {xs : List A} (ys : List A) → Any xs → Any (xs ++ ys)
  Any-append_left ys (at_head p) = at_head p
  Any-append_left ys (behind a) = behind (Any-append_left ys a)

  pub Any-append_right : (xs : List A) {ys : List A} → Any ys → Any (xs ++ ys)
  Any-append_right [] a = a
  Any-append_right (x ∷ xs) a = behind (Any-append_right xs a)

pub Any-map {ℓ κ μ} :
    {A : Type ℓ} (P : A → Type κ) (Q : A → Type μ)
    → ((x : A) → P x → Q x)
    → {xs : List A} → Any P xs
    → Any Q xs
Any-map P Q f (at_head {x} p) = at_head (f x p)
Any-map P Q f (behind a) = behind (Any-map P Q f a)

pub All-map {ℓ κ μ} :
    {A : Type ℓ} (P : A → Type κ) (Q : A → Type μ)
    → ((x : A) → P x → Q x)
    → (xs : List A) → All P xs
    → All Q xs
All-map P Q f [] h = tt
All-map P Q f (x ∷ xs) h = (f x h.0, All-map P Q f xs h.1)

-- The first answer that a partial function gives along a list.
module _ {ℓ κ} {A : Type ℓ} {B : Type κ} (f : A → Option B) where
  unfoldable pub find_map : List A → Option B
  find_map [] = none
  find_map (x ∷ xs) = elim (f x) [ some b ↦ some b | none ↦ find_map xs ]

  pub find_map-append :
      (xs ys : List A)
      → find_map (xs ++ ys) ≡ elim (find_map xs) [ some b ↦ some b | none ↦ find_map ys ]
  unfolding find_map
  find_map-append [] ys = refl
  find_map-append (x ∷ xs) ys = ground (arith, find_map-append xs ys)

  -- What is found is the answer for a member.
  pub find_map_sound : (xs : List A) (b : B) → find_map xs ≡ some b → (x : A) × (f x ≡ some b)
  unfolding find_map
  find_map_sound (x ∷ xs) b h = elim (Option-cases (f x)) [
    | inl e ↦ find_map_sound xs b (rw (e, find_map) at h)
    | inr (c, e) ↦ (x, e ∙ (rw (e, find_map) at h))
  ]
  find_map_sound [] b h = cc
