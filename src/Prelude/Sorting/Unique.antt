-- ===== src/Prelude/Sorting/Unique.antt =====
-- A sorted list does not depend on the order of the list that was sorted.
use mathlib.Core.Logic.{∥∥₁_elim}
use mathlib.Core.List as List
use mathlib.Core.List.{Perm, Permᴰ}
use mathlib.Core.List.Permᴰ
use native.Mathlib.Nat.{ℕ_set}
use host_scanner.Prelude.{◌≡◌, refl, ap, ◌∙◌, true, List, [], ◌∷◌, arith}
use host_scanner.Prelude.Bytes.{Bytes}
use host_scanner.Prelude.Sorting.{bytes_le, bytes_le_total, insert_by, sort_by, sort_strings}

bytes_le_antisym : (a b : Bytes) → bytes_le a b ≡ true → bytes_le b a ≡ true → a ≡ b
unfolding bytes_le
bytes_le_antisym [] [] h k = refl
bytes_le_antisym [] (y ∷ b) h k = absurd (cc)
bytes_le_antisym (x ∷ a) [] h k = absurd (cc)
bytes_le_antisym (x ∷ a) (y ∷ b) h k =
    let (e, h', k') : (x ≡ y) × (bytes_le a b ≡ true) × (bytes_le b a ≡ true) =
      ground (arith, h, k) in
    cc (e, bytes_le_antisym a b h' k')

bytes_le_trans : (a b c : Bytes) → bytes_le a b ≡ true → bytes_le b c ≡ true → bytes_le a c ≡ true
unfolding bytes_le
bytes_le_trans [] b c h k = refl
bytes_le_trans (x ∷ a) [] c h k = absurd (cc)
bytes_le_trans (x ∷ a) (y ∷ b) [] h k = absurd (cc)
bytes_le_trans (x ∷ a) (y ∷ b) (z ∷ c) h k = ground (arith, bytes_le_trans a b c)

insert_by_comm :
    (x y : Bytes) (zs : List Bytes)
    → insert_by bytes_le x (insert_by bytes_le y zs)
      ≡ insert_by bytes_le y (insert_by bytes_le x zs)
unfolding insert_by
insert_by_comm x y [] = ground (arith, bytes_le_total x y, bytes_le_antisym x y)
insert_by_comm x y (z ∷ zs) = ground (
  arith,
  bytes_le_total x y,
  bytes_le_antisym x y,
  bytes_le_trans x y z,
  bytes_le_trans y x z,
  insert_by_comm x y zs,
)

sort_by-Permᴰ : {xs ys : List Bytes} → Permᴰ xs ys → sort_by bytes_le xs ≡ sort_by bytes_le ys
unfolding sort_by
sort_by-Permᴰ Permᴰ.nil = refl
sort_by-Permᴰ (Permᴰ.cons {a} {b} {l₁} {l₂} e d) =
    cc (ap (insert_by bytes_le b) (sort_by-Permᴰ d), e)
sort_by-Permᴰ (Permᴰ.swap {a} {b} {a'} {b'} {l} e₁ e₂) =
    cc (insert_by_comm a b (sort_by bytes_le l), e₁, e₂)
sort_by-Permᴰ (Permᴰ.trans d₁ d₂) = sort_by-Permᴰ d₁ ∙ sort_by-Permᴰ d₂

pub sort_strings-Perm : (xs ys : List Bytes) → Perm xs ys → sort_strings xs ≡ sort_strings ys
unfolding sort_strings
sort_strings-Perm xs ys p = ∥∥₁_elim p (List.is_set (List.is_set ℕ_set) _ _) (λ d. sort_by-Permᴰ d)
