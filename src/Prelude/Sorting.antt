-- ===== src/Prelude/Sorting.antt =====
-- Sorting of texts: `sort.Strings` and `sort.Sort(sort.Reverse(sort.StringSlice(…)))`, whose result
-- is the one ordered arrangement, since equal texts are alike.
pub mod Unique
use mathlib.Core.Path.{◌≡◌, refl}
use mathlib.Core.Bool.{Bool, true, false}
use mathlib.Core.Logic.{inl, inr}
use mathlib.Core.List.{List, [], ◌∷◌, Perm}
use mathlib.Core.List.Perm
use native.Mathlib.Omega.{arith}
use host_scanner.Prelude.Tests.{ltb, if◌then◌else◌, Bool-cases}
use host_scanner.Prelude.Lists.{Any, at_head, behind}
use host_scanner.Prelude.Bytes.{Bytes}

-- The order of Go strings: byte by byte, a prefix first.
unfoldable pub bytes_le : Bytes → Bytes → Bool
bytes_le [] bs = true
bytes_le (a ∷ xs) [] = false
bytes_le (a ∷ xs) (b ∷ bs) = if ltb a b then true else if ltb b a then false else bytes_le xs bs

pub insert_by : (Bytes → Bytes → Bool) → Bytes → List Bytes → List Bytes
insert_by le x [] = x ∷ []
insert_by le x (y ∷ ys) = if le x y then x ∷ y ∷ ys else y ∷ insert_by le x ys

pub sort_by : (Bytes → Bytes → Bool) → List Bytes → List Bytes
sort_by le [] = []
sort_by le (x ∷ xs) = insert_by le x (sort_by le xs)

unfoldable pub sort_strings : List Bytes → List Bytes
unfolding sort_by insert_by bytes_le
sort_strings = sort_by bytes_le

unfoldable pub sort_descending : List Bytes → List Bytes
unfolding sort_by insert_by bytes_le
sort_descending = sort_by (λ a b. bytes_le b a)

insert_by-perm :
    (le : Bytes → Bytes → Bool) (x : Bytes) (ys : List Bytes) → Perm (insert_by le x ys) (x ∷ ys)
unfolding insert_by
insert_by-perm le x [] = Perm.refl (x ∷ [])
insert_by-perm le x (y ∷ ys) = elim (Bool-cases (le x y)) [
  | inl e ↦ rw e (Perm.refl (x ∷ y ∷ ys))
  | inr e ↦ rw e (Perm.trans (Perm.cons y (insert_by-perm le x ys)) (Perm.swap x y ys))
]

sort_by-perm : (le : Bytes → Bytes → Bool) (xs : List Bytes) → Perm (sort_by le xs) xs
unfolding sort_by
sort_by-perm le [] = Perm.refl []
sort_by-perm le (x ∷ xs) =
    Perm.trans (insert_by-perm le x (sort_by le xs)) (Perm.cons x (sort_by-perm le xs))

-- Sorting only changes the order.
pub sort_descending-perm : (xs : List Bytes) → Perm (sort_descending xs) xs
sort_descending-perm xs = unfold sort_descending in sort_by-perm (λ a b. bytes_le b a) xs

pub sort_strings-perm : (xs : List Bytes) → Perm (sort_strings xs) xs
sort_strings-perm xs = unfold sort_strings in sort_by-perm bytes_le xs

insert_by-Any :
    (P : Bytes → Type 0) (le : Bytes → Bytes → Bool) (x : Bytes) (ys : List Bytes)
    → Any P (x ∷ ys)
    → Any P (insert_by le x ys)
unfolding insert_by
insert_by-Any P le x [] a = a
insert_by-Any P le x (y ∷ ys) a = elim (Bool-cases (le x y)) [
  | inl e ↦ rw e a
  | inr e ↦ rw e (swapped a (insert_by-Any P le x ys))
]
  where
    swapped :
        Any P (x ∷ y ∷ ys)
        → (Any P (x ∷ ys) → Any P (insert_by le x ys))
        → Any P (y ∷ insert_by le x ys)
    swapped (at_head p) k = behind (k (at_head p))
    swapped (behind (at_head p)) k = at_head p
    swapped (behind (behind b)) k = behind (k (behind b))

sort_by-Any :
    (P : Bytes → Type 0) (le : Bytes → Bytes → Bool) {xs : List Bytes}
    → Any P xs
    → Any P (sort_by le xs)
unfolding sort_by
sort_by-Any P le (at_head {x} {xs} p) = insert_by-Any P le x (sort_by le xs) (at_head p)
sort_by-Any P le (behind {x} {xs} a) =
    insert_by-Any P le x (sort_by le xs) (behind (sort_by-Any P le a))

-- No text is lost by sorting.
pub sort_strings-Any : (P : Bytes → Type 0) (xs : List Bytes) → Any P xs → Any P (sort_strings xs)
sort_strings-Any P xs a = unfold sort_strings in sort_by-Any P bytes_le a

insert_by-Any_back :
    (P : Bytes → Type 0) (le : Bytes → Bytes → Bool) (x : Bytes) (ys : List Bytes)
    → Any P (insert_by le x ys)
    → Any P (x ∷ ys)
unfolding insert_by
insert_by-Any_back P le x [] a = a
insert_by-Any_back P le x (y ∷ ys) a = elim (Bool-cases (le x y)) [
  | inl e ↦ rw e at a
  | inr e ↦ swapped (rw e at a) (insert_by-Any_back P le x ys)
]
  where
    swapped :
        Any P (y ∷ insert_by le x ys)
        → (Any P (insert_by le x ys) → Any P (x ∷ ys))
        → Any P (x ∷ y ∷ ys)
    swapped (at_head p) k = behind (at_head p)
    swapped (behind b) k = lifted (k b)
      where
        lifted : Any P (x ∷ ys) → Any P (x ∷ y ∷ ys)
        lifted (at_head p) = at_head p
        lifted (behind c) = behind (behind c)

sort_by-Any_back :
    (P : Bytes → Type 0) (le : Bytes → Bytes → Bool) (xs : List Bytes)
    → Any P (sort_by le xs)
    → Any P xs
unfolding sort_by
sort_by-Any_back P le [] a = a
sort_by-Any_back P le (x ∷ xs) a =
    kept (insert_by-Any_back P le x (sort_by le xs) a) (sort_by-Any_back P le xs)
  where
    kept : Any P (x ∷ sort_by le xs) → (Any P (sort_by le xs) → Any P xs) → Any P (x ∷ xs)
    kept (at_head p) k = at_head p
    kept (behind b) k = behind (k b)

-- Nothing is added by sorting.
pub sort_strings-Any_back :
    (P : Bytes → Type 0) (xs : List Bytes) → Any P (sort_strings xs) → Any P xs
sort_strings-Any_back P xs a = unfold sort_strings in sort_by-Any_back P bytes_le xs a

-- Each text is at least the one behind it.
abbrev pub IsDescending : List Bytes → Type 0
IsDescending [] = Unit
IsDescending (x ∷ []) = Unit
IsDescending (x ∷ y ∷ ys) = (bytes_le y x ≡ true) × IsDescending (y ∷ ys)

pub bytes_le_total : (a b : Bytes) → bytes_le a b ≡ false → bytes_le b a ≡ true
unfolding bytes_le
bytes_le_total [] b h = absurd (cc)
bytes_le_total (x ∷ a) [] h = refl
bytes_le_total (x ∷ a) (y ∷ b) h = ground (arith, bytes_le_total a b)

abbrev ge : Bytes → Bytes → Bool
ge a b = bytes_le b a

behind_head :
    (y x z : Bytes) (a b : List Bytes) (t : Bool)
    → bytes_le x y ≡ true
    → bytes_le z y ≡ true
    → IsDescending (if t then x ∷ a else z ∷ b)
    → IsDescending (y ∷ (if t then x ∷ a else z ∷ b))
behind_head y x z a b true hx hz i = (hx, i)
behind_head y x z a b false hx hz i = (hz, i)

insert_by-IsDescending :
    (x : Bytes) (ys : List Bytes) → IsDescending ys → IsDescending (insert_by ge x ys)
unfolding insert_by
insert_by-IsDescending x [] h = tt
insert_by-IsDescending x (y ∷ []) h = elim (Bool-cases (bytes_le y x)) [
  | inl e ↦ rw e (e, tt)
  | inr e ↦ rw e (bytes_le_total y x e, tt)
]
insert_by-IsDescending x (y ∷ z ∷ zs) h = elim (Bool-cases (bytes_le y x)) [
  | inl e ↦ rw e (e, h)
  | inr e ↦ rw e (
      behind_head y x z _ _ (bytes_le z x) (bytes_le_total y x e) h.0
        (insert_by-IsDescending x (z ∷ zs) h.1))
]

sort_by-IsDescending : (xs : List Bytes) → IsDescending (sort_by ge xs)
unfolding sort_by
sort_by-IsDescending [] = tt
sort_by-IsDescending (x ∷ xs) = insert_by-IsDescending x (sort_by ge xs) (sort_by-IsDescending xs)

pub sort_descending-IsDescending : (xs : List Bytes) → IsDescending (sort_descending xs)
sort_descending-IsDescending xs = unfold sort_descending in sort_by-IsDescending xs
