-- ===== src/Prelude/Bytes/Laws.antt =====
-- Equality, prefixes, suffixes, substrings and counts of bytes.
use Prim.Native.Nat.{ℕ, ◌+◌, ◌-◌}
use mathlib.Core.Path.{◌≡◌, refl, sym, ap, ap₂, ◌∙◌}
use mathlib.Core.Logic.{◌↔◌}
use mathlib.Core.Bool.{true}
use mathlib.Core.List.{[], ◌∷◌, ◌++◌}
use native.Mathlib.Omega.{arith}
use host_scanner.Prelude.Tests.{◌==◌, leb, ==_iff, ==_self, &&_iff, le→leb}
use host_scanner.Prelude.Lists.{
  length, drop, take, length-append, drop-length-append, take-append-drop,
}
use host_scanner.Prelude.Bytes.{Bytes, bytes_eq, has_prefix, has_suffix, contains, count}

pub bytes_eq_sound : (a b : Bytes) → bytes_eq a b ≡ true → a ≡ b
unfolding bytes_eq
bytes_eq_sound [] [] h = refl
bytes_eq_sound [] (b ∷ bs) h = cc
bytes_eq_sound (a ∷ xs) [] h = cc
bytes_eq_sound (a ∷ xs) (b ∷ bs) h =
    let (h₁, h₂) = (&&_iff (a == b) (bytes_eq xs bs)).0 h in
    ap₂ (λ c s. c ∷ s) ((==_iff a b).0 h₁) (bytes_eq_sound xs bs h₂)

pub bytes_eq_self : (a : Bytes) → bytes_eq a a ≡ true
unfolding bytes_eq
bytes_eq_self [] = refl
bytes_eq_self (a ∷ xs) = rw (==_self a, bytes_eq_self xs)

pub bytes_eq_iff : (a b : Bytes) → (bytes_eq a b ≡ true) ↔ (a ≡ b)
bytes_eq_iff a b = (bytes_eq_sound a b, λ e. rw e (bytes_eq_self b))

pub has_prefix-append : (p s : Bytes) → has_prefix (p ++ s) p ≡ true
unfolding has_prefix
has_prefix-append [] [] = refl
has_prefix-append [] (c ∷ s) = refl
has_prefix-append (c ∷ p) s = rw (==_self c, has_prefix-append p s)

-- A prefix is cut off by dropping its length.
pub has_prefix_sound : (s p : Bytes) → has_prefix s p ≡ true → s ≡ p ++ drop (length p) s
unfolding has_prefix
has_prefix_sound [] [] h = refl
has_prefix_sound (c ∷ s) [] h = refl
has_prefix_sound [] (d ∷ p) h = cc
has_prefix_sound (c ∷ s) (d ∷ p) h =
    let (h₁, h₂) = (&&_iff (c == d) (has_prefix s p)).0 h in
    ap₂ (λ c s. c ∷ s) ((==_iff c d).0 h₁) (has_prefix_sound s p h₂)

pub has_suffix-append : (s p : Bytes) → has_suffix (s ++ p) p ≡ true
unfolding has_suffix
has_suffix-append s p =
    let e : length (s ++ p) - length p ≡ length s = omega (arith, length-append {0} s p) in
    let l : leb (length p) (length (s ++ p)) ≡ true =
      le→leb _ _ (omega (arith, length-append {0} s p)) in
    rw (l, e, drop-length-append) (bytes_eq_self p)

pub has_suffix_sound : (s p : Bytes) → has_suffix s p ≡ true → (r : Bytes) × (s ≡ r ++ p)
unfolding has_suffix
has_suffix_sound s p h =
    let n = length s - length p in
    let (_, h₂) = (&&_iff (leb (length p) (length s)) (bytes_eq (drop n s) p)).0 h in
    (
      take n s,
      sym (take-append-drop n s) ∙ ap (λ r. take n s ++ r) (bytes_eq_sound (drop n s) p h₂),
    )

pub contains-append : (p sub s : Bytes) → contains (p ++ (sub ++ s)) sub ≡ true
unfolding contains
contains-append [] [] [] = refl
contains-append [] [] (c ∷ s) = refl
contains-append [] (d ∷ sub) s = rw (==_self d, has_prefix-append sub s)
contains-append (c ∷ p) sub s = ground (arith, contains-append p sub s)

pub count-append : (c : ℕ) (s t : Bytes) → count c (s ++ t) ≡ count c s + count c t
unfolding count
count-append c [] t = omega arith
count-append c (d ∷ s) t = ground (arith, count-append c s t)
