-- ===== src/Prelude/Bytes.antt =====
-- Go strings and byte slices as lists of bytes, with the functions of the packages `bytes` and
-- `strings` that the program calls. Their laws stand in the child modules.
pub mod Space
pub mod Laws
pub mod Cuts
use Prim.Native.Char.{code}
use Prim.Native.String.{String}
use Prim.Native.Nat.{ℕ, zero, suc, ◌+◌, ◌-◌}
use mathlib.Core.Bool.{Bool, true, false, ◌&&◌, ◌||◌}
use mathlib.Core.Option.{Option, none, some}
use mathlib.Core.List.{List, [], ◌∷◌, ◌++◌}
use host_scanner.Prelude.Tests.{◌==◌, leb, if◌then◌else◌}
use host_scanner.Prelude.Lists.{length, drop}

abbrev pub Bytes : Type 0
Bytes = List ℕ

-- The code points of a literal, which are its bytes when the text is ASCII.
abbrev pub codes : String → Bytes
codes String.[] = []
codes (String.◌∷◌ c s) = code c ∷ codes s

-- `a == b` on strings, `bytes.Equal`.
unfoldable pub bytes_eq : Bytes → Bytes → Bool
bytes_eq [] [] = true
bytes_eq [] (b ∷ bs) = false
bytes_eq (a ∷ as_) [] = false
bytes_eq (a ∷ as_) (b ∷ bs) = a == b && bytes_eq as_ bs

-- `strings.HasPrefix(s, p)`.
unfoldable pub has_prefix : Bytes → Bytes → Bool
has_prefix s [] = true
has_prefix [] (p ∷ ps) = false
has_prefix (c ∷ s) (p ∷ ps) = c == p && has_prefix s ps

-- `strings.HasSuffix(s, p)`: `len(s) >= len(p) && s[len(s)-len(p):] == p`.
unfoldable pub has_suffix : Bytes → Bytes → Bool
unfolding bytes_eq
has_suffix s p = leb (length p) (length s) && bytes_eq (drop (length s - length p) s) p

-- `bytes.Contains(s, sub)`.
unfoldable pub contains : Bytes → Bytes → Bool
unfolding has_prefix
contains [] sub = has_prefix [] sub
contains (c ∷ s) sub = has_prefix (c ∷ s) sub || contains s sub

-- `bytes.Count(s, []byte{c})`.
unfoldable pub count : ℕ → Bytes → ℕ
count c [] = 0
count c (d ∷ s) = (if d == c then 1 else 0) + count c s

-- `strings.Cut(s, sep)`, `none` when the separator is not found.
unfoldable pub cut : ℕ → Bytes → Option (Bytes × Bytes)
cut sep [] = none
cut sep (c ∷ s) =
    if c == sep
    then some ([], s)
    else elim (cut sep s) [ none ↦ none | some (b, a) ↦ some (c ∷ b, a) ]

-- The parts of a text after at most `k` cuts: `strings.SplitN(s, sep, k+1)`.
unfoldable pub split_cuts : ℕ → ℕ → Bytes → List Bytes
unfolding cut
split_cuts sep zero s = s ∷ []
split_cuts sep (suc k) s = elim (cut sep s) [ none ↦ s ∷ [] | some (b, a) ↦ b ∷ split_cuts sep k a ]

abbrev pub push : ℕ → List Bytes → List Bytes
push c [] = (c ∷ []) ∷ []
push c (p ∷ ps) = (c ∷ p) ∷ ps

-- `bytes.Split(s, []byte{sep})`: always at least one part.
unfoldable pub split : ℕ → Bytes → List Bytes
split sep [] = [] ∷ []
split sep (c ∷ s) = let rest = split sep s in if c == sep then [] ∷ rest else push c rest

-- `strings.Join(parts, sep)`.
unfoldable pub join : List Bytes → Bytes → Bytes
join [] sep = []
join (p ∷ []) sep = p
join (p ∷ q ∷ ps) sep = p ++ (sep ++ join (q ∷ ps) sep)
