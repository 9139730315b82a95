-- ===== src/Prelude/Bytes/Space.antt =====
-- `bytes.TrimSpace`: white space as `unicode.IsSpace` has it, in UTF-8.
use Prim.Native.Nat.{ℕ, zero, suc, ◌-◌}
use mathlib.Core.Bool.{Bool, ◌&&◌, ◌||◌}
use mathlib.Core.List.{[], ◌∷◌, reverse}
use host_scanner.Prelude.Tests.{◌==◌, leb, if◌then◌else◌}
use host_scanner.Prelude.Bytes.{Bytes}

is_space : ℕ → Bool
is_space c = c == 0x20 || (leb 9 c && leb c 13)

-- U+0085 and U+00A0.
is_space₂ : ℕ → ℕ → Bool
is_space₂ a b = a == 0xc2 && (b == 0x85 || b == 0xa0)

-- U+1680, U+2000 to U+200A, U+2028, U+2029, U+202F, U+205F and U+3000.
is_space₃ : ℕ → ℕ → ℕ → Bool
is_space₃ a b c =
    (a == 0xe1 && b == 0x9a && c == 0x80)
    || (a == 0xe2 && b == 0x80 && (leb 0x80 c && leb c 0x8a || c == 0xa8 || c == 0xa9 || c == 0xaf))
    || (a == 0xe2 && b == 0x81 && c == 0x9f)
    || (a == 0xe3 && b == 0x80 && c == 0x80)

-- The width of the white space at the front of a text, 0 for none.
space_width : Bytes → ℕ
unfolding is_space is_space₂ is_space₃
space_width [] = 0
space_width (a ∷ []) = if is_space a then 1 else 0
space_width (a ∷ b ∷ []) = if is_space a then 1 else if is_space₂ a b then 2 else 0
space_width (a ∷ b ∷ c ∷ s) =
    if is_space a then 1 else if is_space₂ a b then 2 else if is_space₃ a b c then 3 else 0

-- The same at the back, on the reversed text.
space_width_back : Bytes → ℕ
unfolding is_space is_space₂ is_space₃
space_width_back [] = 0
space_width_back (a ∷ []) = if is_space a then 1 else 0
space_width_back (b ∷ a ∷ []) = if is_space b then 1 else if is_space₂ a b then 2 else 0
space_width_back (c ∷ b ∷ a ∷ s) =
    if is_space c then 1 else if is_space₂ b c then 2 else if is_space₃ a b c then 3 else 0

-- Drops white space as `width` finds it; the number counts the bytes of a space still to drop.
trim_front : (Bytes → ℕ) → ℕ → Bytes → Bytes
trim_front width k [] = []
trim_front width (suc k) (c ∷ s) = trim_front width k s
trim_front width zero (c ∷ s) =
    let rest = trim_front width (width (c ∷ s) - 1) s in if width (c ∷ s) == 0 then c ∷ s else rest

unfoldable pub trim_space : Bytes → Bytes
unfolding trim_front space_width space_width_back
trim_space s = reverse (trim_front space_width_back 0 (reverse (trim_front space_width 0 s)))
