-- ===== src/Prelude/Int.antt =====
-- Signed integers over the native numbers, and their decimal text: the parts of `strconv` and of
-- `fmt`'s `%d` that the program calls.
use Prim.Native.Nat.{ℕ, zero, suc, ◌+◌, ◌-◌, ◌*◌, ◌/◌, ◌%◌, ◌^◌}
use mathlib.Core.Path.{◌≡◌, refl}
use mathlib.Core.Bool.{◌&&◌}
use mathlib.Core.Option.{Option, none, some}
use mathlib.Core.List.{[], ◌∷◌}
use host_scanner.Prelude.Tests.{◌==◌, leb, ltb, if◌then◌else◌}
use host_scanner.Prelude.Bytes.{Bytes, codes}

-- `negsuc n` is -(n + 1).
pub data ℤ : Type 0 where
  pos : ℕ → ℤ
  negsuc : ℕ → ℤ

-- -n.
abbrev pub neg : ℕ → ℤ
neg zero = pos 0
neg (suc n) = negsuc n

-- The decimal digits of a number in front of `out`; one round of fuel for each digit.
digits : ℕ → ℕ → Bytes → Bytes
digits zero n out = out
digits (suc fuel) n out =
    let rest = digits fuel (n / 10) ((b'0' + n % 10) ∷ out) in
    if ltb n 10 then (b'0' + n) ∷ out else rest

-- A 64-bit number has at most 20 digits.
unfoldable pub format_int : ℤ → Bytes
unfolding digits
format_int (pos n) = digits 20 n []
format_int (negsuc n) = b'-' ∷ digits 20 (suc n) []

scan : Bytes → ℕ → Option ℕ
scan [] n = some n
scan (c ∷ s) n = if leb b'0' c && leb c b'9' then scan s (n * 10 + (c - b'0')) else none

-- Digits, at least one.
unsigned : Bytes → Option ℕ
unfolding scan
unsigned [] = none
unsigned (c ∷ s) = scan (c ∷ s) 0

at_most : ℕ → (ℕ → ℤ) → Option ℕ → Option ℤ
at_most limit sign none = none
at_most limit sign (some n) = if leb n limit then some (sign n) else none

-- `strconv.Atoi`, and `strconv.ParseInt(s, 10, 0)`: an optional sign, digits, 64 bits.
unfoldable pub atoi : Bytes → Option ℤ
unfolding unsigned at_most
atoi [] = none
atoi (c ∷ s) =
    if c == b'-'
    then at_most (2 ^ 63) neg (unsigned s)
    else at_most (2 ^ 63 - 1) pos (if c == b'+' then unsigned s else unsigned (c ∷ s))

-- The conversion `int32(n)` of a 64-bit number: the residue in [-2^31, 2^31).
signed32 : ℕ → ℤ
signed32 r = if ltb r (2 ^ 31) then pos r else negsuc (2 ^ 32 - 1 - r)

unfoldable pub to_i32 : ℤ → ℤ
unfolding signed32
to_i32 (pos n) = signed32 (n % 2 ^ 32)
to_i32 (negsuc n) = signed32 (2 ^ 32 - 1 - n % 2 ^ 32)

decimal_tests :
    (format_int (pos 1205) ≡ codes "1205")
    × (format_int (negsuc 0) ≡ codes "-1")
    × (atoi (codes "-42") ≡ some (negsuc 41))
    × (atoi (codes "4x") ≡ none)
    × (to_i32 (negsuc 4) ≡ negsuc 4)
    × (to_i32 (pos (2 ^ 31)) ≡ negsuc (2 ^ 31 - 1))
unfolding format_int atoi to_i32
decimal_tests = (refl, refl, refl, refl, refl, refl)
