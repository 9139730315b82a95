-- ===== src/GoError.antt =====
-- Errors as values: the `error` interface, the errors of the operating system that the program
-- tells apart, `fmt.Errorf`, and `SenseError` with its methods (sensor/error.go).
use host_scanner.Prelude.{
  ℕ, ◌≡◌, refl, ap, ◌⊎◌, inl, inr, Bool, true, false, ◌&&◌, Option, none, some, ◌++◌, [],
}
use host_scanner.Prelude.{◌==◌}
use host_scanner.Prelude.Bytes.{Bytes, codes, bytes_eq}

mutual
  pub data GoError : Type 0 where
    -- `io.EOF`
    eof : GoError
    -- an error for which `os.IsNotExist` holds, with its text
    not_exist : Bytes → GoError
    -- any other error without a cause, with its text
    failure : Bytes → GoError
    -- `fmt.Errorf` with `%w`: the text before the cause, and the cause
    wrap : Bytes → GoError → GoError
    sense : SenseError → GoError

  -- The wrapped error, the message, the function and the code.
  pub data SenseError : Type 0 where
    sense_error : Inner → Bytes → Bytes → ℕ → SenseError

  -- An `error` that may be nil.
  pub data Inner : Type 0 where
    no_error : Inner
    an_error : GoError → Inner

unfoldable mutual
  -- `err.Error()`.
  pub error_text : GoError → Bytes
  error_text eof = codes "EOF"
  error_text (not_exist t) = t
  error_text (failure t) = t
  error_text (wrap t e) = t ++ error_text e
  error_text (sense e) = sense_text e

  -- `(*SenseError).Error`.
  pub sense_text : SenseError → Bytes
  sense_text (sense_error e massage function code) = massage ++ (codes " " ++ inner_text e)

  pub inner_text : Inner → Bytes
  inner_text no_error = []
  inner_text (an_error e) = error_text e

-- `(*SenseError).Unwrap`.
unfoldable pub sense_unwrap : SenseError → Inner
sense_unwrap (sense_error e massage function code) = e

-- `(*SenseError).Is`: the message and the code decide.
unfoldable pub sense_is : SenseError → GoError → Bool
sense_is (sense_error _ massage _ code) (sense (sense_error _ massage' _ code')) =
    bytes_eq massage massage' && code == code'
sense_is s e = false

-- `errors.Is(err, io.EOF)`: an error of the chain is `io.EOF`.
unfoldable mutual
  pub is_eof : GoError → Bool
  is_eof eof = true
  is_eof (not_exist t) = false
  is_eof (failure t) = false
  is_eof (wrap t e) = is_eof e
  is_eof (sense e) = sense_is_eof e

  pub sense_is_eof : SenseError → Bool
  sense_is_eof (sense_error e massage function code) = inner_is_eof e

  pub inner_is_eof : Inner → Bool
  inner_is_eof no_error = false
  inner_is_eof (an_error e) = is_eof e

-- `os.IsNotExist`, which does not look through wrapped errors.
unfoldable pub is_not_exist : GoError → Bool
is_not_exist (not_exist t) = true
is_not_exist e = false

-- `fmt.Errorf(text + "%v", err)`: the text of the cause, without the cause.
abbrev pub errorf : Bytes → GoError → GoError
errorf t e = failure (t ++ error_text e)

-- A value or an error.
pub data Result {ℓ} (A : Type ℓ) : Type ℓ where
  ok : A → Result A
  err : GoError → Result A

infixl 5 ◌>>=◌
abbrev pub ◌>>=◌ {ℓ κ} : {A : Type ℓ} {B : Type κ} → Result A → (A → Result B) → Result B
ok a >>= f = f a
err e >>= f = err e

-- The error of a result passed on under a function.
abbrev pub map_error {ℓ} : {A : Type ℓ} → (GoError → GoError) → Result A → Result A
map_error f (ok a) = ok a
map_error f (err e) = err (f e)

abbrev pub get_ok {ℓ} : {A : Type ℓ} → Result A → Option A
get_ok (ok a) = some a
get_ok (err e) = none

pub Result-cases {ℓ} :
    {A : Type ℓ} (r : Result A) → ((e : GoError) × (r ≡ err e)) ⊎ ((a : A) × (r ≡ ok a))
Result-cases (ok a) = inr (a, refl)
Result-cases (err e) = inl (e, refl)

pub ok-injective {ℓ} : {A : Type ℓ} {a b : A} → Result.ok a ≡ Result.ok b → a ≡ b
ok-injective {a} e = ap (λ r. elim r [ ok c ↦ c | err _ ↦ a ]) e
