-- ===== src/Http/Logged.antt =====
-- What the handlers write on a `bodyLogWriter` is kept in its buffer.
use host_scanner.Prelude.{
  ℕ, ◌≡◌, refl, sym, ap, ◌∙◌, inl, inr, Bool, true, false, Option, none, some, [], ◌++◌,
  append_assoc, append-nil, Option-cases,
}
use host_scanner.Prelude.Bytes.{Bytes}
use host_scanner.GoError.{
  SenseError, sense_error, GoError, eof, not_exist, failure, wrap, sense, Result, ok, err,
}
use host_scanner.Http.{
  Writer, set_content_type, write_header, write_buffer, write, http_error, healthz_handler,
  readyz_handler, respond_error, generic_sensor_handler, file_handler,
}

-- The same bytes are put behind the body and behind the buffer, if there is one.
pub record IsWritten (w x : Writer) : Type 0 where
  pub bytes : Bytes
  pub body : x.body ≡ w.body ++ bytes
  pub res_body : x.res_body ≡ write_buffer bytes w.res_body

write_buffer_nil : (o : Option Bytes) → o ≡ write_buffer [] o
write_buffer_nil none = refl
write_buffer_nil (some b) = ap some (sym (append-nil b))

write_buffer_append :
    (a b : Bytes) (o : Option Bytes) → write_buffer b (write_buffer a o) ≡ write_buffer (a ++ b) o
write_buffer_append a b none = refl
write_buffer_append a b (some c) = ap some (append_assoc c a b)

pub same-IsWritten : (w x : Writer) → x.body ≡ w.body → x.res_body ≡ w.res_body → IsWritten w x
same-IsWritten w x e f = record {
  bytes = [];
  body = e ∙ sym (append-nil w.body);
  res_body = f ∙ write_buffer_nil w.res_body;
}

pub then-IsWritten : {w x y : Writer} → IsWritten w x → IsWritten x y → IsWritten w y
then-IsWritten {w} {x} {y} a b = record {
  bytes = a.bytes ++ b.bytes;
  body = b.body ∙ (ap (λ c. c ++ b.bytes) a.body ∙ append_assoc w.body a.bytes b.bytes);
  res_body =
      b.res_body
      ∙ (ap (write_buffer b.bytes) a.res_body ∙ write_buffer_append a.bytes b.bytes w.res_body);
}

pub write_header-IsWritten : (code : ℕ) (w : Writer) → IsWritten w (write_header code w)
unfolding write_header
write_header-IsWritten code w = elim (Option-cases w.code) [
  | inl n ↦ same-IsWritten w (write_header code w) (rw n refl) (rw n refl)
  | inr (c, n) ↦ same-IsWritten w (write_header code w) (rw n refl) (rw n refl)
]

pub write-IsWritten : (bytes : Bytes) (w : Writer) → IsWritten w (write bytes w)
unfolding write
write-IsWritten bytes w =
    then-IsWritten (write_header-IsWritten 200 w)
      (record { bytes = bytes; body = refl; res_body = refl })

pub set_content_type-IsWritten : (t : Bytes) (w : Writer) → IsWritten w (set_content_type t w)
set_content_type-IsWritten t w = same-IsWritten w _ refl refl

-- A status, and then some bytes.
response-IsWritten :
    (code : ℕ) (bytes : Bytes) (w : Writer) → IsWritten w (write bytes (write_header code w))
response-IsWritten code bytes w =
    then-IsWritten (write_header-IsWritten code w) (write-IsWritten bytes (write_header code w))

pub http_error-IsWritten :
    (message : Bytes) (code : ℕ) (w : Writer) → IsWritten w (http_error message code w)
unfolding http_error
http_error-IsWritten message code w =
    then-IsWritten (set_content_type-IsWritten _ w) (response-IsWritten code _ _)

pub healthz_handler-IsWritten : (w : Writer) → IsWritten w (healthz_handler w)
unfolding healthz_handler
healthz_handler-IsWritten w =
    then-IsWritten (write_header-IsWritten 200 w)
      (then-IsWritten (set_content_type-IsWritten _ _) (write-IsWritten _ _))

pub readyz_handler-IsWritten : (b : Option Bool) (w : Writer) → IsWritten w (readyz_handler b w)
unfolding readyz_handler
readyz_handler-IsWritten none w = http_error-IsWritten _ 503 w
readyz_handler-IsWritten (some false) w = http_error-IsWritten _ 503 w
readyz_handler-IsWritten (some true) w =
    then-IsWritten (write_header-IsWritten 200 w)
      (then-IsWritten (set_content_type-IsWritten _ _) (write-IsWritten _ _))

pub file_handler-IsWritten :
    (message : Bytes) (r : Result Bytes) (w : Writer) → IsWritten w (file_handler message r w)
unfolding file_handler
file_handler-IsWritten message (err e) w = http_error-IsWritten _ 500 w
file_handler-IsWritten message (ok content) w = response-IsWritten 200 content w

module _ {A : Type 0} (encode : A → Bytes) (encode_sense : SenseError → Bytes) where
  respond_error-IsWritten :
      (name : Bytes) (e : GoError) (w : Writer)
      → IsWritten w (respond_error encode encode_sense name e w)
  unfolding respond_error
  respond_error-IsWritten name (sense (sense_error e m f c)) w = response-IsWritten c _ w
  respond_error-IsWritten name eof w = http_error-IsWritten _ 500 w
  respond_error-IsWritten name (not_exist t) w = http_error-IsWritten _ 500 w
  respond_error-IsWritten name (failure t) w = http_error-IsWritten _ 500 w
  respond_error-IsWritten name (wrap t e) w = http_error-IsWritten _ 500 w

  pub generic_sensor_handler-IsWritten :
      (r : Result A) (name : Bytes) (w : Writer)
      → IsWritten w (generic_sensor_handler encode encode_sense r name w)
  unfolding generic_sensor_handler
  generic_sensor_handler-IsWritten (ok resp) name w = response-IsWritten 200 _ w
  generic_sensor_handler-IsWritten (err e) name w = respond_error-IsWritten name e w
