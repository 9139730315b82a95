-- ===== src/Http.antt =====
-- httphandlers.go: the handlers of the endpoints, on a response writer.
pub mod Laws
pub mod Logged
pub mod Versions
mod Tests
use host_scanner.Prelude.{
  ℕ, zero, suc, Bool, true, false, Option, none, some, List, [], ◌∷◌, ◌++◌, if◌then◌else◌,
}
use host_scanner.Prelude.Bytes.{Bytes, codes}
use host_scanner.GoError.{
  GoError, SenseError, sense_error, eof, not_exist, failure, wrap, sense, error_text, Result, ok,
  err,
}

-- `http.ResponseWriter`: the status once it is sent, the content type that is set, the one that was
-- sent with the status, the location of a redirect, and the body. A `bodyLogWriter` has the buffer
-- `resBody` too.
pub record Writer : Type 0 where
  pub code : Option ℕ
  pub content_type : Option Bytes
  pub sent_content_type : Option Bytes
  pub location : Option Bytes
  pub body : Bytes
  pub res_body : Option Bytes

abbrev pub new_writer : Writer
new_writer = record {
  code = none;
  content_type = none;
  sent_content_type = none;
  location = none;
  body = [];
  res_body = none;
}

-- `w.Header().Set("Content-Type", …)`
abbrev pub set_content_type : Bytes → Writer → Writer
set_content_type t w = record w { content_type = some t }

-- `w.WriteHeader(code)`: the headers are sent as they are then; a second call does nothing.
unfoldable pub write_header : ℕ → Writer → Writer
write_header code w = elim w.code [
  | some c ↦ w
  | none ↦ record w { code = some code; sent_content_type = w.content_type }
]

-- Bytes behind those of a buffer, if there is one.
abbrev pub write_buffer : Bytes → Option Bytes → Option Bytes
write_buffer bytes none = none
write_buffer bytes (some b) = some (b ++ bytes)

-- `w.Write(…)`: a `bodyLogWriter` keeps the bytes, and the status 200 is sent if none was.
unfoldable pub write : Bytes → Writer → Writer
write bytes w =
    let w' = write_header 200 w in
    record w' { body = w'.body ++ bytes; res_body = write_buffer bytes w'.res_body }

-- `http.Error`
unfoldable pub http_error : Bytes → ℕ → Writer → Writer
http_error message code w =
    write (message ++ (10 ∷ []))
      (write_header code (set_content_type (codes "text/plain; charset=utf-8") w))

unfoldable pub healthz_handler : Writer → Writer
healthz_handler w =
    write (codes "{\"alive\": true}")
      (set_content_type (codes "application/json") (write_header 200 w))

-- `isReady`, which may be nil.
unfoldable pub readyz_handler : Option Bool → Writer → Writer
readyz_handler none w = http_error (codes "Service Unavailable") 503 w
readyz_handler (some false) w = http_error (codes "Service Unavailable") 503 w
readyz_handler (some true) w =
    write (codes "{\"ready\": true}")
      (set_content_type (codes "application/json") (write_header 200 w))

-- `json.NewEncoder(w).Encode`, which is not modelled: the text of a value.
module _ {A : Type 0} (encode : A → Bytes) (encode_sense : SenseError → Bytes) where
  -- An error that is no `*SenseError` itself is told by its text; the cause is not looked for.
  unfoldable pub respond_error : Bytes → GoError → Writer → Writer
  respond_error sense_name (sense (sense_error e massage function code)) w =
      write (encode_sense (sense_error e massage function code)) (write_header code w)
  respond_error sense_name e w =
      http_error (codes "failed to " ++ (sense_name ++ (codes ": " ++ error_text e))) 500 w

  unfoldable pub generic_sensor_handler : Result A → Bytes → Writer → Writer
  generic_sensor_handler (ok resp) sense_name w = write (encode resp) (write_header 200 w)
  generic_sensor_handler (err e) sense_name w = respond_error sense_name e w

-- `osReleaseHandler` and `kernelVersionHandler`: the content of a file as it is.
unfoldable pub file_handler : Bytes → Result Bytes → Writer → Writer
file_handler message (err e) w = http_error (message ++ error_text e) 500 w
file_handler message (ok content) w = write content (write_header 200 w)

unfoldable pub os_release_handler : Result Bytes → Writer → Writer
os_release_handler = file_handler (codes "failed to SenseOsRelease: ")

unfoldable pub kernel_version_handler : Result Bytes → Writer → Writer
kernel_version_handler = file_handler (codes "failed to sense kernelVersionHandler: ")

-- What `versionHandler` answers, and `BuildVersion` afterwards.
unfoldable pub version_response : Bytes → Result Bytes × Bytes
version_response [] = (err (failure (codes "host scanner BuildVersion is empty")), codes "unknown")
version_response (c ∷ version) = (ok (c ∷ version), c ∷ version)

module _ (encode : Bytes → Bytes) (encode_sense : SenseError → Bytes) where
  unfoldable pub version_handler : Bytes → Writer → Writer × Bytes
  version_handler build_version w =
      let (resp, build_version') = version_response build_version in
      (generic_sensor_handler encode encode_sense resp (codes "VersionHandler") w, build_version')
