-- ===== src/Sensor/EncryptionConfig.antt =====
-- `makeAPIserverEncryptionProviderConfigFile` of sensor/controlplane.go: what is made of the file
-- that was read.
use host_scanner.Prelude.{Option, none, some, []}
use host_scanner.Prelude.Bytes.{Bytes}
use host_scanner.GoError.{GoError, Result, ok, err}
use host_scanner.Utils.FileInfo.{FileInfo}
use host_scanner.Sensor.Redaction.{Fields, no_fields, remove_encryption_provider_config_secrets}

-- `yaml.Unmarshal` or `json.Unmarshal` into a map, which are not part of the program: the map
-- afterwards, also on an error, and the error.
abbrev pub Unmarshal : Type 0
Unmarshal = Bytes → Fields → Fields × Option GoError

-- The decoders and `yaml.Marshal`.
pub record Codecs : Type 0 where
  pub yaml_unmarshal : Unmarshal
  pub json_unmarshal : Unmarshal
  pub yaml_marshal : Fields → Result Bytes

abbrev pub if_no_error : Fields × Option GoError → Option Fields
if_no_error (doc, none) = some doc
if_no_error (doc, some e) = none

-- JSON is tried on the map that YAML left; its error ends the function.
abbrev pub or_json : Codecs → Bytes → Fields × Option GoError → Option Fields
or_json c content (doc, none) = some doc
or_json c content (doc, some e) = if_no_error (c.json_unmarshal content doc)

unfoldable pub unmarshal_any : Codecs → Bytes → Option Fields
unmarshal_any c content = or_json c content (c.yaml_unmarshal content no_fields)

abbrev pub bytes_of : Option Bytes → Bytes
bytes_of none = []
bytes_of (some content) = content

-- What is shown of the file: its document without the secrets.
unfoldable pub redacted_info : Codecs → Result FileInfo → Option FileInfo
redacted_info c (err e) = none
redacted_info c (ok info) = elim (unmarshal_any c (bytes_of info.content)) [
  | none ↦ none
  | some doc ↦ elim (c.yaml_marshal (remove_encryption_provider_config_secrets doc)) [
    | err e ↦ none
    | ok content ↦ some (record info { content = some content })
  ]
]
