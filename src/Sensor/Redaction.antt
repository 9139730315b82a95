-- ===== src/Sensor/Redaction.antt =====
-- `removeEncryptionProviderConfigSecrets` of sensor/controlplane.go: the secrets of an encryption
-- provider configuration are overwritten before the file is shown.
pub mod Paths
pub mod Lifts
pub mod Laws
mod Tests
use host_scanner.Prelude.{Bool, true, false, Option, none, some, List, [], ◌∷◌, if◌then◌else◌}
use host_scanner.Prelude.Bytes.{Bytes, codes, bytes_eq}

-- A decoded document: `map[string]interface{}` is `object`, `[]interface{}` is `items`, and any
-- other value, of which the code looks at nothing, is `scalar`. A decoder makes each map anew, so
-- that no two places share one.
mutual
  pub data Value : Type 0 where
    scalar : Bytes → Value
    items : Items → Value
    object : Fields → Value

  pub data Items : Type 0 where
    no_items : Items
    item : Value → Items → Items

  pub data Fields : Type 0 where
    no_fields : Fields
    field : Bytes → Value → Fields → Fields

-- The code below a type assertion that may fail.
unfoldable pub on_items : (Value → Value) → Items → Items
on_items f no_items = no_items
on_items f (item v vs) = item (f v) (on_items f vs)

abbrev pub if_items : (Value → Value) → Value → Value
if_items f (items vs) = items (on_items f vs)
if_items f (scalar s) = scalar s
if_items f (object fs) = object fs

abbrev pub if_object : (Fields → Fields) → Value → Value
if_object f (object fs) = object (f fs)
if_object f (scalar s) = scalar s
if_object f (items vs) = items vs

-- The value of a key that is there, changed.
unfoldable pub at_key : Bytes → (Value → Value) → Fields → Fields
at_key k f no_fields = no_fields
at_key k f (field k' v fs) =
    let rest = at_key k f fs in if bytes_eq k k' then field k' (f v) fs else field k' v rest

-- Every value, changed.
unfoldable pub every_value : (Value → Value) → Fields → Fields
every_value f no_fields = no_fields
every_value f (field k v fs) = field k (f v) (every_value f fs)

-- `m[k] = v`
unfoldable pub set_key : Bytes → Value → Fields → Fields
set_key k v no_fields = field k v no_fields
set_key k v (field k' w fs) =
    let rest = set_key k v fs in if bytes_eq k k' then field k' v fs else field k' w rest

abbrev pub redacted : Value
redacted = scalar (codes "<REDACTED>")

-- `key["secret"] = "<REDACTED>"`
unfoldable pub redact_key : Value → Value
redact_key = if_object (set_key (codes "secret") redacted)

-- What one value of a provider becomes.
unfoldable pub redact_provider_entry : Value → Value
redact_provider_entry = if_object (at_key (codes "keys") (if_items redact_key))

unfoldable pub redact_provider : Value → Value
redact_provider = if_object (every_value redact_provider_entry)

unfoldable pub redact_resource : Value → Value
redact_resource = if_object (at_key (codes "providers") (if_items redact_provider))

unfoldable pub remove_encryption_provider_config_secrets : Fields → Fields
remove_encryption_provider_config_secrets = at_key (codes "resources") (if_items redact_resource)
