-- ===== src/Sensor/Redaction/Tests.antt =====
-- The theorems on secrets at one document.
use host_scanner.Prelude.{◌≡◌, refl, some, List, [], ◌∷◌, ◌++◌}
use host_scanner.Prelude.Bytes.{Bytes, codes, bytes_eq}
use host_scanner.Sensor.Redaction.{
  Value, scalar, items, object, no_items, item, Fields, no_fields, field, redacted,
  remove_encryption_provider_config_secrets,
}
use host_scanner.Sensor.Redaction.Paths.{
  Place, index, key, follow, child, matches, begins, fits, get, nth,
}
use host_scanner.Sensor.Redaction.Laws.{
  remove_encryption_provider_config_secrets_kept, remove_encryption_provider_config_secrets_hides,
}

abbrev one_item : Value → Value
one_item v = items (item v no_items)

abbrev one_field : Bytes → Value → Fields
one_field k v = field k v no_fields

abbrev aes_key : Fields
aes_key =
    field (codes "name") (scalar (codes "key1"))
      (one_field (codes "secret") (scalar (codes "c2VjcmV0")))

abbrev doc : Fields
doc = field (codes "kind") (scalar (codes "EncryptionConfiguration")) (
    one_field (codes "resources") (
      one_item (
        object (
          one_field (codes "providers") (
            one_item (
              object (
                one_field (codes "aescbc")
                  (object (one_field (codes "keys") (one_item (object aes_key)))))))))))

abbrev key_place : List Place
key_place =
    key (codes "resources")
    ∷ index 0
    ∷ key (codes "providers")
    ∷ index 0
    ∷ key (codes "aescbc")
    ∷ key (codes "keys")
    ∷ index 0
    ∷ []

remove_encryption_provider_config_secrets_kept_example :
    follow
      (key_place ++ (key (codes "name") ∷ []))
      (object (remove_encryption_provider_config_secrets doc))
    ≡ some (scalar (codes "key1"))
unfolding begins fits follow child get nth bytes_eq
remove_encryption_provider_config_secrets_kept_example =
    remove_encryption_provider_config_secrets_kept (key_place ++ (key (codes "name") ∷ [])) doc
      (codes "key1") refl refl

remove_encryption_provider_config_secrets_hides_example :
    follow
      (key_place ++ (key (codes "secret") ∷ []))
      (object (remove_encryption_provider_config_secrets doc))
    ≡ some redacted
unfolding matches fits follow child get nth bytes_eq
remove_encryption_provider_config_secrets_hides_example =
    remove_encryption_provider_config_secrets_hides key_place doc aes_key refl refl
