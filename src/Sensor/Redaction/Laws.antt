-- ===== src/Sensor/Redaction/Laws.antt =====
-- What the overwriting of the secrets does to a document.
use host_scanner.Prelude.{
  ◌≡◌, refl, ap, Bool, true, false, some, List, [], ◌∷◌, ◌++◌, some_inv, ◌&&◌,
}
use host_scanner.Prelude.Bytes.{Bytes, codes}
use host_scanner.Sensor.Redaction.{
  scalar, items, object, Fields, redacted, redact_key, redact_provider_entry, redact_provider,
  redact_resource, remove_encryption_provider_config_secrets,
}
use host_scanner.Sensor.Redaction.Paths.{
  Place, index, key, Pattern, any_index, any_key, this_key, fits, matches, begins, follow, child,
  get-set_key, get_other-set_key,
}
use host_scanner.Sensor.Redaction.Lifts.{
  Keeps, Sets, Lifts-Keeps, Lifts-Sets, if_items-Lifts, every_value-Lifts, at_key-Lifts,
}

-- The paths of the keys of a provider: resources[i].providers[j].<name>.keys[k].
abbrev pub key_path : List Pattern
key_path =
    this_key (codes "resources")
    ∷ any_index
    ∷ this_key (codes "providers")
    ∷ any_index
    ∷ any_key
    ∷ this_key (codes "keys")
    ∷ any_index
    ∷ []

-- The paths of the secrets.
abbrev pub secret_path : List Pattern
secret_path = key_path ++ (this_key (codes "secret") ∷ [])

left_of_and : (a : Bool) → (a && true) ≡ false → a ≡ false
left_of_and true h = h
left_of_and false h = h

redact_key-Keeps : Keeps redact_key (this_key (codes "secret") ∷ [])
unfolding redact_key follow begins child fits
redact_key-Keeps [] v s m h = ap some (ap redact_key (some_inv h))
redact_key-Keeps (x ∷ path) (scalar t) s m h = h
redact_key-Keeps (x ∷ path) (items vs) s m h = h
redact_key-Keeps (index n ∷ path) (object fs) s m h = h
redact_key-Keeps (key k ∷ path) (object fs) s m h =
    rw (get_other-set_key (codes "secret") k redacted fs (left_of_and _ m), follow) h

redact_key-Sets : Sets redact_key [] (codes "secret") redacted
unfolding redact_key follow matches child
redact_key-Sets [] v fs m h =
    rw (some_inv h, redact_key, follow) (rw (get-set_key (codes "secret") redacted fs, follow) refl)
redact_key-Sets (x ∷ path) v fs m h = absurd (cc)

-- A text of the document that stands neither at nor below a secret stays.
pub remove_encryption_provider_config_secrets_kept :
    (path : List Place) (doc : Fields) (s : Bytes)
    → begins secret_path path ≡ false
    → follow path (object doc) ≡ some (scalar s)
    → follow path (object (remove_encryption_provider_config_secrets doc)) ≡ some (scalar s)
unfolding remove_encryption_provider_config_secrets redact_resource redact_provider
    redact_provider_entry
remove_encryption_provider_config_secrets_kept path doc s =
    Lifts-Keeps _ _ _ _ (at_key-Lifts _ _)
      (Lifts-Keeps _ _ _ _ (if_items-Lifts _) (
        Lifts-Keeps _ _ _ _ (at_key-Lifts _ _) (
          Lifts-Keeps _ _ _ _ (if_items-Lifts _) (
            Lifts-Keeps _ _ _ _ (every_value-Lifts _) (
              Lifts-Keeps _ _ _ _ (at_key-Lifts _ _)
                (Lifts-Keeps _ _ _ _ (if_items-Lifts redact_key) redact_key-Keeps))))))
      path (object doc) s

-- Wherever the document has a key of a provider, its secret is the placeholder afterwards, also
-- where it had none.
pub remove_encryption_provider_config_secrets_hides :
    (path : List Place) (doc key_fields : Fields)
    → matches key_path path ≡ true
    → follow path (object doc) ≡ some (object key_fields)
    → follow
        (path ++ (key (codes "secret") ∷ []))
        (object (remove_encryption_provider_config_secrets doc))
      ≡ some redacted
unfolding remove_encryption_provider_config_secrets redact_resource redact_provider
    redact_provider_entry
remove_encryption_provider_config_secrets_hides path doc key_fields =
    Lifts-Sets _ _ _ _ _ _ (at_key-Lifts _ _)
      (Lifts-Sets _ _ _ _ _ _ (if_items-Lifts _) (
        Lifts-Sets _ _ _ _ _ _ (at_key-Lifts _ _) (
          Lifts-Sets _ _ _ _ _ _ (if_items-Lifts _) (
            Lifts-Sets _ _ _ _ _ _ (every_value-Lifts _) (
              Lifts-Sets _ _ _ _ _ _ (at_key-Lifts _ _)
                (Lifts-Sets _ _ _ _ _ _ (if_items-Lifts redact_key) redact_key-Sets))))))
      path (object doc) key_fields
