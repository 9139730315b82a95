-- ===== src/Sensor/ControlPlane/Encryption.antt =====
-- What is shown of the encryption provider configuration.
use host_scanner.Prelude.{
  ◌≡◌, refl, sym, ap, inl, inr, Bool, true, false, some, List, [], ◌∷◌, ◌++◌, Option-cases,
  some_inv,
}
use host_scanner.Prelude.Bytes.{Bytes, codes}
use host_scanner.GoError.{Result, ok, err, Result-cases}
use host_scanner.Host.{Host}
use host_scanner.Utils.Users.{Cache}
use host_scanner.Utils.Process.{ProcessDetails, get_arg}
use host_scanner.Utils.FileInfo.{FileInfo, make_containered_file_info}
use host_scanner.Sensor.Redaction.{
  Fields, object, scalar, redacted, remove_encryption_provider_config_secrets,
}
use host_scanner.Sensor.Redaction.Paths.{Place, key, matches, begins, follow}
use host_scanner.Sensor.Redaction.Laws.{
  key_path, secret_path, remove_encryption_provider_config_secrets_hides,
  remove_encryption_provider_config_secrets_kept,
}
use host_scanner.Sensor.EncryptionConfig.{Codecs, unmarshal_any, bytes_of, redacted_info}
use host_scanner.Sensor.ControlPlane.{
  encryption_file_at, make_api_server_encryption_provider_config_file,
}
use host_scanner.Sensor.ControlPlaneInfo.{api_encryption_provider_config_arg}

-- Two documents, of which the second has the placeholder as the secret of each key of a provider of
-- the first, and the other texts of the first.
pub record IsWithoutSecrets (doc printed : Fields) : Type 0 where
  pub hides :
      (path : List Place) (key_fields : Fields)
      → matches key_path path ≡ true
      → follow path (object doc) ≡ some (object key_fields)
      → follow (path ++ (key (codes "secret") ∷ [])) (object printed) ≡ some redacted
  pub keeps :
      (path : List Place) (s : Bytes)
      → begins secret_path path ≡ false
      → follow path (object doc) ≡ some (scalar s)
      → follow path (object printed) ≡ some (scalar s)

-- What is shown is printed from the document that is decoded from the file, without its secrets.
abbrev pub IsRedacted : Codecs → FileInfo → FileInfo → Type 0
IsRedacted c read shown =
    (doc : Fields) × (printed : Fields) × (text : Bytes) × (unmarshal_any c (bytes_of read.content)
      ≡ some doc)
    × IsWithoutSecrets doc printed
    × (c.yaml_marshal printed ≡ ok text)
    × (shown.content ≡ some text)
    × (shown.path ≡ read.path)
    × (shown.permissions ≡ read.permissions)

module _ (c : Codecs) where
  redacted_info_sound :
      (r : Result FileInfo) (shown : FileInfo)
      → redacted_info c r ≡ some shown
      → (read : FileInfo) × (r ≡ ok read) × IsRedacted c read shown
  unfolding redacted_info
  redacted_info_sound (err e) shown h = absurd (cc)
  redacted_info_sound (ok read) shown h =
      elim (Option-cases (unmarshal_any c (bytes_of read.content))) [
        | inl n ↦ absurd (cc (sym (rw (n, redacted_info) at h)))
        | inr (doc, d) ↦
            elim (Result-cases (c.yaml_marshal (remove_encryption_provider_config_secrets doc))) [
              | inl (e, m) ↦ absurd (cc (sym (rw (d, m, redacted_info) at h)))
              | inr (text, m) ↦
                  let i = some_inv (rw (d, m, redacted_info) at h) in
                  (
                    read,
                    refl,
                    (
                      doc,
                      remove_encryption_provider_config_secrets doc,
                      text,
                      d,
                      record {
                        hides =
                            λ path fs. remove_encryption_provider_config_secrets_hides path doc fs;
                        keeps = λ path s. remove_encryption_provider_config_secrets_kept path doc s;
                      },
                      m,
                      ap (λ x. x.content) (sym i),
                      ap (λ x. x.path) (sym i),
                      ap (λ x. x.permissions) (sym i),
                    ),
                  )
            ]
      ]

  -- Whatever is shown of the encryption provider configuration was printed from a document whose
  -- secrets were overwritten, decoded from the file that the flag of the API server names in the
  -- process's file system; the bytes of the file itself are never shown.
  pub encryption_file-IsRedacted :
      (host : Host) (p : ProcessDetails) (cache : Cache) (shown : FileInfo)
      → (make_api_server_encryption_provider_config_file host c p cache).0 ≡ some shown
      → (path : Bytes) × (read : FileInfo) × (get_arg p api_encryption_provider_config_arg
          ≡ (path, true))
        × ((make_containered_file_info host p path true cache).0 ≡ ok read)
        × IsRedacted c read shown
  unfolding make_api_server_encryption_provider_config_file
  encryption_file-IsRedacted host p cache shown h =
      of_flag (get_arg p api_encryption_provider_config_arg) refl h
    where
      of_flag :
          (a : Bytes × Bool)
          → get_arg p api_encryption_provider_config_arg ≡ a
          → (encryption_file_at host c p a cache).0 ≡ some shown
          → (path : Bytes) × (read : FileInfo) × (get_arg p api_encryption_provider_config_arg
              ≡ (path, true))
            × ((make_containered_file_info host p path true cache).0 ≡ ok read)
            × IsRedacted c read shown
      of_flag (path, false) g h = absurd (unfold encryption_file_at in cc h)
      of_flag (path, true) g h =
          let (read, q, i) =
            redacted_info_sound (make_containered_file_info host p path true cache).0 shown
              (unfold encryption_file_at in h) in
          (path, read, g, q, i)
