-- ===== src/Sensor/CloudProvider.antt =====
-- sensor/cloudProvider.go: the access to the metadata of a cloud provider.
use host_scanner.Prelude.{ℕ, ◌==◌, Bool, true, false, List, [], ◌∷◌, if◌then◌else◌}
use host_scanner.Prelude.Bytes.{Bytes, codes}
use host_scanner.GoError.{Result, ok, err}

pub record CloudProviderInfo : Type 0 where
  pub provider_meta_data_api_access : Bool

-- A URL and its headers.
pub record ApisUrls : Type 0 where
  pub url : Bytes
  pub headers : List (Bytes × Bytes)

abbrev pub cloud_provider_meta_data_apis : List ApisUrls
cloud_provider_meta_data_apis =
    (record {
      url = codes "http://169.254.169.254/computeMetadata/v1/?alt=json&recursive=true";
      headers = (codes "Metadata-Flavor", codes "Google") ∷ [];
    })
    ∷ (record {
      url = codes "http://169.254.169.254/metadata/instance?api-version=2021-02-01";
      headers = (codes "Metadata", codes "true") ∷ [];
    })
    ∷ (record {
      url = codes "http://169.254.169.254/latest/meta-data/local-hostname";
      headers = [];
    })
    ∷ []

unfoldable pub is_ok : Result ℕ → Bool
is_ok (ok status) = status == 200
is_ok (err e) = false

-- `httputils.HttpGet` with the shared client, which is not part of the program: what it answers with
-- a timeout, the status of the response or an error.
abbrev pub HttpGet : Type 0
HttpGet = ℕ → Bytes → List (Bytes × Bytes) → Result ℕ

-- `client.Timeout`, in nanoseconds.
abbrev pub client_timeout : ℕ
client_timeout = 1000000000

module _ (http_get : HttpGet) where
  unfoldable pub any_answers : List ApisUrls → Bool
  any_answers [] = false
  any_answers (api ∷ apis) =
      let rest = any_answers apis in
      if is_ok (http_get client_timeout api.url api.headers) then true else rest

  unfoldable pub has_meta_data_api_access : Bool
  has_meta_data_api_access = any_answers cloud_provider_meta_data_apis

  unfoldable pub sense_cloud_provider_info : Result CloudProviderInfo
  sense_cloud_provider_info =
      ok (record { provider_meta_data_api_access = has_meta_data_api_access })
