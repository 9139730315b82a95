-- ===== src/Server/Mux/Laws.antt =====
-- Which entry of a table is found.
use host_scanner.Prelude.{
  ◌≡◌, refl, ap, inl, inr, ◌↔◌, none, some, Bool-cases, Option-cases, some_inv, if◌then◌else◌,
}
use host_scanner.Prelude.Bytes.{Bytes, bytes_eq}
use host_scanner.Prelude.Bytes.Laws.{bytes_eq_iff}
use host_scanner.Prelude.Dict.{Dict, lookup}
use host_scanner.Server.Mux.{Match, found, moved, not_found, clean_path, find_handler}

module _ {ℓ} {H : Type ℓ} (table : Dict H) where
  found-injective : {h k : H} → Match.found h ≡ Match.found k → h ≡ k
  found-injective {h} e = ap (λ m. elim m [ found k ↦ k | moved p ↦ h | not_found ↦ h ]) e

  -- What is found is what is registered for the path, which is clean.
  pub find_handler_iff :
      (path : Bytes) (h : H)
      → (find_handler table path ≡ found h)
        ↔ ((clean_path path ≡ path) × (lookup path table ≡ some h))
  unfolding find_handler
  find_handler_iff path h = elim (Bool-cases (bytes_eq (clean_path path) path)) [
    | inl b ↦ elim (Option-cases (lookup path table)) [
      | inl n ↦ rw (b, n) ((λ e. absurd (cc)), λ q. absurd (cc))
      | inr (k, n) ↦
          rw (b, n)
            (
              (λ e. ((bytes_eq_iff _ _).0 b, ap some (found-injective e))),
              λ q. ap found (some_inv q.1),
            )
    ]
    | inr b ↦ rw b ((λ e. absurd (cc)), λ q. absurd (let t = (bytes_eq_iff _ _).1 q.0 in cc))
  ]

  -- Without an entry for the path there is none that is found.
  pub find_handler-none :
      (path : Bytes)
      → lookup path table ≡ none
      → find_handler table path
        ≡ (if bytes_eq (clean_path path) path then not_found else moved (clean_path path))
  unfolding find_handler
  find_handler-none path n = rw n refl
