-- ===== src/Certs.antt =====
-- Signing certificates of tenants: `FsCertStore` (packages/esig-core/src/fs-adapters.ts) and
-- `ensureActiveCert` (packages/esig-core/src/cert-lifecycle.ts). Issuing a certificate and the
-- encryption of its key are parameters; keys are the base64 texts of their bytes.
pub mod Single
mod Tests
use esig_suite.Prelude.{
  ℕ, ◌+◌, ◌*◌, String, Bool, true, false, ◌&&◌, Option, none, some, List, [], ◌∷◌, ◌++◌, ltb, leb,
  ◌==◌, string_eq, if◌then◌else◌, find, select,
}
use esig_suite.Envelope.Signing.{change_first}

pub record GeneratedCert : Type 0 where
  pub cert_pem : String
  pub key_pem : String
  pub fingerprint : String
  pub not_before : ℕ
  pub not_after : ℕ

pub record StoredCert : Type 0 where
  pub id : String
  pub tenant_id : String
  pub cert_pem : String
  pub key_pem_encrypted : String
  pub cert_fingerprint : String
  pub not_before : ℕ
  pub not_after : ℕ
  pub active : Bool
  pub rotated_from_id : Option String
  pub created_at : ℕ

pub record InsertInput : Type 0 where
  pub tenant_id : String
  pub generated : GeneratedCert
  pub key_pem_encrypted : String
  pub rotated_from_id : Option String

abbrev pub CertRows : Type 0
CertRows = List StoredCert

abbrev pub is_active_of : String → StoredCert → Bool
is_active_of tenant_id r = r.tenant_id == tenant_id && r.active

unfoldable pub find_active : String → CertRows → Option StoredCert
find_active tenant_id rows = find (is_active_of tenant_id) rows

abbrev pub retire : StoredCert → StoredCert
retire r = record r { active = false }

-- `for (const r of rows) if (r.tenantId === input.tenantId) r.active = false`
unfoldable pub retire_tenant : String → CertRows → CertRows
retire_tenant tenant_id [] = []
retire_tenant tenant_id (r ∷ rs) =
    (if r.tenant_id == tenant_id then retire r else r) ∷ retire_tenant tenant_id rs

unfoldable pub new_cert : InsertInput → String → ℕ → StoredCert
new_cert i id now = record {
  id = id;
  tenant_id = i.tenant_id;
  cert_pem = i.generated.cert_pem;
  key_pem_encrypted = i.key_pem_encrypted;
  cert_fingerprint = i.generated.fingerprint;
  not_before = i.generated.not_before;
  not_after = i.generated.not_after;
  active = true;
  rotated_from_id = i.rotated_from_id;
  created_at = now;
}

unfoldable pub insert_cert : InsertInput → String → ℕ → CertRows → StoredCert × CertRows
insert_cert i id now rows =
    let row = new_cert i id now in (row, retire_tenant i.tenant_id rows ++ row ∷ [])

unfoldable pub deactivate : String → CertRows → CertRows
deactivate id rows = change_first (λ r. r.id == id) retire rows

unfoldable pub find_expiring : ℕ → ℕ → CertRows → CertRows
find_expiring within_days now rows =
    select (λ r. r.active && leb r.not_after (now + within_days * 86400000)) rows

pub record EnsureCertResult : Type 0 where
  pub cert : StoredCert
  pub cert_pem : String
  pub key_pem : String

abbrev pub is_current : Option StoredCert → ℕ → Bool
is_current none now = false
is_current (some c) now = ltb now c.not_after

abbrev pub id_of : Option StoredCert → Option String
id_of none = none
id_of (some c) = some c.id

-- `if (existing) await opts.store.deactivate(existing.id)`
abbrev pub deactivated : Option StoredCert → CertRows → CertRows
deactivated none rows = rows
deactivated (some c) rows = deactivate c.id rows

module _ (generate : String → GeneratedCert) (encrypt : String → String → String)
    (decrypt : String → String → Option String) where
  -- The certificate in use, whose key may fail to decrypt.
  unfoldable pub reuse : Option StoredCert → String → Option EnsureCertResult
  reuse none passphrase = none
  reuse (some c) passphrase = elim (decrypt c.key_pem_encrypted passphrase) [
    | none ↦ none
    | some key ↦ some (record { cert = c; cert_pem = c.cert_pem; key_pem = key })
  ]

  unfoldable pub issue :
      Option StoredCert
      → String
      → String
      → String
      → String
      → ℕ
      → CertRows
      → Option EnsureCertResult × CertRows
  issue existing tenant_id subject passphrase id now rows =
      let generated = generate subject in
      let (cert, left) =
        insert_cert
          (record {
            tenant_id = tenant_id;
            generated = generated;
            key_pem_encrypted = encrypt generated.key_pem passphrase;
            rotated_from_id = id_of existing;
          })
          id now (deactivated existing rows) in
      (
        some (record { cert = cert; cert_pem = generated.cert_pem; key_pem = generated.key_pem }),
        left,
      )

  -- `id` and `now` are drawn by `insert` and the clock.
  unfoldable pub ensure_active_cert :
      String → String → String → String → ℕ → CertRows → Option EnsureCertResult × CertRows
  ensure_active_cert tenant_id subject passphrase id now rows =
      let existing = find_active tenant_id rows in
      if is_current existing now
      then (reuse existing passphrase, rows)
      else issue existing tenant_id subject passphrase id now rows
