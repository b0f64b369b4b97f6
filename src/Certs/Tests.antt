-- ===== src/Certs/Tests.antt =====
-- The certificate theorems at a tenant without a certificate.
use esig_suite.Prelude.{◌≡◌, ◌<◌, refl, String, true, Option, none, some, List, [], ◌∷◌, arith}
use esig_suite.Certs.{
  GeneratedCert, StoredCert, EnsureCertResult, ensure_active_cert, issue, insert_cert, new_cert,
  retire_tenant, find_active,
}
use esig_suite.Certs.Single.{
  IsSingle, Call, ensures, deactivates, run, run-IsSingle, ensure_active_cert-find_active,
}

abbrev generate : String → GeneratedCert
generate subject = record {
  cert_pem = subject;
  key_pem = "key";
  fingerprint = "print";
  not_before = 0;
  not_after = 500;
}

abbrev encrypt : String → String → String
encrypt key passphrase = key

abbrev decrypt : String → String → Option String
decrypt key passphrase = some key

abbrev calls : List Call
calls =
    ensures "tenant" "Tenant" "secret" "cert_1" 10
    ∷ ensures "tenant" "Tenant" "secret" "cert_2" 600
    ∷ deactivates "cert_1"
    ∷ []

run-IsSingle_example : IsSingle (run generate encrypt decrypt [] calls)
run-IsSingle_example = run-IsSingle generate encrypt decrypt [] calls (λ t. omega arith)

abbrev first_cert : StoredCert
first_cert = record {
  id = "cert_1";
  tenant_id = "tenant";
  cert_pem = "Tenant";
  key_pem_encrypted = "key";
  cert_fingerprint = "print";
  not_before = 0;
  not_after = 500;
  active = true;
  rotated_from_id = none;
  created_at = 10;
}

abbrev first_result : EnsureCertResult
first_result = record { cert = first_cert; cert_pem = "Tenant"; key_pem = "key" }

first_issue :
    ensure_active_cert generate encrypt decrypt "tenant" "Tenant" "secret" "cert_1" 10 []
    ≡ (some first_result, first_cert ∷ [])
unfolding ensure_active_cert issue insert_cert new_cert retire_tenant find_active
first_issue = refl

ensure_active_cert-find_active_example :
    (find_active "tenant" (first_cert ∷ []) ≡ some first_cert) × (10 < 500)
ensure_active_cert-find_active_example =
    ensure_active_cert-find_active generate encrypt decrypt "tenant" "Tenant" "secret" "cert_1" 10
      [] (first_cert ∷ []) first_result (omega arith) first_issue
