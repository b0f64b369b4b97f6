-- ===== src/Certs/Single.antt =====
-- A tenant has at most one active certificate, and `ensureActiveCert` returns it
-- (packages/esig-core/src/fs-adapters.ts, packages/esig-core/src/cert-lifecycle.ts).
use text.Mathlib.TextEquality.{eq_iff}
use esig_suite.Prelude.{
  ℕ, ◌+◌, ◌≤◌, ◌<◌, ◌≡◌, refl, sym, ◌∙◌, String, true, false, Option, none, some, List, [], ◌∷◌,
  ◌++◌, ◌==◌, string_eq, ==_refl, if◌then◌else◌, arith, Bool-cases, inl, inr, ap, subst,
}
use esig_suite.Certs.{
  StoredCert, CertRows, InsertInput, GeneratedCert, EnsureCertResult, is_active_of, retire_tenant,
  new_cert, insert_cert, deactivate, find_active, id_of, is_current, deactivated, issue, reuse,
  ensure_active_cert,
}

abbrev pub active_count : String → CertRows → ℕ
active_count t [] = 0
active_count t (r ∷ rs) =
    let rest = active_count t rs in if is_active_of t r then rest + 1 else rest

-- The invariant, for every tenant.
abbrev pub IsSingle : CertRows → Type 0
IsSingle rows = (t : String) → active_count t rows ≤ 1

count-retire_tenant :
    (t u : String) (rows : CertRows)
    → active_count t (retire_tenant u rows) ≡ (if t == u then 0 else active_count t rows)
unfolding retire_tenant
count-retire_tenant t u [] = ground arith
count-retire_tenant t u (r ∷ rs) =
    ground
      (arith, count-retire_tenant t u rs, eq_iff t u, eq_iff r.tenant_id u, eq_iff r.tenant_id t)

count-append :
    (t : String) (rows : CertRows) (c : StoredCert)
    → active_count t (rows ++ c ∷ []) ≡ active_count t rows + active_count t (c ∷ [])
count-append t [] c = omega arith
count-append t (r ∷ rs) c = ground (arith, count-append t rs c)

count-deactivate :
    (t id : String) (rows : CertRows) → active_count t (deactivate id rows) ≤ active_count t rows
unfolding deactivate
count-deactivate t id [] = omega arith
count-deactivate t id (r ∷ rs) = ground (arith, count-deactivate t id rs)

deactivate-IsSingle :
    (id : String) (rows : CertRows) → IsSingle rows → IsSingle (deactivate id rows)
deactivate-IsSingle id rows one t = omega (arith, count-deactivate t id rows, one t)

insert_cert-IsSingle :
    (i : InsertInput) (id : String) (now : ℕ) (rows : CertRows)
    → IsSingle rows
    → IsSingle (insert_cert i id now rows).1
unfolding insert_cert new_cert
insert_cert-IsSingle i id now rows one t = ground (
  arith,
  count-append t (retire_tenant i.tenant_id rows) (new_cert i id now),
  count-retire_tenant t i.tenant_id rows,
  one t,
  eq_iff t i.tenant_id,
  eq_iff i.tenant_id t,
)

none_active : (t : String) (rows : CertRows) → active_count t rows ≡ 0 → find_active t rows ≡ none
unfolding find_active
none_active t [] h = refl
none_active t (r ∷ rs) h = ground (arith, none_active t rs)

find_active-append :
    (t : String) (rows : CertRows) (c : StoredCert)
    → find_active t rows ≡ none
    → is_active_of t c ≡ true
    → find_active t (rows ++ c ∷ []) ≡ some c
unfolding find_active
find_active-append t [] c h a = ground arith
find_active-append t (r ∷ rs) c h a = ground (arith, find_active-append t rs c)

deactivated-IsSingle :
    (o : Option StoredCert) (rows : CertRows) → IsSingle rows → IsSingle (deactivated o rows)
deactivated-IsSingle none rows one = one
deactivated-IsSingle (some c) rows one = deactivate-IsSingle c.id rows one

insert_cert-find_active :
    (i : InsertInput) (id : String) (now : ℕ) (rows : CertRows)
    → find_active i.tenant_id (insert_cert i id now rows).1 ≡ some (insert_cert i id now rows).0
unfolding insert_cert new_cert
insert_cert-find_active i id now rows =
    find_active-append i.tenant_id (retire_tenant i.tenant_id rows) (new_cert i id now)
      (none_active i.tenant_id (retire_tenant i.tenant_id rows)
        (rw (count-retire_tenant i.tenant_id i.tenant_id rows, ==_refl i.tenant_id) refl))
      (rw (==_refl i.tenant_id) refl)

abbrev cert_of : Option EnsureCertResult → Option StoredCert
cert_of none = none
cert_of (some r) = some r.cert

abbrev Lasts : ℕ → Option StoredCert → Type 0
Lasts now none = Unit
Lasts now (some c) = now < c.not_after

-- The calls that change the rows.
pub data Call : Type 0 where
  inserts : InsertInput → String → ℕ → Call
  deactivates : String → Call
  ensures : String → String → String → String → ℕ → Call

module _ (generate : String → GeneratedCert) (encrypt : String → String → String)
    (decrypt : String → String → Option String) where
  ensure_active_cert-IsSingle :
      (tenant_id subject passphrase id : String) (now : ℕ) (rows : CertRows)
      → IsSingle rows
      → IsSingle
          (ensure_active_cert generate encrypt decrypt tenant_id subject passphrase id now rows).1
  unfolding ensure_active_cert issue
  ensure_active_cert-IsSingle tenant_id subject passphrase id now rows one =
      elim (Bool-cases (is_current (find_active tenant_id rows) now)) [
        | inl c ↦ rw (ensure_active_cert, c) one
        | inr c ↦
            rw (ensure_active_cert, c)
              (insert_cert-IsSingle _ id now (deactivated (find_active tenant_id rows) rows)
                (deactivated-IsSingle (find_active tenant_id rows) rows one))
      ]

  pub step : CertRows → Call → CertRows
  step rows (inserts i id now) = (insert_cert i id now rows).1
  step rows (deactivates id) = deactivate id rows
  step rows (ensures tenant_id subject passphrase id now) =
      (ensure_active_cert generate encrypt decrypt tenant_id subject passphrase id now rows).1

  pub run : CertRows → List Call → CertRows
  run rows [] = rows
  run rows (c ∷ cs) = run (step rows c) cs

  step-IsSingle : (rows : CertRows) (c : Call) → IsSingle rows → IsSingle (step rows c)
  unfolding step
  step-IsSingle rows (inserts i id now) one = insert_cert-IsSingle i id now rows one
  step-IsSingle rows (deactivates id) one = deactivate-IsSingle id rows one
  step-IsSingle rows (ensures tenant_id subject passphrase id now) one =
      ensure_active_cert-IsSingle tenant_id subject passphrase id now rows one

  -- Whatever calls are made on rows with at most one active certificate for each tenant, such as none,
  -- each tenant has at most one active certificate.
  pub run-IsSingle : (rows : CertRows) (cs : List Call) → IsSingle rows → IsSingle (run rows cs)
  unfolding run
  run-IsSingle rows [] one = one
  run-IsSingle rows (c ∷ cs) one = run-IsSingle (step rows c) cs (step-IsSingle rows c one)

  reuse_cases :
      (o : Option StoredCert) (passphrase : String) (now : ℕ) (r : EnsureCertResult)
      → is_current o now ≡ true
      → reuse generate encrypt decrypt o passphrase ≡ some r
      → (o ≡ some r.cert) × (now < r.cert.not_after)
  unfolding reuse
  reuse_cases o passphrase now r c h = ground (arith, c, h)

  issue_cases :
      (existing : Option StoredCert) (tenant_id subject passphrase id : String) (now : ℕ)
      (rows t : CertRows) (r : EnsureCertResult)
      → now < (generate subject).not_after
      → issue generate encrypt decrypt existing tenant_id subject passphrase id now rows
        ≡ (some r, t)
      → (find_active tenant_id t ≡ some r.cert) × (now < r.cert.not_after)
  unfolding issue insert_cert new_cert
  issue_cases existing tenant_id subject passphrase id now rows t r future h =
      let cert = ap (λ p. cert_of p.0) h in
      let left = ap (λ p. p.1) h in
      (
        subst (λ x. find_active tenant_id x ≡ some r.cert) left
            (insert_cert-find_active
                (record {
                  tenant_id = tenant_id;
                  generated = generate subject;
                  key_pem_encrypted = encrypt (generate subject).key_pem passphrase;
                  rotated_from_id = id_of existing;
                })
                id now (deactivated existing rows)
              ∙ cert),
        subst (Lasts now) cert future,
      )

  -- When the call returns, the tenant's active certificate is the one that it returns, and that one has
  -- not expired, provided that certificates are issued with an end in the future.
  pub ensure_active_cert-find_active :
      (tenant_id subject passphrase id : String) (now : ℕ) (rows t : CertRows)
      (r : EnsureCertResult)
      → now < (generate subject).not_after
      → ensure_active_cert generate encrypt decrypt tenant_id subject passphrase id now rows
        ≡ (some r, t)
      → (find_active tenant_id t ≡ some r.cert) × (now < r.cert.not_after)
  unfolding ensure_active_cert
  ensure_active_cert-find_active tenant_id subject passphrase id now rows t r future h =
      elim (Bool-cases (is_current (find_active tenant_id rows) now)) [
        | inl c ↦
            let e = sym (current c) ∙ h in
            let (found, lasts) =
              reuse_cases (find_active tenant_id rows) passphrase now r c (ap (λ p. p.0) e) in
            (subst (λ x. find_active tenant_id x ≡ some r.cert) (ap (λ p. p.1) e) found, lasts)
        | inr c ↦
            issue_cases (find_active tenant_id rows) tenant_id subject passphrase id now rows t r
              future (sym (outdated c) ∙ h)
      ]
    where
      current :
          is_current (find_active tenant_id rows) now ≡ true
          → ensure_active_cert generate encrypt decrypt tenant_id subject passphrase id now rows
            ≡ (reuse generate encrypt decrypt (find_active tenant_id rows) passphrase, rows)
      current c = rw (ensure_active_cert, c) refl

      outdated :
          is_current (find_active tenant_id rows) now ≡ false
          → ensure_active_cert generate encrypt decrypt tenant_id subject passphrase id now rows
            ≡ issue generate encrypt decrypt
                (find_active tenant_id rows)
                tenant_id
                subject
                passphrase
                id
                now
                rows
      outdated c = rw (ensure_active_cert, c) refl
