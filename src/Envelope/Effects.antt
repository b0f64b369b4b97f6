-- ===== src/Envelope/Effects.antt =====
-- What one call of an envelope operation does to the rows of `FsEnvelopeStore`
-- (packages/esig-core/src/envelope.ts over packages/esig-core/src/fs-adapters.ts).
use esig_suite.Prelude.{
  ℕ, ◌≡◌, refl, subst, String, Bool, true, none, some, [], ◌∷◌, ◌++◌, find, arith, ◌⊎◌, inl, inr,
  Bool-cases, Option-cases, Result, ok, err,
}
use esig_suite.Envelope.{
  Envelope, EnvelopeSigner, is_live, has_token, compose_envelope, invalid_token, CreateInput, Draws,
  Outcome, EnvelopeStore, and_then,
}
use esig_suite.Envelope.Signing.{
  TokenResolution, closed, invalid, gates, is_overdue, expire, create_envelope, resolve_found,
  resolve_signing_token,
}
use esig_suite.Envelope.Stores.{
  Rows, fs_envelope_store, fs_insert, fs_find_by_token_hash, has_signer,
}
use esig_suite.Envelope.History.{Change, expires}

-- The store with other ways to insert and to write an envelope.
abbrev pub rows_store :
    (Envelope → Rows → Outcome Rows Envelope)
    → (Envelope → Rows → Outcome Rows Envelope)
    → EnvelopeStore Rows
rows_store put write = record fs_envelope_store { insert = put; update = write }

-- A call with a token or an id leaves the rows, or writes one envelope that it found and changed.
pub data Effect (write : Envelope → Rows → Outcome Rows Envelope) (s : Rows) : Rows → Type 0 where
  leaves : Effect write s s
  updates :
      (p : Envelope → Bool) (e f : Envelope)
      → find p s ≡ some e
      → Change e f
      → Effect write s (write f s).1

Result-cases : {E A : Type 0} (r : Result E A) → ((a : A) × (r ≡ ok a)) ⊎ ((f : E) × (r ≡ err f))
Result-cases (ok a) = inl (a, refl)
Result-cases (err f) = inr (f, refl)

overdue_live : (e : Envelope) (now : ℕ) → is_overdue e now ≡ true → is_live e.status ≡ true
unfolding is_overdue
overdue_live e now h = ground (arith, h)

module _ (hash_token : String → String) where
  pub create_envelope_cases :
      (i : CreateInput) (d : Draws) (now : ℕ) (s : Rows)
      → ((create_envelope fs_envelope_store hash_token i d now s).1 ≡ s)
        ⊎ ((e : Envelope) × (compose_envelope hash_token i d now ≡ ok e)
            × ((create_envelope fs_envelope_store hash_token i d now s).1 ≡ s ++ e ∷ []))
  unfolding create_envelope fs_insert
  create_envelope_cases i d now s = elim (Result-cases (compose_envelope hash_token i d now)) [
    | inl (e, made) ↦ inr (e, made, rw (create_envelope, made) refl)
    | inr (f, made) ↦ inl (rw (create_envelope, made) refl)
  ]

module _ (put write : Envelope → Rows → Outcome Rows Envelope) (hash_token : String → String) where
  -- A call that goes on from a resolution with `k`, which does nothing on a closed envelope.
  after_expiry :
      (x : EnvelopeSigner) (k : TokenResolution → Rows → Outcome Rows Envelope)
      → ((e : Envelope) (t : Rows) → (k (closed e x) t).1 ≡ t)
      → (o : Outcome Rows Envelope)
      → (and_then (and_then o (λ u t. (ok (closed u x), t))) k).1 ≡ o.1
  after_expiry x k idle (ok e, t) = idle e t
  after_expiry x k idle (err f, t) = refl

  found-Effect :
      (k : TokenResolution → Rows → Outcome Rows Envelope)
      → ((e : Envelope) (x : EnvelopeSigner) (t : Rows) → (k (closed e x) t).1 ≡ t)
      → (e : Envelope) (x : EnvelopeSigner) (now : ℕ) (s : Rows) (p : Envelope → Bool)
      → find p s ≡ some e
      → Effect write s (k (gates e x) s).1
      → Effect write s (and_then (resolve_found (rows_store put write) e x now s) k).1
  unfolding resolve_found
  found-Effect k idle e x now s p found act = elim (Bool-cases (is_overdue e now)) [
    | inl late ↦
        rw (resolve_found, late, after_expiry x k (λ u t. idle u x t) (write (expire e) s))
          (updates p e (expire e) found (expires (overdue_live e now late)))
    | inr early ↦ rw (resolve_found, early) act
  ]

  abbrev pub resolve : String → ℕ → Rows → Outcome Rows TokenResolution
  resolve = resolve_signing_token (rows_store put write) hash_token

  resolve_unknown :
      (token : String) (now : ℕ) (s : Rows)
      → find (has_signer (hash_token token)) s ≡ none
      → resolve token now s ≡ (ok invalid, s)
  unfolding resolve_signing_token fs_find_by_token_hash
  resolve_unknown token now s h = rw (resolve_signing_token, fs_find_by_token_hash, h) refl

  resolve_found_cases :
      (token : String) (now : ℕ) (s : Rows) (e : Envelope)
      → find (has_signer (hash_token token)) s ≡ some e
      → (resolve token now s ≡ (ok invalid, s))
        ⊎ ((x : EnvelopeSigner) × (find (has_token (hash_token token)) e.signers ≡ some x)
            × (resolve token now s ≡ resolve_found (rows_store put write) e x now s))
  unfolding resolve_signing_token fs_find_by_token_hash
  resolve_found_cases token now s e h =
      elim (Option-cases (find (has_token (hash_token token)) e.signers)) [
        | inl f ↦ inl (rw (resolve_signing_token, fs_find_by_token_hash, h, f) refl)
        | inr (x, mine) ↦
            inr (x, mine, rw (resolve_signing_token, fs_find_by_token_hash, h, mine) refl)
      ]

  pub resolved-Effect :
      (token : String) (now : ℕ) (s : Rows) (k : TokenResolution → Rows → Outcome Rows Envelope)
      → ((e : Envelope) (x : EnvelopeSigner) (t : Rows) → (k (closed e x) t).1 ≡ t)
      → ((t : Rows) → (k invalid t).1 ≡ t)
      → ((e : Envelope) (x : EnvelopeSigner)
          → find (has_signer (hash_token token)) s ≡ some e
          → find (has_token (hash_token token)) e.signers ≡ some x
          → Effect write s (k (gates e x) s).1)
      → Effect write s (and_then (resolve token now s) k).1
  resolved-Effect token now s k idle unknown act =
      let h = hash_token token in
      elim (Option-cases (find (has_signer h) s)) [
        | inl e ↦ rw (resolve_unknown token now s e, unknown s) leaves
        | inr (e, found) ↦ elim (resolve_found_cases token now s e found) [
          | inl f ↦ rw (f, unknown s) leaves
          | inr (x, mine, r) ↦
              rw r (found-Effect k idle e x now s (has_signer h) found (act e x found mine))
        ]
      ]

  and_then_store :
      (o : Outcome Rows TokenResolution)
      → (and_then {B = Envelope} o (λ r t. (err invalid_token, t))).1 ≡ o.1
  and_then_store (ok r, t) = refl
  and_then_store (err f, t) = refl

  pub resolve-Effect :
      (token : String) (now : ℕ) (s : Rows) → Effect write s (resolve token now s).1
  resolve-Effect token now s = subst (Effect write s) (and_then_store (resolve token now s)) (
      resolved-Effect token now s (λ r t. (err invalid_token, t)) (λ e x t. refl) (λ t. refl)
        (λ e x found mine. leaves))
