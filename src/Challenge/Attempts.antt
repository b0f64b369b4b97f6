-- ===== src/Challenge/Attempts.antt =====
-- The attempts of `finalizeChallenge` of packages/esig-mcp/src/identity/challenge.ts.
use mathlib.Core.Bool.{true≢false, false≢true}
use esig_suite.Prelude.{
  ℕ, zero, suc, ◌+◌, ◌≡◌, ◌≢◌, refl, sym, ap, ◌∙◌, subst, String, Bool, true, false, Option, none,
  some, leb, ◌==◌, nat_eq, string_eq, Option-cases, Bool-cases, inl, inr, ok, err, Result,
  if◌then◌else◌,
}
use esig_suite.Envelope.{Envelope, EnvelopeStore, EnvelopeFailure, Outcome, conflict}
use esig_suite.Envelope.Stores.{concurrency_safe_store, safe_update, get_rev, set_rev}
use esig_suite.Challenge.{
  Json, SignerChallengeState, SignerIdentityRecord, FinalizeChallengeResult, finalized, contention,
  ChallengeError, challenge_of, refusal, get_signer_identity_state, consume, after_write,
  attempt_with, attempt, finalize_attempts, finalize_challenge,
}
use esig_suite.Challenge.Single.{
  IsAccepted, refusal-none, finalize_attempts-finalized, accepts, accepts_some,
  refusal-accepts_some,
}

-- Whether the attempts ran out.
abbrev contends : Result ChallengeError FinalizeChallengeResult → Bool
contends (ok contention) = true
contends _ = false

abbrev contends_some : Option FinalizeChallengeResult → Bool
contends_some none = false
contends_some (some r) = contends (ok r)

refusal-contends_some :
    (nonce : String) (now : ℕ) (c : SignerChallengeState)
    → contends_some (refusal nonce now c) ≡ false
unfolding refusal
refusal-contends_some nonce now c = elim (Bool-cases c.consumed) [
  | inl e ↦ rw e refl
  | inr e ↦ elim (Bool-cases (c.nonce == nonce)) [
    | inr d ↦ rw (e, d) refl
    | inl d ↦ elim (Bool-cases (leb c.expires_at now)) [
      | inl l ↦ rw (e, d, l) refl
      | inr l ↦ rw (e, d, l) refl
    ]
  ]
]

-- The nonce is not that of an unused challenge that is stored for the signer.
unfoldable pub IsSpent :
    (json : Json) {S : Type 0} (store : EnvelopeStore S)
    → String
    → String
    → String
    → String
    → S
    → Type 0
IsSpent json store tenant_id envelope_id signer_id nonce s =
    (e : Envelope) (c : SignerChallengeState)
    → store.find_by_id tenant_id envelope_id s ≡ some e
    → challenge_of (get_signer_identity_state json e signer_id) ≡ some c
    → c.nonce ≡ nonce
    → c.consumed ≡ true

module _ (json : Json) {S : Type 0} (store : EnvelopeStore S) (others : ℕ → S → S)
    (tenant_id envelope_id signer_id nonce : String) (verified : SignerIdentityRecord)
    (now : ℕ) where
  after_write-contends :
      (again : S → Result ChallengeError FinalizeChallengeResult × S) (is_last : Bool)
      (r : Result EnvelopeFailure Envelope × S)
      → (is_last ≡ false → (t : S) → contends (again t).0 ≡ false)
      → contends (after_write json store again is_last r).0 ≡ false
  unfolding after_write
  after_write-contends again is_last (ok u, s) k = refl
  after_write-contends again true (err f, s) k = refl
  after_write-contends again false (err f, s) k = k refl s

  attempt_with-contends :
      (again : S → Result ChallengeError FinalizeChallengeResult × S) (is_last : Bool) (o : S → S)
      (e : Envelope) (found : Option SignerChallengeState) (s : S)
      → (is_last ≡ false → (t : S) → contends (again t).0 ≡ false)
      → contends (attempt_with json store again is_last o signer_id nonce verified now e found s).0
        ≡ false
  unfolding attempt_with
  attempt_with-contends again is_last o e none s k = refl
  attempt_with-contends again is_last o e (some c) s k =
      let after =
        after_write json store again is_last
          (store.update (consume json e signer_id verified c) (o s)) in
      let chosen : Option FinalizeChallengeResult
          → Result ChallengeError FinalizeChallengeResult × S =
        (λ r. elim r [ some reason ↦ (ok reason, s) | none ↦ after ]) in
      elim (Option-cases (refusal nonce now c)) [
        | inl why ↦
            subst (λ r. contends (chosen r).0 ≡ false) (sym why)
              (after_write-contends again is_last
                (store.update (consume json e signer_id verified c) (o s)) k)
        | inr (r, why) ↦
            subst (λ r. contends (chosen r).0 ≡ false) (sym why)
              (sym (ap contends_some why) ∙ refusal-contends_some nonce now c)
      ]

  attempt-contends :
      (again : S → Result ChallengeError FinalizeChallengeResult × S) (is_last : Bool) (o : S → S)
      (found : Option Envelope) (s : S)
      → (is_last ≡ false → (t : S) → contends (again t).0 ≡ false)
      → contends (attempt json store again is_last o signer_id nonce verified now found s).0 ≡ false
  unfolding attempt
  attempt-contends again is_last o none s k = refl
  attempt-contends again is_last o (some e) s k = attempt_with-contends again is_last o e _ s k

  finalize_attempts-contends :
      (left : ℕ) (s : S)
      → contends
          (finalize_attempts json store others tenant_id envelope_id signer_id nonce verified now
            (suc left)
            s).0
        ≡ false
  unfolding finalize_attempts
  finalize_attempts-contends zero s =
      attempt-contends
        (finalize_attempts json store others tenant_id envelope_id signer_id nonce verified now
          zero)
        true (others 0) _ _ (λ no. absurd (true≢false no))
  finalize_attempts-contends (suc left) s =
      attempt-contends
        (finalize_attempts json store others tenant_id envelope_id signer_id nonce verified now
          (suc left))
        _ _ _ _ (λ no t. finalize_attempts-contends left t)

  -- Whatever the store and the other workers do, the answer after the loop is never given: the last
  -- attempt returns or throws before.
  pub finalize_challenge-ends :
      (s : S)
      → (finalize_challenge json store others tenant_id envelope_id signer_id nonce verified now
          s).0
        ≢ ok contention
  unfolding finalize_challenge
  finalize_challenge-ends s e = false≢true (sym (finalize_attempts-contends 4 s) ∙ ap contends e)

  spent_attempt :
      (again : S → Result ChallengeError FinalizeChallengeResult × S) (is_last : Bool) (o : S → S)
      (e : Envelope) (found : Option SignerChallengeState) (s : S)
      → ((c : SignerChallengeState) → found ≡ some c → c.nonce ≡ nonce → c.consumed ≡ true)
      → ((attempt_with json store again is_last o signer_id nonce verified now e found s).1 ≡ s)
        × (accepts
              (attempt_with json store again is_last o signer_id nonce verified now e found s).0
            ≡ false)
  unfolding attempt_with
  spent_attempt again is_last o e none s k = (refl, refl)
  spent_attempt again is_last o e (some c) s k =
      let after =
        after_write json store again is_last
          (store.update (consume json e signer_id verified c) (o s)) in
      let chosen : Option FinalizeChallengeResult
          → Result ChallengeError FinalizeChallengeResult × S =
        (λ r. elim r [ some reason ↦ (ok reason, s) | none ↦ after ]) in
      elim (Option-cases (refusal nonce now c)) [
        | inl why ↦
            let passed = refusal-none nonce now c why in
            absurd (false≢true (sym passed.unused ∙ k c refl passed.answers))
        | inr (r, why) ↦
            subst (λ r. ((chosen r).1 ≡ s) × (accepts (chosen r).0 ≡ false)) (sym why)
              (refl, sym (ap accepts_some why) ∙ refusal-accepts_some nonce now c)
      ]

  -- If the challenge that is stored when a finalization begins is consumed, or of another nonce, or
  -- there is none, then it is not accepted, and it writes nothing.
  pub finalize_challenge-spent :
      (s : S)
      → IsSpent json store tenant_id envelope_id signer_id nonce (others 9 s)
      → ((finalize_challenge json store others tenant_id envelope_id signer_id nonce verified now
            s).1
          ≡ others 9 s)
        × (accepts
              (finalize_challenge json store others tenant_id envelope_id signer_id nonce verified
                now s).0
            ≡ false)
  unfolding finalize_challenge finalize_attempts attempt IsSpent
  finalize_challenge-spent s k =
      let here = others 9 s in
      let again =
        finalize_attempts json store others tenant_id envelope_id signer_id nonce verified now 4 in
      let tried : Option Envelope → Result ChallengeError FinalizeChallengeResult × S =
        (λ o. attempt json store again false (others 8) signer_id nonce verified now o here) in
      elim (Option-cases (store.find_by_id tenant_id envelope_id here)) [
        | inl gone ↦
            subst (λ o. ((tried o).1 ≡ here) × (accepts (tried o).0 ≡ false)) (sym gone)
              (refl, refl)
        | inr (x, read) ↦
            subst (λ o. ((tried o).1 ≡ here) × (accepts (tried o).0 ≡ false)) (sym read)
              (spent_attempt again false (others 8) x _ here (λ c. k x c read))
      ]

abbrev is_ok : Result EnvelopeFailure Envelope → Bool
is_ok (ok u) = true
is_ok (err f) = false

module _ (json : Json) {S : Type 0} (inner : EnvelopeStore S) where
  safe_update-current :
      (e u : Envelope) (s t : S)
      → safe_update inner e s ≡ (ok u, t)
      → (fresh : Envelope) × (inner.find_by_id e.tenant_id e.id s ≡ some fresh)
        × (get_rev fresh ≡ get_rev e)
  unfolding safe_update
  safe_update-current e u s t w =
      let write : Envelope → Bool → Outcome S Envelope = (λ fresh b.
        if b then inner.update (set_rev e (get_rev fresh + 1)) s else (err conflict, s)) in
      let tried : Option Envelope → Outcome S Envelope = (λ o. elim o [
        | none ↦ (err conflict, s)
        | some fresh ↦ write fresh (get_rev fresh == get_rev e)
      ]) in
      elim (Option-cases (inner.find_by_id e.tenant_id e.id s)) [
        | inl gone ↦
            absurd (false≢true (ap (λ p. is_ok p.0) (subst (λ o. tried o ≡ (ok u, t)) gone w)))
        | inr (fresh, found) ↦
            let w' = subst (λ o. tried o ≡ (ok u, t)) found w in
            elim (Bool-cases (get_rev fresh == get_rev e)) [
              | inl same ↦ (fresh, found, (nat_eq.equals_iff _ _).0 same)
              | inr other ↦ absurd (
                  false≢true
                    (ap (λ p. is_ok p.0) (subst (λ b. write fresh b ≡ (ok u, t)) other w')))
            ]
      ]

  -- A finalization over ConcurrencySafeEnvelopeStore that is accepted read an unused challenge of
  -- this nonce that had not expired, wrote it back as consumed with the record of the signer's
  -- identity, and the stored envelope had then still the revision that was read.
  pub finalize_challenge-IsAccepted :
      (others : ℕ → S → S) (tenant_id envelope_id signer_id nonce : String)
      (verified : SignerIdentityRecord) (now : ℕ) (s t : S)
      → finalize_challenge json
          (concurrency_safe_store inner)
          others
          tenant_id
          envelope_id
          signer_id
          nonce
          verified
          now
          s
        ≡ (ok finalized, t)
      → (a : IsAccepted json
          (concurrency_safe_store inner)
          others
          tenant_id
          envelope_id
          signer_id
          nonce
          verified
          now
          t)
        × (fresh : Envelope) × (inner.find_by_id a.envelope.tenant_id a.envelope.id
              (others a.place a.here)
            ≡ some fresh)
        × (get_rev fresh ≡ get_rev a.envelope)
  unfolding finalize_challenge consume
  finalize_challenge-IsAccepted others tenant_id envelope_id signer_id nonce verified now s t e =
      let a =
        finalize_attempts-finalized json (concurrency_safe_store inner) others tenant_id envelope_id
          signer_id nonce verified now t 5 s e in
      let (fresh, found, same) =
        safe_update-current (consume json a.envelope signer_id verified a.challenge) a.stored
          (others a.place a.here) t a.written in
      (a, fresh, found, same)
