-- ===== src/Challenge/Single.antt =====
-- What `finalizeChallenge` of packages/esig-mcp/src/identity/challenge.ts accepts.
use mathlib.Core.Bool.{false≢true}
use mathlib.Core.Logic.{◌⊎◌}
use esig_suite.Prelude.{
  ℕ, zero, suc, ◌+◌, ◌*◌, nat_eq, ◌<◌, ◌≡◌, refl, sym, ap, ◌∙◌, subst, String, Bool, true, false,
  Option, none, some, arith, ◌==◌, string_eq, leb, Option-cases, Bool-cases, inl, inr, ok, err,
  Result,
}
use esig_suite.Envelope.{Envelope, EnvelopeStore, EnvelopeFailure}
use esig_suite.Challenge.{
  Json, SignerChallengeState, SignerIdentityRecord, FinalizeChallengeResult, finalized,
  ChallengeError, challenge_of, refusal, get_signer_identity_state, consume, after_write,
  attempt_with, attempt, finalize_attempts,
}

-- A challenge that the nonce answers in time.
pub record IsOpen (nonce : String) (now : ℕ) (c : SignerChallengeState) : Type 0 where
  pub unused : c.consumed ≡ false
  pub answers : c.nonce ≡ nonce
  pub alive : now < c.expires_at

pub refusal-none :
    (nonce : String) (now : ℕ) (c : SignerChallengeState)
    → refusal nonce now c ≡ none
    → IsOpen nonce now c
unfolding refusal
refusal-none nonce now c e = record {
  unused = ground arith;
  answers = (string_eq.equals_iff c.nonce nonce).0 (ground arith);
  alive = ground arith;
}

abbrev pub is_finalized : FinalizeChallengeResult → Bool
is_finalized finalized = true
is_finalized _ = false

abbrev pub accepts : Result ChallengeError FinalizeChallengeResult → Bool
accepts (ok r) = is_finalized r
accepts (err f) = false

abbrev pub accepts_some : Option FinalizeChallengeResult → Bool
accepts_some none = false
accepts_some (some r) = is_finalized r

pub refusal-accepts_some :
    (nonce : String) (now : ℕ) (c : SignerChallengeState)
    → accepts_some (refusal nonce now c) ≡ false
unfolding refusal
refusal-accepts_some nonce now c = elim (Bool-cases c.consumed) [
  | inl e ↦ rw e refl
  | inr e ↦ elim (Bool-cases (c.nonce == nonce)) [
    | inr d ↦ rw (e, d) refl
    | inl d ↦ elim (Bool-cases (leb c.expires_at now)) [
      | inl l ↦ rw (e, d, l) refl
      | inr l ↦ rw (e, d, l) refl
    ]
  ]
]

module _ (json : Json) {S : Type 0} (store : EnvelopeStore S) where
  -- How a finalization is accepted: what was read, and what was written.
  pub record IsAccepted (others : ℕ → S → S) (tenant_id envelope_id signer_id nonce : String)
      (verified : SignerIdentityRecord) (now : ℕ) (t : S) : Type 0 where
    pub here : S
    pub envelope : Envelope
    pub challenge : SignerChallengeState
    pub stored : Envelope
    pub place : ℕ
    pub read : store.find_by_id tenant_id envelope_id here ≡ some envelope
    pub issued : challenge_of (get_signer_identity_state json envelope signer_id) ≡ some challenge
    pub fits : IsOpen nonce now challenge
    pub written :
        store.update (consume json envelope signer_id verified challenge) (others place here)
        ≡ (ok stored, t)

  module _ (others : ℕ → S → S) (tenant_id envelope_id signer_id nonce : String)
      (verified : SignerIdentityRecord) (now : ℕ) (t : S) where
    abbrev Accepted : Type 0
    Accepted = IsAccepted others tenant_id envelope_id signer_id nonce verified now t

    after_write-finalized :
        (again : S → Result ChallengeError FinalizeChallengeResult × S) (is_last : Bool)
        (r : Result EnvelopeFailure Envelope × S)
        → after_write json store again is_last r ≡ (ok finalized, t)
        → ((u : Envelope) × (r ≡ (ok u, t))) ⊎ ((s : S) × (again s ≡ (ok finalized, t)))
    unfolding after_write
    after_write-finalized again is_last (ok u, s) e = inl (u, ap (λ p. (ok u, p.1)) e)
    after_write-finalized again true (err f, s) e = absurd (false≢true (ap (λ p. accepts p.0) e))
    after_write-finalized again false (err f, s) e = inr (s, e)

    attempt_with-finalized :
        (again : S → Result ChallengeError FinalizeChallengeResult × S) (is_last : Bool) (place : ℕ)
        (here : S) (x : Envelope) (found : Option SignerChallengeState)
        → store.find_by_id tenant_id envelope_id here ≡ some x
        → challenge_of (get_signer_identity_state json x signer_id) ≡ found
        → attempt_with json store again is_last
            (others place)
            signer_id
            nonce
            verified
            now
            x
            found
            here
          ≡ (ok finalized, t)
        → Accepted ⊎ ((s : S) × (again s ≡ (ok finalized, t)))
    unfolding attempt_with
    attempt_with-finalized again is_last place here x none read issued e =
        absurd (false≢true (ap (λ p. accepts p.0) e))
    attempt_with-finalized again is_last place here x (some c) read issued e =
        let after =
          after_write json store again is_last
            (store.update (consume json x signer_id verified c) (others place here)) in
        let chosen : Option FinalizeChallengeResult
            → Result ChallengeError FinalizeChallengeResult × S =
          (λ o. elim o [ some reason ↦ (ok reason, here) | none ↦ after ]) in
        elim (Option-cases (refusal nonce now c)) [
          | inr (r, why) ↦ absurd (
              false≢true (
                sym (sym (ap accepts_some why) ∙ refusal-accepts_some nonce now c)
                ∙ ap (λ p. accepts p.0) (subst (λ o. chosen o ≡ (ok finalized, t)) why e)))
          | inl passed ↦
              elim (after_write-finalized again is_last _
                (subst (λ o. chosen o ≡ (ok finalized, t)) passed e)) [
                  | inr later ↦ inr later
                  | inl (u, written) ↦ inl (record {
                    here = here;
                    envelope = x;
                    challenge = c;
                    stored = u;
                    place = place;
                    read = read;
                    issued = issued;
                    fits = refusal-none nonce now c passed;
                    written = written;
                  })
                ]
        ]

    pub finalize_attempts-finalized :
        (left : ℕ) (s : S)
        → finalize_attempts json store others tenant_id envelope_id signer_id nonce verified now
            left s
          ≡ (ok finalized, t)
        → Accepted
    unfolding finalize_attempts attempt
    finalize_attempts-finalized zero s e = absurd (false≢true (ap (λ p. accepts p.0) e))
    finalize_attempts-finalized (suc left) s e =
        let here = others (2 * left + 1) s in
        let again =
          finalize_attempts json store others tenant_id envelope_id signer_id nonce verified now
            left in
        let tried : Option Envelope → Result ChallengeError FinalizeChallengeResult × S = (λ o.
          attempt json store again (left == 0) (others (2 * left)) signer_id nonce verified now o
            here) in
        elim (Option-cases (store.find_by_id tenant_id envelope_id here)) [
          | inl gone ↦
              absurd (
                false≢true
                  (ap (λ p. accepts p.0) (subst (λ o. tried o ≡ (ok finalized, t)) gone e)))
          | inr (x, read) ↦
              elim (attempt_with-finalized again (left == 0) (2 * left) here x _ read refl
                (subst (λ o. tried o ≡ (ok finalized, t)) read e)) [
                  | inl a ↦ a
                  | inr (s', more) ↦ finalize_attempts-finalized left s' more
                ]
        ]
