-- ===== src/Envelope/Signing.antt =====
-- Resolving a token, signing, declining and voiding (packages/esig-core/src/envelope.ts).
use esig_suite.Prelude.{
  ℕ, String, Bool, not, ◌&&◌, Option, none, some, List, [], ◌∷◌, ltb, string_eq, if◌then◌else◌,
  get_or, find, every, select, ok, err,
}
use esig_suite.Envelope.Text.{assert_image_data_url}
use esig_suite.Envelope.{
  Envelope, EnvelopeSigner, EnvelopeStore, EnvelopeFailure, Outcome, and_then, CreateInput, Draws,
  signed, declined, partially_signed, completed, voided, expired, is_live, is_completed, is_signed,
  has_token, is_past_expiry, compose_envelope, CreateResult, signing_tokens, invalid_input,
  invalid_token, not_signable,
}

pub data TokenResolution : Type 0 where
  token_ok : Envelope → EnvelopeSigner → TokenResolution
  not_your_turn : Envelope → EnvelopeSigner → List EnvelopeSigner → TokenResolution
  already_signed : Envelope → EnvelopeSigner → TokenResolution
  closed : Envelope → EnvelopeSigner → TokenResolution
  invalid : TokenResolution

-- The signers that must sign before `x`.
unfoldable pub waiting_on : Envelope → EnvelopeSigner → List EnvelopeSigner
waiting_on e x = select (λ s. ltb s.order x.order && not (is_signed s)) e.signers

abbrev pub turn : Envelope → EnvelopeSigner → List EnvelopeSigner → TokenResolution
turn e x [] = token_ok e x
turn e x (w ∷ ws) = not_your_turn e x (w ∷ ws)

-- The gates behind the expiry. `closed` stands for the resolutions "completed", "voided" and
-- "expired", which are the status of the envelope.
unfoldable pub gates : Envelope → EnvelopeSigner → TokenResolution
gates e x =
    if not (is_live e.status)
    then closed e x
    else if is_signed x
    then already_signed e x
    else turn e x (waiting_on e x)

unfoldable pub is_overdue : Envelope → ℕ → Bool
is_overdue e now = is_live e.status && is_past_expiry e now

abbrev pub expire : Envelope → Envelope
expire e = record e { status = expired }

-- `signers.find` returns the object itself, so that its changes are changes of the envelope.
abbrev pub change_first {ℓ} : {A : Type ℓ} → (A → Bool) → (A → A) → List A → List A
change_first p f [] = []
change_first p f (x ∷ xs) = if p x then f x ∷ xs else x ∷ change_first p f xs

abbrev pub put_signature : String → ℕ → EnvelopeSigner → EnvelopeSigner
put_signature url at s = record s {
  status = signed;
  signed_at = some at;
  signature_image_data_url = some url;
}

abbrev pub put_refusal : Option String → ℕ → EnvelopeSigner → EnvelopeSigner
put_refusal reason now s = record s {
  status = declined;
  declined_at = some now;
  decline_reason = reason;
}

abbrev pub with_signers : Envelope → List EnvelopeSigner → ℕ → Envelope
with_signers e signers now = record e {
  signers = signers;
  status = if every is_signed signers then completed else partially_signed;
  completed_at = if every is_signed signers then some now else e.completed_at;
}

unfoldable pub with_signature : Envelope → String → String → ℕ → ℕ → Envelope
with_signature e h url at now =
    with_signers e (change_first (has_token h) (put_signature url at) e.signers) now

unfoldable pub with_refusal : Envelope → String → Option String → ℕ → Envelope
with_refusal e h reason now = record e {
  signers = change_first (has_token h) (put_refusal reason now) e.signers;
  status = voided;
  voided_at = some now;
}

unfoldable pub with_void : Envelope → ℕ → Envelope
with_void e now = record e { status = voided; voided_at = some now }

module _ {S : Type 0} (st : EnvelopeStore S) where
  unfoldable pub resolve_found : Envelope → EnvelopeSigner → ℕ → S → Outcome S TokenResolution
  resolve_found e x now s =
      if is_overdue e now
      then and_then (st.update (expire e) s) (λ u t. (ok (closed u x), t))
      else (ok (gates e x), s)

  unfoldable pub sign_resolved :
      TokenResolution → String → String → Option ℕ → ℕ → S → Outcome S Envelope
  sign_resolved invalid h image at now s = (err invalid_token, s)
  sign_resolved (not_your_turn e x ws) h image at now s = (err EnvelopeFailure.not_your_turn, s)
  sign_resolved (already_signed e x) h image at now s = (err EnvelopeFailure.already_signed, s)
  sign_resolved (closed e x) h image at now s = (err not_signable, s)
  sign_resolved (token_ok e x) h image at now s = elim (assert_image_data_url image) [
    | none ↦ (err invalid_input, s)
    | some url ↦ st.update (with_signature e h url (get_or at now) now) s
  ]

  unfoldable pub decline_resolved :
      TokenResolution → String → Option String → ℕ → S → Outcome S Envelope
  decline_resolved invalid h reason now s = (err invalid_token, s)
  decline_resolved (already_signed e x) h reason now s = (err not_signable, s)
  decline_resolved (closed e x) h reason now s = (err not_signable, s)
  decline_resolved (not_your_turn e x ws) h reason now s = st.update (with_refusal e h reason now) s
  decline_resolved (token_ok e x) h reason now s = st.update (with_refusal e h reason now) s

  unfoldable pub void_envelope : String → String → ℕ → S → Outcome S Envelope
  void_envelope tenant_id envelope_id now s = elim (st.find_by_id tenant_id envelope_id s) [
    | none ↦ (err invalid_input, s)
    | some e ↦
        if is_completed e.status then (err not_signable, s) else st.update (with_void e now) s
  ]

module _ {S : Type 0} (st : EnvelopeStore S) (hash_token : String → String) where
  unfoldable pub create_envelope : CreateInput → Draws → ℕ → S → Outcome S CreateResult
  create_envelope i d now s = elim (compose_envelope hash_token i d now) [
    | err f ↦ (err f, s)
    | ok e ↦ and_then (st.insert e s) (λ stored t.
        (ok (record { envelope = stored; signing_tokens = signing_tokens i.signers d 0 }), t))
  ]

  unfoldable pub resolve_signing_token : String → ℕ → S → Outcome S TokenResolution
  resolve_signing_token token now s = elim (st.find_by_token_hash (hash_token token) s) [
    | none ↦ (ok invalid, s)
    | some e ↦ elim (find (has_token (hash_token token)) e.signers) [
      | none ↦ (ok invalid, s)
      | some x ↦ resolve_found st e x now s
    ]
  ]

  unfoldable pub record_signature : String → String → Option ℕ → ℕ → S → Outcome S Envelope
  record_signature token image at now s =
      and_then (resolve_signing_token token now s)
        (λ r. sign_resolved st r (hash_token token) image at now)

  unfoldable pub decline_envelope : String → Option String → ℕ → S → Outcome S Envelope
  decline_envelope token reason now s =
      and_then (resolve_signing_token token now s)
        (λ r. decline_resolved st r (hash_token token) reason now)
