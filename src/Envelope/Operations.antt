-- ===== src/Envelope/Operations.antt =====
-- The effect of signing, declining and voiding on the rows of `FsEnvelopeStore`
-- (packages/esig-core/src/envelope.ts over packages/esig-core/src/fs-adapters.ts).
use esig_suite.Prelude.{
  ℕ, ◌≡◌, refl, String, Bool, true, false, Option, none, some, List, [], ◌∷◌, find, inl, inr,
  Bool-cases, Option-cases, err, get_or,
}
use esig_suite.Envelope.Text.{assert_image_data_url, assert_image_data_url_lem}
use esig_suite.Envelope.{
  Envelope, EnvelopeSigner, is_live, is_completed, is_signed, has_token, invalid_input, Outcome,
}
use esig_suite.Envelope.Signing.{
  TokenResolution, token_ok, turn, gates, waiting_on, with_signature, with_refusal, with_void,
  sign_resolved, record_signature, decline_resolved, decline_envelope, void_envelope,
}
use esig_suite.Envelope.Stores.{Rows, fs_find_by_id, has_signer, is_tenants}
use esig_suite.Envelope.History.{signs, refuses, voids}
use esig_suite.Envelope.Effects.{Effect, leaves, updates, resolved-Effect, rows_store}

module _ (put write : Envelope → Rows → Outcome Rows Envelope) (p : Envelope → Bool) (h : String)
    (e : Envelope) (x : EnvelopeSigner) (s : Rows) (found : find p s ≡ some e)
    (mine : find (has_token h) e.signers ≡ some x) where
  abbrev sign : TokenResolution → String → Option ℕ → ℕ → Rows
  sign r image at now = (sign_resolved (rows_store put write) r h image at now s).1

  abbrev decline : TokenResolution → Option String → ℕ → Rows
  decline r reason now = (decline_resolved (rows_store put write) r h reason now s).1

  unacceptable :
      (image : String) (at : Option ℕ) (now : ℕ)
      → assert_image_data_url image ≡ none
      → sign_resolved (rows_store put write) (token_ok e x) h image at now s
        ≡ (err invalid_input, s)
  unfolding sign_resolved
  unacceptable image at now bad = rw (sign_resolved, bad) refl

  acceptable :
      (image url : String) (at : Option ℕ) (now : ℕ)
      → assert_image_data_url image ≡ some url
      → sign_resolved (rows_store put write) (token_ok e x) h image at now s
        ≡ write (with_signature e h url (get_or at now) now) s
  unfolding sign_resolved
  acceptable image url at now good = rw (sign_resolved, good) refl

  on_turn-Effect :
      (image : String) (at : Option ℕ) (now : ℕ)
      → is_live e.status ≡ true
      → is_signed x ≡ false
      → waiting_on e x ≡ []
      → Effect write s (sign_resolved (rows_store put write) (token_ok e x) h image at now s).1
  on_turn-Effect image at now live unsigned w = elim (Option-cases (assert_image_data_url image)) [
    | inl bad ↦ rw (unacceptable image at now bad) leaves
    | inr (url, good) ↦ rw (acceptable image url at now good) (
        updates p e (with_signature e h url (get_or at now) now) found (
          signs x h url (get_or at now) now live mine unsigned w
            (assert_image_data_url_lem image url good)))
  ]

  turn-sign-Effect :
      (image : String) (at : Option ℕ) (now : ℕ) (ws : List EnvelopeSigner)
      → is_live e.status ≡ true
      → is_signed x ≡ false
      → waiting_on e x ≡ ws
      → Effect write s (sign (turn e x ws) image at now)
  unfolding sign_resolved
  turn-sign-Effect image at now [] live unsigned w = on_turn-Effect image at now live unsigned w
  turn-sign-Effect image at now (y ∷ ys) live unsigned w = leaves

  gates-sign-Effect :
      (image : String) (at : Option ℕ) (now : ℕ) → Effect write s (sign (gates e x) image at now)
  unfolding gates sign_resolved
  gates-sign-Effect image at now = elim (Bool-cases (is_live e.status)) [
    | inr dead ↦ rw (gates, dead) leaves
    | inl live ↦ elim (Bool-cases (is_signed x)) [
      | inl used ↦ rw (gates, live, used) leaves
      | inr unsigned ↦
          rw (gates, live, unsigned)
            (turn-sign-Effect image at now (waiting_on e x) live unsigned refl)
    ]
  ]

  turn-decline-Effect :
      (reason : Option String) (now : ℕ) (ws : List EnvelopeSigner)
      → is_live e.status ≡ true
      → is_signed x ≡ false
      → Effect write s (decline (turn e x ws) reason now)
  unfolding decline_resolved
  turn-decline-Effect reason now [] live unsigned =
      updates p e (with_refusal e h reason now) found (refuses x h reason now live mine unsigned)
  turn-decline-Effect reason now (y ∷ ys) live unsigned =
      updates p e (with_refusal e h reason now) found (refuses x h reason now live mine unsigned)

  gates-decline-Effect :
      (reason : Option String) (now : ℕ) → Effect write s (decline (gates e x) reason now)
  unfolding gates decline_resolved
  gates-decline-Effect reason now = elim (Bool-cases (is_live e.status)) [
    | inr dead ↦ rw (gates, dead) leaves
    | inl live ↦ elim (Bool-cases (is_signed x)) [
      | inl used ↦ rw (gates, live, used) leaves
      | inr unsigned ↦
          rw (gates, live, unsigned) (turn-decline-Effect reason now (waiting_on e x) live unsigned)
    ]
  ]

pub void_envelope-Effect :
    (put write : Envelope → Rows → Outcome Rows Envelope) (tenant_id id : String) (now : ℕ)
    (s : Rows)
    → Effect write s (void_envelope (rows_store put write) tenant_id id now s).1
unfolding void_envelope fs_find_by_id
void_envelope-Effect put write tenant_id id now s =
    elim (Option-cases (find (is_tenants tenant_id id) s)) [
      | inl gone ↦ rw (void_envelope, fs_find_by_id, gone) leaves
      | inr (e, found) ↦ elim (Bool-cases (is_completed e.status)) [
        | inl done ↦ rw (void_envelope, fs_find_by_id, found, done) leaves
        | inr unfinished ↦
            rw (void_envelope, fs_find_by_id, found, unfinished)
              (updates (is_tenants tenant_id id) e (with_void e now) found (voids now unfinished))
      ]
    ]

module _ (put write : Envelope → Rows → Outcome Rows Envelope) (hash_token : String → String) where
  pub record_signature-Effect :
      (token image : String) (at : Option ℕ) (now : ℕ) (s : Rows)
      → Effect write s (record_signature (rows_store put write) hash_token token image at now s).1
  unfolding record_signature sign_resolved
  record_signature-Effect token image at now s =
      resolved-Effect put write hash_token token now s
        (λ r. sign_resolved (rows_store put write) r (hash_token token) image at now)
        (λ e x t. refl) (λ t. refl)
        (λ e x found mine.
          gates-sign-Effect put write (has_signer (hash_token token)) (hash_token token) e x s found
            mine image at now)

  pub decline_envelope-Effect :
      (token : String) (reason : Option String) (now : ℕ) (s : Rows)
      → Effect write s (decline_envelope (rows_store put write) hash_token token reason now s).1
  unfolding decline_envelope decline_resolved
  decline_envelope-Effect token reason now s =
      resolved-Effect put write hash_token token now s
        (λ r. decline_resolved (rows_store put write) r (hash_token token) reason now)
        (λ e x t. refl) (λ t. refl)
        (λ e x found mine.
          gates-decline-Effect put write (has_signer (hash_token token)) (hash_token token) e x s
            found mine reason now)
