-- ===== src/Envelope.antt =====
-- Multi-signer envelopes with tokenized signing links (packages/esig-core/src/envelope.ts). The
-- store is an interface; SHA-256 and the random generator are parameters. A call that throws still
-- leaves the store that it wrote before it threw.
pub mod Text
pub mod Signing
pub mod Stores
pub mod Signers
pub mod Valid
pub mod Creation
pub mod History
pub mod Effects
pub mod Operations
pub mod Rows
pub mod Runs
pub mod Interleaving
pub mod Concurrency
pub mod Html
mod Tests
use esig_suite.Prelude.{
  ℕ, suc, ◌+◌, String, Bool, true, false, not, ◌&&◌, ◌||◌, Option, none, some, List, [], ◌∷◌, ltb,
  leb, ◌==◌, nat_eq, string_eq, if◌then◌else◌, get_or, find, every, any, select, Result, ok, err,
  ◌>>◌, ◌>>=◌, throw_if,
}
use esig_suite.Envelope.Text.{is_blank, includes_at, assert_image_data_url}

pub data EnvelopeStatus : Type 0 where
  sent partially_signed completed voided expired : EnvelopeStatus

pub data SignerStatus : Type 0 where
  pending signed declined : SignerStatus

pub record EnvelopeSigner : Type 0 where
  pub id : String
  pub name : String
  pub email : String
  pub role_label : Option String
  pub order : ℕ
  pub status : SignerStatus
  pub token_hash : String
  pub signed_at : Option ℕ
  pub signature_image_data_url : Option String
  pub declined_at : Option ℕ
  pub decline_reason : Option String

-- `rev` is the hidden `__mcpRev` of packages/esig-mcp/src/stores.ts, absent elsewhere; `metadata` is
-- a JSON text, which the core never reads.
pub record Envelope : Type 0 where
  pub id : String
  pub tenant_id : String
  pub title : String
  pub html : String
  pub status : EnvelopeStatus
  pub signers : List EnvelopeSigner
  pub created_at : ℕ
  pub expires_at : Option ℕ
  pub completed_at : Option ℕ
  pub voided_at : Option ℕ
  pub metadata : Option String
  pub rev : Option ℕ

-- The codes of `EnvelopeError`, and the errors of the two stores.
pub data EnvelopeFailure : Type 0 where
  invalid_input invalid_token not_your_turn already_signed not_signable not_complete :
      EnvelopeFailure
  not_found conflict : EnvelopeFailure

abbrev pub Outcome : Type 0 → Type 0 → Type 0
Outcome S A = Result EnvelopeFailure A × S

-- `await`: what is thrown goes on, with the store as it is then.
abbrev pub and_then : {S A B : Type 0} → Outcome S A → (A → S → Outcome S B) → Outcome S B
and_then (ok a, s) k = k a s
and_then (err f, s) k = (err f, s)

pub record EnvelopeStore (S : Type 0) : Type 0 where
  pub insert : Envelope → S → Outcome S Envelope
  pub update : Envelope → S → Outcome S Envelope
  pub find_by_id : String → String → S → Option Envelope
  pub find_by_token_hash : String → S → Option Envelope

abbrev pub is_live : EnvelopeStatus → Bool
is_live sent = true
is_live partially_signed = true
is_live _ = false

abbrev pub is_completed : EnvelopeStatus → Bool
is_completed completed = true
is_completed _ = false

abbrev pub is_signed : EnvelopeSigner → Bool
is_signed s = elim s.status [ signed ↦ true | _ ↦ false ]

abbrev pub has_token : String → EnvelopeSigner → Bool
has_token h s = s.token_hash == h

-- `envelope.expiresAt && envelope.expiresAt.getTime() <= Date.now()`
abbrev pub is_past_expiry : Envelope → ℕ → Bool
is_past_expiry e now = elim e.expires_at [ none ↦ false | some at ↦ leb at now ]

-- `SignerInput`, and what the random generator draws for the signer at an index.
pub record SignerInput : Type 0 where
  pub name : String
  pub email : String
  pub role_label : Option String
  pub order : Option ℕ

pub record CreateInput : Type 0 where
  pub tenant_id : String
  pub title : String
  pub html : String
  pub signers : List SignerInput
  pub expires_at : Option ℕ
  pub metadata : Option String

pub record Draws : Type 0 where
  pub envelope_id : String
  pub signer_id : ℕ → String
  pub token : ℕ → String

abbrev pub is_past : Option ℕ → ℕ → Bool
is_past none now = false
is_past (some at) now = leb at now

abbrev pub is_empty {ℓ} : {A : Type ℓ} → List A → Bool
is_empty [] = true
is_empty (x ∷ xs) = false

pub record SigningToken : Type 0 where
  pub signer_id : String
  pub email : String
  pub token : String

pub record CreateResult : Type 0 where
  pub envelope : Envelope
  pub signing_tokens : List SigningToken

-- The raw tokens, from index `n` on, which only the caller gets.
unfoldable pub signing_tokens : List SignerInput → Draws → ℕ → List SigningToken
signing_tokens [] d n = []
signing_tokens (i ∷ is) d n =
    record { signer_id = d.signer_id n; email = i.email; token = d.token n }
    ∷ signing_tokens is d (suc n)

unfoldable pub is_bad_signer : SignerInput → Bool
is_bad_signer i = is_blank i.name || not (includes_at i.email) || ltb (get_or i.order 1) 1

unfoldable pub is_bad_input : CreateInput → ℕ → Bool
is_bad_input i now =
    i.tenant_id == "" || is_blank i.html || is_empty i.signers || is_past i.expires_at now

unfoldable pub new_envelope : CreateInput → Draws → ℕ → List EnvelopeSigner → Envelope
new_envelope i d now signers = record {
  id = d.envelope_id;
  tenant_id = i.tenant_id;
  title = i.title;
  html = i.html;
  status = sent;
  signers = signers;
  created_at = now;
  expires_at = i.expires_at;
  completed_at = none;
  voided_at = none;
  metadata = i.metadata;
  rev = none;
}

module _ (hash_token : String → String) where
  unfoldable pub new_signer : SignerInput → Draws → ℕ → EnvelopeSigner
  new_signer i d n = record {
    id = d.signer_id n;
    name = i.name;
    email = i.email;
    role_label = i.role_label;
    order = get_or i.order 1;
    status = pending;
    token_hash = hash_token (d.token n);
    signed_at = none;
    signature_image_data_url = none;
    declined_at = none;
    decline_reason = none;
  }

  -- `input.signers.map`, from index `n` on: the first bad signer makes it throw.
  unfoldable pub new_signers :
      List SignerInput → Draws → ℕ → Result EnvelopeFailure (List EnvelopeSigner)
  new_signers [] d n = ok []
  new_signers (i ∷ is) d n = do
    throw_if (is_bad_signer i) invalid_input
    rest ← new_signers is d (suc n)
    ok (new_signer i d n ∷ rest)

  -- The envelope that `createEnvelope` inserts.
  unfoldable pub compose_envelope : CreateInput → Draws → ℕ → Result EnvelopeFailure Envelope
  compose_envelope i d now = do
    throw_if (is_bad_input i now) invalid_input
    signers ← new_signers i.signers d 0
    ok (new_envelope i d now signers)
