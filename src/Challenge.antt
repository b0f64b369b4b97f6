-- ===== src/Challenge.antt =====
-- The sole-control challenge of a signer: `issueChallenge` and `finalizeChallenge` of
-- packages/esig-mcp/src/identity/challenge.ts, over any store of envelopes, with the accessors of
-- packages/esig-mcp/src/identity/types.ts. Reading and writing the `mcp` member of the metadata, a
-- JSON text, is the host's. Times are numbers of milliseconds in place of their ISO text.
pub mod Single
pub mod Attempts
mod Tests
use esig_suite.Prelude.{
  ℕ, zero, suc, ◌+◌, ◌*◌, String, Bool, true, false, not, ◌&&◌, Option, none, some, List, ltb, leb,
  ◌==◌, nat_eq, string_eq, if◌then◌else◌, find, ok, err, Result,
}
use esig_suite.Dict.{Dict, get, put, empty}
use esig_suite.Envelope.{Envelope, EnvelopeSigner, EnvelopeStore, EnvelopeFailure}

pub data IdentityLevel : Type 0 where
  unproved l0 l1 l1p l2 : IdentityLevel

pub record SignerChallengeState : Type 0 where
  pub nonce : String
  pub issued_at : ℕ
  pub expires_at : ℕ
  pub consumed : Bool

pub record SignerIdentityRegistryRecord : Type 0 where
  pub resolved_at : ℕ
  pub credential_id : Option String
  pub credential_valid : Option Bool
  pub receipt_id : Option String
  pub anchor : Option String
  pub registry_snapshot_digest : Option String

pub record SignerIdentityRecord : Type 0 where
  pub level : IdentityLevel
  pub uuaid : String
  pub key_fingerprint : Option String
  pub proof_digest : Option String
  pub credential_digest : Option String
  pub verified_at : ℕ
  pub registry : Option SignerIdentityRegistryRecord

pub record SignerIdentityState : Type 0 where
  pub challenge : Option SignerChallengeState
  pub verified : Option SignerIdentityRecord

pub record EnvelopeIdentityPolicy : Type 0 where
  pub min_level : IdentityLevel
  pub signers : Dict (Option String)
  pub registry_url : Option String

pub record EnvelopeIdentityMetadata : Type 0 where
  pub policy : Option EnvelopeIdentityPolicy
  pub signers : Option (Dict SignerIdentityState)

-- The members of `metadata.mcp` that are used here.
pub record McpBucket : Type 0 where
  pub html_sha256 : Option String
  pub identity : Option EnvelopeIdentityMetadata

-- How the host reads and writes the member `mcp` of the metadata.
pub record Json : Type 0 where
  pub read_mcp : Option String → McpBucket
  pub write_mcp : McpBucket → Option String → Option String

pub record IdentityChallengePayload : Type 0 where
  pub envelope_id : String
  pub signer_id : String
  pub html_sha256 : String
  pub nonce : String
  pub issued_at : ℕ
  pub expires_at : ℕ

pub data ChallengeError : Type 0 where
  envelope_missing signer_missing digest_missing : ChallengeError
  store_error : EnvelopeFailure → ChallengeError

pub data FinalizeChallengeResult : Type 0 where
  finalized : FinalizeChallengeResult
  no_envelope no_challenge already_consumed other_nonce challenge_expired contention :
      FinalizeChallengeResult

abbrev pub signers_of : Option EnvelopeIdentityMetadata → Dict SignerIdentityState
signers_of none = empty
signers_of (some i) = elim i.signers [ none ↦ empty | some m ↦ m ]

abbrev pub policy_of : Option EnvelopeIdentityMetadata → Option EnvelopeIdentityPolicy
policy_of none = none
policy_of (some i) = i.policy

abbrev pub challenge_of : Option SignerIdentityState → Option SignerChallengeState
challenge_of none = none
challenge_of (some s) = s.challenge

abbrev pub verified_of : Option SignerIdentityState → Option SignerIdentityRecord
verified_of none = none
verified_of (some s) = s.verified

-- The tests of `finalizeChallenge` on the challenge that is read: why it is refused.
unfoldable pub refusal : String → ℕ → SignerChallengeState → Option FinalizeChallengeResult
refusal nonce now c =
    if c.consumed
    then some already_consumed
    else if not (c.nonce == nonce)
    then some other_nonce
    else if leb c.expires_at now
    then some challenge_expired
    else none

module _ (json : Json) where
  unfoldable pub get_signer_identity_state : Envelope → String → Option SignerIdentityState
  get_signer_identity_state e signer_id =
      get signer_id (signers_of (json.read_mcp e.metadata).identity)

  unfoldable pub with_signer_state : String → SignerIdentityState → McpBucket → McpBucket
  with_signer_state signer_id state mcp = record mcp {
    identity = some (record {
      policy = policy_of mcp.identity;
      signers = some (put signer_id state (signers_of mcp.identity));
    });
  }

  unfoldable pub set_signer_identity_state : Envelope → String → SignerIdentityState → Envelope
  unfolding with_signer_state
  set_signer_identity_state e signer_id state = record e {
    metadata =
        json.write_mcp (with_signer_state signer_id state (json.read_mcp e.metadata)) e.metadata;
  }

  unfoldable pub consume :
      Envelope → String → SignerIdentityRecord → SignerChallengeState → Envelope
  unfolding set_signer_identity_state
  consume e signer_id verified c =
      set_signer_identity_state e signer_id
        (record { challenge = some (record c { consumed = true }); verified = some verified })

  module _ {S : Type 0} (store : EnvelopeStore S) where
    payload_of : Envelope → String → String → SignerChallengeState → IdentityChallengePayload
    payload_of e signer_id html_sha256 c = record {
      envelope_id = e.id;
      signer_id = signer_id;
      html_sha256 = html_sha256;
      nonce = c.nonce;
      issued_at = c.issued_at;
      expires_at = c.expires_at;
    }

    -- A new challenge is stored.
    issue_new :
        Envelope
        → String
        → String
        → SignerChallengeState
        → S
        → Result ChallengeError IdentityChallengePayload × S
    unfolding get_signer_identity_state set_signer_identity_state payload_of
    issue_new e signer_id html_sha256 c s =
        let state : SignerIdentityState = record {
          challenge = some c;
          verified = verified_of (get_signer_identity_state e signer_id);
        } in
        let (written, t) = store.update (set_signer_identity_state e signer_id state) s in
        (
          elim written [
            | ok u ↦ ok (payload_of e signer_id html_sha256 c)
            | err f ↦ err (store_error f)
          ],
          t,
        )

    -- A challenge that is alive is returned as it is.
    issue_for :
        Envelope
        → String
        → String
        → SignerChallengeState
        → ℕ
        → Option SignerChallengeState
        → S
        → Result ChallengeError IdentityChallengePayload × S
    unfolding issue_new payload_of
    issue_for e signer_id html_sha256 fresh now none s = issue_new e signer_id html_sha256 fresh s
    issue_for e signer_id html_sha256 fresh now (some c) s =
        if not c.consumed && ltb now c.expires_at
        then (ok (payload_of e signer_id html_sha256 c), s)
        else issue_new e signer_id html_sha256 fresh s

    unfoldable pub issue_challenge :
        String
        → String
        → String
        → ℕ
        → ℕ
        → String
        → S
        → Result ChallengeError IdentityChallengePayload × S
    unfolding issue_for get_signer_identity_state
    issue_challenge tenant_id envelope_id signer_id ttl_sec now nonce s =
        elim (store.find_by_id tenant_id envelope_id s) [
          | none ↦ (err envelope_missing, s)
          | some e ↦ elim (find (λ x. x.id == signer_id) e.signers) [
            | none ↦ (err signer_missing, s)
            | some x ↦ elim (json.read_mcp e.metadata).html_sha256 [
              | none ↦ (err digest_missing, s)
              | some html_sha256 ↦
                  issue_for e x.id html_sha256
                    (record {
                      nonce = nonce;
                      issued_at = now;
                      expires_at = now + ttl_sec * 1000;
                      consumed = false;
                    })
                    now (challenge_of (get_signer_identity_state e x.id)) s
            ]
          ]
        ]

    -- What the write of an attempt leads to: the last one throws what the store throws.
    unfoldable pub after_write :
        (S → Result ChallengeError FinalizeChallengeResult × S)
        → Bool
        → Result EnvelopeFailure Envelope × S
        → Result ChallengeError FinalizeChallengeResult × S
    after_write again is_last (ok u, t) = (ok finalized, t)
    after_write again is_last (err f, t) =
        let next = again t in if is_last then (err (store_error f), t) else next

    -- An attempt with the challenge that was read, where other workers act before the write.
    unfoldable pub attempt_with :
        (S → Result ChallengeError FinalizeChallengeResult × S)
        → Bool
        → (S → S)
        → String
        → String
        → SignerIdentityRecord
        → ℕ
        → Envelope
        → Option SignerChallengeState
        → S
        → Result ChallengeError FinalizeChallengeResult × S
    unfolding after_write refusal consume
    attempt_with again is_last others signer_id nonce verified now e none s = (ok no_challenge, s)
    attempt_with again is_last others signer_id nonce verified now e (some c) s =
        elim (refusal nonce now c) [
          | some reason ↦ (ok reason, s)
          | none ↦
              after_write again is_last (store.update (consume e signer_id verified c) (others s))
        ]

    unfoldable pub attempt :
        (S → Result ChallengeError FinalizeChallengeResult × S)
        → Bool
        → (S → S)
        → String
        → String
        → SignerIdentityRecord
        → ℕ
        → Option Envelope
        → S
        → Result ChallengeError FinalizeChallengeResult × S
    unfolding attempt_with get_signer_identity_state
    attempt again is_last others signer_id nonce verified now none s = (ok no_envelope, s)
    attempt again is_last others signer_id nonce verified now (some e) s =
        attempt_with again is_last others signer_id nonce verified now e
          (challenge_of (get_signer_identity_state e signer_id)) s

    -- The attempts that are left. Other workers act before each call of the store.
    unfoldable pub finalize_attempts :
        (ℕ → S → S)
        → String
        → String
        → String
        → String
        → SignerIdentityRecord
        → ℕ
        → ℕ
        → S
        → Result ChallengeError FinalizeChallengeResult × S
    unfolding attempt
    finalize_attempts others tenant_id envelope_id signer_id nonce verified now zero s =
        (ok contention, s)
    finalize_attempts others tenant_id envelope_id signer_id nonce verified now (suc left) s =
        let here = others (2 * left + 1) s in
        attempt (finalize_attempts others tenant_id envelope_id signer_id nonce verified now left)
          (left == 0) (others (2 * left)) signer_id nonce verified now
          (store.find_by_id tenant_id envelope_id here) here

    unfoldable pub finalize_challenge :
        (ℕ → S → S)
        → String
        → String
        → String
        → String
        → SignerIdentityRecord
        → ℕ
        → S
        → Result ChallengeError FinalizeChallengeResult × S
    unfolding finalize_attempts
    finalize_challenge others tenant_id envelope_id signer_id nonce verified now s =
        finalize_attempts others tenant_id envelope_id signer_id nonce verified now 5 s
