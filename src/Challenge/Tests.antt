-- ===== src/Challenge/Tests.antt =====
-- Challenges of signers, at concrete envelopes.
use esig_suite.Prelude.{
  ℕ, ◌≡◌, ◌≢◌, refl, sym, ap, ◌∙◌, get_or, String, Bool, true, false, Option, none, some, [], ◌∷◌,
  ok, string_eq, nat_eq,
}
use esig_suite.Dict.{get}
use esig_suite.Envelope.{Envelope, EnvelopeStore, EnvelopeSigner, sent, pending}
use esig_suite.Envelope.Stores.{
  Rows, concurrency_safe_store, fs_envelope_store, fs_update, fs_find_by_id, get_rev, safe_update,
}
use esig_suite.Challenge.{
  Json, McpBucket, SignerChallengeState, SignerIdentityRecord, finalized, contention,
  already_consumed, l1, get_signer_identity_state, challenge_of, issue_challenge,
  finalize_challenge,
}
use esig_suite.Challenge.Single.{IsAccepted, accepts}
use esig_suite.Challenge.Attempts.{
  IsSpent, finalize_challenge-ends, finalize_challenge-spent, finalize_challenge-IsAccepted,
}

abbrev given : Bool → SignerChallengeState
given used = record { nonce = "n"; issued_at = 0; expires_at = 900; consumed = used }

abbrev bucket : Bool → McpBucket
bucket used = record {
  html_sha256 = some "digest";
  identity = some (record {
    policy = none;
    signers = some (("x", record { challenge = some (given used); verified = none }) ∷ []);
  });
}

-- A host whose metadata says no more than whether the challenge was used.
abbrev json : Json
json = record {
  read_mcp = λ m. elim m [ none ↦ bucket false | some text ↦ bucket true ];
  write_mcp = λ b m. some "used";
}

abbrev signer : EnvelopeSigner
signer = record {
  id = "x";
  name = "Alice";
  email = "alice@example.org";
  role_label = none;
  order = 1;
  status = pending;
  token_hash = "hash";
  signed_at = none;
  signature_image_data_url = none;
  declined_at = none;
  decline_reason = none;
}

abbrev contract : Option String → ℕ → Envelope
contract metadata rev = record {
  id = "e";
  tenant_id = "t";
  title = "Contract";
  html = "<p>terms</p>";
  status = sent;
  signers = signer ∷ [];
  created_at = 0;
  expires_at = none;
  completed_at = none;
  voided_at = none;
  metadata = metadata;
  rev = some rev;
}

abbrev proof : SignerIdentityRecord
proof = record {
  level = l1;
  uuaid = "uuaid";
  key_fingerprint = some "key";
  proof_digest = some "proof";
  credential_digest = none;
  verified_at = 100;
  registry = none;
}

abbrev store : EnvelopeStore Rows
store = concurrency_safe_store fs_envelope_store

abbrev before : Rows
before = contract none 3 ∷ []

abbrev after : Rows
after = contract (some "used") 4 ∷ []

abbrev alone : ℕ → Rows → Rows
alone k s = s

used_once :
    finalize_challenge json store alone "t" "e" "x" "n" proof 100 before ≡ (ok finalized, after)
unfolding finalize_challenge safe_update fs_update fs_find_by_id get
used_once = refl

not_twice :
    finalize_challenge json store alone "t" "e" "x" "n" proof 100 after
    ≡ (ok already_consumed, after)
unfolding finalize_challenge safe_update fs_update fs_find_by_id get
not_twice = refl

finalize_challenge-ends_example :
    (finalize_challenge json store alone "t" "e" "x" "n" proof 100 before).0 ≢ ok contention
finalize_challenge-ends_example =
    finalize_challenge-ends json store alone "t" "e" "x" "n" proof 100 before

abbrev used_by : Option SignerChallengeState → Bool
used_by none = false
used_by (some c) = c.consumed

used-IsSpent : IsSpent json store "t" "e" "x" "n" after
unfolding IsSpent fs_find_by_id get_signer_identity_state get
used-IsSpent e c read issued answers = sym (
    ap
      (λ o.
        used_by
          (challenge_of (get_signer_identity_state json (get_or o (contract (some "used") 4)) "x")))
      read
    ∙ ap used_by issued)

finalize_challenge-spent_example :
    ((finalize_challenge json store alone "t" "e" "x" "n" proof 100 after).1 ≡ after)
    × (accepts (finalize_challenge json store alone "t" "e" "x" "n" proof 100 after).0 ≡ false)
finalize_challenge-spent_example =
    finalize_challenge-spent json store alone "t" "e" "x" "n" proof 100 after used-IsSpent

finalize_challenge-IsAccepted_example :
    (a : IsAccepted json store alone "t" "e" "x" "n" proof 100 after) × (fresh : Envelope)
    × (fs_envelope_store.find_by_id a.envelope.tenant_id a.envelope.id (alone a.place a.here)
        ≡ some fresh)
    × (get_rev fresh ≡ get_rev a.envelope)
finalize_challenge-IsAccepted_example =
    finalize_challenge-IsAccepted json fs_envelope_store alone "t" "e" "x" "n" proof 100 before
      after used_once

issued_again : (issue_challenge json store "t" "e" "x" 900 100 "other" before).1 ≡ before
unfolding issue_challenge fs_find_by_id get
issued_again = refl
