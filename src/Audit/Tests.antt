-- ===== src/Audit/Tests.antt =====
-- The audit chain at concrete rows.
use mathlib.Core.Logic.{◌⊎◌}
use esig_suite.Prelude.{◌≡◌, ◌↔◌, refl, true, false, String, none, some, [], ◌∷◌}
use esig_suite.Audit.Text.{epoch_micros, append}
use esig_suite.Audit.{Host, ChainRow, verify_audit_chain}
use esig_suite.Audit.Chain.{IsIntact, IsCounted, verify_audit_chain-IsIntact}
use esig_suite.Audit.Tamper.{
  Collision, payloads, verify_audit_chain-binds, verify_audit_chain-prefix,
}

-- A host whose hash is the text itself.
abbrev host : Host
host = record {
  sha256_hex = λ s. s;
  date_parse = λ s. some 1783082096000;
  to_text = λ n. "1783082096789012";
}

abbrev payload : String
payload = "v1|t|sign|u|||1783082096789012|0123456789abcdef0123456789abcdef"

abbrev row : ChainRow
row = record {
  id = "a";
  seq = some 0;
  prev_hash = none;
  row_hash = some (append "|" payload);
  payload_canonical = some payload;
  action = "sign";
  actor_user_id = some "u";
  target_table = none;
  target_id = none;
  created_at = "2026-07-03T12:34:56.789012+00:00";
  tenant = some "t";
}

epoch_example :
    epoch_micros (λ s. some 1783082096000) "2026-07-03 12:34:56.5+0530" ≡ some 1783082096500000
unfolding epoch_micros
epoch_example = refl

row_accepted : (verify_audit_chain host (some 1) (row ∷ [])).is_ok ≡ true
unfolding verify_audit_chain
row_accepted = refl

short_refused : (verify_audit_chain host (some 2) (row ∷ [])).is_ok ≡ false
unfolding verify_audit_chain
short_refused = refl

verify_audit_chain-IsIntact_example :
    ((verify_audit_chain host (some 1) (row ∷ [])).is_ok ≡ true)
    ↔ IsCounted (some 1) (row ∷ []) × IsIntact host 0 none (row ∷ [])
verify_audit_chain-IsIntact_example = verify_audit_chain-IsIntact host (some 1) (row ∷ [])

-- A host that gives every text one hash, and two rows with that hash.
abbrev blind : Host
blind = record host { sha256_hex = λ s. "0" }

abbrev other_payload : String
other_payload = "v1|t|void|u|||1783082096789012|0123456789abcdef0123456789abcdef"

abbrev blind_row : ChainRow
blind_row = record row { row_hash = some "0" }

abbrev void_row : ChainRow
void_row = record blind_row { payload_canonical = some other_payload; action = "void" }

verify_audit_chain-binds_example :
    (payloads (blind_row ∷ []) ≡ payloads (void_row ∷ [])) ⊎ Collision blind
unfolding verify_audit_chain
verify_audit_chain-binds_example =
    verify_audit_chain-binds blind (some 1) none (blind_row ∷ []) (void_row ∷ []) (λ s. refl) refl
      refl refl refl

abbrev next_row : ChainRow
next_row = record blind_row { id = "b"; seq = some 1; prev_hash = some "0" }

verify_audit_chain-prefix_example :
    (verify_audit_chain blind (some 1) (blind_row ∷ [])).is_ok ≡ true
unfolding verify_audit_chain
verify_audit_chain-prefix_example =
    verify_audit_chain-prefix blind (some 2) (blind_row ∷ []) (next_row ∷ []) refl
