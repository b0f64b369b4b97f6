-- ===== src/Envelope/Tests.antt =====
-- A run of two signers through one envelope, and the theorems at concrete histories.
use esig_suite.Prelude.{ℕ, ◌≡◌, refl, String, true, none, some, List, [], ◌∷◌, All, ok, err, arith}
use esig_suite.Envelope.{
  Envelope, EnvelopeSigner, conflict, CreateInput, Draws, SignerInput, signed, pending, sent,
  partially_signed,
}
use esig_suite.Envelope.Text.{assert_image_data_url, is_image_data_url}
use esig_suite.Envelope.Signing.{
  gates, waiting_on, with_refusal, with_signature, is_overdue, sign_resolved, decline_resolved,
  resolve_found,
}
use esig_suite.Envelope.Stores.{
  fs_find_by_token_hash, Rows, safe_update, fs_envelope_store, fs_find_by_id, fs_update,
}
use esig_suite.Envelope.Concurrency.{writes, safe_update-safe_update}
use esig_suite.Envelope.Interleaving.{Keeps, Keeps-refl, call, call-Keeps}
use mathlib.Core.Logic.{◌⊎◌}
use esig_suite.Envelope.Html.{escape_html, IsInert, escape_html-IsInert}
use esig_suite.Envelope.Valid.{IsValid}
use esig_suite.Envelope.Runs.{
  Call, creates, signs, voids, declines, run, run-IsValid, draws_are_new, IsKept, run-IsKept,
}

abbrev hash_token : String → String
hash_token token = token

abbrev alice : SignerInput
alice = record { name = "Alice"; email = "alice@example.org"; role_label = none; order = some 1 }

abbrev bob : SignerInput
bob = record {
  name = "Bob";
  email = "bob@example.org";
  role_label = some "Witness";
  order = some 2;
}

abbrev contract : CreateInput
contract = record {
  tenant_id = "tenant";
  title = "Contract";
  html = "<p>terms</p>";
  signers = alice ∷ bob ∷ [];
  expires_at = some 1000;
  metadata = none;
}

abbrev draws : Draws
draws = record {
  envelope_id = "env_1";
  signer_id = λ n. elim n [ ℕ.zero ↦ "signer_0" | ℕ.suc _ ↦ "signer_1" ];
  token = λ n. elim n [ ℕ.zero ↦ "token_0" | ℕ.suc _ ↦ "token_1" ];
}

abbrev image : String
image = "data:image/png;base64,aGk="

abbrev calls : List Call
calls =
    creates contract draws 10
    ∷ signs "token_1" image none 20
    ∷ signs "token_0" image none 30
    ∷ signs "token_1" image none 40
    ∷ []

run-IsValid_example : All IsValid (run hash_token [] calls)
run-IsValid_example = run-IsValid hash_token [] calls tt

abbrev signer_0 : EnvelopeSigner
signer_0 = record {
  id = "signer_0";
  name = "Alice";
  email = "alice@example.org";
  role_label = none;
  order = 1;
  status = signed;
  token_hash = "token_0";
  signed_at = some 30;
  signature_image_data_url = some image;
  declined_at = none;
  decline_reason = none;
}

abbrev half_signed : Envelope
half_signed = record {
  id = "env_1";
  tenant_id = "tenant";
  title = "Contract";
  html = "<p>terms</p>";
  status = partially_signed;
  signers = signer_0 ∷ [];
  created_at = 10;
  expires_at = some 1000;
  completed_at = none;
  voided_at = none;
  metadata = none;
  rev = none;
}

abbrev later_calls : List Call
later_calls = declines "token_1" none 40 ∷ voids "tenant" "env_1" 50 ∷ []

all_new : draws_are_new hash_token (half_signed ∷ []) later_calls ≡ true
unfolding draws_are_new
all_new = refl

run-IsKept_example : IsKept "env_1" half_signed (run hash_token (half_signed ∷ []) later_calls)
run-IsKept_example =
    run-IsKept hash_token "env_1" half_signed (half_signed ∷ []) later_calls all_new refl refl

abbrev rewritten : Envelope
rewritten = record half_signed { rev = some 1 }

first_write :
    safe_update fs_envelope_store half_signed (half_signed ∷ []) ≡ (ok rewritten, rewritten ∷ [])
unfolding safe_update fs_find_by_id fs_update
first_write = refl

safe_update-safe_update_example :
    safe_update fs_envelope_store half_signed (writes (rewritten ∷ []) (rewritten ∷ []))
    ≡ (err conflict, writes (rewritten ∷ []) (rewritten ∷ []))
safe_update-safe_update_example =
    safe_update-safe_update half_signed half_signed rewritten (half_signed ∷ []) (rewritten ∷ [])
      (rewritten ∷ []) refl refl (omega arith) first_write

escape_html-IsInert_example : IsInert (escape_html "<b>")
escape_html-IsInert_example = escape_html-IsInert "<b>"

abbrev created : Rows
created =
    record half_signed {
      status = sent;
      signers =
          record signer_0 { status = pending; signed_at = none; signature_image_data_url = none }
          ∷ [];
      rev = some 0;
    }
    ∷ []

-- Alice declines while her own signature is on its way.
abbrev decline_meanwhile : Rows → Rows
decline_meanwhile = call hash_token (λ s. s) (declines "token_0" none 25)

meanwhile-Keeps : Keeps created (decline_meanwhile created)
meanwhile-Keeps =
    (call-Keeps hash_token (λ s. s) (declines "token_0" none 25) created refl
      (Keeps-refl created refl) refl).0

call-Keeps_example :
    Keeps created (call hash_token decline_meanwhile (signs "token_0" image none 30) created)
    × ((call hash_token decline_meanwhile (signs "token_0" image none 30) created ≡ created)
        ⊎ Keeps
            (decline_meanwhile created)
            (call hash_token decline_meanwhile (signs "token_0" image none 30) created))
call-Keeps_example =
    call-Keeps hash_token decline_meanwhile (signs "token_0" image none 30) created refl
      meanwhile-Keeps refl

signature_refused :
    call hash_token decline_meanwhile (signs "token_0" image none 30) created
    ≡ decline_meanwhile created
unfolding call safe_update fs_find_by_id fs_update fs_find_by_token_hash gates waiting_on
    with_refusal with_signature is_overdue sign_resolved decline_resolved resolve_found
    assert_image_data_url is_image_data_url
signature_refused = refl
