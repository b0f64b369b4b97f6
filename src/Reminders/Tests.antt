-- ===== src/Reminders/Tests.antt =====
-- The reminders of an envelope with one pending signer.
use esig_suite.Prelude.{ℕ, ◌≡◌, refl, String, true, none, List, [], ◌∷◌, All, arith}
use esig_suite.Envelope.{Envelope, EnvelopeSigner, sent, pending}
use esig_suite.Reminders.{
  SentReminders, compute_due, IsDue, compute_due-IsDue, lists, compute_due-lists,
}

abbrev signer : EnvelopeSigner
signer = record {
  id = "signer_0";
  name = "Alice";
  email = "alice@example.org";
  role_label = none;
  order = 1;
  status = pending;
  token_hash = "token_0";
  signed_at = none;
  signature_image_data_url = none;
  declined_at = none;
  decline_reason = none;
}

abbrev envelope : Envelope
envelope = record {
  id = "env_1";
  tenant_id = "tenant";
  title = "Contract";
  html = "<p>terms</p>";
  status = sent;
  signers = signer ∷ [];
  created_at = 10;
  expires_at = none;
  completed_at = none;
  voided_at = none;
  metadata = none;
  rev = none;
}

abbrev sent_to : String → SentReminders
sent_to id = record { scheduled = 1; manual = 0 }

abbrev schedule : List ℕ
schedule = 100 ∷ 200 ∷ []

compute_due-IsDue_example :
    All (IsDue sent_to 250 schedule 3 envelope) (compute_due sent_to 250 schedule 3 envelope)
compute_due-IsDue_example = compute_due-IsDue sent_to 250 schedule 3 envelope

-- The second reminder is due at the moment itself.
compute_due-lists_example :
    lists sent_to 210 schedule 3 "signer_0" 1 (compute_due sent_to 210 schedule 3 envelope) ≡ true
compute_due-lists_example =
    compute_due-lists sent_to 210 schedule 3 envelope 0 signer 200 refl refl refl refl (omega arith)
      (omega arith)
