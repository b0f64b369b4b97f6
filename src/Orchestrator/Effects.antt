-- ===== src/Orchestrator/Effects.antt =====
-- What a step's effects leave in the store: `persistStepResources` and
-- `applyCompensationDispositions` of infra/provisioning/src/orchestrator.ts, with the records of
-- infra/provisioning/src/domain.ts that a driver returns.
use Prim.Native.Char.{code}
use esig_suite.Prelude.{
  ℕ, suc, zero, ◌+◌, String, Bool, true, false, not, ◌&&◌, ◌||◌, Option, none, some, List, [], ◌∷◌,
  ltb, leb, ◌==◌, nat_eq, string_eq, if◌then◌else◌, Result, ok, err, any, length, get_or,
}
use esig_suite.Failure.{SafeFailure, SafeErrorCode, provider_response_invalid, failure}
use esig_suite.Job.{ProvisioningJob}
use esig_suite.Job.Step.{
  ProvisioningStep, step_eq, api_credential, plan_entitlement, activation_metadata, mark_ready,
}
use esig_suite.Dict
use esig_suite.Dict.{Dict}
use esig_suite.Ledger.{
  ResourceRecord, Retention, mutable, immutable_evidence, ResourceStatus, active, retained,
}
use esig_suite.Ledger.Handoff.{put_resource, is_evidence}
use esig_suite.Orchestrator.{
  Action, Thrown, error, safe, Digests, if_some, pure, throw, writes, ◌>>◌,
  deterministic_handoff_id,
}

pub record StepResourceInput : Type 0 where
  pub kind : String
  pub opaque_id : String
  pub retention : Retention

pub record OneTimeCredential : Type 0 where
  pub id : String
  pub plaintext : String

pub record StepExecutionResult : Type 0 where
  pub resources : Option (List StepResourceInput)
  pub one_time_credential : Option OneTimeCredential

-- The statuses of a mutable resource other than `active`.
pub data FinalStatus : Type 0 where
  revoked disabled quarantined : FinalStatus

pub record ResourceDisposition : Type 0 where
  pub resource_key : String
  pub status : FinalStatus

pub record StepCompensationResult : Type 0 where
  pub resources : Option (List StepResourceInput)
  pub dispositions : Option (List ResourceDisposition)

abbrev pub thrown : SafeErrorCode → Thrown
thrown c = error (safe (failure c))

is_alphanumeric : ℕ → Bool
is_alphanumeric c =
    (leb b'a' c && leb c b'z') || (leb b'A' c && leb c b'Z') || (leb b'0' c && leb c b'9')

is_kind_char : ℕ → Bool
unfolding is_alphanumeric
is_kind_char c = is_alphanumeric c || c == b'_' || c == b'.' || c == b':' || c == b'-'

-- `/^[a-z0-9_.:-]{0,n}$/i`
is_kind_rest : ℕ → String → Bool
unfolding is_kind_char
is_kind_rest n String.[] = true
is_kind_rest zero (String.◌∷◌ c s) = false
is_kind_rest (suc n) (String.◌∷◌ c s) = is_kind_char (code c) && is_kind_rest n s

unfoldable pub is_safe_kind : String → Bool
unfolding is_alphanumeric is_kind_rest
is_safe_kind String.[] = false
is_safe_kind (String.◌∷◌ c s) = is_alphanumeric (code c) && is_kind_rest 127 s

-- `text.length`, which counts the units of UTF-16.
unfoldable pub text_length : String → ℕ
text_length String.[] = 0
text_length (String.◌∷◌ c s) = (if ltb 65535 (code c) then 2 else 1) + text_length s

-- `/[\r\n\0]/`
has_control : String → Bool
has_control String.[] = false
has_control (String.◌∷◌ c s) = code c == 13 || code c == 10 || code c == 0 || has_control s

unfoldable pub resource_input_is_safe : StepResourceInput → Bool
unfolding is_safe_kind text_length has_control
resource_input_is_safe r =
    is_safe_kind r.kind
    && ltb 0 (text_length r.opaque_id)
    && leb (text_length r.opaque_id) 512
    && not (has_control r.opaque_id)

abbrev pub first_status : Retention → ResourceStatus
first_status immutable_evidence = retained
first_status mutable = active

abbrev pub final_status : FinalStatus → ResourceStatus
final_status revoked = ResourceStatus.revoked
final_status disabled = ResourceStatus.disabled
final_status quarantined = ResourceStatus.quarantined

unfoldable pub credential_handoff_kind : String
credential_handoff_kind = "credential_handoff_receipt"

-- `new Map(dispositions.map((d) => [d.resourceKey, d]))`
unfoldable pub disposition_by_key : List ResourceDisposition → Dict ResourceDisposition
disposition_by_key ds = add ds Dict.empty
  where
    add : List ResourceDisposition → Dict ResourceDisposition → Dict ResourceDisposition
    add [] m = m
    add (x ∷ xs) m = add xs (Dict.put x.resource_key x m)

abbrev pub required_status : ProvisioningStep → Option FinalStatus
required_status api_credential = some revoked
required_status plan_entitlement = some disabled
required_status activation_metadata = some disabled
required_status mark_ready = some disabled
required_status _ = none

abbrev pub same_status : FinalStatus → FinalStatus → Bool
same_status revoked revoked = true
same_status disabled disabled = true
same_status quarantined quarantined = true
same_status _ _ = false

abbrev pub meets : Option FinalStatus → FinalStatus → Bool
meets none s = true
meets (some t) s = same_status s t

unfoldable pub names_a_resource : List ResourceRecord → ResourceDisposition → Bool
names_a_resource resources x = any (λ r. r.resource_key == x.resource_key) resources

unfoldable pub is_receipt : String → ResourceRecord → Bool
unfolding credential_handoff_kind
is_receipt handoff_id r =
    r.step == api_credential
    && r.kind == credential_handoff_kind
    && r.opaque_id == handoff_id
    && not (is_evidence r.retention)
    && is_active r.status
  where
    is_active : ResourceStatus → Bool
    is_active active = true
    is_active _ = false

module _ (d : Digests) where
  unfoldable pub put_resource_action : ResourceRecord → Action (Unit {0})
  put_resource_action r =
      writes λ s. elim (put_resource d.resource r s) [ ok t ↦ ok (tt, t) | err e ↦ err e ]

  unfoldable pub resource_record :
      ProvisioningJob → ProvisioningStep → StepResourceInput → ResourceRecord
  resource_record j step r = record {
    resource_key = d.resource j.subscription_id step r.kind r.opaque_id;
    subscription_id = j.subscription_id;
    step = step;
    kind = r.kind;
    opaque_id = r.opaque_id;
    retention = r.retention;
    status = first_status r.retention;
  }

  unfoldable pub persist_step_resources :
      ProvisioningJob → ProvisioningStep → List StepResourceInput → Action (Unit {0})
  unfolding resource_input_is_safe resource_record put_resource_action
  persist_step_resources j step [] = pure tt
  persist_step_resources j step (r ∷ rs) =
      if not (resource_input_is_safe r)
      then throw (thrown provider_response_invalid)
      else put_resource_action (resource_record j step r) >> persist_step_resources j step rs

  unfoldable pub has_credential_handoff_receipt :
      List ResourceRecord → ProvisioningJob → Result SafeFailure Bool
  unfolding is_receipt deterministic_handoff_id
  has_credential_handoff_receipt resources j =
      elim (deterministic_handoff_id d j.subscription_id j.activation_generation) [
        | ok id ↦ ok (any (is_receipt id) resources)
        | err e ↦ err e
      ]

  unfoldable pub persist_credential_handoff_receipt : ProvisioningJob → String → Action (Unit {0})
  unfolding put_resource_action credential_handoff_kind
  persist_credential_handoff_receipt j handoff_id = put_resource_action (record {
    resource_key = d.resource j.subscription_id api_credential credential_handoff_kind handoff_id;
    subscription_id = j.subscription_id;
    step = api_credential;
    kind = credential_handoff_kind;
    opaque_id = handoff_id;
    retention = mutable;
    status = active;
  })

  unfoldable pub apply_disposition : Dict ResourceDisposition → ResourceRecord → Action (Unit {0})
  unfolding put_resource_action if_some
  apply_disposition by_key r =
      if_some (Dict.get r.resource_key by_key)
        (λ x.
          if not (meets (required_status r.step) x.status)
          then throw (thrown provider_response_invalid)
          else put_resource_action (record r { status = final_status x.status }))
        (throw (thrown provider_response_invalid))

  -- Evidence is passed over, whatever was asked for it.
  unfoldable pub apply_to_each : Dict ResourceDisposition → List ResourceRecord → Action (Unit {0})
  unfolding apply_disposition
  apply_to_each by_key [] = pure tt
  apply_to_each by_key (r ∷ rs) =
      if is_evidence r.retention
      then apply_to_each by_key rs
      else apply_disposition by_key r >> apply_to_each by_key rs

  unfoldable pub apply_compensation_dispositions :
      List ResourceRecord → Option (List ResourceDisposition) → Action (Unit {0})
  unfolding apply_to_each names_a_resource disposition_by_key
  apply_compensation_dispositions resources dispositions =
      let asked = get_or dispositions [] in
      let by_key = disposition_by_key asked in
      if not (length by_key == length asked)
        || any (λ e. not (names_a_resource resources e.1)) by_key
      then throw (thrown provider_response_invalid)
      else apply_to_each by_key resources
