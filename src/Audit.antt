-- ===== src/Audit.antt =====
-- The audit log's hash chain: `verifyAuditChain` of packages/esig-supabase/src/audit-chain.ts, from
-- the rows that the database returns in the order of `seq`. SHA-256 and `Date.parse` are the host's
-- and are parameters, and so is the decimal text of a number. A `seq` that is no natural number and
-- an instant before 1970 are not represented, and the pages of the query are fetched beforehand.
pub mod Text
pub mod Chain
pub mod Tamper
mod Tests
use esig_suite.Prelude.{
  ℕ, suc, ◌+◌, ◌*◌, ◌≡◌, String, Bool, true, false, not, ◌&&◌, ◌||◌, Option, none, some, List, [],
  ◌∷◌, ◌++◌, ◌==◌, nat_eq, string_eq, option_eq, if◌then◌else◌, get_or, is_none, length,
}
use Text.{append, join_bars, after_last_bar, is_md5_hex, split_bars, epoch_micros}

pub record ChainRow : Type 0 where
  pub id : String
  pub seq : Option ℕ
  pub prev_hash : Option String
  pub row_hash : Option String
  pub payload_canonical : Option String
  pub action : String
  pub actor_user_id : Option String
  pub target_table : Option String
  pub target_id : Option String
  pub created_at : String
  pub tenant : Option String

pub data Reason : Type 0 where
  columns_missing : Reason
  seq_discontinuity : ℕ → Reason
  prev_hash_mismatch : Reason
  row_hash_mismatch : String → Reason
  malformed_canonical : Reason
  unparseable_created_at : Reason
  canonical_disagrees : List String → Reason
  rows_truncated : ℕ → ℕ → Reason

pub record AuditChainFailure : Type 0 where
  pub seq : ℕ
  pub id : String
  pub reason : Reason

pub record VerifyAuditChainResult : Type 0 where
  pub is_ok : Bool
  pub checked_rows : ℕ
  pub first_broken_seq : Option ℕ
  pub failures : List AuditChainFailure

-- What the host computes: SHA-256 in hexadecimal, `Date.parse`, the text of a number.
pub record Host : Type 0 where
  pub sha256_hex : String → String
  pub date_parse : String → Option ℕ
  pub to_text : ℕ → String

abbrev pub canonical_fields : List String
canonical_fields =
    "version" ∷ "tenant_id" ∷ "action" ∷ "actor_user_id" ∷ "target_table" ∷ "target_id"
    ∷ "created_at_epoch_us" ∷ "metadata_md5" ∷ []

-- The names at which two lists differ.
unfoldable pub differing : List String → List String → List String → List String
differing (n ∷ ns) (e ∷ es) (a ∷ as_) =
    let rest = differing ns es as_ in if e == a then rest else n ∷ rest
differing _ _ _ = []

-- The fields that disagree, where both texts have the shape of the specification.
unfoldable pub describe_canonical_mismatch : String → String → List String
unfolding differing split_bars
describe_canonical_mismatch expected actual =
    let e = split_bars expected in
    let a = split_bars actual in
    if length e == length canonical_fields && length a == length canonical_fields
    then differing canonical_fields e a
    else []

-- The text that a row's hash is computed of.
unfoldable pub hashed_text : Option String → String → String
hashed_text prev payload = append (get_or prev "") (append "|" payload)

-- The canonical text rebuilt from a row's columns, with the end that only the database computes.
unfoldable pub rebuilt : ChainRow → String → String → String
unfolding join_bars
rebuilt r epoch md5 = join_bars (
    "v1"
    ∷ get_or r.tenant ""
    ∷ r.action
    ∷ get_or r.actor_user_id ""
    ∷ get_or r.target_table ""
    ∷ get_or r.target_id ""
    ∷ epoch
    ∷ md5
    ∷ [])

abbrev pub when : Bool → Reason → List Reason
when bad r = if bad then r ∷ [] else []

unfoldable pub reported : ℕ → ChainRow → List Reason → List AuditChainFailure
reported i r [] = []
reported i r (x ∷ xs) = record { seq = get_or r.seq i; id = r.id; reason = x } ∷ reported i r xs

abbrev pub first_seq : List AuditChainFailure → Option ℕ
first_seq [] = none
first_seq (f ∷ fs) = some f.seq

abbrev pub is_nil : List AuditChainFailure → Bool
is_nil [] = true
is_nil (f ∷ fs) = false

-- The result where fewer or more rows were fetched than the server counts.
abbrev pub truncated : ℕ → ℕ → VerifyAuditChainResult
truncated fetched total = record {
  is_ok = false;
  checked_rows = fetched;
  first_broken_seq = none;
  failures = record { seq = fetched; id = ""; reason = rows_truncated fetched total } ∷ [];
}

module _ (h : Host) where
  unfoldable pub check_time : ChainRow → String → Option ℕ → List Reason
  unfolding rebuilt after_last_bar describe_canonical_mismatch
  check_time r payload none = unparseable_created_at ∷ []
  check_time r payload (some micros) =
      let expected = rebuilt r (h.to_text micros) (after_last_bar payload) in
      when (not (expected == payload))
        (canonical_disagrees (describe_canonical_mismatch expected payload))

  unfoldable pub check_canonical : ChainRow → String → List Reason
  unfolding check_time after_last_bar is_md5_hex epoch_micros
  check_canonical r payload =
      if not (is_md5_hex (after_last_bar payload))
      then malformed_canonical ∷ []
      else check_time r payload (epoch_micros h.date_parse r.created_at)

  -- The checks (a) to (d), where the row has the columns of the chain.
  unfoldable pub check_columns :
      ℕ → Option String → ChainRow → Option ℕ → Option String → Option String → List Reason
  unfolding check_canonical hashed_text
  check_columns i expected_prev r (some seq) (some hash) (some payload) =
      let recomputed = h.sha256_hex (hashed_text r.prev_hash payload) in
      when (not (seq == i)) (seq_discontinuity i)
      ++ (when (not (r.prev_hash == expected_prev)) prev_hash_mismatch
          ++ (when (not (recomputed == hash)) (row_hash_mismatch recomputed)
              ++ check_canonical r payload))
  check_columns i expected_prev r _ _ _ = columns_missing ∷ []

  -- The checks of a row at a place of the list.
  unfoldable pub check_row : ℕ → Option String → ChainRow → List Reason
  unfolding check_columns
  check_row i expected_prev r = check_columns i expected_prev r r.seq r.row_hash r.payload_canonical

  -- The loop over the rows, from a place and the hash of the row before.
  unfoldable pub check_rows : ℕ → Option String → List ChainRow → List AuditChainFailure
  unfolding check_row reported
  check_rows i expected_prev [] = []
  check_rows i expected_prev (r ∷ rs) =
      reported i r (check_row i expected_prev r) ++ check_rows (suc i) r.row_hash rs

  -- The result for the rows that were fetched.
  unfoldable pub verify_rows : List ChainRow → VerifyAuditChainResult
  unfolding check_rows
  verify_rows rows =
      let failures = check_rows 0 none rows in
      record {
        is_ok = is_nil failures;
        checked_rows = length rows;
        first_broken_seq = first_seq failures;
        failures = failures;
      }

  -- The number of rows that the server counts, if it does, and the rows that were fetched.
  unfoldable pub verify_audit_chain : Option ℕ → List ChainRow → VerifyAuditChainResult
  unfolding verify_rows
  verify_audit_chain none rows = verify_rows rows
  verify_audit_chain (some total) rows =
      if length rows == total then verify_rows rows else truncated (length rows) total
