-- ===== src/Envelope/Stores.antt =====
-- Two stores of envelopes: `FsEnvelopeStore` (packages/esig-core/src/fs-adapters.ts), whose file is the
-- list of its rows, and `ConcurrencySafeEnvelopeStore` (packages/esig-mcp/src/stores.ts) around any
-- store. A call of a store is one step, since the mutex lets one run at a time. Dates survive
-- their ISO text.
use esig_suite.Prelude.{
  ℕ, ◌+◌, String, Bool, ◌&&◌, Option, none, some, List, [], ◌∷◌, ◌++◌, ◌==◌, nat_eq, string_eq,
  if◌then◌else◌, get_or, find, any, ok, err,
}
use esig_suite.Envelope.{Envelope, EnvelopeStore, Outcome, has_token, not_found, conflict}
use esig_suite.Envelope.Signing.{change_first}

abbrev pub Rows : Type 0
Rows = List Envelope

abbrev pub has_id : String → Envelope → Bool
has_id id e = e.id == id

abbrev pub is_tenants : String → String → Envelope → Bool
is_tenants tenant_id id e = e.tenant_id == tenant_id && e.id == id

abbrev pub has_signer : String → Envelope → Bool
has_signer h e = any (has_token h) e.signers

unfoldable pub fs_insert : Envelope → Rows → Outcome Rows Envelope
fs_insert e rows = (ok e, rows ++ e ∷ [])

unfoldable pub fs_update : Envelope → Rows → Outcome Rows Envelope
fs_update e rows =
    if any (has_id e.id) rows
    then (ok e, change_first (has_id e.id) (λ _. e) rows)
    else (err not_found, rows)

unfoldable pub fs_find_by_id : String → String → Rows → Option Envelope
fs_find_by_id tenant_id id rows = find (is_tenants tenant_id id) rows

unfoldable pub fs_find_by_token_hash : String → Rows → Option Envelope
fs_find_by_token_hash h rows = find (has_signer h) rows

abbrev pub fs_envelope_store : EnvelopeStore Rows
fs_envelope_store = record {
  insert = fs_insert;
  update = fs_update;
  find_by_id = fs_find_by_id;
  find_by_token_hash = fs_find_by_token_hash;
}

-- `getRev`, `setRev`
abbrev pub get_rev : Envelope → ℕ
get_rev e = get_or e.rev 0

abbrev pub set_rev : Envelope → ℕ → Envelope
set_rev e n = record e { rev = some n }

module _ {S : Type 0} (inner : EnvelopeStore S) where
  unfoldable pub safe_insert : Envelope → S → Outcome S Envelope
  safe_insert e = inner.insert (set_rev e 0)

  unfoldable pub safe_update : Envelope → S → Outcome S Envelope
  safe_update e s = elim (inner.find_by_id e.tenant_id e.id s) [
    | none ↦ (err conflict, s)
    | some fresh ↦
        if get_rev fresh == get_rev e
        then inner.update (set_rev e (get_rev fresh + 1)) s
        else (err conflict, s)
  ]

  abbrev pub concurrency_safe_store : EnvelopeStore S
  concurrency_safe_store = record {
    insert = safe_insert;
    update = safe_update;
    find_by_id = inner.find_by_id;
    find_by_token_hash = inner.find_by_token_hash;
  }
