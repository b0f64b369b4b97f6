-- ===== src/Lib.antt =====
-- Verification of the e-signature suite: the envelope workflow of packages/ and the provisioning
-- control plane of infra/provisioning/.
--
-- Files, and what they model (paths from the repository's root):
--   Prelude       shared names, Boolean tests, lists over native numbers, calls that throw.
--   Envelope      packages/esig-core/src/envelope.ts. Envelope has the data and what createEnvelope
--                 composes; Envelope/Text the tests on texts, with assertImageDataUrl of
--                 packages/esig-core/src/signature-block.ts; Envelope/Signing the operations
--                 createEnvelope, resolveSigningToken, recordSignature, declineEnvelope and
--                 voidEnvelope; Envelope/Stores the stores FsEnvelopeStore of
--                 packages/esig-core/src/fs-adapters.ts and ConcurrencySafeEnvelopeStore of
--                 packages/esig-mcp/src/stores.ts; Envelope/Html the HTML of signature-block.ts and
--                 composeEnvelopeHtml. The proofs: Envelope/Valid and Envelope/Creation
--                 are about one envelope, Envelope/History about its changes, Envelope/Effects,
--                 Envelope/Operations and Envelope/Rows about the rows of a store, Envelope/Runs
--                 about sequential histories, Envelope/Concurrency and Envelope/Interleaving about
--                 calls that overlap.
--   Reminders     computeDue of packages/esig-mcp/src/reminders.ts.
--   Certs         FsCertStore of packages/esig-core/src/fs-adapters.ts and ensureActiveCert of
--                 packages/esig-core/src/cert-lifecycle.ts.
--   Failure       the safe error codes of infra/provisioning/src/domain.ts.
--   Billing       reduceBillingEvent of infra/provisioning/src/state-machine.ts: billing events,
--                 orders, the choice of the billing state.
--   Job           the provisioning job of infra/provisioning/src/state-machine.ts: attempts, steps,
--                 compensation, retries.
--   Dict          JavaScript's Map with string keys.
--   Ledger        InMemoryProvisioningStore of infra/provisioning/src/memory-store.ts; the handoffs
--                 of credentials are in Ledger/Handoff, the methods that read in Ledger/Reads.
--   Orchestrator  infra/provisioning/src/orchestrator.ts. Orchestrator has the world of an asynchronous
--                 function, what it throws, and the parts it is made of; Orchestrator/Events
--                 processStripeEvent and what it calls; Orchestrator/Lease the guard of the execution
--                 lease; Orchestrator/Effects, Orchestrator/Handoffs and Orchestrator/Steps the
--                 effects of a step with its credential; Orchestrator/Inputs what a run is given;
--                 Orchestrator/Runs runProvisioningJob. The proofs: Orchestrator/Moves says what
--                 workers may do to the store, Orchestrator/Rules how actions are judged by it,
--                 Orchestrator/Writes, Safety, EffectSafety, Saves and EventSafety judge the parts,
--                 Orchestrator/Rounds, RunSafety and RunResults whole runs; Orchestrator/Outcomes has
--                 the results, and Orchestrator/Quiet, Refusals and Repeats are about a worker alone.
--   Challenge     issueChallenge and finalizeChallenge of
--                 packages/esig-mcp/src/identity/challenge.ts with the accessors of
--                 packages/esig-mcp/src/identity/types.ts; Challenge/Single says what is accepted,
--                 Challenge/Attempts what the attempts lead to.
--   Audit         verifyAuditChain of packages/esig-supabase/src/audit-chain.ts; Audit/Text has its
--                 texts, Audit/Chain what it decides, Audit/Tamper what the hashes bind.
--
-- Signers act on an envelope through tokens, and the operations read and write envelopes through
-- the interface EnvelopeStore. In the control plane, the reducer decides what an order becomes, a
-- provisionable order gets a job, and the ledger keeps orders, jobs, leases, handoffs and resources
-- with optimistic versions and fencing tokens. The orchestrator applies events and runs jobs through
-- the ledger, under a lease, and the driver has the effects.
--
-- Times are natural numbers of milliseconds. Digests, what the random generator draws,
-- localeCompare, toISOString, Date.parse, SHA-256 and the cryptography of certificates are
-- parameters, and so are reading and writing the JSON text of the metadata, and the driver, the
-- secret store, the clock and the hooks of a run, which may answer differently at each call. Other
-- workers and the heartbeat act between any two calls of the store, as a list of changes that is an
-- argument, and as a function in Challenge and Envelope/Interleaving; the store answers at once, so
-- no renewal of a lease is in flight. A method of the ledger that throws leaves no new store; an
-- envelope operation that throws returns the error with the store as it was written until then. The
-- loops over the steps of a job have fuel for eight rounds, one more than there are steps;
-- Orchestrator/Outcomes shows that this is enough. Every other function is structurally recursive.
--
-- Not modelled: cryptography, PDF and certificate encodings, HTTP, e-mail, cloud adapters, the user
-- interface and the configuration.
pub mod Audit
pub mod Billing
pub mod Certs
pub mod Challenge
pub mod Dict
pub mod Envelope
pub mod Failure
pub mod Job
pub mod Ledger
pub mod Orchestrator
pub mod Prelude
pub mod Reminders
