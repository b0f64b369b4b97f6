-- ===== src/Envelope/Creation.antt =====
-- Created envelopes satisfy the invariant (`createEnvelope` of packages/esig-core/src/envelope.ts).
use esig_suite.Prelude.{
  ℕ, ◌≡◌, refl, String, Bool, true, false, not, ◌||◌, List, [], ◌∷◌, every, arith, Result, ok, err,
  throw_if, ◌>>◌, ◌>>=◌, string_eq,
}
use esig_suite.Envelope.{
  Envelope, EnvelopeSigner, EnvelopeFailure, pending, is_signed, new_signer, new_signers,
  new_envelope, compose_envelope, CreateInput, Draws, SignerInput, invalid_input, is_bad_signer,
  is_bad_input, is_empty,
}
use esig_suite.Envelope.Signers.{every_weaken, earlier_signed}
use esig_suite.Envelope.Valid.{IsValid, has_evidence, is_declined}

abbrev is_pending : EnvelopeSigner → Bool
is_pending s = elim s.status [ pending ↦ true | _ ↦ false ]

consed :
    (b : Bool) (r : Result EnvelopeFailure (List EnvelopeSigner)) (x : EnvelopeSigner)
    (xs : List EnvelopeSigner)
    → (do throw_if b invalid_input; rest ← r; ok (x ∷ rest)) ≡ ok xs
    → (rest : List EnvelopeSigner) × (r ≡ ok rest) × (xs ≡ x ∷ rest)
consed false (ok rest) x xs h = (rest, refl, ground (arith, h))
consed true r x xs h = ground (arith, h)
consed false (err f) x xs h = ground (arith, h)

pending_signers :
    (hash_token : String → String) (is : List SignerInput) (d : Draws) (n : ℕ)
    (xs : List EnvelopeSigner)
    → new_signers hash_token is d n ≡ ok xs
    → (every is_pending xs ≡ true) × (is_empty xs ≡ is_empty is)
unfolding new_signers new_signer
pending_signers hash_token [] d n xs h = ground arith
pending_signers hash_token (i ∷ is) d n xs h =
    let (rest, r, e) =
      consed (is_bad_signer i) (new_signers hash_token is d (ℕ.suc n)) (new_signer hash_token i d n)
        xs h in
    let (ih, same) = pending_signers hash_token is d (ℕ.suc n) rest r in rw e (ih, refl)

composed :
    (b : Bool) (r : Result EnvelopeFailure (List EnvelopeSigner))
    (make : List EnvelopeSigner → Envelope) (e : Envelope)
    → (do throw_if b invalid_input; xs ← r; ok (make xs)) ≡ ok e
    → (xs : List EnvelopeSigner) × (r ≡ ok xs) × (e ≡ make xs) × (b ≡ false)
composed false (ok xs) make e h = (xs, refl, ground (arith, h), refl)
composed true r make e h = ground (arith, h)
composed false (err f) make e h = ground (arith, h)

nobody_signed :
    (xs : List EnvelopeSigner)
    → is_empty xs ≡ false
    → every is_pending xs ≡ true
    → every is_signed xs ≡ false
nobody_signed [] n p = cc
nobody_signed (x ∷ xs) n p = ground arith

filled :
    (i : CreateInput) (now : ℕ) (xs : List EnvelopeSigner)
    → is_bad_input i now ≡ false
    → is_empty xs ≡ is_empty i.signers
    → is_empty xs ≡ false
unfolding is_bad_input
filled i now xs g s = ground (arith, g, s)

pub compose_envelope-IsValid :
    (hash_token : String → String) (i : CreateInput) (d : Draws) (now : ℕ) (e : Envelope)
    → compose_envelope hash_token i d now ≡ ok e
    → (e.id ≡ d.envelope_id) × IsValid e
unfolding compose_envelope new_envelope
compose_envelope-IsValid hash_token i d now e h =
    let (xs, r, same, good) =
      composed (is_bad_input i now) (new_signers hash_token i.signers d 0) (new_envelope i d now) e
        h in
    let (fresh, size) = pending_signers hash_token i.signers d 0 xs r in
    rw same (
      refl,
      record {
        complete = nobody_signed xs (filled i now xs good size) fresh;
        dated = refl;
        in_order =
            every_weaken is_pending (λ x. not (is_signed x) || earlier_signed xs x.order) xs
              (λ x p. ground arith) fresh;
        evidence = every_weaken is_pending has_evidence xs (λ x p. ground arith) fresh;
        untouched =
            λ s. every_weaken is_pending (λ x. not (is_signed x)) xs (λ x p. ground arith) fresh;
        refused =
            λ s. every_weaken is_pending (λ x. not (is_declined x)) xs (λ x p. ground arith) fresh;
      },
    )
