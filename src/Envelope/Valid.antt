-- ===== src/Envelope/Valid.antt =====
-- The invariant of an envelope, and that creating, expiring, signing, declining and voiding keep it
-- (packages/esig-core/src/envelope.ts).
use esig_suite.Prelude.{
  ℕ, ◌≡◌, refl, subst, String, Bool, true, false, not, ◌&&◌, ◌||◌, Option, none, some, List, [],
  ◌∷◌, ltb, find, every, is_some, arith,
}
use esig_suite.Envelope.Text.{is_image_data_url}
use esig_suite.Envelope.{
  Envelope, EnvelopeSigner, EnvelopeStatus, sent, voided, declined, is_live, is_completed,
  is_signed, has_token,
}
use esig_suite.Envelope.Signing.{
  change_first, put_signature, put_refusal, waiting_on, with_signature, with_refusal, with_void,
  expire,
}
use esig_suite.Envelope.Signers.{
  every-find, every-change_first, every_weaken, every-not-select, earlier_signed, is_in_order,
}

abbrev pub is_sent : EnvelopeStatus → Bool
is_sent sent = true
is_sent _ = false

abbrev pub is_voided : EnvelopeStatus → Bool
is_voided voided = true
is_voided _ = false

abbrev pub is_declined : EnvelopeSigner → Bool
is_declined s = elim s.status [ declined ↦ true | _ ↦ false ]

abbrev has_image : Option String → Bool
has_image none = false
has_image (some url) = is_image_data_url url

-- A signature has a date and an image.
abbrev pub has_evidence : EnvelopeSigner → Bool
has_evidence s = not (is_signed s) || (is_some s.signed_at && has_image s.signature_image_data_url)

pub record IsValid (e : Envelope) : Type 0 where
  -- Completed exactly when everybody has signed, and dated then.
  pub complete : every is_signed e.signers ≡ is_completed e.status
  pub dated : is_some e.completed_at ≡ is_completed e.status
  pub in_order : is_in_order e.signers ≡ true
  pub evidence : every has_evidence e.signers ≡ true
  pub untouched : is_sent e.status ≡ true → every (λ s. not (is_signed s)) e.signers ≡ true
  -- Whoever declines voids the envelope.
  pub refused : is_voided e.status ≡ false → every (λ s. not (is_declined s)) e.signers ≡ true

pub expire-IsValid : (e : Envelope) → is_live e.status ≡ true → IsValid e → IsValid (expire e)
expire-IsValid e live v = record {
  complete = ground (arith, v.complete);
  dated = ground (arith, v.dated);
  in_order = v.in_order;
  evidence = v.evidence;
  untouched = λ h. cc;
  refused = λ h. v.refused (ground arith);
}

pub with_void-IsValid :
    (e : Envelope) (now : ℕ) → is_completed e.status ≡ false → IsValid e → IsValid (with_void e now)
unfolding with_void
with_void-IsValid e now unfinished v = record {
  complete = ground (arith, v.complete);
  dated = ground (arith, v.dated);
  in_order = v.in_order;
  evidence = v.evidence;
  untouched = λ h. cc;
  refused = λ h. cc;
}

find_once : {o : Option EnvelopeSigner} {x y : EnvelopeSigner} → o ≡ some x → o ≡ some y → x ≡ y
find_once f g = ground (arith, f, g)

not_all_signed :
    (h : String) (reason : Option String) (now : ℕ) (xs : List EnvelopeSigner) (x : EnvelopeSigner)
    → find (has_token h) xs ≡ some x
    → every is_signed (change_first (has_token h) (put_refusal reason now) xs) ≡ false
not_all_signed h reason now [] x f = cc
not_all_signed h reason now (y ∷ ys) x f = ground (arith, not_all_signed h reason now ys x)

-- Signing keeps what `earlier_signed` says.
earlier_signed-put_signature :
    (h url : String) (at n : ℕ) (xs : List EnvelopeSigner)
    → earlier_signed xs n ≡ true
    → earlier_signed (change_first (has_token h) (put_signature url at) xs) n ≡ true
earlier_signed-put_signature h url at n xs e =
    every-change_first (has_token h) (λ y. not (ltb y.order n) || is_signed y)
      (put_signature url at) xs e (λ x f. ground arith)

put_signature-is_in_order :
    (h url : String) (at : ℕ) (xs : List EnvelopeSigner)
    → ((x : EnvelopeSigner) → find (has_token h) xs ≡ some x → earlier_signed xs x.order ≡ true)
    → is_in_order xs ≡ true
    → is_in_order (change_first (has_token h) (put_signature url at) xs) ≡ true
put_signature-is_in_order h url at xs earlier ordered =
    let ys = change_first (has_token h) (put_signature url at) xs in
    every-change_first (has_token h) (λ y. not (is_signed y) || earlier_signed ys y.order)
      (put_signature url at) xs
      (every_weaken (λ y. not (is_signed y) || earlier_signed xs y.order)
        (λ y. not (is_signed y) || earlier_signed ys y.order) xs
        (λ y. ground (arith, earlier_signed-put_signature h url at y.order xs)) ordered)
      (λ y f. earlier_signed-put_signature h url at y.order xs (earlier y f))

earlier_signed-put_refusal :
    (h : String) (reason : Option String) (now n : ℕ) (xs : List EnvelopeSigner)
    → ((x : EnvelopeSigner) → find (has_token h) xs ≡ some x → is_signed x ≡ false)
    → earlier_signed xs n ≡ true
    → earlier_signed (change_first (has_token h) (put_refusal reason now) xs) n ≡ true
earlier_signed-put_refusal h reason now n xs unsigned e =
    every-change_first (has_token h) (λ y. not (ltb y.order n) || is_signed y)
      (put_refusal reason now) xs e
      (λ x f. ground (
        arith,
        unsigned x f,
        every-find (has_token h) (λ y. not (ltb y.order n) || is_signed y) xs x f e,
      ))

put_refusal-is_in_order :
    (h : String) (reason : Option String) (now : ℕ) (xs : List EnvelopeSigner)
    → ((x : EnvelopeSigner) → find (has_token h) xs ≡ some x → is_signed x ≡ false)
    → is_in_order xs ≡ true
    → is_in_order (change_first (has_token h) (put_refusal reason now) xs) ≡ true
put_refusal-is_in_order h reason now xs unsigned ordered =
    let ys = change_first (has_token h) (put_refusal reason now) xs in
    every-change_first (has_token h) (λ y. not (is_signed y) || earlier_signed ys y.order)
      (put_refusal reason now) xs
      (every_weaken (λ y. not (is_signed y) || earlier_signed xs y.order)
        (λ y. not (is_signed y) || earlier_signed ys y.order) xs
        (λ y. ground (arith, earlier_signed-put_refusal h reason now y.order xs unsigned)) ordered)
      (λ y f. refl)

-- The signer whose turn it is.
turn_earlier :
    (e : Envelope) (x : EnvelopeSigner)
    → waiting_on e x ≡ []
    → earlier_signed e.signers x.order ≡ true
unfolding waiting_on
turn_earlier e x w =
    every_weaken (λ s. not (ltb s.order x.order && not (is_signed s)))
      (λ s. not (ltb s.order x.order) || is_signed s) e.signers (λ s. ground arith)
      (every-not-select (λ s. ltb s.order x.order && not (is_signed s)) e.signers w)

pub with_signature-IsValid :
    (e : Envelope) (x : EnvelopeSigner) (h url : String) (at now : ℕ)
    → is_live e.status ≡ true
    → find (has_token h) e.signers ≡ some x
    → waiting_on e x ≡ []
    → is_image_data_url url ≡ true
    → IsValid e
    → IsValid (with_signature e h url at now)
unfolding with_signature
with_signature-IsValid e x h url at now live found w image v =
    let ys = change_first (has_token h) (put_signature url at) e.signers in
    record {
      complete = ground arith;
      dated = ground (arith, v.dated);
      in_order =
          put_signature-is_in_order h url at e.signers
            (λ y f.
              subst (λ z. earlier_signed e.signers z.order ≡ true) (find_once found f)
                (turn_earlier e x w))
            v.in_order;
      evidence =
          every-change_first (has_token h) has_evidence (put_signature url at) e.signers v.evidence
            (λ y f. image);
      untouched = λ s. ground arith;
      refused = λ s.
          every-change_first (has_token h) (λ y. not (is_declined y)) (put_signature url at)
            e.signers (v.refused (ground arith)) (λ y f. refl);
    }

pub with_refusal-IsValid :
    (e : Envelope) (x : EnvelopeSigner) (h : String) (reason : Option String) (now : ℕ)
    → is_live e.status ≡ true
    → find (has_token h) e.signers ≡ some x
    → is_signed x ≡ false
    → IsValid e
    → IsValid (with_refusal e h reason now)
unfolding with_refusal
with_refusal-IsValid e x h reason now live found unsigned v = record {
  complete = not_all_signed h reason now e.signers x found;
  dated = ground (arith, v.dated);
  in_order =
      put_refusal-is_in_order h reason now e.signers
        (λ y f. subst (λ z. is_signed z ≡ false) (find_once found f) unsigned) v.in_order;
  evidence =
      every-change_first (has_token h) has_evidence (put_refusal reason now) e.signers v.evidence
        (λ y f. refl);
  untouched = λ s. cc;
  refused = λ s. cc;
}
