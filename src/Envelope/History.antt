-- ===== src/Envelope/History.antt =====
-- The changes that the operations make to a stored envelope, and what none of them takes back
-- (packages/esig-core/src/envelope.ts).
use esig_suite.Prelude.{
  ℕ, ◌≡◌, refl, ◌∙◌, String, Bool, true, false, Option, some, List, [], ◌∷◌, find, arith, ◌⊎◌, inl,
  inr, Bool-cases,
}
use esig_suite.Envelope.Text.{is_image_data_url}
use esig_suite.Envelope.{Envelope, EnvelopeSigner, is_live, is_completed, is_signed, has_token}
use esig_suite.Envelope.Signing.{
  change_first, put_signature, put_refusal, waiting_on, with_signature, with_refusal, with_void,
  expire,
}
use esig_suite.Envelope.Valid.{
  IsValid, expire-IsValid, with_void-IsValid, with_signature-IsValid, with_refusal-IsValid,
}

pub data Change : Envelope → Envelope → Type 0 where
  expires : {e : Envelope} → is_live e.status ≡ true → Change e (expire e)
  signs :
      {e : Envelope} (x : EnvelopeSigner) (h url : String) (at now : ℕ)
      → is_live e.status ≡ true
      → find (has_token h) e.signers ≡ some x
      → is_signed x ≡ false
      → waiting_on e x ≡ []
      → is_image_data_url url ≡ true
      → Change e (with_signature e h url at now)
  refuses :
      {e : Envelope} (x : EnvelopeSigner) (h : String) (reason : Option String) (now : ℕ)
      → is_live e.status ≡ true
      → find (has_token h) e.signers ≡ some x
      → is_signed x ≡ false
      → Change e (with_refusal e h reason now)
  voids : {e : Envelope} (now : ℕ) → is_completed e.status ≡ false → Change e (with_void e now)

pub Change-IsValid : {e f : Envelope} → Change e f → IsValid e → IsValid f
Change-IsValid {e = e} (expires live) v = expire-IsValid e live v
Change-IsValid {e = e} (signs x h url at now live found unsigned w image) v =
    with_signature-IsValid e x h url at now live found w image v
Change-IsValid {e = e} (refuses x h reason now live found unsigned) v =
    with_refusal-IsValid e x h reason now live found unsigned v
Change-IsValid {e = e} (voids now unfinished) v = with_void-IsValid e now unfinished v

-- A signer keeps its identity and its token, and a signature is never changed.
pub record SignerKept (x y : EnvelopeSigner) : Type 0 where
  pub id : y.id ≡ x.id
  pub name : y.name ≡ x.name
  pub email : y.email ≡ x.email
  pub order : y.order ≡ x.order
  pub token_hash : y.token_hash ≡ x.token_hash
  pub signature : is_signed x ≡ true → y ≡ x

abbrev pub SignersKept : List EnvelopeSigner → List EnvelopeSigner → Type 0
SignersKept [] [] = Unit
SignersKept (x ∷ xs) (y ∷ ys) = SignerKept x y × SignersKept xs ys
SignersKept [] (y ∷ ys) = ⊥
SignersKept (x ∷ xs) [] = ⊥

pub SignerKept-refl : (x : EnvelopeSigner) → SignerKept x x
SignerKept-refl x = record {
  id = refl;
  name = refl;
  email = refl;
  order = refl;
  token_hash = refl;
  signature = λ s. refl;
}

SignerKept-trans : (x y z : EnvelopeSigner) → SignerKept x y → SignerKept y z → SignerKept x z
SignerKept-trans x y z k l = record {
  id = l.id ∙ k.id;
  name = l.name ∙ k.name;
  email = l.email ∙ k.email;
  order = l.order ∙ k.order;
  token_hash = l.token_hash ∙ k.token_hash;
  signature = λ s. let e = k.signature s in l.signature (rw e s) ∙ e;
}

pub SignersKept-refl : (xs : List EnvelopeSigner) → SignersKept xs xs
SignersKept-refl [] = tt
SignersKept-refl (x ∷ xs) = (SignerKept-refl x, SignersKept-refl xs)

pub SignersKept-trans :
    (xs ys zs : List EnvelopeSigner) → SignersKept xs ys → SignersKept ys zs → SignersKept xs zs
SignersKept-trans [] [] [] k l = tt
SignersKept-trans (x ∷ xs) (y ∷ ys) (z ∷ zs) k l =
    (SignerKept-trans x y z k.0 l.0, SignersKept-trans xs ys zs k.1 l.1)
SignersKept-trans [] [] (z ∷ zs) k l = l
SignersKept-trans [] (y ∷ ys) zs k l = absurd k
SignersKept-trans (x ∷ xs) [] zs k l = absurd k
SignersKept-trans (x ∷ xs) (y ∷ ys) [] k l = l

change_first-SignersKept :
    (p : EnvelopeSigner → Bool) (f : EnvelopeSigner → EnvelopeSigner) (xs : List EnvelopeSigner)
    → ((x : EnvelopeSigner) → find p xs ≡ some x → SignerKept x (f x))
    → SignersKept xs (change_first p f xs)
change_first-SignersKept p f [] k = tt
change_first-SignersKept p f (x ∷ xs) k = elim (Bool-cases (p x)) [
  | inl e ↦ rw e (k x (rw e refl), SignersKept-refl xs)
  | inr e ↦ rw e (SignerKept-refl x, change_first-SignersKept p f xs (λ y h. k y (rw e h)))
]

-- The document, its signers and their signatures stay; what is closed stays closed; what is
-- completed stays as it is.
pub record Evolves (e f : Envelope) : Type 0 where
  pub id : f.id ≡ e.id
  pub tenant_id : f.tenant_id ≡ e.tenant_id
  pub title : f.title ≡ e.title
  pub html : f.html ≡ e.html
  pub expires_at : f.expires_at ≡ e.expires_at
  pub signers : SignersKept e.signers f.signers
  pub closed : is_live e.status ≡ false → is_live f.status ≡ false
  pub final : is_completed e.status ≡ true → f ≡ e

pub Evolves-refl : (e : Envelope) → Evolves e e
Evolves-refl e = record {
  id = refl;
  tenant_id = refl;
  title = refl;
  html = refl;
  expires_at = refl;
  signers = SignersKept-refl e.signers;
  closed = λ c. c;
  final = λ c. refl;
}

pub Evolves-trans : (e f g : Envelope) → Evolves e f → Evolves f g → Evolves e g
Evolves-trans e f g k l = record {
  id = l.id ∙ k.id;
  tenant_id = l.tenant_id ∙ k.tenant_id;
  title = l.title ∙ k.title;
  html = l.html ∙ k.html;
  expires_at = l.expires_at ∙ k.expires_at;
  signers = SignersKept-trans e.signers f.signers g.signers k.signers l.signers;
  closed = λ c. l.closed (k.closed c);
  final = λ c. let q = k.final c in l.final (rw q c) ∙ q;
}

-- A change of the signers of a live envelope that keeps each of them.
resigned :
    (e f : Envelope)
    → f.id ≡ e.id
    → (f.tenant_id ≡ e.tenant_id)
      × (f.title ≡ e.title)
      × (f.html ≡ e.html)
      × (f.expires_at ≡ e.expires_at)
    → (is_live e.status ≡ true) ⊎ (is_live f.status ≡ false)
    → is_completed e.status ≡ false
    → SignersKept e.signers f.signers
    → Evolves e f
resigned e f id (tenant, title, html, at) live unfinished k = record {
  id = id;
  tenant_id = tenant;
  title = title;
  html = html;
  expires_at = at;
  signers = k;
  closed = λ c. ground (arith, live);
  final = λ c. ground (arith, unfinished);
}

live_unfinished : (e : Envelope) → is_live e.status ≡ true → is_completed e.status ≡ false
live_unfinished e live = ground arith

unsigned_kept :
    {x y : EnvelopeSigner} {o : Option EnvelopeSigner}
    → o ≡ some x
    → o ≡ some y
    → is_signed x ≡ false
    → is_signed y ≡ false
unsigned_kept f g u = ground (arith, f, g, u)

pub Change-Evolves : {e f : Envelope} → Change e f → Evolves e f
unfolding with_signature with_refusal with_void
Change-Evolves {e = e} (expires live) =
    resigned e (expire e) refl (refl, refl, refl, refl) (inl live) (live_unfinished e live)
      (SignersKept-refl e.signers)
Change-Evolves {e = e} (signs x h url at now live found unsigned w image) =
    resigned e (with_signature e h url at now) refl (refl, refl, refl, refl) (inl live)
      (live_unfinished e live)
      (change_first-SignersKept (has_token h) (put_signature url at) e.signers λ y f. record {
        id = refl;
        name = refl;
        email = refl;
        order = refl;
        token_hash = refl;
        signature = λ s. ground (arith, unsigned_kept found f unsigned);
      })
Change-Evolves {e = e} (refuses x h reason now live found unsigned) =
    resigned e (with_refusal e h reason now) refl (refl, refl, refl, refl) (inl live)
      (live_unfinished e live)
      (change_first-SignersKept (has_token h) (put_refusal reason now) e.signers λ y f. record {
        id = refl;
        name = refl;
        email = refl;
        order = refl;
        token_hash = refl;
        signature = λ s. ground (arith, unsigned_kept found f unsigned);
      })
Change-Evolves {e = e} (voids now unfinished) =
    resigned e (with_void e now) refl (refl, refl, refl, refl) (inr refl) unfinished
      (SignersKept-refl e.signers)

-- No change touches the revision or a completed envelope.
pub Change-rev : {e f : Envelope} → Change e f → f.rev ≡ e.rev
unfolding with_signature with_refusal with_void
Change-rev (expires live) = refl
Change-rev (signs x h url at now live found unsigned w image) = refl
Change-rev (refuses x h reason now live found unsigned) = refl
Change-rev (voids now unfinished) = refl

pub Change-unfinished : {e f : Envelope} → Change e f → is_completed e.status ≡ false
Change-unfinished {e = e} (expires live) = live_unfinished e live
Change-unfinished {e = e} (signs x h url at now live found unsigned w image) =
    live_unfinished e live
Change-unfinished {e = e} (refuses x h reason now live found unsigned) = live_unfinished e live
Change-unfinished (voids now unfinished) = unfinished
