-- ===== src/Envelope/Signers.antt =====
-- Lists of signers and of envelopes in which the first match is replaced, and the order in which
-- signers sign (packages/esig-core/src/envelope.ts).
use esig_suite.Prelude.{
  ℕ, ◌≡◌, refl, Bool, true, not, ◌||◌, some, List, [], ◌∷◌, ltb, find, every, select, arith,
  Bool-cases, inl, inr,
}
use esig_suite.Envelope.{EnvelopeSigner, is_signed}
use esig_suite.Envelope.Signing.{change_first}

module _ {ℓ} {A : Type ℓ} (p q : A → Bool) where
  pub every-find : (xs : List A) (x : A) → find p xs ≡ some x → every q xs ≡ true → q x ≡ true
  every-find [] x h t = cc
  every-find (y ∷ ys) x h t = ground (arith, every-find ys x)

  pub every-change_first :
      (f : A → A) (xs : List A)
      → every q xs ≡ true
      → ((x : A) → find p xs ≡ some x → q (f x) ≡ true)
      → every q (change_first p f xs) ≡ true
  every-change_first f [] h t = refl
  every-change_first f (x ∷ xs) h t = elim (Bool-cases (p x)) [
    | inl e ↦ ground (arith, e, t x (rw e refl))
    | inr e ↦ ground (arith, e, every-change_first f xs (ground (arith, h)) (λ y g. t y (rw e g)))
  ]

  pub every_weaken :
      (xs : List A) → ((x : A) → p x ≡ true → q x ≡ true) → every p xs ≡ true → every q xs ≡ true
  every_weaken [] w h = refl
  every_weaken (x ∷ xs) w h = ground (arith, every_weaken xs w, w x)

module _ {ℓ} {A : Type ℓ} (q : A → Bool) where
  -- Nothing is selected when the complement holds everywhere.
  pub every-not-select : (xs : List A) → select q xs ≡ [] → every (λ x. not (q x)) xs ≡ true
  every-not-select [] h = refl
  every-not-select (x ∷ xs) h = ground (arith, every-not-select xs)

-- Every signer of a lower order than `n` has signed.
abbrev pub earlier_signed : List EnvelopeSigner → ℕ → Bool
earlier_signed xs n = every (λ y. not (ltb y.order n) || is_signed y) xs

-- Whoever has signed, all signers of lower orders have signed.
abbrev pub is_in_order : List EnvelopeSigner → Bool
is_in_order xs = every (λ x. not (is_signed x) || earlier_signed xs x.order) xs
