-- ===== src/Dict.antt =====
-- JavaScript's `Map` with string keys, in insertion order. Proofs go by the laws `get-put` and
-- `get-empty`; only tests and folds over the entries unfold the operations.
use text.Mathlib.TextEquality.{eq_iff}
use esig_suite.Prelude.{
  String, ◌≡◌, refl, sym, ap, ◌∙◌, subst, Bool-cases, Option-cases, inl, inr, Option, none, some,
  List, [], ◌∷◌, arith, ◌==◌, string_eq, ==_refl, if◌then◌else◌,
}

abbrev pub Dict {ℓ} : Type ℓ → Type ℓ
Dict V = List (String × V)

module _ {ℓ} {V : Type ℓ} where
  abbrev pub empty : Dict V
  empty = []

  -- `m.get(k)`
  unfoldable pub get : String → Dict V → Option V
  get k [] = none
  get k ((j, v) ∷ m) = if j == k then some v else get k m

  -- `m.set(k, v)`
  unfoldable pub put : String → V → Dict V → Dict V
  put k v [] = (k, v) ∷ []
  put k v ((j, w) ∷ m) = if j == k then (k, v) ∷ m else (j, w) ∷ put k v m

  pub get-put :
      (k j : String) (v : V) (m : Dict V) → get j (put k v m) ≡ (if k == j then some v else get j m)
  unfolding get put
  get-put k j v [] = refl
  get-put k j v ((i, w) ∷ m) = ground (arith, eq_iff k j, eq_iff i k, eq_iff i j, get-put k j v m)

module _ {ℓ} {V : Type ℓ} where
  pub get-put-same : (k : String) (v : V) (m : Dict V) → get k (put k v m) ≡ some v
  get-put-same k v m = rw (get-put k k v m, ==_refl k) refl

-- What is stored in `m` is kept in `n`, in the sense of `K`.
abbrev pub Kept {ℓ κ} : {V : Type ℓ} → (V → Option V → Type κ) → Dict V → Dict V → Type (ℓ ⊔ κ)
Kept K m n = (j : String) (w : _) → get j m ≡ some w → K w (get j n)

module _ {ℓ κ} {V : Type ℓ} (K : V → Option V → Type κ) (whole : (w : V) → K w (some w)) where
  pub Kept-refl : (m : Dict V) → Kept K m m
  Kept-refl m j w h = subst (K w) (sym h) (whole w)

  -- A write keeps all if it keeps the entry that it replaces.
  pub Kept-put :
      (k : String) (v : V) (m : Dict V)
      → ((w : V) → get k m ≡ some w → K w (some v))
      → Kept K m (put k v m)
  Kept-put k v m f j w h = elim (Bool-cases (k == j)) [
    | inl e ↦
        subst (K w) (sym (get-put k j v m ∙ ap (λ b. if b then some v else get j m) e))
          (f w (ap (λ i. get i m) ((eq_iff k j).0 e) ∙ h))
    | inr e ↦
        subst (K w) (sym (get-put k j v m ∙ ap (λ b. if b then some v else get j m) e ∙ h))
          (whole w)
  ]

module _ {ℓ κ} {V : Type ℓ} (K : V → Option V → Type κ) where
  pub Kept-trans :
      ((w : V) → ¬ K w none)
      → ((w v : V) (o : Option V) → K w (some v) → K v o → K w o)
      → (m n p : Dict V) → Kept K m n
      → Kept K n p
      → Kept K m p
  Kept-trans never trans m n p k l j w h = elim (Option-cases (get j n)) [
    | inl e ↦ absurd (never w (subst (K w) e (k j w h)))
    | inr (v, e) ↦ trans w v (get j p) (subst (K w) e (k j w h)) (l j v e)
  ]
