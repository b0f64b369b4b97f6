-- ===== src/Prelude/Equality.antt =====
-- JavaScript's `===` on the values that the code compares: numbers, texts, optional ones of these.
use Prim.Native.Nat.{ℕ, compare, Ordering}
use Prim.Native.String.{String}
use mathlib.Core.Path.{◌≡◌, refl}
use mathlib.Core.Logic.{◌↔◌}
use mathlib.Core.Bool.{Bool, true, false, false≢true}
use mathlib.Core.HLevel.{hedberg}
use mathlib.Core.Option.{Option, none, some}
use text.Mathlib.Text
use text.Mathlib.TextEquality.{eq_iff}
use native.Mathlib.Omega.{arith}

pub record Comparable {ℓ} (A : Type ℓ) : Type ℓ where
  pub equals : A → A → Bool
  pub equals_iff : (a b : A) → (equals a b ≡ true) ↔ (a ≡ b)

abbrev pub nat_equals : ℕ → ℕ → Bool
nat_equals a b = elim (compare a b) [ Ordering.eq ↦ true | _ ↦ false ]

pub nat_equals_iff : (a b : ℕ) → (nat_equals a b ≡ true) ↔ (a ≡ b)
nat_equals_iff a b = ground arith

instance abbrev pub nat_eq : Comparable ℕ
nat_eq = record { equals = nat_equals; equals_iff = nat_equals_iff }

instance abbrev pub string_eq : Comparable String
string_eq = record { equals = Text.◌==◌; equals_iff = eq_iff }

-- `a === b`
infix 50 ◌==◌
abbrev pub ◌==◌ {ℓ} : {A : Type ℓ} ⦃c : Comparable A⦄ → A → A → Bool
◌==◌ ⦃c⦄ = c.equals

module _ {ℓ} {A : Type ℓ} ⦃e : Comparable A⦄ where
  abbrev pub option_equals : Option A → Option A → Bool
  option_equals none none = true
  option_equals (some a) (some b) = e.equals a b
  option_equals _ _ = false

  pub option_equals_iff : (a b : Option A) → (option_equals a b ≡ true) ↔ (a ≡ b)
  option_equals_iff none none = ground arith
  option_equals_iff (some a) (some b) = ground (arith, e.equals_iff a b)
  option_equals_iff none (some b) = ground arith
  option_equals_iff (some a) none = ground arith

  instance abbrev pub option_eq : Comparable (Option A)
  option_eq = record { equals = option_equals; equals_iff = option_equals_iff }

  pub ==_refl : (a : A) → (a == a) ≡ true
  ==_refl a = (e.equals_iff a a).1 refl

  pub eq_set : IsSet A
  eq_set = hedberg λ a b. decide_eq (e.equals a b) (e.equals_iff a b)
    where
      decide_eq : {P : Type ℓ} (t : Bool) → (t ≡ true) ↔ P → Dec P
      decide_eq true h = yes (h.0 refl)
      decide_eq false h = no (λ p. false≢true (h.1 p))
