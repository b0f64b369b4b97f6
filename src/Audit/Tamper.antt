-- ===== src/Audit/Tamper.antt =====
-- What the hashes of packages/esig-supabase/src/audit-chain.ts bind: the last one, every text.
use Prim.Native.Char.{Char}
use mathlib.Core.Bool.{true≢false}
use mathlib.Core.Logic.{◌⊎◌}
use esig_suite.Prelude.{
  ℕ, suc, ◌≡◌, refl, sym, ap, ◌∙◌, String, true, false, Option, none, some, List, [], ◌∷◌, ◌++◌,
  arith, ◌==◌, string_eq, Bool-cases, inl, inr, get_or, length,
}
use esig_suite.Audit.Text.{append, has_bar}
use esig_suite.Audit.{Host, ChainRow, hashed_text, verify_audit_chain}
use esig_suite.Audit.Chain.{IsLinked, IsIntact, verify_audit_chain-IsIntact}

-- Two texts of one hash.
pub record Collision (h : Host) : Type 0 where
  pub first : String
  pub second : String
  pub differ : (first == second) ≡ false
  pub agree : h.sha256_hex first ≡ h.sha256_hex second

-- The canonical texts of the rows.
abbrev pub payloads : List ChainRow → List (Option String)
payloads [] = []
payloads (r ∷ rs) = r.payload_canonical ∷ payloads rs

-- The hash of the last row, or the one before the rows.
abbrev pub last_hash : Option String → List ChainRow → Option String
last_hash prev [] = prev
last_hash prev (r ∷ rs) = last_hash r.row_hash rs

string_tail : String → String
string_tail String.[] = String.[]
string_tail (String.◌∷◌ c s) = s

-- The first character, or a bar.
string_head : String → Char
string_head String.[] = "|"
string_head (String.◌∷◌ c s) = c

bar-first : (c : Char) (s : String) → has_bar (String.◌∷◌ c s) ≡ false → "|" ≡ c → ⊥
bar-first c s x e = true≢false (ap (λ k. has_bar (String.◌∷◌ k s)) e ∙ x)

has_bar-tail : (c : Char) (s : String) → has_bar (String.◌∷◌ c s) ≡ false → has_bar s ≡ false
has_bar-tail c s x = ground arith

-- A text without a bar is what stands before the first bar.
append-injective :
    (a b p q : String)
    → has_bar a ≡ false
    → has_bar b ≡ false
    → append a (append "|" p) ≡ append b (append "|" q)
    → (a ≡ b) × (p ≡ q)
unfolding string_tail string_head
append-injective String.[] String.[] p q x y e = (refl, ap string_tail e)
append-injective String.[] (String.◌∷◌ c b) p q x y e = absurd (bar-first c b y (ap string_head e))
append-injective (String.◌∷◌ c a) String.[] p q x y e =
    absurd (bar-first c a x (sym (ap string_head e)))
append-injective (String.◌∷◌ c a) (String.◌∷◌ d b) p q x y e =
    let (same, rest) =
      append-injective a b p q (has_bar-tail c a x) (has_bar-tail d b y) (ap string_tail e) in
    (ap (λ k. String.◌∷◌ k a) (ap string_head e) ∙ ap (String.◌∷◌ d) same, rest)

module _ (h : Host) (no_bar : (s : String) → has_bar (h.sha256_hex s) ≡ false) where
  -- One hash of two texts: a collision, or the same link and the same payload.
  same_hash :
      (a b p q : String)
      → has_bar a ≡ false
      → has_bar b ≡ false
      → h.sha256_hex (append a (append "|" p)) ≡ h.sha256_hex (append b (append "|" q))
      → (a ≡ b) × (p ≡ q) ⊎ Collision h
  same_hash a b p q x y e =
      let s = append a (append "|" p) in
      let t = append b (append "|" q) in
      elim (Bool-cases (s == t)) [
        | inl same ↦ inl (append-injective a b p q x y ((string_eq.equals_iff s t).0 same))
        | inr other ↦ inr (record { first = s; second = t; differ = other; agree = e })
      ]

  same_row :
      (i : ℕ) (prev prev' : Option String) (r r' : ChainRow)
      → has_bar (get_or prev "") ≡ false
      → has_bar (get_or prev' "") ≡ false
      → IsLinked h i prev r
      → IsLinked h i prev' r'
      → get_or r.row_hash "" ≡ get_or r'.row_hash ""
      → (get_or prev "" ≡ get_or prev' "") × (r.payload_canonical ≡ r'.payload_canonical)
        ⊎ Collision h
  unfolding hashed_text
  same_row i prev prev' r r' x y l l' e =
      let hash = sym (ap (λ o. get_or o "") l.has_hash) ∙ e ∙ ap (λ o. get_or o "") l'.has_hash in
      elim (same_hash _ _ l.payload l'.payload x y (l.hashed ∙ hash ∙ sym l'.hashed)) [
        | inl (same, text) ↦ inl (same, l.has_payload ∙ ap some text ∙ sym l'.has_payload)
        | inr c ↦ inr c
      ]

  row_hash-no_bar :
      (i : ℕ) (prev : Option String) (r : ChainRow)
      → IsLinked h i prev r
      → has_bar (get_or r.row_hash "") ≡ false
  row_hash-no_bar i prev r l =
      ap (λ o. has_bar (get_or o "")) l.has_hash ∙ ap has_bar (sym l.hashed) ∙ no_bar _

  same_rows :
      (i : ℕ) (prev prev' : Option String) (rs rs' : List ChainRow)
      → has_bar (get_or prev "") ≡ false
      → has_bar (get_or prev' "") ≡ false
      → IsIntact h i prev rs
      → IsIntact h i prev' rs'
      → length rs ≡ length rs'
      → get_or (last_hash prev rs) "" ≡ get_or (last_hash prev' rs') ""
      → (get_or prev "" ≡ get_or prev' "") × (payloads rs ≡ payloads rs') ⊎ Collision h
  same_rows i prev prev' [] [] x y k k' n e = inl (e, refl)
  same_rows i prev prev' [] (r' ∷ rs') x y k k' n e = ground arith
  same_rows i prev prev' (r ∷ rs) [] x y k k' n e = ground arith
  same_rows i prev prev' (r ∷ rs) (r' ∷ rs') x y (l, k) (l', k') n e =
      elim (same_rows (suc i) r.row_hash r'.row_hash rs rs' (row_hash-no_bar i prev r l)
        (row_hash-no_bar i prev' r' l') k k' (omega arith) e) [
          | inr c ↦ inr c
          | inl (hash, texts) ↦ elim (same_row i prev prev' r r' x y l l' hash) [
            | inr c ↦ inr c
            | inl (link, text) ↦
                inl (
                  link,
                  ap (λ p. p ∷ payloads rs) text ∙ ap (λ ps. r'.payload_canonical ∷ ps) texts,
                )
          ]
        ]

-- Where no hash contains a bar: two lists of equally many rows that the verifier accepts, and that
-- end in the same hash, have the same canonical texts, or there are two texts of one hash.
pub verify_audit_chain-binds :
    (h : Host) (total total' : Option ℕ) (rs rs' : List ChainRow)
    → ((s : String) → has_bar (h.sha256_hex s) ≡ false)
    → (verify_audit_chain h total rs).is_ok ≡ true
    → (verify_audit_chain h total' rs').is_ok ≡ true
    → length rs ≡ length rs'
    → last_hash none rs ≡ last_hash none rs'
    → (payloads rs ≡ payloads rs') ⊎ Collision h
verify_audit_chain-binds h total total' rs rs' no_bar e e' n last =
    elim (same_rows h no_bar 0 none none rs rs' refl refl
      ((verify_audit_chain-IsIntact h total rs).0 e).1
      ((verify_audit_chain-IsIntact h total' rs').0 e').1 n (ap (λ o. get_or o "") last)) [
        | inl (link, texts) ↦ inl texts
        | inr c ↦ inr c
      ]

IsIntact-prefix :
    (h : Host) (i : ℕ) (prev : Option String) (rs more : List ChainRow)
    → IsIntact h i prev (rs ++ more)
    → IsIntact h i prev rs
IsIntact-prefix h i prev [] more k = tt
IsIntact-prefix h i prev (r ∷ rs) more (l, k) = (l, IsIntact-prefix h (suc i) r.row_hash rs more k)

-- The loss of the last rows of an accepted chain is not seen: what is left is accepted too, if the
-- server counts only the rows that are left.
pub verify_audit_chain-prefix :
    (h : Host) (total : Option ℕ) (rs more : List ChainRow)
    → (verify_audit_chain h total (rs ++ more)).is_ok ≡ true
    → (verify_audit_chain h (some (length rs)) rs).is_ok ≡ true
verify_audit_chain-prefix h total rs more e =
    (verify_audit_chain-IsIntact h (some (length rs)) rs).1 (
      refl,
      IsIntact-prefix h 0 none rs more ((verify_audit_chain-IsIntact h total (rs ++ more)).0 e).1,
    )
