-- ===== src/Audit/Chain.antt =====
-- `verifyAuditChain` of packages/esig-supabase/src/audit-chain.ts accepts exactly the intact chains.
use mathlib.Core.Bool.{false≢true}
use mathlib.Core.List.{cons≢nil}
use esig_suite.Prelude.{
  ℕ, suc, ◌≡◌, ◌↔◌, refl, sym, ap, ◌∙◌, subst, String, Bool, true, false, not, Option, none, some,
  List, [], ◌∷◌, ◌++◌, arith, ◌==◌, nat_eq, string_eq, option_eq, if◌then◌else◌, Bool-cases, inl,
  inr, ==_refl, length,
}
use esig_suite.Audit.Text.{after_last_bar, is_md5_hex, epoch_micros}
use esig_suite.Audit.{
  Host, ChainRow, Reason, AuditChainFailure, hashed_text, rebuilt, when, check_time,
  check_canonical, check_columns, malformed_canonical, check_row, reported, check_rows, is_nil,
  verify_rows, truncated, verify_audit_chain,
}

-- What a row must be at its place, after the row with this hash.
pub record IsLinked (h : Host) (i : ℕ) (prev : Option String) (r : ChainRow) : Type 0 where
  pub hash : String
  pub payload : String
  pub micros : ℕ
  pub at_place : r.seq ≡ some i
  pub has_hash : r.row_hash ≡ some hash
  pub has_payload : r.payload_canonical ≡ some payload
  pub linked : r.prev_hash ≡ prev
  pub hashed : h.sha256_hex (hashed_text prev payload) ≡ hash
  pub has_md5 : is_md5_hex (after_last_bar payload) ≡ true
  pub has_time : epoch_micros h.date_parse r.created_at ≡ some micros
  pub agrees : rebuilt r (h.to_text micros) (after_last_bar payload) ≡ payload

-- A chain from a place and the hash before it: the places follow one another, and each row carries
-- the hash of the one before.
abbrev pub IsIntact : Host → ℕ → Option String → List ChainRow → Type 0
IsIntact h i prev [] = Unit
IsIntact h i prev (r ∷ rs) = IsLinked h i prev r × IsIntact h (suc i) r.row_hash rs

-- As many rows as the server counts, where it does.
abbrev pub IsCounted : Option ℕ → List ChainRow → Type 0
IsCounted none rs = Unit
IsCounted (some total) rs = length rs ≡ total

when-nil :
    (b : Bool) (x : Reason) (xs : List Reason) → when b x ++ xs ≡ [] → (b ≡ false) × (xs ≡ [])
when-nil true x xs e = absurd (cons≢nil e)
when-nil false x xs e = (refl, e)

when-false : (b : Bool) (x : Reason) (xs : List Reason) → b ≡ false → when b x ++ xs ≡ xs
when-false b x xs e = ap (λ c. when c x ++ xs) e

when-alone : (b : Bool) (x : Reason) → b ≡ false → when b x ≡ []
when-alone b x e = ap (λ c. when c x) e

when_alone-nil : (b : Bool) (x : Reason) → when b x ≡ [] → b ≡ false
when_alone-nil true x e = absurd (cons≢nil e)
when_alone-nil false x e = refl

is_nil-eq : (xs : List AuditChainFailure) → is_nil xs ≡ true → xs ≡ []
is_nil-eq xs e = ground arith

not-false : (b : Bool) → not b ≡ false → b ≡ true
not-false b e = ground arith

module _ (h : Host) where
  -- The checks (d) pass only for the text of the row's own columns.
  check_time-nil :
      (r : ChainRow) (payload : String) (t : Option ℕ)
      → check_time h r payload t ≡ []
      → (micros : ℕ) × (t ≡ some micros)
        × (rebuilt r (h.to_text micros) (after_last_bar payload) ≡ payload)
  unfolding check_time
  check_time-nil r payload none e = absurd (cons≢nil e)
  check_time-nil r payload (some micros) e =
      (micros, refl, (string_eq.equals_iff _ _).0 (not-false _ (when_alone-nil _ _ e)))

  check_canonical-nil :
      (r : ChainRow) (payload : String)
      → check_canonical h r payload ≡ []
      → (is_md5_hex (after_last_bar payload) ≡ true)
        × (check_time h r payload (epoch_micros h.date_parse r.created_at) ≡ [])
  unfolding check_canonical
  check_canonical-nil r payload e =
      let rest = check_time h r payload (epoch_micros h.date_parse r.created_at) in
      elim (Bool-cases (is_md5_hex (after_last_bar payload))) [
        | inl m ↦ (m, subst (λ b. (if not b then malformed_canonical ∷ [] else rest) ≡ []) m e)
        | inr m ↦
            absurd
              (cons≢nil (subst (λ b. (if not b then malformed_canonical ∷ [] else rest) ≡ []) m e))
      ]

  check_columns-IsLinked :
      (i : ℕ) (prev : Option String) (r : ChainRow) (seq : Option ℕ) (hash payload : Option String)
      → r.seq ≡ seq
      → r.row_hash ≡ hash
      → r.payload_canonical ≡ payload
      → check_columns h i prev r seq hash payload ≡ []
      → IsLinked h i prev r
  unfolding check_columns
  check_columns-IsLinked i prev r none hash payload a b c e = absurd (cons≢nil e)
  check_columns-IsLinked i prev r (some seq) none payload a b c e = absurd (cons≢nil e)
  check_columns-IsLinked i prev r (some seq) (some hash) none a b c e = absurd (cons≢nil e)
  check_columns-IsLinked i prev r (some seq) (some hash) (some payload) a b c e =
      let (place, e1) = when-nil _ _ _ e in
      let (linked, e2) = when-nil _ _ _ e1 in
      let (hashed, e3) = when-nil _ _ _ e2 in
      let (md5, e4) = check_canonical-nil r payload e3 in
      let (micros, time, agrees) = check_time-nil r payload _ e4 in
      let same = (option_eq.equals_iff r.prev_hash prev).0 (not-false _ linked) in
      record {
        hash = hash;
        payload = payload;
        micros = micros;
        at_place = a ∙ ap some ((nat_eq.equals_iff seq i).0 (not-false _ place));
        has_hash = b;
        has_payload = c;
        linked = same;
        hashed =
            ap (λ p. h.sha256_hex (hashed_text p payload)) (sym same)
            ∙ (string_eq.equals_iff _ _).0 (not-false _ hashed);
        has_md5 = md5;
        has_time = time;
        agrees = agrees;
      }

  check_row-IsLinked :
      (i : ℕ) (prev : Option String) (r : ChainRow)
      → check_row h i prev r ≡ []
      → IsLinked h i prev r
  unfolding check_row
  check_row-IsLinked i prev r e =
      check_columns-IsLinked i prev r r.seq r.row_hash r.payload_canonical refl refl refl e

  IsLinked-check_canonical :
      (i : ℕ) (prev : Option String) (r : ChainRow) (l : IsLinked h i prev r)
      → check_canonical h r l.payload ≡ []
  unfolding check_canonical check_time
  IsLinked-check_canonical i prev r l =
      let rest = check_time h r l.payload (epoch_micros h.date_parse r.created_at) in
      ap (λ b. if not b then malformed_canonical ∷ [] else rest) l.has_md5
      ∙ ap (check_time h r l.payload) l.has_time
      ∙ when-alone _ _ (ap not ((string_eq.equals_iff _ _).1 l.agrees))

  three_passed :
      {a b c : Bool} (x y z : Reason) {rest : List Reason}
      → a ≡ true
      → b ≡ true
      → c ≡ true
      → rest ≡ []
      → when (not a) x ++ (when (not b) y ++ (when (not c) z ++ rest)) ≡ []
  three_passed {a} {b} {c} x y z {rest} p q r e =
      when-false (not a) x _ (ap not p)
      ∙ when-false (not b) y _ (ap not q)
      ∙ when-false (not c) z _ (ap not r)
      ∙ e

  IsLinked-check_row :
      (i : ℕ) (prev : Option String) (r : ChainRow)
      → IsLinked h i prev r
      → check_row h i prev r ≡ []
  unfolding check_row check_columns
  IsLinked-check_row i prev r l =
      ap (λ s. check_columns h i prev r s r.row_hash r.payload_canonical) l.at_place
      ∙ ap (λ s. check_columns h i prev r (some i) s r.payload_canonical) l.has_hash
      ∙ ap (check_columns h i prev r (some i) (some l.hash)) l.has_payload
      ∙ three_passed {a = i == i} {b = r.prev_hash == prev}
          {c = h.sha256_hex (hashed_text r.prev_hash l.payload) == l.hash} _ _ _ (==_refl i)
          ((option_eq.equals_iff r.prev_hash prev).1 l.linked)
          ((string_eq.equals_iff _ _).1
            (ap (λ p. h.sha256_hex (hashed_text p l.payload)) l.linked ∙ l.hashed))
          (IsLinked-check_canonical i prev r l)

  reported-nil :
      (i : ℕ) (r : ChainRow) (xs : List Reason) (ys : List AuditChainFailure)
      → reported i r xs ++ ys ≡ []
      → (xs ≡ []) × (ys ≡ [])
  unfolding reported
  reported-nil i r [] ys e = (refl, e)
  reported-nil i r (x ∷ xs) ys e = absurd (cons≢nil e)

  check_rows-IsIntact :
      (i : ℕ) (prev : Option String) (rs : List ChainRow)
      → (check_rows h i prev rs ≡ []) ↔ IsIntact h i prev rs
  unfolding check_rows reported
  check_rows-IsIntact i prev [] = (λ _. tt, λ _. refl)
  check_rows-IsIntact i prev (r ∷ rs) =
      let rest = check_rows-IsIntact (suc i) r.row_hash rs in
      (
        λ e.
            let (here, later) = reported-nil i r _ _ e in
            (check_row-IsLinked i prev r here, rest.0 later),
        λ (l, k).
            ap (λ xs. reported i r xs ++ check_rows h (suc i) r.row_hash rs)
              (IsLinked-check_row i prev r l)
            ∙ rest.1 k,
      )

  verify_rows-IsIntact :
      (rs : List ChainRow) → ((verify_rows h rs).is_ok ≡ true) ↔ IsIntact h 0 none rs
  unfolding verify_rows
  verify_rows-IsIntact rs =
      let rows = check_rows-IsIntact 0 none rs in
      (λ e. rows.0 (is_nil-eq _ e), λ k. ap is_nil (rows.1 k))

  -- The verifier accepts the rows exactly if they are as many as the server counts, where it does,
  -- and an intact chain from the first row on: the places are 0, 1, 2 and so on, each row carries
  -- the hash of the one before it and the SHA-256 of its own text, and that text is the canonical one
  -- of the row's columns.
  pub verify_audit_chain-IsIntact :
      (total : Option ℕ) (rs : List ChainRow)
      → ((verify_audit_chain h total rs).is_ok ≡ true) ↔ IsCounted total rs × IsIntact h 0 none rs
  unfolding verify_audit_chain
  verify_audit_chain-IsIntact none rs =
      let rows = verify_rows-IsIntact rs in (λ e. (tt, rows.0 e), λ (c, k). rows.1 k)
  verify_audit_chain-IsIntact (some total) rs =
      let rows = verify_rows-IsIntact rs in
      elim (Bool-cases (length rs == total)) [
        | inl same ↦ (
          λ e. (
            (nat_eq.equals_iff _ _).0 same,
            rows.0 (
                subst
                  (λ b. (if b then verify_rows h rs else truncated (length rs) total).is_ok ≡ true)
                  same e),
          ),
          λ (c, k).
              ap (λ b. (if b then verify_rows h rs else truncated (length rs) total).is_ok) same
              ∙ rows.1 k,
        )
        | inr other ↦ (
          λ e. absurd (
              false≢true (
                subst
                  (λ b. (if b then verify_rows h rs else truncated (length rs) total).is_ok ≡ true)
                  other e)),
          λ (c, k). absurd (false≢true (sym other ∙ (nat_eq.equals_iff _ _).1 c)),
        )
      ]
