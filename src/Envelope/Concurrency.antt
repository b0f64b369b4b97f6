-- ===== src/Envelope/Concurrency.antt =====
-- Concurrent writers of one envelope through `ConcurrencySafeEnvelopeStore`
-- (packages/esig-mcp/src/stores.ts) around `FsEnvelopeStore`. Each writer read the envelope at some
-- time; their updates are run one after the other by the mutex.
use text.Mathlib.TextEquality.{eq_iff}
use esig_suite.Prelude.{
  ℕ, ◌+◌, ◌≤◌, ◌<◌, ◌≡◌, refl, sym, ◌∙◌, ap, subst, ==_refl, String, Bool, true, false, Option,
  none, some, List, [], ◌∷◌, find, any, arith, ok, err, inl, inr, Bool-cases, Option-cases, ◌==◌,
  nat_eq, string_eq, if◌then◌else◌, ◌⊎◌,
}
use esig_suite.Envelope.{Envelope, conflict}
use esig_suite.Envelope.Stores.{
  Rows, has_id, is_tenants, fs_envelope_store, fs_update, fs_find_by_id, safe_update, get_rev,
  set_rev,
}
use esig_suite.Envelope.Rows.{
  has_unique_ids, find_self, find-any_self, find-fs_update, fs_update-has_unique_ids,
}

abbrev pub write : Envelope → Rows → Rows
write e s = (safe_update fs_envelope_store e s).1

pub writes : Rows → List Envelope → Rows
writes s [] = s
writes s (e ∷ es) = writes (write e s) es

-- One more than the revision stored under an id, 0 when there is none.
abbrev pub rev_in : Option Envelope → ℕ
rev_in none = 0
rev_in (some e) = get_rev e + 1

abbrev pub rev_of : String → Rows → ℕ
rev_of id s = rev_in (find (has_id id) s)

tenants_cases :
    (tenant_id id : String) (s : Rows) (e : Envelope)
    → has_unique_ids s ≡ true
    → find (is_tenants tenant_id id) s ≡ some e
    → (any (has_id id) s ≡ true) × (rev_of id s ≡ get_rev e + 1)
tenants_cases tenant_id id s e u h =
    let same : e.id ≡ id = (tenants_same tenant_id id s e h) in
    (
      subst (λ j. any (has_id j) s ≡ true) same (find-any_self (is_tenants tenant_id id) s e h),
      subst (λ j. rev_of j s ≡ get_rev e + 1) same
          (ap rev_in (find_self (is_tenants tenant_id id) s e u h)),
    )
  where
    tenants_same :
        (tenant_id id : String) (s : Rows) (e : Envelope)
        → find (is_tenants tenant_id id) s ≡ some e
        → e.id ≡ id
    tenants_same tenant_id id [] e h = cc
    tenants_same tenant_id id (x ∷ xs) e h =
        ground (arith, tenants_same tenant_id id xs e, eq_iff x.id id)

-- An update is refused, or it writes the next revision.
pub safe_update_cases :
    (e : Envelope) (s : Rows)
    → has_unique_ids s ≡ true
    → (safe_update fs_envelope_store e s ≡ (err conflict, s))
      ⊎ ((any (has_id e.id) s ≡ true)
          × (rev_of e.id s ≡ get_rev e + 1)
          × (safe_update fs_envelope_store e s ≡ fs_update (set_rev e (get_rev e + 1)) s))
unfolding safe_update fs_find_by_id
safe_update_cases e s u = elim (Option-cases (find (is_tenants e.tenant_id e.id) s)) [
  | inl gone ↦ inl (rw (safe_update, gone) refl)
  | inr (x, found) ↦ elim (Bool-cases (get_rev x == get_rev e)) [
    | inr stale ↦ inl (rw (safe_update, found, stale) refl)
    | inl current ↦
        let (there, rev) = tenants_cases e.tenant_id e.id s x u found in
        let same : get_rev x ≡ get_rev e = (nat_eq.equals_iff (get_rev x) (get_rev e)).0 current in
        inr (
          there,
          rev ∙ ap (λ n. n + 1) same,
          rw (safe_update, found, current) (ap (λ n. fs_update (set_rev e (n + 1)) s) same),
        )
  ]
]

rev_of-fs_update :
    (e : Envelope) (n : ℕ) (id : String) (s : Rows)
    → any (has_id e.id) s ≡ true
    → rev_of id (fs_update (set_rev e n) s).1 ≡ (if e.id == id then n + 1 else rev_of id s)
rev_of-fs_update e n id s there =
    ap rev_in (find-fs_update (set_rev e n) id s there) ∙ chosen (e.id == id)
  where
    chosen :
        (c : Bool)
        → rev_in (if c then some (set_rev e n) else find (has_id id) s)
          ≡ (if c then n + 1 else rev_of id s)
    chosen true = refl
    chosen false = refl

write_lem :
    (e : Envelope) (id : String) (s : Rows)
    → has_unique_ids s ≡ true
    → (has_unique_ids (write e s) ≡ true) × (rev_of id s ≤ rev_of id (write e s))
write_lem e id s u = elim (safe_update_cases e s u) [
  | inl r ↦
      subst (λ x. (has_unique_ids x ≡ true) × (rev_of id s ≤ rev_of id x)) (sym (ap (λ p. p.1) r))
        (u, omega arith)
  | inr (there, rev, r) ↦
      subst (λ x. (has_unique_ids x ≡ true) × (rev_of id s ≤ rev_of id x)) (sym (ap (λ p. p.1) r))
        (
          fs_update-has_unique_ids (set_rev e (get_rev e + 1)) s there u,
          subst (λ n. rev_of id s ≤ n) (sym (rev_of-fs_update e (get_rev e + 1) id s there))
              (grows e id s rev),
        )
]
  where
    grows :
        (e : Envelope) (id : String) (s : Rows)
        → rev_of e.id s ≡ get_rev e + 1
        → rev_of id s ≤ (if e.id == id then get_rev e + 1 + 1 else rev_of id s)
    grows e id s rev = elim (Bool-cases (e.id == id)) [
      | inl t ↦
          rw t (
            subst (λ j. rev_of j s ≤ get_rev e + 1 + 1) ((eq_iff e.id id).0 t) (omega (arith, rev)))
      | inr t ↦ rw t (omega arith)
    ]

writes_lem :
    (id : String) (s : Rows) (es : List Envelope)
    → has_unique_ids s ≡ true
    → (has_unique_ids (writes s es) ≡ true) × (rev_of id s ≤ rev_of id (writes s es))
unfolding writes
writes_lem id s [] u = (u, omega arith)
writes_lem id s (e ∷ es) u =
    let (v, le) = write_lem e id s u in
    let (w, le2) = writes_lem id (write e s) es v in (w, omega (arith, le, le2))

stale_refused :
    (e : Envelope) (s : Rows)
    → has_unique_ids s ≡ true
    → get_rev e + 1 < rev_of e.id s
    → safe_update fs_envelope_store e s ≡ (err conflict, s)
stale_refused e s u h = elim (safe_update_cases e s u) [
  | inl r ↦ r
  | inr (there, rev, r) ↦ absurd (omega (arith, rev, h))
]

-- Once a writer's update of an envelope has succeeded, every writer that read the same revision of it,
-- or an older one, is refused, whatever other updates come in between.
pub safe_update-safe_update :
    (a b o : Envelope) (s t : Rows) (es : List Envelope)
    → has_unique_ids s ≡ true
    → b.id ≡ a.id
    → get_rev b ≤ get_rev a
    → safe_update fs_envelope_store a s ≡ (ok o, t)
    → safe_update fs_envelope_store b (writes t es) ≡ (err conflict, writes t es)
safe_update-safe_update a b o s t es u same older won =
    let (v, rev) = won_lem a o s t u won in
    let (w, le) = writes_lem a.id t es v in
    stale_refused b (writes t es) w (
      subst (λ j. get_rev b + 1 < rev_of j (writes t es)) (sym same)
        (omega (arith, older, rev, le)))
  where
    won_lem :
        (a o : Envelope) (s t : Rows)
        → has_unique_ids s ≡ true
        → safe_update fs_envelope_store a s ≡ (ok o, t)
        → (has_unique_ids t ≡ true) × (rev_of a.id t ≡ get_rev a + 1 + 1)
    won_lem a o s t u won = elim (safe_update_cases a s u) [
      | inl r ↦ ground (arith, sym r ∙ won)
      | inr (there, rev, r) ↦
          let left : (fs_update (set_rev a (get_rev a + 1)) s).1 ≡ t =
            ap (λ p. p.1) (sym r ∙ won) in
          (
            subst (λ x. has_unique_ids x ≡ true) left
                (fs_update-has_unique_ids (set_rev a (get_rev a + 1)) s there u),
            subst (λ x. rev_of a.id x ≡ get_rev a + 1 + 1) left
                (rev_of-fs_update a (get_rev a + 1) a.id s there ∙ rw (==_refl a.id) refl),
          )
    ]
