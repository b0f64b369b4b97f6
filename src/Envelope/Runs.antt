-- ===== src/Envelope/Runs.antt =====
-- Sequential histories of the envelopes in one `FsEnvelopeStore`: calls of the operations of
-- packages/esig-core/src/envelope.ts, in any order, each of which ends before the next one begins, as
-- that store asks for. Calls that overlap are in Interleaving.
use text.Mathlib.TextEquality.{eq_iff}
use esig_suite.Prelude.{
  ℕ, ◌≡◌, refl, sym, ◌∙◌, ap, subst, String, Bool, true, false, not, ◌&&◌, Option, some, List, [],
  ◌∷◌, ◌++◌, find, any, All, ok, arith, inl, inr, Bool-cases, ◌==◌, string_eq, get_or,
}
use esig_suite.Envelope.{Envelope, CreateInput, Draws, compose_envelope}
use esig_suite.Envelope.Signing.{
  create_envelope, resolve_signing_token, record_signature, decline_envelope, void_envelope,
}
use esig_suite.Envelope.Stores.{Rows, has_id, fs_envelope_store, fs_insert, fs_update}
use esig_suite.Envelope.Valid.{IsValid}
use esig_suite.Envelope.Creation.{compose_envelope-IsValid}
use esig_suite.Envelope.History.{
  Change-IsValid, Evolves, Evolves-refl, Evolves-trans, Change-Evolves,
}
use esig_suite.Envelope.Effects.{Effect, leaves, updates, create_envelope_cases, resolve-Effect}
use esig_suite.Envelope.Operations.{
  record_signature-Effect, decline_envelope-Effect, void_envelope-Effect,
}
use esig_suite.Envelope.Rows.{
  has_unique_ids, find-any_self, find_self, find-append, has_unique_ids-append,
  fs_update-has_unique_ids, find-fs_update, All-append, All-fs_update, All-find,
}

pub data Call : Type 0 where
  creates : CreateInput → Draws → ℕ → Call
  resolves : String → ℕ → Call
  signs : String → String → Option ℕ → ℕ → Call
  declines : String → Option String → ℕ → Call
  voids : String → String → ℕ → Call

abbrev pub ids_are_new : Rows → Call → Bool
ids_are_new s (creates i d now) = not (any (has_id d.envelope_id) s)
ids_are_new s _ = true

Effect-IsValid : {s t : Rows} → Effect fs_update s t → All IsValid s → All IsValid t
Effect-IsValid leaves v = v
Effect-IsValid {s = s} (updates p e f found change) v =
    All-fs_update IsValid f s (rw ((Change-Evolves change).id) (find-any_self p s e found)) v
      (Change-IsValid change (All-find IsValid p s e found v))

-- Where the row of an id is found later, and what it has become.
pub record IsKept (id : String) (e : Envelope) (t : Rows) : Type 0 where
  pub row : Envelope
  pub found : find (has_id id) t ≡ some row
  pub evolved : Evolves e row

pub stays : (id : String) (e : Envelope) (t : Rows) → find (has_id id) t ≡ some e → IsKept id e t
stays id e t h = record { row = e; found = h; evolved = Evolves-refl e }

Effect-has_unique_ids :
    {s t : Rows} → Effect fs_update s t → has_unique_ids s ≡ true → has_unique_ids t ≡ true
Effect-has_unique_ids leaves u = u
Effect-has_unique_ids {s = s} (updates p e f found change) u =
    fs_update-has_unique_ids f s (rw ((Change-Evolves change).id) (find-any_self p s e found)) u

Effect-IsKept :
    {s t : Rows} (id : String) (e : Envelope)
    → Effect fs_update s t
    → has_unique_ids s ≡ true
    → find (has_id id) s ≡ some e
    → IsKept id e t
Effect-IsKept {s = s} id e leaves u h = stays id e s h
Effect-IsKept {s = s} id e (updates p d f found change) u h =
    let evolved = Change-Evolves change in
    let there : any (has_id f.id) s ≡ true = rw (evolved.id) (find-any_self p s d found) in
    elim (Bool-cases (f.id == id)) [
      | inl t ↦
          let at : d.id ≡ id = sym evolved.id ∙ (eq_iff f.id id).0 t in
          let same : d ≡ e =
            ap (λ o. get_or o d)
              (sym (find_self p s d u found) ∙ ap (λ j. find (has_id j) s) at ∙ h) in
          record {
            row = f;
            found = rw (find-fs_update f id s there, t) refl;
            evolved = subst (λ z. Evolves z f) same evolved;
          }
      | inr t ↦ stays id e (fs_update f s).1 (rw (find-fs_update f id s there, t) h)
    ]

module _ (hash_token : String → String) where
  pub step : Rows → Call → Rows
  step s (creates i d now) = (create_envelope fs_envelope_store hash_token i d now s).1
  step s (resolves token now) = (resolve_signing_token fs_envelope_store hash_token token now s).1
  step s (signs token image at now) =
      (record_signature fs_envelope_store hash_token token image at now s).1
  step s (declines token reason now) =
      (decline_envelope fs_envelope_store hash_token token reason now s).1
  step s (voids tenant_id id now) = (void_envelope fs_envelope_store tenant_id id now s).1

  pub run : Rows → List Call → Rows
  run s [] = s
  run s (c ∷ cs) = run (step s c) cs

  -- The random generator never draws an id that is in use.
  unfoldable pub draws_are_new : Rows → List Call → Bool
  unfolding step
  draws_are_new s [] = true
  draws_are_new s (c ∷ cs) = ids_are_new s c && draws_are_new (step s c) cs

  -- What holds of every step without a new envelope holds of every step, if creating keeps it.
  step_cases :
      (P : Rows → Type 0) (s : Rows) (c : Call)
      → ((t : Rows) → Effect fs_update s t → P t)
      → ((i : CreateInput) (d : Draws) (now : ℕ) (e : Envelope)
          → c ≡ creates i d now
          → compose_envelope hash_token i d now ≡ ok e
          → P (s ++ e ∷ []))
      → P (step s c)
  unfolding step
  step_cases P s (creates i d now) f g = elim (create_envelope_cases hash_token i d now s) [
    | inl e ↦ subst P (sym e) (f s leaves)
    | inr (x, made, e) ↦ subst P (sym e) (g i d now x refl made)
  ]
  step_cases P s (resolves token now) f g =
      f _ (resolve-Effect fs_insert fs_update hash_token token now s)
  step_cases P s (signs token image at now) f g =
      f _ (record_signature-Effect fs_insert fs_update hash_token token image at now s)
  step_cases P s (declines token reason now) f g =
      f _ (decline_envelope-Effect fs_insert fs_update hash_token token reason now s)
  step_cases P s (voids tenant_id id now) f g =
      f _ (void_envelope-Effect fs_insert fs_update tenant_id id now s)

  step-IsValid : (s : Rows) (c : Call) → All IsValid s → All IsValid (step s c)
  step-IsValid s c v =
      step_cases (All IsValid) s c (λ t e. Effect-IsValid e v)
        (λ i d now e same made.
          All-append IsValid s e v (compose_envelope-IsValid hash_token i d now e made).1)

  -- Whatever calls are made one after the other on a store of valid envelopes, such as the empty
  -- one, every envelope in it is valid: it is completed, and dated, exactly when every signer has
  -- signed; whoever has signed has a date and an image, and all signers of lower orders have signed;
  -- while it is sent, nobody has signed; a signer has declined only if it is voided.
  pub run-IsValid : (s : Rows) (cs : List Call) → All IsValid s → All IsValid (run s cs)
  unfolding run
  run-IsValid s [] v = v
  run-IsValid s (c ∷ cs) v = run-IsValid (step s c) cs (step-IsValid s c v)

  step-has_unique_ids :
      (s : Rows) (c : Call)
      → ids_are_new s c ≡ true
      → has_unique_ids s ≡ true
      → has_unique_ids (step s c) ≡ true
  step-has_unique_ids s c new u =
      step_cases (λ t. has_unique_ids t ≡ true) s c (λ t e. Effect-has_unique_ids e u)
        (λ i d now e same made.
          has_unique_ids-append s e u
            (absent i d now e same (compose_envelope-IsValid hash_token i d now e made).0))
    where
      absent :
          (i : CreateInput) (d : Draws) (now : ℕ) (e : Envelope)
          → c ≡ creates i d now
          → e.id ≡ d.envelope_id
          → any (has_id e.id) s ≡ false
      absent i d now e same id = rw id (ground (arith, sym (ap (ids_are_new s) same) ∙ new))

  step-IsKept :
      (id : String) (e : Envelope) (s : Rows) (c : Call)
      → has_unique_ids s ≡ true
      → find (has_id id) s ≡ some e
      → IsKept id e (step s c)
  step-IsKept id e s c u h =
      step_cases (IsKept id e) s c (λ t f. Effect-IsKept id e f u h)
        (λ i d now x same made. stays id e (s ++ x ∷ []) (find-append (has_id id) s x e h))

  -- Whatever calls are made one after the other, with none beginning before the last one has ended, a
  -- stored envelope stays under its id: its document and its signers stay, a signature is never
  -- changed or removed, a closed envelope is never open again, and a completed one stays as it is. The
  -- ids are unique, and the random generator draws no id that is in use.
  pub run-IsKept :
      (id : String) (e : Envelope) (s : Rows) (cs : List Call)
      → draws_are_new s cs ≡ true
      → has_unique_ids s ≡ true
      → find (has_id id) s ≡ some e
      → IsKept id e (run s cs)
  unfolding run draws_are_new
  run-IsKept id e s [] new u h = stays id e s h
  run-IsKept id e s (c ∷ cs) new u h =
      let k = step-IsKept id e s c u h in
      let l =
        run-IsKept id k.row (step s c) cs (ground (arith, new))
          (step-has_unique_ids s c (ground (arith, new)) u) k.found in
      record {
        row = l.row;
        found = l.found;
        evolved = Evolves-trans e k.row l.row k.evolved l.evolved;
      }
