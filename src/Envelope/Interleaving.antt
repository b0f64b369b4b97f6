-- ===== src/Envelope/Interleaving.antt =====
-- Calls of the envelope operations by many workers at once, through `ConcurrencySafeEnvelopeStore`
-- (packages/esig-mcp/src/stores.ts) around `FsEnvelopeStore`: other workers act between the read of
-- a call and its write.
use text.Mathlib.TextEquality.{eq_iff}
use mathlib.Core.Bool.{false≢true}
use mathlib.Core.Logic.{◌⊎◌}
use esig_suite.Prelude.{
  ℕ, ◌+◌, ◌<◌, ◌≡◌, refl, sym, ◌∙◌, ap, subst, String, Bool, true, false, some, [], ◌∷◌, ◌++◌, find,
  any, arith, inl, inr, Bool-cases, ◌==◌, string_eq, get_or, Result-cases,
}
use esig_suite.Envelope.{Envelope, EnvelopeStore, CreateInput, Draws, compose_envelope}
use esig_suite.Envelope.Signing.{
  create_envelope, resolve_signing_token, record_signature, decline_envelope, void_envelope,
}
use esig_suite.Envelope.Stores.{
  Rows, has_id, fs_envelope_store, fs_insert, fs_update, safe_insert, safe_update, get_rev, set_rev,
}
use esig_suite.Envelope.Creation.{compose_envelope-IsValid}
use esig_suite.Envelope.History.{
  Change, Evolves, Evolves-refl, Evolves-trans, Change-Evolves, Change-rev, Change-unfinished,
}
use esig_suite.Envelope.Effects.{Effect, leaves, updates, resolve-Effect, rows_store}
use esig_suite.Envelope.Operations.{
  record_signature-Effect, decline_envelope-Effect, void_envelope-Effect,
}
use esig_suite.Envelope.Rows.{
  has_unique_ids, find_self, find-append, has_unique_ids-append, fs_update-has_unique_ids,
  find-fs_update,
}
use esig_suite.Envelope.Concurrency.{safe_update_cases, rev_of, rev_in}
use esig_suite.Envelope.Runs.{Call, creates, resolves, signs, declines, voids, ids_are_new}

-- Where the row of an id is found later: it is the same one, or it has evolved to a later revision.
pub record IsNewer (id : String) (e : Envelope) (t : Rows) : Type 0 where
  pub row : Envelope
  pub found : find (has_id id) t ≡ some row
  pub evolved : Evolves e row
  pub current : (row ≡ e) ⊎ (get_rev e < get_rev row)

-- What workers may do to the rows: every envelope stays under its id, as it is or in a later revision
-- with its document, its signers and their signatures, closed if it was, untouched if it was completed.
pub record Keeps (s t : Rows) : Type 0 where
  pub unique : has_unique_ids t ≡ true
  pub rows : (id : String) (e : Envelope) → find (has_id id) s ≡ some e → IsNewer id e t

pub Keeps-refl : (s : Rows) → has_unique_ids s ≡ true → Keeps s s
Keeps-refl s u = record {
  unique = u;
  rows = λ id e h. record { row = e; found = h; evolved = Evolves-refl e; current = inl refl };
}

later :
    (a b c : Envelope)
    → (b ≡ a) ⊎ (get_rev a < get_rev b)
    → (c ≡ b) ⊎ (get_rev b < get_rev c)
    → (c ≡ a) ⊎ (get_rev a < get_rev c)
later a b c (inl p) (inl q) = inl (q ∙ p)
later a b c (inl p) (inr q) = inr (subst (λ z. get_rev z < get_rev c) p q)
later a b c (inr p) (inl q) = inr (subst (λ z. get_rev a < get_rev z) (sym q) p)
later a b c (inr p) (inr q) = inr (omega arith)

Keeps-trans : (s t u : Rows) → Keeps s t → Keeps t u → Keeps s u
Keeps-trans s t u k l = record {
  unique = l.unique;
  rows = λ id e h.
      let x = k.rows id e h in
      let y = l.rows id x.row x.found in
      record {
        row = y.row;
        found = y.found;
        evolved = Evolves-trans e x.row y.row x.evolved y.evolved;
        current = later e x.row y.row x.current y.current;
      };
}

-- A changed envelope with its next revision.
Change-Evolves-set_rev : {e f : Envelope} (n : ℕ) → Change e f → Evolves e (set_rev f n)
Change-Evolves-set_rev {e = e} {f = f} n c =
    let k = Change-Evolves c in
    record {
      id = k.id;
      tenant_id = k.tenant_id;
      title = k.title;
      html = k.html;
      expires_at = k.expires_at;
      signers = k.signers;
      closed = k.closed;
      final = λ done. absurd (false≢true (sym (Change-unfinished c) ∙ done));
    }

-- A write of the envelope that is stored, changed, keeps all.
write-Keeps :
    (e f : Envelope) (s : Rows)
    → has_unique_ids s ≡ true
    → find (has_id e.id) s ≡ some e
    → Change e f
    → any (has_id f.id) s ≡ true
    → Keeps s (fs_update (set_rev f (get_rev f + 1)) s).1
write-Keeps e f s u h c there = record {
  unique = fs_update-has_unique_ids (set_rev f (get_rev f + 1)) s there u;
  rows = λ id x hx.
      let g = set_rev f (get_rev f + 1) in
      let evolved = Change-Evolves c in
      elim (Bool-cases (f.id == id)) [
        | inr t ↦ record {
          row = x;
          found = rw (find-fs_update g id s there, t) hx;
          evolved = Evolves-refl x;
          current = inl refl;
        }
        | inl t ↦
            let at : e.id ≡ id = sym evolved.id ∙ (eq_iff f.id id).0 t in
            let same : e ≡ x = ap (λ o. get_or o e) (sym h ∙ ap (λ j. find (has_id j) s) at ∙ hx) in
            let revs : get_rev f ≡ get_rev e = ap (λ o. get_or o 0) (Change-rev c) in
            let grows : get_rev e < get_rev f + 1 = omega arith in
            record {
              row = g;
              found = rw (find-fs_update g id s there, t) refl;
              evolved = subst (λ z. Evolves z g) same (Change-Evolves-set_rev (get_rev f + 1) c);
              current = inr (subst (λ z. get_rev z < get_rev g) same grows);
            }
      ];
}

-- A write of what a call made of an envelope that it read, after other workers have acted: it is
-- refused, or the envelope is still the one that was read.
safe_update-Keeps :
    (p : Envelope → Bool) (e f : Envelope) (s t : Rows)
    → has_unique_ids s ≡ true
    → Keeps s t
    → find p s ≡ some e
    → Change e f
    → Keeps t (safe_update fs_envelope_store f t).1
safe_update-Keeps p e f s t u k found c = elim (safe_update_cases f t k.unique) [
  | inl r ↦ subst (Keeps t) (sym (ap (λ q. q.1) r)) (Keeps-refl t k.unique)
  | inr (there, rev, r) ↦
      let x = k.rows e.id e (find_self p s e u found) in
      let id : f.id ≡ e.id = (Change-Evolves c).id in
      let revs : get_rev f ≡ get_rev e = ap (λ o. get_or o 0) (Change-rev c) in
      let stored : get_rev x.row + 1 ≡ get_rev f + 1 =
        sym (ap rev_in x.found) ∙ ap (λ j. rev_of j t) (sym id) ∙ rev in
      let same : x.row ≡ e = elim x.current [ inl q ↦ q | inr q ↦ absurd (omega arith) ] in
      subst (Keeps t) (sym (ap (λ q. q.1) r))
        (write-Keeps e f t k.unique (x.found ∙ ap some same) c there)
]

-- The store of a call, where the other workers act before it writes.
abbrev pub amid : (Rows → Rows) → EnvelopeStore Rows
amid others =
    rows_store (λ e s. safe_insert fs_envelope_store e (others s))
      (λ e s. safe_update fs_envelope_store e (others s))

insert-Keeps :
    (e : Envelope) (s : Rows)
    → has_unique_ids s ≡ true
    → any (has_id e.id) s ≡ false
    → Keeps s (s ++ set_rev e 0 ∷ [])
insert-Keeps e s u new = record {
  unique = has_unique_ids-append s (set_rev e 0) u new;
  rows = λ id x h. record {
    row = x;
    found = find-append (has_id id) s (set_rev e 0) x h;
    evolved = Evolves-refl x;
    current = inl refl;
  };
}

module _ (hash_token : String → String) (others : Rows → Rows) where
  -- A call amid the others.
  unfoldable pub call : Call → Rows → Rows
  unfolding create_envelope resolve_signing_token record_signature decline_envelope void_envelope
  call (creates i d now) s = (create_envelope (amid others) hash_token i d now s).1
  call (resolves token now) s = (resolve_signing_token (amid others) hash_token token now s).1
  call (signs token image at now) s =
      (record_signature (amid others) hash_token token image at now s).1
  call (declines token reason now) s =
      (decline_envelope (amid others) hash_token token reason now s).1
  call (voids tenant_id id now) s = (void_envelope (amid others) tenant_id id now s).1

  create-Keeps :
      (i : CreateInput) (d : Draws) (now : ℕ) (s : Rows)
      → has_unique_ids (others s) ≡ true
      → any (has_id d.envelope_id) (others s) ≡ false
      → ((create_envelope (amid others) hash_token i d now s).1 ≡ s)
        ⊎ Keeps (others s) (create_envelope (amid others) hash_token i d now s).1
  unfolding create_envelope safe_insert fs_insert
  create-Keeps i d now s u new = elim (Result-cases (compose_envelope hash_token i d now)) [
    | inr (f, made) ↦ inl (rw (create_envelope, made) refl)
    | inl (e, made) ↦
        let id = (compose_envelope-IsValid hash_token i d now e made).0 in
        inr (rw (create_envelope, made) (insert-Keeps e (others s) u (rw id new)))
  ]

  Effect-Keeps :
      (s t : Rows)
      → has_unique_ids s ≡ true
      → Keeps s (others s)
      → Effect (λ e s. safe_update fs_envelope_store e (others s)) s t
      → (t ≡ s) ⊎ Keeps (others s) t
  Effect-Keeps s t u k leaves = inl refl
  Effect-Keeps s t u k (updates p e f found c) =
      inr (safe_update-Keeps p e f s (others s) u k found c)

  call-cases :
      (c : Call) (s : Rows)
      → has_unique_ids s ≡ true
      → Keeps s (others s)
      → ids_are_new (others s) c ≡ true
      → (call c s ≡ s) ⊎ Keeps (others s) (call c s)
  unfolding call
  call-cases (creates i d now) s u k new = create-Keeps i d now s k.unique (ground (arith, new))
  call-cases (resolves token now) s u k new =
      Effect-Keeps s _ u k (resolve-Effect _ _ hash_token token now s)
  call-cases (signs token image at now) s u k new =
      Effect-Keeps s _ u k (record_signature-Effect _ _ hash_token token image at now s)
  call-cases (declines token reason now) s u k new =
      Effect-Keeps s _ u k (decline_envelope-Effect _ _ hash_token token reason now s)
  call-cases (voids tenant_id id now) s u k new =
      Effect-Keeps s _ u k (void_envelope-Effect (amid others).insert _ tenant_id id now s)

  -- Whatever other workers do between the read of a call and its write, as long as they keep every
  -- envelope, and draw no id that is drawn for a new envelope, the call keeps every envelope too, and
  -- it writes nothing, or it keeps also what they have written since its read.
  pub call-Keeps :
      (c : Call) (s : Rows)
      → has_unique_ids s ≡ true
      → Keeps s (others s)
      → ids_are_new (others s) c ≡ true
      → Keeps s (call c s) × ((call c s ≡ s) ⊎ Keeps (others s) (call c s))
  call-Keeps c s u k new = elim (call-cases c s u k new) [
    | inl same ↦ (subst (Keeps s) (sym same) (Keeps-refl s u), inl same)
    | inr kept ↦ (Keeps-trans s (others s) (call c s) k kept, inr kept)
  ]
