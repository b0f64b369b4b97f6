-- ===== src/Envelope/Rows.antt =====
-- Rows looked up by their ids, which stay unique (packages/esig-core/src/fs-adapters.ts).
use text.Mathlib.TextEquality.{eq_iff}
use esig_suite.Prelude.{
  ◌≡◌, refl, subst, String, Bool, true, false, not, ◌&&◌, some, [], ◌∷◌, ◌++◌, ◌==◌, string_eq,
  if◌then◌else◌, find, any, any-append, All, arith, Bool-cases, inl, inr,
}
use esig_suite.Envelope.{Envelope}
use esig_suite.Envelope.Signing.{change_first}
use esig_suite.Envelope.Stores.{Rows, has_id, fs_update}

abbrev pub has_unique_ids : Rows → Bool
has_unique_ids [] = true
has_unique_ids (e ∷ es) = not (any (has_id e.id) es) && has_unique_ids es

pub find-any_self :
    (p : Envelope → Bool) (s : Rows) (e : Envelope) → find p s ≡ some e → any (has_id e.id) s ≡ true
find-any_self p [] e h = cc
find-any_self p (x ∷ xs) e h = ground (arith, find-any_self p xs e, eq_iff x.id e.id)

-- A row that is found is the one that its id leads to.
pub find_self :
    (p : Envelope → Bool) (s : Rows) (e : Envelope)
    → has_unique_ids s ≡ true
    → find p s ≡ some e
    → find (has_id e.id) s ≡ some e
find_self p [] e u h = cc
find_self p (x ∷ xs) e u h =
    ground (arith, find_self p xs e, find-any_self p xs e, eq_iff x.id e.id)

pub find-append :
    (p : Envelope → Bool) (s : Rows) (e f : Envelope)
    → find p s ≡ some f
    → find p (s ++ e ∷ []) ≡ some f
find-append p [] e f h = cc
find-append p (x ∷ xs) e f h = ground (arith, find-append p xs e f)

pub has_unique_ids-append :
    (s : Rows) (e : Envelope)
    → has_unique_ids s ≡ true
    → any (has_id e.id) s ≡ false
    → has_unique_ids (s ++ e ∷ []) ≡ true
has_unique_ids-append [] e u h = refl
has_unique_ids-append (x ∷ xs) e u h = ground (
  arith,
  has_unique_ids-append xs e,
  any-append (has_id x.id) xs (e ∷ []),
  eq_iff e.id x.id,
  eq_iff x.id e.id,
)

abbrev pub replaced : Envelope → Rows → Rows
replaced f s = change_first (has_id f.id) (λ _. f) s

any-replaced :
    (f : Envelope) (id : String) (s : Rows) → any (has_id id) (replaced f s) ≡ any (has_id id) s
any-replaced f id [] = refl
any-replaced f id (x ∷ xs) = ground (arith, any-replaced f id xs, eq_iff x.id f.id)

replaced-has_unique_ids :
    (f : Envelope) (s : Rows) → has_unique_ids s ≡ true → has_unique_ids (replaced f s) ≡ true
replaced-has_unique_ids f [] u = refl
replaced-has_unique_ids f (x ∷ xs) u =
    ground (arith, replaced-has_unique_ids f xs, any-replaced f x.id xs, eq_iff x.id f.id)

find-replaced :
    (f : Envelope) (id : String) (s : Rows)
    → any (has_id f.id) s ≡ true
    → find (has_id id) (replaced f s) ≡ (if f.id == id then some f else find (has_id id) s)
find-replaced f id [] h = cc
find-replaced f id (x ∷ xs) h =
    ground (arith, find-replaced f id xs, eq_iff x.id f.id, eq_iff x.id id, eq_iff f.id id)

pub fs_update-replaced :
    (f : Envelope) (s : Rows) → any (has_id f.id) s ≡ true → (fs_update f s).1 ≡ replaced f s
unfolding fs_update
fs_update-replaced f s h = rw (fs_update, h) refl

pub fs_update-has_unique_ids :
    (f : Envelope) (s : Rows)
    → any (has_id f.id) s ≡ true
    → has_unique_ids s ≡ true
    → has_unique_ids (fs_update f s).1 ≡ true
fs_update-has_unique_ids f s h u = rw (fs_update-replaced f s h) (replaced-has_unique_ids f s u)

pub find-fs_update :
    (f : Envelope) (id : String) (s : Rows)
    → any (has_id f.id) s ≡ true
    → find (has_id id) (fs_update f s).1 ≡ (if f.id == id then some f else find (has_id id) s)
find-fs_update f id s h = rw (fs_update-replaced f s h) (find-replaced f id s h)

module _ (P : Envelope → Type 0) where
  pub All-append : (s : Rows) (e : Envelope) → All P s → P e → All P (s ++ e ∷ [])
  All-append [] e a h = (h, tt)
  All-append (x ∷ xs) e a h = (a.0, All-append xs e a.1 h)

  All-replaced : (f : Envelope) (s : Rows) → All P s → P f → All P (replaced f s)
  All-replaced f [] a h = tt
  All-replaced f (x ∷ xs) a h = elim (Bool-cases (x.id == f.id)) [
    | inl e ↦ rw e (h, a.1)
    | inr e ↦ rw e (a.0, All-replaced f xs a.1 h)
  ]

  pub All-fs_update :
      (f : Envelope) (s : Rows)
      → any (has_id f.id) s ≡ true
      → All P s
      → P f
      → All P (fs_update f s).1
  All-fs_update f s h a v = rw (fs_update-replaced f s h) (All-replaced f s a v)

  pub All-find : (p : Envelope → Bool) (s : Rows) (e : Envelope) → find p s ≡ some e → All P s → P e
  All-find p [] e h a = cc
  All-find p (x ∷ xs) e h a = elim (Bool-cases (p x)) [
    | inl t ↦ subst P (ground (arith, t, h)) a.0
    | inr t ↦ All-find p xs e (ground (arith, t, h)) a.1
  ]
