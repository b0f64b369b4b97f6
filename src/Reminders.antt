-- ===== src/Reminders.antt =====
-- Which reminders of an envelope are due: `computeDue` of packages/esig-mcp/src/reminders.ts. What
-- the metadata of the envelope records for a signer, how many reminders were sent by the schedule
-- and by hand, is an argument.
mod Tests
use esig_suite.Prelude.{
  ℕ, ◌+◌, ◌≤◌, ◌<◌, ◌≡◌, refl, String, Bool, true, false, not, ◌&&◌, ◌||◌, Option, none, some, List,
  [], ◌∷◌, ltb, leb, get_elem?, length, if◌then◌else◌, All, any, arith, Bool-cases, inl, inr,
  Option-cases, ==_refl, subst, ap, get_or, string_eq, nat_eq, ◌==◌,
}
use esig_suite.Envelope.{Envelope, EnvelopeSigner, EnvelopeStatus, SignerStatus, is_live}

pub record SentReminders : Type 0 where
  pub scheduled : ℕ
  pub manual : ℕ

abbrev is_pending : EnvelopeSigner → Bool
is_pending s = elim s.status [ SignerStatus.pending ↦ true | _ ↦ false ]

-- `nowTime >= baseTime + scheduleMs[sentCount]`, past the bounds on what was sent already.
unfoldable pub is_due : ℕ → ℕ → List ℕ → ℕ → SentReminders → Bool
is_due created_at now schedule max sent =
    ltb (sent.scheduled + sent.manual) max && elim (get_elem? schedule sent.scheduled) [
      | none ↦ false
      | some offset ↦ leb (created_at + offset) now
    ]

module _ (sent_to : String → SentReminders) (now : ℕ) (schedule : List ℕ) (max : ℕ) where
  unfoldable pub due_signers : ℕ → List EnvelopeSigner → List (String × ℕ)
  unfolding is_due
  due_signers created_at [] = []
  due_signers created_at (s ∷ ss) =
      let rest = due_signers created_at ss in
      if is_pending s && is_due created_at now schedule max (sent_to s.id)
      then (s.id, (sent_to s.id).scheduled) ∷ rest
      else rest

  unfoldable pub compute_due : Envelope → List (String × ℕ)
  compute_due e = if is_live e.status then due_signers e.created_at e.signers else []

  -- A reminder that may be sent: it is the next one of the schedule, its time has come, and the
  -- signer has got fewer than `max` reminders of both kinds.
  abbrev pub IsDue : Envelope → (String × ℕ) → Type 0
  IsDue e (id, n) =
      (is_live e.status ≡ true)
      × (any (λ s. is_pending s && s.id == id) e.signers ≡ true)
      × (n ≡ (sent_to id).scheduled)
      × (n + (sent_to id).manual < max)
      × ((offset : ℕ) × (get_elem? schedule n ≡ some offset) × (e.created_at + offset ≤ now))

  due_cases :
      (created_at : ℕ) (sent : SentReminders)
      → is_due created_at now schedule max sent ≡ true
      → (sent.scheduled + sent.manual < max)
        × ((offset : ℕ) × (get_elem? schedule sent.scheduled ≡ some offset)
            × (created_at + offset ≤ now))
  unfolding is_due
  due_cases created_at sent h = elim (Option-cases (get_elem? schedule sent.scheduled)) [
    | inl e ↦ ground (arith, h, e)
    | inr (offset, e) ↦ (ground (arith, h), (offset, e, ground (arith, h, e)))
  ]

  due_signers-IsDue :
      (e : Envelope) (ss : List EnvelopeSigner)
      → is_live e.status ≡ true
      → ((id : String)
          → any (λ s. is_pending s && s.id == id) ss ≡ true
          → any (λ s. is_pending s && s.id == id) e.signers ≡ true)
      → All (IsDue e) (due_signers e.created_at ss)
  unfolding due_signers
  due_signers-IsDue e [] live within = tt
  due_signers-IsDue e (s ∷ ss) live within =
      let rest = due_signers-IsDue e ss live (λ id h. within id (ground (arith, h))) in
      elim (Bool-cases (is_pending s && is_due e.created_at now schedule max (sent_to s.id))) [
        | inr quiet ↦ rw quiet rest
        | inl due ↦
            let (fewer, when) = due_cases e.created_at (sent_to s.id) (ground (arith, due)) in
            rw due
              ((live, within s.id (ground (arith, due, ==_refl s.id)), refl, fewer, when), rest)
      ]

  -- Every reminder that `computeDue` returns may be sent: the envelope is live, the signer is pending
  -- and has got fewer than `max` reminders, and the next reminder of the schedule has come.
  pub compute_due-IsDue : (e : Envelope) → All (IsDue e) (compute_due e)
  unfolding compute_due
  compute_due-IsDue e = elim (Bool-cases (is_live e.status)) [
    | inl live ↦ rw live (due_signers-IsDue e e.signers live (λ id h. h))
    | inr closed ↦ rw closed tt
  ]

  abbrev pub lists : String → ℕ → List (String × ℕ) → Bool
  lists id n due = any (λ d. d.0 == id && d.1 == n) due

  head :
      (created_at : ℕ) (x : EnvelopeSigner) (xs : List EnvelopeSigner)
      → is_pending x ≡ true
      → is_due created_at now schedule max (sent_to x.id) ≡ true
      → lists x.id (sent_to x.id).scheduled (due_signers created_at (x ∷ xs)) ≡ true
  unfolding due_signers
  head created_at x xs p d = rw (p, d, ==_refl x.id, ==_refl (sent_to x.id).scheduled) refl

  due_signers-lists :
      (created_at i : ℕ) (ss : List EnvelopeSigner) (s : EnvelopeSigner)
      → get_elem? ss i ≡ some s
      → is_pending s ≡ true
      → is_due created_at now schedule max (sent_to s.id) ≡ true
      → lists s.id (sent_to s.id).scheduled (due_signers created_at ss) ≡ true
  unfolding due_signers
  due_signers-lists created_at i [] s h p d = cc
  due_signers-lists created_at ℕ.zero (x ∷ xs) s h p d =
      subst
        (λ (z : EnvelopeSigner).
          is_pending z ≡ true
          → is_due created_at now schedule max (sent_to z.id) ≡ true
          → lists z.id (sent_to z.id).scheduled (due_signers created_at (x ∷ xs)) ≡ true)
        (ap (λ o. get_or o x) h) (head created_at x xs) p d
  due_signers-lists created_at (ℕ.suc i) (x ∷ xs) s h p d =
      let ih = due_signers-lists created_at i xs s h p d in
      elim (Bool-cases (is_pending x && is_due created_at now schedule max (sent_to x.id))) [
        | inl due ↦ rw due (ground (arith, ih))
        | inr quiet ↦ rw quiet ih
      ]

  due_enough :
      (created_at offset : ℕ) (sent : SentReminders)
      → get_elem? schedule sent.scheduled ≡ some offset
      → created_at + offset ≤ now
      → sent.scheduled + sent.manual < max
      → is_due created_at now schedule max sent ≡ true
  unfolding is_due
  due_enough created_at offset sent planned come fewer = rw planned (ground (arith, come, fewer))

  -- And it returns every such reminder: the next one of the schedule, for each pending signer of a
  -- live envelope, as soon as its time has come, if the signer has got fewer than `max` reminders of
  -- both kinds.
  pub compute_due-lists :
      (e : Envelope) (i : ℕ) (s : EnvelopeSigner) (offset : ℕ)
      → is_live e.status ≡ true
      → get_elem? e.signers i ≡ some s
      → s.status ≡ SignerStatus.pending
      → get_elem? schedule (sent_to s.id).scheduled ≡ some offset
      → e.created_at + offset ≤ now
      → (sent_to s.id).scheduled + (sent_to s.id).manual < max
      → lists s.id (sent_to s.id).scheduled (compute_due e) ≡ true
  unfolding compute_due
  compute_due-lists e i s offset live h p planned come fewer =
      let due = due_enough e.created_at offset (sent_to s.id) planned come fewer in
      rw live (due_signers-lists e.created_at i e.signers s h (ground arith) due)
