-- ===== src/Orchestrator/Saves.antt =====
-- The writes of a job: `saveUpdatedJob` and the first `putJob` of a job in
-- infra/provisioning/src/orchestrator.ts. What a worker knows of a job that it read is enough for
-- its write to be a step of the job that is stored at that moment.
use esig_suite.Prelude.{
  ℕ, ◌≡◌, refl, sym, subst, ap, ◌∙◌, inl, inr, String, false, Option, none, some, arith, ok,
  Result-cases, Bool-cases, ◌==◌, nat_eq, string_eq,
}
use text.Mathlib.TextEquality.{eq_iff}
use esig_suite.Billing.{OrderRecord}
use esig_suite.Job.{ProvisioningJob, RetryPolicy, create_provisioning_job}
use esig_suite.Job.Valid.{IsValid, create-IsValid}
use esig_suite.Job.Runs.{JobStep, JobStep-IsValid, JobStep-SameIdentity}
use esig_suite.Dict
use esig_suite.Dict.{get-put, get-put-same}
use esig_suite.Ledger.{MemoryStore, put_job, job_conflict, stored_job}
use esig_suite.Ledger.History.{after, Grows}
use esig_suite.Ledger.Growth.{put_job-Grows}
use esig_suite.Orchestrator.{Digests, World, version_conflict}
use esig_suite.Orchestrator.Moves.{
  Leads, stays, creates, steps, Moves, Moves-refl, Moves-Seen, Seen, SeenIn, HasValidJobs,
  next_version, next_version-IsValid, created_subscription,
}
use esig_suite.Orchestrator.Rules.{
  Good, IsFine, on_store_conflict-Good, writes-Good, attempt-Good, pure-Good, throw-Good,
}
use esig_suite.Orchestrator.Events.{put_job_action, save_updated_job}

-- What a worker knows of a job.
pub record Known (j : ProvisioningJob) (s : MemoryStore) : Type 0 where
  pub valid : IsValid j
  pub seen : Seen j s

pub Known-later :
    (d : Digests) (s t : MemoryStore) (j : ProvisioningJob) → Moves d s t → Known j s → Known j t
Known-later d s t j m k = record { valid = k.valid; seen = Moves-Seen d s t j m k.seen }

-- A job that was read.
pub read-Known :
    (k : String) (j : ProvisioningJob) (s : MemoryStore)
    → HasValidJobs s
    → Dict.get k s.jobs ≡ some j
    → Known j s
read-Known k j s v h =
    let (valid, keyed) = v k j h in
    record {
      valid = valid;
      seen = subst (SeenIn j) (sym (ap (λ i. Dict.get i s.jobs) keyed ∙ h)) (inl refl);
    }

-- The job after `saveUpdatedJob`.
abbrev pub SavedFrom : ProvisioningJob → ProvisioningJob → ProvisioningJob → MemoryStore → Type 0
SavedFrom i j p t = (p ≡ next_version i j) × Known p t

put_job_cases :
    (digest : String → String) (j o : ProvisioningJob) (v : Option ℕ) (s t : MemoryStore)
    → put_job digest j v s ≡ ok (o, t)
    → (job_conflict (Dict.get j.subscription_id s.jobs) j v ≡ false)
      × (o ≡ stored_job (Dict.get j.subscription_id s.jobs) j)
      × (t ≡ record s { jobs = Dict.put j.subscription_id o s.jobs })
unfolding put_job
put_job_cases digest j o v s t h = ground arith

-- The stored job of a write that is accepted is the one that was read.
unchanged :
    (i j : ProvisioningJob) (e : Option ProvisioningJob)
    → SeenIn i e
    → job_conflict e j (some i.version) ≡ false
    → (e ≡ some i) × (stored_job e j ≡ next_version i j)
unfolding job_conflict stored_job next_version
unchanged i j none h c = absurd h
unchanged i j (some k) h c = ground arith

absent :
    (j : ProvisioningJob) (e : Option ProvisioningJob)
    → job_conflict e j none ≡ false
    → (e ≡ none) × (stored_job e j ≡ j)
unfolding job_conflict stored_job
absent j none c = (refl, refl)
absent j (some k) c = ground arith

module _ (d : Digests) (s : MemoryStore) where
  put-Leads :
      (k : String) (o : ProvisioningJob)
      → Leads d k (Dict.get k s.jobs) (some o)
      → (i : String) → Leads d i (Dict.get i s.jobs) (Dict.get i (Dict.put k o s.jobs))
  put-Leads k o l i =
      subst (Leads d i (Dict.get i s.jobs)) (sym (get-put k i o s.jobs))
        (elim (Bool-cases (k == i)) [
          | inl e ↦ rw e (subst (λ h. Leads d h (Dict.get h s.jobs) (some o)) ((eq_iff k i).0 e) l)
          | inr e ↦ rw e stays
        ])

  -- What an accepted write leaves.
  accepted_write :
      (j p : ProvisioningJob) (v : Option ℕ) (t : MemoryStore)
      → put_job d.job j v s ≡ ok (p, t)
      → p.subscription_id ≡ j.subscription_id
      → IsValid p
      → Leads d j.subscription_id (Dict.get j.subscription_id s.jobs) (some p)
      → Moves d s t × Known p t
  accepted_write j p v t h same valid l =
      let (_, _, e) = put_job_cases d.job j p v s t h in
      let found : Dict.get p.subscription_id t.jobs ≡ some p =
        ap (λ k. Dict.get k t.jobs) same
        ∙ ap (λ u. Dict.get j.subscription_id u.jobs) e
        ∙ get-put-same j.subscription_id p s.jobs in
      (
        record {
          grows = subst (λ r. Grows s (after s r)) h (put_job-Grows d.job j v s);
          jobs = λ i. rw e (put-Leads j.subscription_id p l i);
        },
        record { valid = valid; seen = subst (SeenIn p) (sym found) (inl refl) },
      )

  -- A write keeps to `Moves` if it does so when it is accepted.
  put_job-Moves :
      (j : ProvisioningJob) (v : Option ℕ)
      → ((p : ProvisioningJob) (t : MemoryStore) → put_job d.job j v s ≡ ok (p, t) → Moves d s t)
      → Moves d s (after s (put_job d.job j v s))
  put_job-Moves j v f = elim (Result-cases (put_job d.job j v s)) [
    | inl ((p, t), e) ↦ rw e (f p t e)
    | inr (x, e) ↦ rw e (Moves-refl d s)
  ]

  update_accepted :
      (i j p : ProvisioningJob) (t : MemoryStore)
      → Known i s
      → JobStep i j
      → put_job d.job j (some i.version) s ≡ ok (p, t)
      → Moves d s t × SavedFrom i j p t
  unfolding next_version
  update_accepted i j p t k step h =
      let same = (JobStep-SameIdentity i j step).subscription in
      let (free, e, _) = put_job_cases d.job j p (some i.version) s t h in
      let (found, exact) =
        unchanged i j (Dict.get j.subscription_id s.jobs)
          (subst (λ q. SeenIn i (Dict.get q s.jobs)) (sym same) k.seen) free in
      let named : p ≡ next_version i j = e ∙ exact in
      let started = subst (Leads d j.subscription_id _) found stays in
      let (m, known) =
        accepted_write j p (some i.version) t h (ap (λ q. q.subscription_id) named)
          (subst IsValid (sym named) (next_version-IsValid i j (JobStep-IsValid i j step k.valid)))
          (subst (λ q. Leads d j.subscription_id (Dict.get j.subscription_id s.jobs) (some q))
            (sym named) (steps started step)) in
      (m, (named, known))

  -- A first `putJob` of a job that was just created.
  create_accepted :
      (o : OrderRecord) (policy : RetryPolicy) (j p : ProvisioningJob) (t : MemoryStore)
      → create_provisioning_job d.job d.tenant o policy ≡ ok j
      → put_job d.job j none s ≡ ok (p, t)
      → Moves d s t × Known p t
  create_accepted o policy j p t made h =
      let (free, e, _) = put_job_cases d.job j p none s t h in
      let (found, exact) = absent j (Dict.get j.subscription_id s.jobs) free in
      let named : p ≡ j = e ∙ exact in
      accepted_write j p none t h (ap (λ q. q.subscription_id) named)
        (subst IsValid (sym named) (create-IsValid d.job d.tenant o policy made))
        (subst (λ q. Leads d j.subscription_id (Dict.get j.subscription_id s.jobs) (some q))
          (sym named)
          (creates o policy (subst (Leads d j.subscription_id _) found stays) made
            (sym (created_subscription d o policy j made))))

module _ (d : Digests) where
  put_action-Good :
      (i j : ProvisioningJob) (w : World)
      → IsFine d w
      → Known i w.store
      → JobStep i j
      → Good d (SavedFrom i j) w (put_job_action d j (some i.version))
  unfolding put_job_action
  put_action-Good i j w f k step = writes-Good d _ _ w f λ s v m.
      let known = Known-later d w.store s i m k in
      (
        put_job-Moves d s j (some i.version)
            (λ p t h. (update_accepted d s i j p t known step h).0),
        λ p t h. (update_accepted d s i j p t known step h).1,
      )

  pub first_put-Good :
      (o : OrderRecord) (policy : RetryPolicy) (j : ProvisioningJob) (w : World)
      → IsFine d w
      → create_provisioning_job d.job d.tenant o policy ≡ ok j
      → Good d Known w (put_job_action d j none)
  unfolding put_job_action
  first_put-Good o policy j w f made = writes-Good d _ _ w f λ s v m. (
    put_job-Moves d s j none (λ p t h. (create_accepted d s o policy j p t made h).0),
    λ p t h. (create_accepted d s o policy j p t made h).1,
  )

  -- A write of a step of a known job leaves a known job, whatever the others did meanwhile.
  pub save_updated_job-Good :
      (i j : ProvisioningJob) (w : World)
      → IsFine d w
      → Known i w.store
      → JobStep i j
      → Good d (SavedFrom i j) w (save_updated_job d i j)
  unfolding save_updated_job
  save_updated_job-Good i j w f k step =
      attempt-Good d (SavedFrom i j) (SavedFrom i j) _ _ _ w (put_action-Good i j w f k step)
        (λ p v g m q. pure-Good d _ p v g q)
        (λ e v g m h. on_store_conflict-Good d _ _ e v g h (throw-Good d _ version_conflict v tt g))
