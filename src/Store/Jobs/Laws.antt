-- ===== src/Store/Jobs/Laws.antt =====
-- What the job table keeps of the jobs that are created and updated
-- (backend/internal/store/memory.go).
use proxmaster.Prelude.{
  ℕ, String, ◌≡◌, refl, ap, ◌∙◌, ◌≢◌, ◌==◌, eq_iff, true, false, Option, none, some, List, [], ◌∷◌,
  arith, is_empty, last?, last?-append_one, Bool-cases, inl, inr, if◌then◌else◌,
}
use proxmaster.Prelude.Dict.{lookup, lookup-insert_self, lookup-insert_ne}
use proxmaster.Models.{JobStatus, JobStatus-discrete, Job}
use proxmaster.Store.{MemoryStore, next_id}
use proxmaster.Store.Jobs.{
  create_job, update_job, lacks_status, extended_history, merged_job, job_rollback_id,
}

lacks_status-ne : (l st : JobStatus) → l ≢ st → lacks_status (some l) st ≡ true
lacks_status-ne l st h = go (JobStatus-discrete l st)
  where
    go : (d : Dec (l ≡ st)) → (elim d [ yes e ↦ false | no ne ↦ true ]) ≡ true
    go (yes e) = absurd (h e)
    go (no ne) = refl

lacks_status-eq : (l st : JobStatus) → lacks_status (some l) st ≡ false → l ≡ st
lacks_status-eq l st = go (JobStatus-discrete l st)
  where
    go : (d : Dec (l ≡ st)) → (elim d [ yes e ↦ false | no ne ↦ true ]) ≡ false → l ≡ st
    go (yes e) h = e
    go (no ne) h = cc

lacks_status-last :
    (o : Option JobStatus) (st : JobStatus) → lacks_status o st ≡ false → o ≡ some st
lacks_status-last none st h = cc
lacks_status-last (some l) st h = ap some (lacks_status-eq l st h)

-- A caller whose own copy has one entry replaces the stored history by that entry and the status.
pub extended_history-one :
    (stored : List JobStatus) (first st : JobStatus)
    → first ≢ st
    → extended_history stored (first ∷ []) st ≡ first ∷ st ∷ []
unfolding extended_history
extended_history-one stored first st h = rw (lacks_status-ne first st h)

-- A stored history always ends with the job's status.
pub last-extended_history :
    (stored given : List JobStatus) (st : JobStatus)
    → last? (extended_history stored given st) ≡ some st
unfolding extended_history
last-extended_history stored given st =
    let base = if is_empty given then stored else given in
    elim (Bool-cases (lacks_status (last? base) st)) [
      | inl lacks ↦ rw lacks (last?-append_one base st)
      | inr has ↦ rw has (lacks_status-last (last? base) st has)
    ]

rollback_id-keeps :
    (job : Job) (s : MemoryStore)
    → ((job_rollback_id job s).1.jobs ≡ s.jobs)
      × ((job_rollback_id job s).1.by_idem_key ≡ s.by_idem_key)
rollback_id-keeps job s = ground arith

module _ (now : ℕ) (job : Job) (s : MemoryStore) where
  pub lookup-create_job :
      let (created, t) = create_job now job s in lookup created.id t.jobs ≡ some created
  unfolding create_job
  lookup-create_job = lookup-insert_self _ _ _

  pub lookup-create_job_ne :
      (k : String)
      → let (created, t) = create_job now job s in
        created.id ≢ k → lookup k t.jobs ≡ lookup k s.jobs
  unfolding create_job
  lookup-create_job_ne k h =
      lookup-insert_ne _ k _ _ h ∙ ap (lookup k) (rollback_id-keeps job (next_id "job" s).1).0

  pub key-create_job :
      job.idempotency_key ≢ ""
      → let (created, t) = create_job now job s in
        lookup job.idempotency_key t.by_idem_key ≡ some created.id
  unfolding create_job
  key-create_job h = elim (Bool-cases (job.idempotency_key == "")) [
    | inl empty ↦ absurd (h ((eq_iff _ _).0 empty))
    | inr named ↦ rw named (lookup-insert_self job.idempotency_key _ _)
  ]

  pub lookup-update_job :
      {prev : Job}
      → lookup job.id s.jobs ≡ some prev
      → lookup job.id (update_job now job s).jobs
        ≡ some (merged_job (some prev) (record job { updated_at = now }))
  unfolding update_job
  lookup-update_job h = rw h (lookup-insert_self job.id _ s.jobs)

  pub lookup-update_job_ne :
      (k : String) → job.id ≢ k → lookup k (update_job now job s).jobs ≡ lookup k s.jobs
  unfolding update_job
  lookup-update_job_ne k h = lookup-insert_ne job.id k _ s.jobs h
