-- ===== src/Store/Jobs/Fresh.antt =====
-- The identifiers of jobs (backend/internal/store/memory.go).
use text.Mathlib.TextLemmas.{append_cancel_left}
use proxmaster.Prelude.{
  ℕ, ◌+◌, ◌≤◌, ◌<◌, String, ◌<>◌, ◌==◌, eq_iff, ◌≡◌, refl, sym, ◌∙◌, ◌≢◌, some, arith, Bool-cases,
  inl, inr,
}
use proxmaster.Prelude.Int.{word_limit}
use proxmaster.Prelude.Text.{show_padded}
use proxmaster.Prelude.Text.Digits.{show_padded-injective}
use proxmaster.Prelude.Dict.{lookup}
use proxmaster.Models.{Job}
use proxmaster.Store.{MemoryStore, next}
use proxmaster.Store.Jobs.{create_job}
use proxmaster.Store.Jobs.Laws.{lookup-create_job, lookup-create_job_ne}

abbrev job_id : ℕ → String
job_id n = "job" <> "-" <> show_padded n

job_id-injective : (m n : ℕ) → job_id m ≡ job_id n → m ≡ n
job_id-injective m n e =
    show_padded-injective m n (append_cancel_left "-" _ _ (append_cancel_left "job" _ _ e))

-- Every job stands under a number that the counter has passed.
abbrev pub IsNumbered : MemoryStore → Type 0
IsNumbered s =
    (k : String) (j : Job) → lookup k s.jobs ≡ some j → (n : ℕ) × (k ≡ job_id n) × (n ≤ s.seq)

created_id :
    (now : ℕ) (job : Job) (s : MemoryStore) → (create_job now job s).0.id ≡ job_id (next s.seq)
unfolding create_job
created_id now job s = refl

created_seq : (now : ℕ) (job : Job) (s : MemoryStore) → (create_job now job s).1.seq ≡ next s.seq
unfolding create_job
created_seq now job s = ground arith

module _ (now : ℕ) (job : Job) (s : MemoryStore) (numbered : IsNumbered s)
    (room : s.seq + 1 < word_limit) where
  next_seq : next s.seq ≡ s.seq + 1
  next_seq = omega (arith, room)

  pub unused : (k : String) (j : Job) → lookup k s.jobs ≡ some j → (create_job now job s).0.id ≢ k
  unused k j found e =
      let (n, is_n, le) = numbered k j found in
      let same = job_id-injective (next s.seq) n (sym (created_id now job s) ∙ e ∙ is_n) in
      omega (arith, same, le, next_seq)

  keeps_numbers : IsNumbered (create_job now job s).1
  keeps_numbers k j found = elim (Bool-cases ((create_job now job s).0.id == k)) [
    | inl same ↦ (
      next s.seq,
      sym ((eq_iff _ _).0 same) ∙ created_id now job s,
      omega (arith, created_seq now job s),
    )
    | inr other ↦
        let differs : (create_job now job s).0.id ≢ k = λ e. let same = (eq_iff _ k).1 e in cc in
        let (n, is_n, le) = numbered k j (sym (lookup-create_job_ne now job s k differs) ∙ found) in
        (n, is_n, omega (arith, le, created_seq now job s, next_seq))
  ]

  -- Where every stored job has a number that the counter has passed, and the counter has not come to
  -- its end: a new job stands under an identifier of its own, every stored job is stored as it was,
  -- and again every job has a number that the counter has passed.
  pub create_job-IsNumbered :
      let (created, t) = create_job now job s in
      (lookup created.id t.jobs ≡ some created)
      × ((k : String) (j : Job) → lookup k s.jobs ≡ some j → lookup k t.jobs ≡ some j)
      × IsNumbered t
  create_job-IsNumbered = (
    lookup-create_job now job s,
    (λ k j found. lookup-create_job_ne now job s k (unused k j found) ∙ found),
    λ k j found. keeps_numbers k j found,
  )
