-- ===== src/Store/Tasks/Laws.antt =====
-- Which task the queue hands out (backend/internal/store/memory.go).
use mathlib.Core.Path.{subst}
use mathlib.Core.List.{Mem}
use mathlib.Core.Option.{some-injective}
use proxmaster.Prelude.{
  ℕ, String, ◌≡◌, refl, sym, ◌∙◌, ◌≢◌, true, false, Option, none, some, List, [], ◌∷◌, arith, All,
  All-map, All-Mem, ◌≤◌, Bool-cases, inl, inr,
}
use proxmaster.Prelude.Int.{incr, ◌≤ℤ◌}
use proxmaster.Prelude.Dict.{values, lookup, insert, lookup-insert_self, lookup-insert_ne}
use proxmaster.Models.{AgentTask, AgentTaskStatus}
use proxmaster.Store.{MemoryStore}
use proxmaster.Store.Tasks.{is_queued, goes_before, pick, claimed, claim_next_agent_task}

-- Nothing that waits goes before `best`.
abbrev pub IsBest : AgentTask → List AgentTask → Type 0
IsBest best = All (λ t. is_queued t.status ≡ true → goes_before t best ≡ false)

goes_before_irrefl : (t : AgentTask) → goes_before t t ≡ false
goes_before_irrefl t = ground arith

-- What does not go before a task does not go before one that goes before it.
goes_before_trans :
    (t old best : AgentTask)
    → goes_before best old ≡ true
    → goes_before t old ≡ false
    → goes_before t best ≡ false
goes_before_trans t old best h k = ground arith

-- What holds of the best task so far, as the loop goes on: nothing that did not go before the old
-- one goes before the new one.
abbrev Above : AgentTask → AgentTask → Type 0
Above old best = (u : AgentTask) → goes_before u old ≡ false → goes_before u best ≡ false

module _ (P : AgentTask → Type 0) where
  -- The task that is picked passes every test that the waiting tasks pass.
  pub pick-All :
      (picked : Option AgentTask) (ts : List AgentTask) {t : AgentTask}
      → ((p : AgentTask) → picked ≡ some p → P p)
      → All (λ u. is_queued u.status ≡ true → P u) ts
      → pick picked ts ≡ some t
      → P t
  unfolding pick
  pick-All picked [] h a e = h _ e
  pick-All none (u ∷ ts) h a e = elim (Bool-cases (is_queued u.status)) [
    | inl waits ↦
        pick-All (some u) ts (λ p q. subst P (some-injective _ _ q) (a.0 waits)) a.1
          (rw (waits, pick) at e)
    | inr other ↦ pick-All none ts h a.1 (rw (other, pick) at e)
  ]
  pick-All (some p) (u ∷ ts) h a e = elim (Bool-cases (is_queued u.status)) [
    | inl waits ↦ elim (Bool-cases (goes_before u p)) [
      | inl wins ↦
          pick-All (some u) ts (λ q r. subst P (some-injective _ _ r) (a.0 waits)) a.1
            (rw (waits, wins, pick) at e)
      | inr loses ↦ pick-All (some p) ts h a.1 (rw (waits, loses, pick) at e)
    ]
    | inr other ↦ pick-All (some p) ts h a.1 (rw (other, pick) at e)
  ]

-- Once a task is picked the loop ends with a task: the best of the picked one and the rest.
record Best (start : AgentTask) (ts : List AgentTask) : Type 0 where
  task : AgentTask
  result : pick (some start) ts ≡ some task
  above : Above start task
  best : IsBest task ts

pick-Best : (start : AgentTask) (ts : List AgentTask) → Best start ts
unfolding pick
pick-Best start [] = record { task = start; result = refl; above = λ u h. h; best = tt }
pick-Best start (u ∷ ts) = elim (Bool-cases (is_queued u.status)) [
  | inl waits ↦ elim (Bool-cases (goes_before u start)) [
    | inl wins ↦
        let rest = pick-Best u ts in
        record {
          task = rest.task;
          result = rw (waits, wins, pick) rest.result;
          above = λ v h. rest.above v (goes_before_trans v start u wins h);
          best = ((λ _. rest.above u (goes_before_irrefl u)), rest.best);
        }
    | inr loses ↦
        let rest = pick-Best start ts in
        record {
          task = rest.task;
          result = rw (waits, loses, pick) rest.result;
          above = rest.above;
          best = ((λ _. rest.above u loses), rest.best);
        }
  ]
  | inr other ↦
      let rest = pick-Best start ts in
      record {
        task = rest.task;
        result = rw (other, pick) rest.result;
        above = rest.above;
        best = ((λ q. let e : true ≡ false = sym q ∙ other in cc), rest.best);
      }
]

pick-IsBest : (ts : List AgentTask) {t : AgentTask} → pick none ts ≡ some t → IsBest t ts
unfolding pick
pick-IsBest [] e = cc
pick-IsBest (u ∷ ts) {t} e = elim (Bool-cases (is_queued u.status)) [
  | inl waits ↦
      let rest = pick-Best u ts in
      let same : rest.task ≡ t = some-injective _ _ (sym rest.result ∙ (rw (waits, pick) at e)) in
      subst (λ b. IsBest b (u ∷ ts)) same ((λ _. rest.above u (goes_before_irrefl u)), rest.best)
  | inr other ↦
      ((λ q. let e' : true ≡ false = sym q ∙ other in cc), pick-IsBest ts (rw (other, pick) at e))
]

pick-none : (ts : List AgentTask) → pick none ts ≡ none → All (λ t. is_queued t.status ≡ false) ts
unfolding pick
pick-none [] e = tt
pick-none (u ∷ ts) e = elim (Bool-cases (is_queued u.status)) [
  | inl waits ↦
      let rest = pick-Best u ts in
      let clash : some rest.task ≡ none = sym rest.result ∙ (rw (waits, pick) at e) in cc
  | inr other ↦ (other, pick-none ts (rw (other, pick) at e))
]

-- No task that waits has a higher priority than `best`, and none of the same priority is older.
abbrev pub IsFirst : AgentTask → List AgentTask → Type 0
IsFirst best = All (λ t.
    is_queued t.status ≡ true
    → (t.priority ≤ℤ best.priority)
      × (best.priority ≤ℤ t.priority → best.created_at ≤ t.created_at))

unbeaten :
    (t best : AgentTask)
    → goes_before t best ≡ false
    → (t.priority ≤ℤ best.priority) × (best.priority ≤ℤ t.priority → best.created_at ≤ t.created_at)
unbeaten t best h = (ground arith, λ k. ground arith)

-- What a claim says of the queue, for each of its two results.
abbrev pub IsNextTask : ℕ → MemoryStore → Option AgentTask × MemoryStore → Type 0
IsNextTask now s (none, t) = (t ≡ s) × All (λ u. is_queued u.status ≡ false) (values s.agent_tasks)
IsNextTask now s (some c, t) =
    (old : AgentTask) × Mem old (values s.agent_tasks)
    × (is_queued old.status ≡ true)
    × (c ≡ record old {
      status = AgentTaskStatus.running;
      attempts = incr old.attempts;
      updated_at = now;
      started_at = some now;
    })
    × (lookup old.id t.agent_tasks ≡ some c)
    × ((k : String) → old.id ≢ k → lookup k t.agent_tasks ≡ lookup k s.agent_tasks)
    × IsFirst old (values s.agent_tasks)

-- A claim takes a stored task that waits, of the highest priority, and of those the oldest, and
-- records it as running with one more attempt, with every other task as it was; it finds none only
-- where nothing waits, and then the store is unchanged.
pub claim_next_agent_task-IsNextTask :
    (now : ℕ) (s : MemoryStore) → IsNextTask now s (claim_next_agent_task now s)
unfolding claim_next_agent_task
claim_next_agent_task-IsNextTask now s = go (pick none (values s.agent_tasks)) refl
  where
    waits_all :
        (ts : List AgentTask) → All (λ u. is_queued u.status ≡ true → is_queued u.status ≡ true) ts
    waits_all [] = tt
    waits_all (t ∷ ts) = ((λ h. h), waits_all ts)

    go :
        (o : Option AgentTask)
        → pick none (values s.agent_tasks) ≡ o
        → IsNextTask now s (elim o [
          | none ↦ (none, s)
          | some t ↦ (
            some (claimed now t),
            record s { agent_tasks = insert t.id (claimed now t) s.agent_tasks },
          )
        ])
    go none e = (refl, pick-none (values s.agent_tasks) e)
    go (some t) e = (
      t,
      pick-All (λ u. Mem u (values s.agent_tasks)) none (values s.agent_tasks) (λ p q. cc)
          (All-map (λ u m q. m) (values s.agent_tasks) (All-Mem (values s.agent_tasks))) e,
      pick-All (λ u. is_queued u.status ≡ true) none (values s.agent_tasks) (λ p q. cc)
          (waits_all _) e,
      refl,
      lookup-insert_self t.id (claimed now t) s.agent_tasks,
      (λ k ne. lookup-insert_ne t.id k (claimed now t) s.agent_tasks ne),
      All-map (λ u h q. unbeaten u t (h q)) (values s.agent_tasks)
          (pick-IsBest (values s.agent_tasks) e),
    )
