-- ===== src/Autonomy/Retries.antt =====
-- The retries of failed tasks and their count of attempts (backend/internal/autonomy/service.go).
use mathlib.Core.Path.{subst}
use mathlib.Core.Option.{some-injective}
use proxmaster.Prelude.{
  ℕ, ◌+◌, String, ◌≡◌, refl, ◌==◌, true, false, Option, none, some, List, [], ◌∷◌, arith, All,
  All-map, Bool-cases, Option-cases, inl, inr,
}
use proxmaster.Prelude.Int.{pos, ◌≤ℤ◌, ◌<ℤ◌}
use proxmaster.Prelude.Text.{has_prefix}
use proxmaster.Prelude.Dict.{values, lookup, insert, All-insert, All-lookup, Dict}
use proxmaster.Models.{Params, Value, map_value, AgentTask, McpCallResponse}
use proxmaster.Health.{GateEvaluator}
use proxmaster.Store.{MemoryStore}
use proxmaster.Store.Tasks.{
  is_queued, claimed, finished, pick, blank_task, fill_task, create_agent_task,
  claim_next_agent_task, complete_agent_task,
}
use proxmaster.Store.Tasks.Laws.{pick-All}
use proxmaster.Mcp.{Clock, Executor}
use proxmaster.Mcp.Queue.{handle_call_keeps}
use proxmaster.Autonomy.{
  Service, is_recent, or_zero, recurring_task, schedule_once, ensure_recurring_tasks,
  attempts_allowed, retry_of, successor, or_blank, complete_with_retry, share_params, task_params,
  conclude, task_panics, is_last, run_task, run_claimed, run_once, Tick, schedule, work, tick,
  ticks, task_call, task_result, task_error,
}

-- A task that is no dead letter, was tried at most once, not yet if it waits, and may be tried
-- more than once.
pub record IsRetryable (t : AgentTask) : Type 0 where
  pub live : t.dead_letter ≡ false
  pub plain_type : has_prefix t.task_type "deadletter." ≡ false
  pub untried : is_queued t.status ≡ true → t.attempts ≡ pos 0
  pub tried_once : t.attempts ≤ℤ pos 1
  pub more : pos 1 <ℤ attempts_allowed t

abbrev pub QueueIsRetryable : MemoryStore → Type 0
QueueIsRetryable s = All IsRetryable (values s.agent_tasks)

pub create-IsRetryable :
    (now : ℕ) (t : AgentTask) (s : MemoryStore)
    → ((id : String) → IsRetryable (fill_task now id t))
    → QueueIsRetryable s
    → QueueIsRetryable (create_agent_task now t s).1
unfolding create_agent_task
create-IsRetryable now t s h q = elim (Bool-cases (t.id == "")) [
  | inl empty ↦ rw empty (All-insert IsRetryable _ _ s.agent_tasks (h _) q)
  | inr named ↦ rw named (All-insert IsRetryable _ _ s.agent_tasks (h _) q)
]

claimed-IsRetryable :
    (now : ℕ) (t : AgentTask)
    → IsRetryable t
    → is_queued t.status ≡ true
    → IsRetryable (claimed now t)
claimed-IsRetryable now t h waits = ground (arith, h.untried waits)

finished-IsRetryable :
    (now : ℕ) (result : Params) (e : String) (t : AgentTask)
    → IsRetryable t
    → IsRetryable (finished now result e t)
finished-IsRetryable now result e t h = ground arith

recurring-IsRetryable :
    (now : ℕ) (id tool : String)
    → has_prefix tool "deadletter." ≡ false
    → IsRetryable (fill_task now id (recurring_task tool))
recurring-IsRetryable now id tool h = ground arith

retry-IsRetryable :
    (now : ℕ) (id : String) (t : AgentTask)
    → IsRetryable t
    → IsRetryable (fill_task now id (retry_of t))
retry-IsRetryable now id t h = ground arith

-- A retryable task that failed is retried.
successor-retry :
    (t : AgentTask) (e : String) (result : Value)
    → IsRetryable t
    → successor t e result ≡ retry_of t
successor-retry t e result h = ground arith

blank-IsRetryable : IsRetryable blank_task
blank-IsRetryable = ground arith

or_blank-IsRetryable :
    (id : String) (m : Dict AgentTask)
    → All IsRetryable (values m)
    → IsRetryable (or_blank (lookup id m))
or_blank-IsRetryable id m q = elim (Option-cases (lookup id m)) [
  | inl missing ↦ rw missing blank-IsRetryable
  | inr (t, found) ↦ rw found (All-lookup IsRetryable id m found q)
]

complete-IsRetryable :
    (now : ℕ) (id : String) (result : Params) (e : String) (s : MemoryStore)
    → QueueIsRetryable s
    → let (updated, t) = complete_agent_task now id result e s in
      QueueIsRetryable t × IsRetryable (or_blank updated)
unfolding complete_agent_task
complete-IsRetryable now id result e s q = elim (Option-cases (lookup id s.agent_tasks)) [
  | inl missing ↦ rw (missing, complete_agent_task) (q, blank-IsRetryable)
  | inr (t, found) ↦
      let h =
        finished-IsRetryable now result e t (All-lookup IsRetryable id s.agent_tasks found q) in
      rw (found, complete_agent_task) (All-insert IsRetryable id _ s.agent_tasks h q, h)
]

complete_with_retry-IsRetryable :
    (now later : ℕ) (t : AgentTask) (result : Params) (e : String) (s : MemoryStore)
    → QueueIsRetryable s
    → QueueIsRetryable (complete_with_retry now later t result e s)
unfolding complete_with_retry
complete_with_retry-IsRetryable now later t result e s q =
    let (updated, s₁) = complete_agent_task now t.id result e s in
    let kept = complete-IsRetryable now t.id result e s q in
    rw (successor-retry (or_blank updated) e (map_value result) kept.1, complete_with_retry)
      (create-IsRetryable later (retry_of (or_blank updated)) s₁
        (λ id. retry-IsRetryable later id (or_blank updated) kept.1) kept.0)

-- A tool that the scheduler may file.
schedule_once-IsRetryable :
    (now later : ℕ) (tool : String) (interval : ℕ) (svc : Service) (s : MemoryStore)
    → has_prefix tool "deadletter." ≡ false
    → QueueIsRetryable s
    → QueueIsRetryable (schedule_once now later tool interval svc s).1
unfolding schedule_once
schedule_once-IsRetryable now later tool interval svc s h q =
    elim (Bool-cases (is_recent now (or_zero (lookup tool svc.last_scheduled)) interval)) [
      | inl recent ↦ rw (recent, schedule_once) q
      | inr due ↦
          rw (due, schedule_once)
            (create-IsRetryable later (recurring_task tool) s
              (λ id. recurring-IsRetryable later id tool h) q)
    ]

recurring_tasks-IsRetryable :
    (clock : Clock) (svc : Service) (s : MemoryStore)
    → QueueIsRetryable s
    → QueueIsRetryable (ensure_recurring_tasks clock svc s).1
unfolding ensure_recurring_tasks
recurring_tasks-IsRetryable clock svc s q =
    schedule_once-IsRetryable (clock 4) (clock 5) "spec.reconcile.all" _ _ _ refl (
      schedule_once-IsRetryable (clock 2) (clock 3) "backup.verify.sample" _ _ _ refl
        (schedule_once-IsRetryable (clock 0) (clock 1) "storage.inventory.sync" _ svc s refl q))

conclude-IsRetryable :
    (clock : Clock) (t : AgentTask) (resp : McpCallResponse) (s : MemoryStore)
    → QueueIsRetryable s
    → QueueIsRetryable (conclude clock t resp s)
unfolding conclude
conclude-IsRetryable clock t resp s q = elim (Bool-cases (task_error resp == "")) [
  | inl done ↦ rw (done, conclude) (complete-IsRetryable (clock 1) t.id (task_result resp) "" s q).0
  | inr failed ↦
      rw (failed, conclude)
        (complete_with_retry-IsRetryable (clock 1) (clock 2) t (task_result resp) (task_error resp)
          s q)
]

share-IsRetryable :
    (t : AgentTask) (s : MemoryStore)
    → IsRetryable t
    → QueueIsRetryable s
    → QueueIsRetryable (share_params t s)
share-IsRetryable t s h q = go t.payload
  where
    go :
        (p : Option Params)
        → QueueIsRetryable (elim p [
          | none ↦ s
          | some m ↦ record s {
            agent_tasks = insert t.id (record t { payload = some (task_params t) }) s.agent_tasks;
          }
        ])
    go none = q
    go (some m) = All-insert IsRetryable t.id _ s.agent_tasks (ground arith) q

waits_and_IsRetryable :
    (ts : List AgentTask)
    → All IsRetryable ts
    → All (λ t. is_queued t.status ≡ true → IsRetryable t × (is_queued t.status ≡ true)) ts
waits_and_IsRetryable ts q = All-map (λ t h waits. (h, waits)) ts q

claim-IsRetryable :
    (now : ℕ) (s : MemoryStore)
    → QueueIsRetryable s
    → let (c, t) = claim_next_agent_task now s in
      QueueIsRetryable t × ((task : AgentTask) → c ≡ some task → IsRetryable task)
unfolding claim_next_agent_task
claim-IsRetryable now s q = elim (Option-cases (pick none (values s.agent_tasks))) [
  | inl nothing ↦ rw (nothing, claim_next_agent_task) (q, (λ t e. cc))
  | inr (t, found) ↦
      let (h, waits) =
        pick-All (λ u. IsRetryable u × (is_queued u.status ≡ true)) none (values s.agent_tasks)
          (λ p e. cc) (waits_and_IsRetryable (values s.agent_tasks) q) found in
      let h' = claimed-IsRetryable now t h waits in
      rw (found, claim_next_agent_task)
        (
          All-insert IsRetryable t.id _ s.agent_tasks h' q,
          (λ u e. subst IsRetryable (some-injective _ _ e) h'),
        )
]

module _ {R : Type 0} (executor : Executor R) (gate : GateEvaluator)
    (run_keeps : (clock : Clock) (tool : String) (params : Params) (s : MemoryStore) (r : R)
      → QueueIsRetryable s
      → QueueIsRetryable (executor.run clock tool params s r).1) where
  run_task-IsRetryable :
      (clock : Clock) (t : AgentTask) (s : MemoryStore) (r : R)
      → IsRetryable t
      → QueueIsRetryable s
      → QueueIsRetryable (run_task executor gate clock t s r).0
  unfolding run_task
  run_task-IsRetryable clock t s r h q =
      let later : Clock = λ n. clock (3 + n) in
      let kept =
        handle_call_keeps executor gate (λ m. All IsRetryable (values m)) run_keeps later
          (task_call t) (share_params t s) r (share-IsRetryable t s h q) in
      elim (Bool-cases (task_panics executor gate clock t s r)) [
        | inl ends ↦ rw (h.plain_type, ends, run_task) kept
        | inr goes_on ↦ rw (h.plain_type, goes_on, run_task) (conclude-IsRetryable clock t _ _ kept)
      ]

  run_claimed-IsRetryable :
      (clock : Clock) (c : Option AgentTask) (s : MemoryStore) (r : R)
      → ((t : AgentTask) → c ≡ some t → IsRetryable t)
      → QueueIsRetryable s
      → QueueIsRetryable (run_claimed executor gate clock (c, s) r).0
  run_claimed-IsRetryable clock none s r h q = q
  run_claimed-IsRetryable clock (some t) s r h q = run_task-IsRetryable clock t s r (h t refl) q

  run_once-IsRetryable :
      (clock : Clock) (s : MemoryStore) (r : R)
      → QueueIsRetryable s
      → QueueIsRetryable (run_once executor gate clock s r).0
  unfolding run_once
  run_once-IsRetryable clock s r q =
      let (c, t) = claim_next_agent_task (clock 0) s in
      let kept = claim-IsRetryable (clock 0) s q in
      run_claimed-IsRetryable clock c t r kept.1 kept.0

  tick-IsRetryable :
      (t : Tick) (svc : Service) (s : MemoryStore) (r : R)
      → QueueIsRetryable s
      → QueueIsRetryable (tick executor gate t (svc, s, r)).1
  unfolding tick
  tick-IsRetryable (schedule clock) svc s r q = recurring_tasks-IsRetryable clock svc s q
  tick-IsRetryable (work clock) svc s r q = run_once-IsRetryable clock s r q

  -- Where the orchestrator keeps a queue of retryable tasks so, and whatever else the calls of the
  -- worker come to: in whatever order the two loops tick, from a queue of retryable tasks only
  -- retryable tasks come about, none of which is a dead letter.
  pub ticks-IsRetryable :
      (ts : List Tick) (svc : Service) (s : MemoryStore) (r : R)
      → QueueIsRetryable s
      → QueueIsRetryable (ticks executor gate ts (svc, s, r)).1
  unfolding ticks
  ticks-IsRetryable [] svc s r q = q
  ticks-IsRetryable (t ∷ ts) svc s r q =
      let (svc', s', r') = tick executor gate t (svc, s, r) in
      let kept = tick-IsRetryable t svc s r q in
      elim (Bool-cases (is_last executor gate t (svc, s, r))) [
        | inl last ↦ rw (last, ticks) kept
        | inr going ↦ rw (going, ticks) (ticks-IsRetryable ts svc' s' r' kept)
      ]
