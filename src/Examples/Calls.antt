-- ===== src/Examples/Calls.antt =====
-- Calls on concrete inputs.
use proxmaster.Prelude.{
  String, ◌≡◌, refl, ◌≢◌, ◌==◌, eq_iff, ◌⊎◌, false, none, some, arith, ◌<◌, ◌+◌, [], ◌∷◌, ◌++◌,
}
use proxmaster.Prelude.Dict.{lookup}
use proxmaster.Models.{Job, McpCallRequest}
use proxmaster.Store.Initial.{new_memory_store}
use proxmaster.Store.Jobs.{get_job_by_idempotency_key}
use proxmaster.Store.Jobs.{create_job}
use proxmaster.Store.Jobs.Laws.{lookup-create_job}
use proxmaster.Store.Jobs.Fresh.{IsNumbered, create_job-IsNumbered}
use proxmaster.Store.{MemoryStore}
use proxmaster.Prelude.Int.{word_limit}
use proxmaster.Mcp.{blank_job, handle_new, new_panics, handle_call}
use proxmaster.Mcp.Outcome.{Recorded, handle_new-Recorded}
use proxmaster.Mcp.Replay.{IsReplayed, handle_call-replay}
use proxmaster.Mcp.Gating.{IsHeld, IsCleared, handle_new-gated}
use proxmaster.Mcp.Isolation.{handle_new_keeps_jobs}
use proxmaster.Mcp.Audit.{handle_new-audits}
use proxmaster.Examples.{clock, store, gate, counter, request, store-IsNumbered}

abbrev migrate : McpCallRequest
migrate = request "vm.migrate" false "key-1"

-- A text that differs from the empty one by computation.
named : (s : String) → (s == "") ≡ false → s ≢ ""
named s h e = let clash = (eq_iff s "").1 e in cc

handle_new-Recorded_example :
    let (resp, t, r) = handle_new counter gate clock migrate store 0 in
    Recorded "key-1" (new_panics counter gate clock migrate store 0) resp t
handle_new-Recorded_example = handle_new-Recorded counter gate clock migrate store 0

no_key : get_job_by_idempotency_key "key-1" store ≡ none
unfolding get_job_by_idempotency_key new_memory_store lookup
no_key = refl

handle_call-replay_example :
    IsReplayed counter gate clock
      (request "vm.stop" false "key-1")
      (handle_call counter gate clock migrate store 0)
handle_call-replay_example =
    handle_call-replay counter gate clock clock migrate (request "vm.stop" false "key-1") store 0
      (named "key-1" refl) refl no_key

handle_new-gated_example :
    let (resp, t, r) = handle_new counter gate clock migrate store 0 in
    IsHeld store t 0 r resp ⊎ IsCleared gate clock migrate store
handle_new-gated_example = handle_new-gated counter gate clock migrate store 0

handle_new-audits_example :
    let (resp, t, r) = handle_new counter gate clock migrate store 0 in
    t.audits ≡ store.audits ++ resp.audit_event ∷ []
handle_new-audits_example = handle_new-audits counter gate clock migrate store 0

abbrev first_job : Job
first_job = (create_job 5 blank_job store).0

abbrev one_job : MemoryStore
one_job = (create_job 5 blank_job store).1

one_job-IsNumbered : IsNumbered one_job
unfolding new_memory_store
one_job-IsNumbered = (create_job-IsNumbered 5 blank_job store store-IsNumbered (omega arith)).2

one_job_has_room : one_job.seq + 1 < word_limit
unfolding create_job new_memory_store
one_job_has_room = omega arith

handle_new_keeps_jobs_example :
    lookup first_job.id (handle_new counter gate clock migrate one_job 0).1.jobs ≡ some first_job
handle_new_keeps_jobs_example =
    handle_new_keeps_jobs counter gate clock migrate one_job 0 one_job-IsNumbered one_job_has_room
      first_job.id first_job (lookup-create_job 5 blank_job store)
