-- ===== src/Store/Listings.antt =====
-- The listings by time of the store (backend/internal/store/memory.go).
use mathlib.Core.List.{Perm}
use proxmaster.Prelude.{ℕ, List, sort_by}
use proxmaster.Prelude.Dict.{values}
use proxmaster.Prelude.Sorting.{Descending, sort_by-Perm, sort_by-Descending, larger}
use proxmaster.Models.{Job, AuditEvent, Incident, AgentTask}
use proxmaster.Store.{MemoryStore}
use proxmaster.Store.Jobs.{list_jobs, list_audit, list_incidents}
use proxmaster.Store.Tasks.{list_agent_tasks}

-- The stored entries, each once, and none that is newer than an earlier one.
abbrev pub IsListing : {A : Type 0} → (A → ℕ) → List A → List A → Type 0
IsListing created_at stored listed = Perm listed stored × Descending created_at listed

-- The listings of jobs, audit events, incidents and tasks give everything that is stored, each
-- entry as often as it is stored, the newest first.
pub listings-IsListing :
    (s : MemoryStore)
    → IsListing {A = Job} (λ j. j.created_at) (values s.jobs) (list_jobs s)
      × IsListing {A = AuditEvent} (λ a. a.created_at) s.audits (list_audit s)
      × IsListing {A = Incident} (λ i. i.created_at) s.incidents (list_incidents s)
      × IsListing {A = AgentTask} (λ t. t.created_at) (values s.agent_tasks) (list_agent_tasks s)
unfolding list_jobs list_audit list_incidents list_agent_tasks
listings-IsListing s = (
  listing (λ j. j.created_at) (values s.jobs),
  listing (λ a. a.created_at) s.audits,
  listing (λ i. i.created_at) s.incidents,
  listing (λ t. t.created_at) (values s.agent_tasks),
)
  where
    listing :
        {A : Type 0} (rank : A → ℕ) (xs : List A) → IsListing rank xs (sort_by (larger rank) xs)
    listing rank xs = (sort_by-Perm (larger rank) xs, sort_by-Descending rank xs)
