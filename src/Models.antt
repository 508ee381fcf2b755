-- ===== src/Models.antt =====
-- backend/internal/models/types.go: the data that the components share. A `time.Time` is a number
-- of nanoseconds, 0 standing for the zero time; `*time.Time` is an option of one. A nil map and an
-- empty one are read alike, and both are the empty dictionary.
pub mod Any
pub mod Sprint
pub mod Json
pub mod Reports
pub mod Jobs
pub mod Cluster
pub mod Backup
pub mod Tasks
pub mod Policy
pub use Any.*
pub use Jobs.*
pub use Cluster.*
pub use Backup.*
pub use Tasks.*
pub use Policy.*
