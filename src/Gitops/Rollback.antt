-- ===== src/Gitops/Rollback.antt =====
-- What a rollback to the stable commit does (backend/internal/gitops/service.go).
use proxmaster.Prelude.{ℕ, String, ◌==◌, ◌≡◌, refl, true, false, Option, none, some}
use proxmaster.Prelude.Text.{trim_space}
use proxmaster.Gitops.{
  Service, Host, Answer, rollback_body, rollback_last_stable, after_restart, after_stable_up,
  after_stable_checkout, finish,
}

-- What a rollback to the stable commit reports, by its error.
abbrev pub RolledBack : String → Option String → Service → Type 0
RolledBack commit none t =
    (t.last_commit ≡ commit)
    × (t.last_result ≡ "rolled_back")
    × (t.last_health ≡ "healthy_after_rollback")
    × (t.last_error ≡ "")
RolledBack commit (some e) t =
    (t.last_error ≡ e) × (t.last_result ≡ "failed") × (t.last_health ≡ "unhealthy")

module _ {H : Type 0} (host : Host H) where
  -- The stable commit stays, and the rest is reported.
  abbrev Kept : String → String → Answer H → Type 0
  Kept stable commit (report, err, t, h) = (t.last_stable_commit ≡ stable) × RolledBack commit err t

  after_restart-Kept :
      (commit : String) (out : Option String × H) (s : Service)
      → Kept s.last_stable_commit commit (after_restart host commit out s)
  after_restart-Kept commit (some e, h) s = (refl, (refl, refl, refl))
  after_restart-Kept commit (none, h) s = (refl, (refl, refl, refl, refl))

  after_stable_up-Kept :
      (commit : String) (out : Option String × H) (s : Service)
      → Kept s.last_stable_commit commit (after_stable_up host commit out s)
  after_stable_up-Kept commit (some e, h) s = (refl, (refl, refl, refl))
  after_stable_up-Kept commit (none, h) s = after_restart-Kept commit _ s

  after_stable_checkout-Kept :
      (commit : String) (out : Option String × H) (s : Service)
      → Kept s.last_stable_commit commit (after_stable_checkout host commit out s)
  after_stable_checkout-Kept commit (some e, h) s = (refl, (refl, refl, refl))
  after_stable_checkout-Kept commit (none, h) s = after_stable_up-Kept commit _ s

  finish-Kept :
      (now : ℕ) (stable commit : String) (a : Answer H)
      → Kept stable commit a
      → Kept stable commit (finish host now a)
  finish-Kept now stable commit (report, none, t, h) k = k
  finish-Kept now stable commit (report, some e, t, h) k = k

  -- A rollback of an idle service that has a stable commit leaves it idle and keeps the stable
  -- commit. With no error, the service stands at that commit and is healthy; with an error, it is
  -- marked as failed with that error.
  pub rollback_last_stable-outcome :
      (now : ℕ) (s : Service) (h : H)
      → s.running ≡ false
      → (trim_space s.last_stable_commit == "") ≡ false
      → let (report, err, t, h') = rollback_last_stable host now s h in
        (t.running ≡ false)
        × (t.last_stable_commit ≡ s.last_stable_commit)
        × RolledBack s.last_stable_commit err t
  unfolding rollback_last_stable rollback_body
  rollback_last_stable-outcome now s h idle stable =
      let commit = s.last_stable_commit in
      let body = rollback_body host (record s { running = true }) h in
      let kept =
        finish-Kept now commit commit body
          (after_stable_checkout-Kept commit _ (record s { running = true })) in
      rw (idle, stable, rollback_last_stable) (refl, kept.0, kept.1)
