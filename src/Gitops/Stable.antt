-- ===== src/Gitops/Stable.antt =====
-- What the last stable commit stands for (backend/internal/gitops/service.go).
use proxmaster.Prelude.{
  ℕ, String, ◌<>◌, ◌==◌, ◌≡◌, refl, sym, ◌⊎◌, inl, inr, true, false, Option, none, some, [], ◌∷◌,
  arith, Bool-cases,
}
use proxmaster.Prelude.Text.{trim_space}
use proxmaster.Gitops.{
  Service, Host, Answer, git_output, health_check, mark_failed, rollback_on_failure, rolled_back,
  after_health, after_up, after_pull, after_checkout, after_fetch, sync_body, sync_now,
  answer_failed,
}

-- A deployment that was not brought to health: the stable commit stays.
pub record IsFailure (stable e : String) (t : Service) : Type 0 where
  pub stable_same : t.last_stable_commit ≡ stable
  pub error_kept : t.last_error ≡ e
  pub reported :
      ((t.last_result ≡ "failed") × (t.last_health ≡ "unhealthy"))
      ⊎ ((t.last_result ≡ "rolled_back") × (t.last_health ≡ "healthy_after_rollback"))

-- A deployment that is healthy at the commit that it names.
pub record IsSuccess (t : Service) : Type 0 where
  pub stable_now : t.last_stable_commit ≡ t.last_commit
  pub no_error : t.last_error ≡ ""
  pub succeeded : t.last_result ≡ "success"
  pub healthy : t.last_health ≡ "healthy"

-- What an answer says, by its error.
abbrev pub Reported : String → Option String → Service → Type 0
Reported stable (some e) t = IsFailure stable e t
Reported stable none t = IsSuccess t

module _ {H : Type 0} (host : Host H) where
  abbrev IsReported : String → Answer H → Type 0
  IsReported stable (report, err, t, h) = Reported stable err t

  answer_failed-IsReported :
      (e : String) (s : Service) (h : H)
      → IsReported s.last_stable_commit (answer_failed host e s h)
  answer_failed-IsReported e s h = record {
    stable_same = refl;
    error_kept = refl;
    reported = inl (refl, refl);
  }

  rolled_back-IsReported :
      (commit e : String) (out : Option String × H) (s : Service)
      → IsReported s.last_stable_commit (rolled_back host commit e out (mark_failed e s))
  rolled_back-IsReported commit e (some e', h) s = record {
    stable_same = refl;
    error_kept = refl;
    reported = inl (refl, refl);
  }
  rolled_back-IsReported commit e (none, h) s = record {
    stable_same = refl;
    error_kept = refl;
    reported = inr (refl, refl);
  }

  rollback-IsReported :
      (commit e : String) (s : Service) (h : H)
      → IsReported s.last_stable_commit (rollback_on_failure host commit e s h)
  unfolding rollback_on_failure
  rollback-IsReported commit e s h =
      ground (arith, answer_failed-IsReported e s h, rolled_back-IsReported commit e _ s)

  after_health-IsReported :
      (before commit : String) (out : Option String × H) (s : Service)
      → s.last_commit ≡ commit
      → IsReported s.last_stable_commit (after_health host before commit out s)
  after_health-IsReported before commit (some e, h) s same = rollback-IsReported before e s h
  after_health-IsReported before commit (none, h) s same = record {
    stable_now = sym same;
    no_error = refl;
    succeeded = refl;
    healthy = refl;
  }

  after_up-IsReported :
      (before commit : String) (out : Option String × H) (s : Service)
      → s.last_commit ≡ commit
      → IsReported s.last_stable_commit (after_up host before commit out s)
  after_up-IsReported before commit (some e, h) s same =
      rollback-IsReported before ("compose up failed: " <> e) s h
  after_up-IsReported before commit (none, h) s same =
      after_health-IsReported before commit (health_check host s.cfg h) s same

  after_pull-IsReported :
      (before : String) (out : Option String × H) (s : Service)
      → IsReported s.last_stable_commit (after_pull host before out s)
  after_pull-IsReported before (some e, h) s = answer_failed-IsReported e s h
  after_pull-IsReported before (none, h) s = after_up-IsReported before _ _ _ refl

  after_checkout-IsReported :
      (before : String) (out : Option String × H) (s : Service)
      → IsReported s.last_stable_commit (after_checkout host before out s)
  after_checkout-IsReported before (some e, h) s = answer_failed-IsReported e s h
  after_checkout-IsReported before (none, h) s = after_pull-IsReported before _ s

  after_fetch-IsReported :
      (before : String) (out : Option String × H) (s : Service)
      → IsReported s.last_stable_commit (after_fetch host before out s)
  after_fetch-IsReported before (some e, h) s = answer_failed-IsReported e s h
  after_fetch-IsReported before (none, h) s = after_checkout-IsReported before _ s

  sync_body-IsReported :
      (s : Service) (h : H) → IsReported s.last_stable_commit (sync_body host s h)
  unfolding sync_body
  sync_body-IsReported s h =
      let (out, h') = git_output host s.cfg ("rev-parse" ∷ "HEAD" ∷ []) h in
      elim (Bool-cases (trim_space out == "")) [
        | inl empty ↦ rw empty (after_fetch-IsReported (trim_space out) _ s)
        | inr some_commit ↦
            rw some_commit (
              after_fetch-IsReported (trim_space out) _ (record s { last_commit = trim_space out }))
      ]

  -- A sync that is not refused ends with the service at rest. With no error, the commit that it
  -- names is the new stable commit, healthy and with no error kept; with an error, that error is
  -- kept and the stable commit is the old one, whether or not the service was rolled back.
  pub sync_now-outcome :
      (now : ℕ) (s : Service) (h : H)
      → s.running ≡ false
      → let (report, err, t, h') = sync_now host now s h in
        (t.running ≡ false) × (t.last_run_at ≡ now) × Reported s.last_stable_commit err t
  unfolding sync_now
  sync_now-outcome now s h idle =
      let (report, err, t, h') = sync_body host (record s { running = true }) h in
      rw (idle, sync_now)
        (
          refl,
          refl,
          finish-Reported now err t (sync_body-IsReported (record s { running = true }) h),
        )
    where
      finish-Reported :
          (now : ℕ) (err : Option String) (t : Service)
          → Reported s.last_stable_commit err t
          → Reported s.last_stable_commit err (record t { running = false; last_run_at = now })
      finish-Reported now none t p = record {
        stable_now = p.stable_now;
        no_error = p.no_error;
        succeeded = p.succeeded;
        healthy = p.healthy;
      }
      finish-Reported now (some e) t p = record {
        stable_same = p.stable_same;
        error_kept = p.error_kept;
        reported = p.reported;
      }
