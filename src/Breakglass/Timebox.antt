-- ===== src/Breakglass/Timebox.antt =====
-- How long break-glass access lasts (backend/internal/breakglass/service.go).
use mathlib.Core.Path.{subst}
use proxmaster.Prelude.{
  ℕ, ◌<◌, String, ◌≡◌, refl, sym, ◌∙◌, ◌↔◌, ◌⊎◌, inl, inr, true, List, [], ◌∷◌, arith,
  if◌then◌else◌,
}
use proxmaster.Prelude.Int.{ℤ, pos, leb_ℤ}
use proxmaster.Breakglass.{Shell, Service, enable, disable, status, after, new_service}

-- One request to the service, with its readings of the clock.
pub data Request : Type 0 where
  enable_for : ℤ → String → ℕ → Request
  disable_by : String → ℕ → Request
  ask : ℕ → ℕ → Request

unfoldable pub serve : Shell → Request → Service → Service
serve shell (enable_for duration actor now) s = (enable shell now duration actor s).1
serve shell (disable_by actor now) s = (disable shell now actor s).1
serve shell (ask now later) s = (status shell now later s).1

unfoldable pub serve_all : Shell → List Request → Service → Service
serve_all shell [] s = s
serve_all shell (r ∷ rs) s = serve_all shell rs (serve shell r s)

-- The request grants access until `limit`, under the given default duration.
abbrev pub Grants : ℤ → ℕ → Request → Type 0
Grants default limit (enable_for duration actor now) =
    limit ≡ after now (if leb_ℤ duration (pos 0) then default else duration)
Grants default limit _ = ⊥

abbrev pub Any : (Request → Type 0) → List Request → Type 0
Any P [] = ⊥
Any P (r ∷ rs) = P r ⊎ Any P rs

serve-default :
    (shell : Shell) (r : Request) (s : Service)
    → (serve shell r s).default_duration ≡ s.default_duration
unfolding serve enable disable status
serve-default shell (enable_for duration actor now) s = ground arith
serve-default shell (disable_by actor now) s = ground arith
serve-default shell (ask now later) s = ground arith

-- Access that is open after a request was open before, with the same end, or is granted by it.
serve-open :
    (shell : Shell) (r : Request) (s : Service)
    → (serve shell r s).enabled ≡ true
    → ((s.enabled ≡ true) × ((serve shell r s).enabled_until ≡ s.enabled_until))
      ⊎ Grants s.default_duration (serve shell r s).enabled_until r
unfolding serve enable disable status
serve-open shell (enable_for duration actor now) s h = ground arith
serve-open shell (disable_by actor now) s h = ground arith
serve-open shell (ask now later) s h = ground arith

serve_all-open :
    (shell : Shell) (rs : List Request) (s : Service)
    → let t = serve_all shell rs s in
      t.enabled ≡ true
      → ((s.enabled ≡ true) × (t.enabled_until ≡ s.enabled_until))
        ⊎ Any (Grants s.default_duration t.enabled_until) rs
unfolding serve_all
serve_all-open shell [] s h = inl (h, refl)
serve_all-open shell (r ∷ rs) s h =
    let s' = serve shell r s in
    let same = serve-default shell r s in
    let t = serve_all shell rs s' in
    elim (serve_all-open shell rs s' h) [
      | inr later ↦ inr (inr (subst (λ d. Any (Grants d t.enabled_until) rs) same later))
      | inl (open_then, kept) ↦ elim (serve-open shell r s open_then) [
        | inl (open_before, unchanged) ↦ inl (open_before, kept ∙ unchanged)
        | inr granted ↦ inr (inl (subst (λ u. Grants s.default_duration u r) (sym kept) granted))
      ]
    ]

pub status-open_iff :
    (shell : Shell) (now later : ℕ) (s : Service)
    → ((status shell now later s).1.enabled ≡ true) ↔ ((s.enabled ≡ true) × (now < s.enabled_until))
unfolding status
status-open_iff shell now later s = (ground arith, ground arith)

-- Access that a status report of a new service shows as open, after any requests, was granted by
-- one of them for a time that is not over yet.
pub open_needs_grant :
    (shell : Shell) (enable_cmd disable_cmd : String) (minutes : ℤ) (rs : List Request)
    (now later : ℕ)
    → let s = new_service enable_cmd disable_cmd minutes in
      let t = serve_all shell rs s in
      (status shell now later t).1.enabled ≡ true
      → (now < t.enabled_until) × Any (Grants s.default_duration t.enabled_until) rs
unfolding new_service
open_needs_grant shell enable_cmd disable_cmd minutes rs now later h =
    let s = new_service enable_cmd disable_cmd minutes in
    let (was_open, in_time) = (status-open_iff shell now later (serve_all shell rs s)).0 h in
    elim (serve_all-open shell rs s was_open) [
      | inl (at_start, same) ↦ cc
      | inr granted ↦ (in_time, granted)
    ]
