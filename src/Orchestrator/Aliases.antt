-- ===== src/Orchestrator/Aliases.antt =====
-- Pairs of tools under names of different risk (backend/internal/orchestrator/service.go, with the
-- lists of backend/internal/risk/engine.go).
use proxmaster.Prelude.{String, ◌≡◌, refl}
use proxmaster.Prelude.Text.{to_lower}
use proxmaster.Prelude.Dict.{lookup}
use proxmaster.Models.{Params, RiskLevel}
use proxmaster.Risk.{classify}
use proxmaster.Store.{MemoryStore}
use proxmaster.Mcp.{Clock}
use proxmaster.Orchestrator.{
  Services, Runtime, wireguard_payload, execute, run_tool, run_service_tool,
}
use proxmaster.Orchestrator.Names.{tool_named}

module _ {W : Type 0} (services : Services W) where
  -- Two calls that come to the same on every store.
  abbrev SameWork : String → Params → String → Params → Type 0
  SameWork tool params tool' params' =
      (clock : Clock) (s : MemoryStore) (r : Runtime W)
      → execute services clock tool params s r ≡ execute services clock tool' params' s r

  abbrev pub IsMediumName : String → Params → String → Params → Type 0
  IsMediumName tool params tool' params' =
      SameWork tool params tool' params'
      × (classify tool params ≡ RiskLevel.medium)
      × (classify tool' params' ≡ RiskLevel.high)

  -- A call that pauses a rollout continues it, and a call that deploys a WireGuard machine deploys
  -- the blueprint of that name with the parameters that it takes over: both are a medium risk,
  -- where the calls that they come to are a high one.
  pub medium_names :
      (params : Params)
      → IsMediumName "updates.rollout_pause" params "updates.rollout_continue" params
        × IsMediumName "service.wireguard.vm.deploy" params "blueprint.deploy"
            (wireguard_payload params)
  unfolding execute tool_named lookup run_tool run_service_tool classify to_lower
  medium_names params = ((λ clock s r. refl, refl, refl), (λ clock s r. refl, refl, refl))
