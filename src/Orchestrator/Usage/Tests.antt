-- ===== src/Orchestrator/Usage/Tests.antt =====
-- The usage metadata of one message, for src/payops/orchestrator/reasoning.py.
use pay_ops.Base.{◌≡◌, ◌↔◌, refl, some}
use pay_ops.Base.Result.{ok}
use pay_ops.Base.Json.{pos, integer, object, Members, empty, member}
use pay_ops.Orchestrator.Reasoning.{ProviderUsage}
use pay_ops.Orchestrator.Usage.{provider_usage}
use pay_ops.Orchestrator.Usage.Acceptance.{IsUsage, provider_usage_iff}

abbrev metadata : Members
metadata = member "input_tokens" (integer (pos 40)) (
    member "output_tokens" (integer (pos 5)) (
      member "total_tokens" (integer (pos 45)) (
        member "input_token_details" (object (member "cache_read" (integer (pos 30)) empty))
          empty)))

abbrev usage : ProviderUsage
usage = record { input_tokens = 40; output_tokens = 5; total_tokens = 45; cached_input_tokens = 30 }

metadata-accepted : provider_usage (some metadata) ≡ ok (some usage)
unfolding provider_usage
metadata-accepted = refl

provider_usage_iff_example :
    (provider_usage (some metadata) ≡ ok (some usage)) ↔ IsUsage metadata usage
provider_usage_iff_example = provider_usage_iff metadata usage
