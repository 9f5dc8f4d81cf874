-- ===== src/Policy/External.antt =====
-- What the policy and remediation code calls outside the repository: pydantic's reading of JSON
-- values into action objects, the canonical JSON text of an action, and SHA-256.
use pay_ops.Base.{String, Option, some, ◌≡◌}
use pay_ops.Policy.Records.{Action}

pub record Platform (Json : Type 0) : Type 0 where
  -- The discriminated union's fields and types, before the constraints of `action_valid`.
  pub read_action : Json → Option Action
  pub write_action : Action → Json
  -- `json.dumps(model_dump(mode="json"), sort_keys=True, separators=(",", ":"))`
  pub canonical_json : Action → String
  pub sha256_hex : String → String
  -- pydantic reads back what it has written.
  pub read-write : (a : Action) → read_action (write_action a) ≡ some a
