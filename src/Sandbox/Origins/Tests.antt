-- ===== src/Sandbox/Origins/Tests.antt =====
-- A configuration of local peers for src/payops/sandbox/models.py.
use pay_ops.Base.{true, false, ◌≡◌, ◌↔◌, [], All, none}
use pay_ops.Base.Result.{ok}
use pay_ops.Sandbox.Origins.{
  Network, SandboxConfig, Dependency, TelemetryCondition, IsIsolated, allowed_destination, peers,
  validate_origins, validate_origins_iff,
}

abbrev local : Network
local = record {
  split_url = λ url. ok (record {
    port = ok none;
    scheme = "http";
    hostname = url;
    username = "";
    password = "";
    query = "";
    fragment = "";
    path = "";
  });
  ends_with = λ text suffix. false;
  has_backslash = λ text. false;
  is_loopback = λ host. ok true;
}

abbrev config : SandboxConfig
config = record {
  risk_url = "localhost";
  processor_url = "127.0.0.1";
  ledger_url = "localhost";
  webhook_url = "localhost";
  explicit_synthetic_hosts = [];
  cpu_rounds = 5;
  cpu_capture = true;
  concurrency_memory = false;
  dependency = Dependency.no_dependency;
  telemetry_condition = TelemetryCondition.normal;
}

validate_origins_iff_example :
    (validate_origins local config ≡ ok tt)
    ↔ (IsIsolated config × All (λ url. allowed_destination local url [] ≡ ok true) (peers config))
validate_origins_iff_example = validate_origins_iff local config
