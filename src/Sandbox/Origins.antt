-- ===== src/Sandbox/Origins.antt =====
-- `allowed_destination` and `SandboxConfig` of src/payops/sandbox/models.py: which peers a sandbox
-- service may be started with.
mod Tests
use pay_ops.Base.{
  ℕ, ◌≤◌, String, Bool, true, false, not, ◌&&◌, ◌||◌, ◌≡◌, ◌↔◌, refl, ◌⊎◌, inl, inr, Option, none,
  some, List, [], ◌∷◌, Eq, ◌==◌, ◌!=◌, string_eq, bool_eq, nat_eq, leb, contains, In, All,
  contains_iff, discrete_eq, if◌then◌else◌, arith, ne-eq-false,
}
use pay_ops.Base.Result.{
  Result, ok, err, Error, value_error, raise_if, is_value_error, ◌>>=◌, ◌>>◌, raise_if-then,
  raise_if-eq-ok, >>-eq-ok,
}

-- The parts of `urlsplit`; an absent text is empty. `port` raises `ValueError` on a bad number.
pub record SplitUrl : Type 0 where
  pub port : Result (Option ℕ)
  pub scheme : String
  pub hostname : String
  pub username : String
  pub password : String
  pub query : String
  pub fragment : String
  pub path : String

-- What the check calls outside the repository: `urlsplit`, which raises on a malformed URL, the tests of a text for a suffix and a
-- backslash, and `ipaddress.ip_address(host).is_loopback`, which raises `ValueError` on a name.
pub record Network : Type 0 where
  pub split_url : String → Result SplitUrl
  pub ends_with : String → String → Bool
  pub has_backslash : String → Bool
  pub is_loopback : String → Result Bool

abbrev pub port_in_range : Option ℕ → Bool
port_in_range none = true
port_in_range (some p) = leb 1 p && leb p 65535

module _ (network : Network) where
  abbrev pub loopback_or_explicit : SplitUrl → List String → Result Bool → Result Bool
  loopback_or_explicit u hosts (ok b) = ok b
  loopback_or_explicit u hosts (err e) =
      if is_value_error e then ok (u.scheme == "https" && contains u.hostname hosts) else err e

  abbrev pub host_allowed : SplitUrl → List String → Result Bool
  host_allowed u hosts =
      if u.hostname == "localhost" || network.ends_with u.hostname ".svc.cluster.local"
      then ok true
      else loopback_or_explicit u hosts (network.is_loopback u.hostname)

  abbrev pub parts_allowed : String → SplitUrl → List String → Option ℕ → Result Bool
  parts_allowed url u hosts port =
      if not (port_in_range port)
      then ok false
      else if not (u.scheme == "http" || u.scheme == "https") || u.hostname == ""
      then ok false
      else if u.username != "" || u.password != "" || u.query != "" || u.fragment != ""
      then ok false
      else if not (u.path == "" || u.path == "/") || network.has_backslash url
      then ok false
      else host_allowed u hosts

  unfoldable pub allowed_destination : String → List String → Result Bool
  allowed_destination url hosts =
      (network.split_url url >>= λ u. (u.port >>= λ port. parts_allowed url u hosts port))

pub data Dependency : Type 0 where
  no_dependency postgres redis : Dependency

unfoldable pub Dependency-discrete : Discrete Dependency
Dependency-discrete = hlevel

instance abbrev pub dependency_eq : Eq Dependency
dependency_eq = discrete_eq Dependency-discrete

pub data TelemetryCondition : Type 0 where
  normal archived_error delayed_metrics : TelemetryCondition

unfoldable pub TelemetryCondition-discrete : Discrete TelemetryCondition
TelemetryCondition-discrete = hlevel

instance abbrev pub telemetry_condition_eq : Eq TelemetryCondition
telemetry_condition_eq = discrete_eq TelemetryCondition-discrete

pub record SandboxConfig : Type 0 where
  pub risk_url : String
  pub processor_url : String
  pub ledger_url : String
  pub webhook_url : String
  pub explicit_synthetic_hosts : List String
  pub cpu_rounds : ℕ
  pub cpu_capture : Bool
  pub concurrency_memory : Bool
  pub dependency : Dependency
  pub telemetry_condition : TelemetryCondition

-- The loop over the peers.
abbrev pub check_urls : Network → List String → List String → Result (Unit {0})
check_urls network hosts [] = ok tt
check_urls network hosts (url ∷ urls) =
    (allowed_destination network url hosts >>= λ allowed.
    (raise_if (not allowed) value_error >> check_urls network hosts urls))

abbrev pub peers : SandboxConfig → List String
peers c = c.risk_url ∷ c.processor_url ∷ c.ledger_url ∷ c.webhook_url ∷ []

-- `SandboxConfig.validate_origins`
unfoldable pub validate_origins : Network → SandboxConfig → Result (Unit {0})
unfolding allowed_destination
validate_origins network c = do
  raise_if
      ((c.telemetry_condition == TelemetryCondition.archived_error
          && c.dependency != Dependency.redis)
        || (c.telemetry_condition == TelemetryCondition.delayed_metrics
            && c.dependency != Dependency.postgres))
      value_error
  raise_if (c.dependency != Dependency.no_dependency && (c.cpu_rounds != 0 || c.concurrency_memory))
      value_error
  raise_if (c.concurrency_memory && c.cpu_rounds != 0) value_error
  raise_if (c.cpu_capture && not (c.cpu_rounds != 0)) value_error
  check_urls network c.explicit_synthetic_hosts (peers c)

-- The experiments of a configuration are isolated from each other.
pub record IsIsolated (c : SandboxConfig) : Type 0 where
  pub archived :
      c.telemetry_condition ≡ TelemetryCondition.archived_error → c.dependency ≡ Dependency.redis
  pub delayed :
      c.telemetry_condition ≡ TelemetryCondition.delayed_metrics
      → c.dependency ≡ Dependency.postgres
  pub dependency_alone :
      (c.dependency ≡ Dependency.no_dependency)
      ⊎ ((c.cpu_rounds ≡ 0) × (c.concurrency_memory ≡ false))
  pub memory_alone : c.concurrency_memory ≡ true → c.cpu_rounds ≡ 0
  pub captured : c.cpu_capture ≡ true → 1 ≤ c.cpu_rounds

check_url_iff :
    (x : Result Bool) (rest : Result (Unit {0})) {P : Type 0}
    → (rest ≡ ok tt) ↔ P
    → ((x >>= λ allowed. (raise_if (not allowed) value_error >> rest)) ≡ ok tt)
      ↔ ((x ≡ ok true) × P)
check_url_iff (ok true) rest e = (λ h. (refl, e.0 h), λ h. e.1 h.1)
check_url_iff (ok false) rest e = (λ h. absurd (cc), λ h. absurd (cc))
check_url_iff (err x) rest e = (λ h. absurd (cc), λ h. absurd (cc))

check_urls_iff :
    (network : Network) (hosts urls : List String)
    → (check_urls network hosts urls ≡ ok tt)
      ↔ All (λ url. allowed_destination network url hosts ≡ ok true) urls
check_urls_iff network hosts [] = (λ _. tt, λ _. refl)
check_urls_iff network hosts (url ∷ urls) =
    check_url_iff (allowed_destination network url hosts) (check_urls network hosts urls)
      (check_urls_iff network hosts urls)

conditions_iff :
    (t : TelemetryCondition) (d : Dependency)
    → (((t == TelemetryCondition.archived_error && d != Dependency.redis)
          || (t == TelemetryCondition.delayed_metrics && d != Dependency.postgres))
        ≡ false)
      ↔ ((t ≡ TelemetryCondition.archived_error → d ≡ Dependency.redis)
          × (t ≡ TelemetryCondition.delayed_metrics → d ≡ Dependency.postgres))
conditions_iff t d = ground (
  arith,
  telemetry_condition_eq.beq_iff t TelemetryCondition.archived_error,
  telemetry_condition_eq.beq_iff t TelemetryCondition.delayed_metrics,
  dependency_eq.beq_iff d Dependency.redis,
  dependency_eq.beq_iff d Dependency.postgres,
)

dependency_iff :
    (d : Dependency) (n : ℕ) (m : Bool)
    → ((d != Dependency.no_dependency && (n != 0 || m)) ≡ false)
      ↔ ((d ≡ Dependency.no_dependency) ⊎ ((n ≡ 0) × (m ≡ false)))
dependency_iff d n m = ground (arith, dependency_eq.beq_iff d Dependency.no_dependency)

memory_iff : (n : ℕ) (m : Bool) → ((m && n != 0) ≡ false) ↔ (m ≡ true → n ≡ 0)
memory_iff n m = ground arith

capture_iff : (n : ℕ) (m : Bool) → ((m && not (n != 0)) ≡ false) ↔ (m ≡ true → 1 ≤ n)
capture_iff n m = ground arith

-- A sandbox configuration is accepted exactly when its experiments are isolated from each other and
-- all four of its peers are allowed destinations.
pub validate_origins_iff :
    (network : Network) (c : SandboxConfig)
    → (validate_origins network c ≡ ok tt) ↔ (
        IsIsolated c
        × All
            (λ url. allowed_destination network url c.explicit_synthetic_hosts ≡ ok true)
            (peers c))
unfolding validate_origins
validate_origins_iff network c = (
  λ e.
      let (t, e) = (raise_if-then _ _ _).0 e in
      let (d, e) = (raise_if-then _ _ _).0 e in
      let (m, e) = (raise_if-then _ _ _).0 e in
      let (k, e) = (raise_if-then _ _ _).0 e in
      let (archived, delayed) = (conditions_iff c.telemetry_condition c.dependency).0 t in
      (
        record {
          archived = archived;
          delayed = delayed;
          dependency_alone = (dependency_iff c.dependency c.cpu_rounds c.concurrency_memory).0 d;
          memory_alone = (memory_iff c.cpu_rounds c.concurrency_memory).0 m;
          captured = (capture_iff c.cpu_rounds c.cpu_capture).0 k;
        },
        (check_urls_iff network c.explicit_synthetic_hosts (peers c)).0 e,
      ),
  λ (i, urls). (raise_if-then _ _ _).1 (
    (conditions_iff c.telemetry_condition c.dependency).1 (i.archived, i.delayed),
    (raise_if-then _ _ _).1 (
      (dependency_iff c.dependency c.cpu_rounds c.concurrency_memory).1 i.dependency_alone,
      (raise_if-then _ _ _).1 (
        (memory_iff c.cpu_rounds c.concurrency_memory).1 i.memory_alone,
        (raise_if-then _ _ _).1 (
          (capture_iff c.cpu_rounds c.cpu_capture).1 i.captured,
          (check_urls_iff network c.explicit_synthetic_hosts (peers c)).1 urls,
        ),
      ),
    ),
  ),
)
