-- ===== src/Orchestrator/Baseline/Predicates.antt =====
-- The runtime predicates of src/payops/orchestrator/baseline.py, over one verified signal.
use pay_ops.Base.{
  ℕ, zero, suc, ◌-◌, String, Bool, false, not, ◌&&◌, ◌||◌, Option, none, some, List, [], ◌∷◌, ◌==◌,
  string_eq, leb, any, contains, if◌then◌else◌, Time, seconds, age_within,
}
use pay_ops.Base.Json.{
  pos, ltz, is_zero, Json, integer, text, Members, lookup, has_key, members_of, objects_of, is_text,
  is_true, is_false, is_truthy,
}
use pay_ops.Contracts.{source_eq, kubernetes, deployment, log}
use pay_ops.Orchestrator.Baseline.Signals.{Signal, Texts}

abbrev pub positive : Json → Bool
positive (integer n) = ltz (pos 0) n
positive _ = false

abbrev pub nonzero : Json → Bool
nonzero (integer n) = not (is_zero n)
nonzero _ = false

abbrev pub zero_count : Json → Bool
zero_count (integer n) = is_zero n
zero_count _ = false

abbrev pub fewer : Json → Json → Bool
fewer (integer a) (integer b) = ltz a b
fewer _ _ = false

module _ (texts : Texts) where
  -- `_payment_pod`
  abbrev pub payment_pod : Signal → Bool
  payment_pod s =
      s.item.source == kubernetes
      && is_text "Pod" (lookup "kind" s.payload)
      && texts.is_payment_pod s.item.resource

  abbrev pub statuses : Signal → List Members
  statuses s = objects_of (lookup "containerStatuses" (members_of (lookup "status" s.payload)))

  abbrev pub crash_status : Members → Bool
  crash_status status =
      let terminated = members_of (lookup "terminated" (members_of (lookup "lastState" status))) in
      nonzero (lookup "exitCode" terminated)
      && positive (lookup "restartCount" status)
      && not (is_text "OOMKilled" (lookup "reason" terminated))
      && not (is_true (lookup "ready" status))

  -- `_crashed`
  abbrev pub crashed : Signal → Bool
  crashed s = payment_pod s && any crash_status (statuses s)

  -- `_running_unready`
  abbrev pub running_unready : Signal → Bool
  running_unready s =
      payment_pod s
      && any
          (λ status.
            has_key "running" (members_of (lookup "state" status))
            && is_false (lookup "ready" status))
          (statuses s)

  -- `_degraded`
  abbrev pub degraded : Signal → Bool
  degraded s =
      let status = members_of (lookup "status" s.payload) in
      let desired = lookup "replicas" s.payload in
      s.item.source == deployment
      && s.item.resource == "payments-api"
      && is_text "Deployment" (lookup "kind" s.payload)
      && positive desired
      && (fewer (lookup "availableReplicas" status) desired
          || any (λ c. is_text "Available" (lookup "type" c) && is_text "False" (lookup "status" c))
              (objects_of (lookup "conditions" status)))

  -- `observed is not None`, and the line's age.
  abbrev pub recent_stamp : Time → Option Time → Bool
  recent_stamp collected none = false
  recent_stamp collected (some observed) = age_within 120 collected observed

  abbrev pub recent_line : Time → Option (String × String) → List String → List String
  recent_line collected none rest = rest
  recent_line collected (some (stamp, content)) rest =
      if recent_stamp collected (texts.aware_time stamp) then content ∷ rest else rest

  abbrev pub recent_lines : Time → List String → List String
  recent_lines collected [] = []
  recent_lines collected (line ∷ lines) =
      recent_line collected (texts.partition line) (recent_lines collected lines)

  abbrev pub raw_lines : Time → Json → List String
  raw_lines collected (text raw) = recent_lines collected (texts.split_lines raw)
  raw_lines collected _ = []

  -- `_log_lines`
  abbrev pub log_lines : Signal → List String
  log_lines s =
      if s.item.source == log && s.item.resource == "payments-api"
      then raw_lines s.item.collected_at (lookup "lines" s.payload)
      else []

  -- `any(CONFIG_DETAIL.match(detail) for detail in lines[index + 1 : index + 4])`
  abbrev pub detail_within : ℕ → List String → Bool
  detail_within zero lines = false
  detail_within (suc n) [] = false
  detail_within (suc n) (line ∷ lines) = texts.is_config_detail line || detail_within n lines

  abbrev pub schema_failure : List String → Bool
  schema_failure [] = false
  schema_failure (line ∷ lines) =
      (texts.is_config_header line && detail_within 3 lines) || schema_failure lines

  -- `_invalid_configuration`
  abbrev pub invalid_configuration : Signal → Bool
  invalid_configuration s = schema_failure (log_lines s)

  -- `a or b` on JSON values.
  abbrev pub or_json : Json → Json → Json
  or_json a b = if is_truthy a then a else b

  -- `abs((observed_at - stamp).total_seconds()) <= 1`
  abbrev pub within_second : Time → Json → Bool
  within_second observed (text t) = elim (texts.aware_time t) [
    | none ↦ false
    | some stamp ↦ leb (observed - stamp) (seconds 1) && leb (stamp - observed) (seconds 1)
  ]
  within_second observed _ = false

  -- `_readiness_event`
  abbrev pub readiness_event : List String → Signal → Bool
  readiness_event pod_uids s =
      let involved = members_of (lookup "involvedObject" s.payload) in
      let series = members_of (lookup "series" s.payload) in
      let time =
        or_json (or_json (lookup "lastObservedTime" series) (lookup "lastTimestamp" s.payload))
          (lookup "eventTime" s.payload) in
      s.item.source == kubernetes
      && s.item.resource == "payments-api"
      && contains (texts.show_json (lookup "uid" involved)) pod_uids
      && is_text "payops-sandbox" (lookup "namespace" involved)
      && is_text "Unhealthy" (lookup "reason" s.payload)
      && is_text "Warning" (lookup "type" s.payload)
      && is_text "Readiness probe failed: HTTP probe failed with statuscode: 404"
          (lookup "message" s.payload)
      && within_second s.item.observed_at time

  -- `_processor_absent`
  abbrev pub processor_absent : Signal → Bool
  processor_absent s =
      s.item.source == deployment
      && s.item.resource == "processor-adapter"
      && is_text "Deployment" (lookup "kind" s.payload)
      && zero_count (lookup "replicas" s.payload)

  -- `_no_processor_pods`
  abbrev pub no_processor_pods : Signal → Bool
  no_processor_pods s =
      s.item.source == kubernetes
      && s.item.resource == "processor-adapter"
      && s.item.query == "pods.count"
      && zero_count (lookup "pod_count" s.payload)
