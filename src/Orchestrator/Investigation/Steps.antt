-- ===== src/Orchestrator/Investigation/Steps.antt =====
-- The nodes of src/payops/orchestrator/nodes.py as calls that write the incident's directory, and the
-- walk of src/payops/orchestrator/graph.py through them.
use pay_ops.Base.{
  suc, max, String, Bool, true, false, ◌||◌, Option, none, some, [], ◌∷◌, ◌++◌, ltb, leb, contains,
  nat_eq, length, if◌then◌else◌, Time,
}
use pay_ops.Base.Result.{Result, ok, err, Error, integrity, value_error, os_error, is_value_error}
use pay_ops.Base.Action.{Exec}
use pay_ops.Base.Table.{Codec}
use pay_ops.Contracts.{TerminalState}
use pay_ops.Orchestrator.Investigation.States.{Collection, InvestigationState, updated}
use pay_ops.Orchestrator.Investigation.Nodes.{
  World, NodeHost, with_terminal, required_reads, verify_all, collected, ranked_baseline,
}

-- `except EvidenceIntegrityError`
abbrev pub is_integrity : Error → Bool
is_integrity integrity = true
is_integrity _ = false

module _ {Artifacts Text : Type 0} (host : NodeHost Artifacts Text)
    (batch : Codec Collection Text) where
  abbrev pub Directory : Type 0
  Directory = World Artifacts Text

  -- `reserve_attempt`
  unfoldable pub reserve_attempt : Time → InvestigationState → Exec Directory InvestigationState
  reserve_attempt now s w =
      let used = max s.steps_used (length w.attempts) in
      if leb s.budget.max_steps used || leb s.budget.node_start_deadline now
      then (
        updated (record s { steps_used = used; terminal = some TerminalState.budget_exhausted }),
        w,
      )
      else if contains (suc used) w.attempts
      then (err os_error, w)
      else (
        updated (record s { steps_used = suc used }),
        record w { attempts = suc used ∷ w.attempts },
      )

  -- The exclusive creation of `collection-dispatched`.
  unfoldable pub mark_dispatched : Directory → Result Directory
  mark_dispatched w = if w.dispatched then err os_error else ok (record w { dispatched = true })

  -- The collector's call, after the marker.
  abbrev pub gather : InvestigationState → Directory → Result Collection × Directory
  gather s w =
      let (r, artifacts) = host.collector s.incident w.artifacts in
      (r, record w { artifacts = artifacts; batches = suc w.batches })

  abbrev pub retain :
      InvestigationState → Result Collection × Directory → Result InvestigationState × Directory
  retain s (err e, w) = (err e, w)
  retain s (ok c, w) =
      (collected (host.verifiers w.artifacts) s c, record w { retained = some (batch.write c) })

  abbrev pub gather_dispatched :
      InvestigationState → Result Directory → Exec Directory InvestigationState
  gather_dispatched s (err e) w = (err e, w)
  gather_dispatched s (ok marked) w = retain s (gather s marked)

  abbrev pub reread : InvestigationState → Directory → Option Collection → Result InvestigationState
  reread s w none = err value_error
  reread s w (some c) = collected (host.verifiers w.artifacts) s c

  -- The body of the `try` of `_collect`.
  abbrev pub collect_batch : InvestigationState → Option Text → Exec Directory InvestigationState
  collect_batch s (some text) w = (reread s w (batch.read text), w)
  collect_batch s none w = gather_dispatched s (mark_dispatched w) w

  -- Its handlers.
  abbrev pub is_unavailable : Error → Bool
  is_unavailable os_error = true
  is_unavailable e = is_value_error e

  abbrev pub collection_failed : InvestigationState → Error → InvestigationState
  collection_failed s e = record s {
    terminal = some TerminalState.dependency_unavailable;
    failures =
        s.failures
        ++ record {
          tool = "collection";
          resource = s.incident.request.service;
          error_type = host.class_name e;
        }
          ∷ [];
  }

  abbrev pub settle_collection :
      InvestigationState → Result InvestigationState → Result InvestigationState
  settle_collection s (ok t) = ok t
  settle_collection s (err e) =
      if is_integrity e
      then updated (with_terminal s TerminalState.security_block)
      else if is_unavailable e
      then updated (collection_failed s e)
      else err e

  abbrev pub settled :
      InvestigationState
      → Result InvestigationState × Directory
      → Result InvestigationState × Directory
  settled s (r, w) = (settle_collection s r, w)

  -- `_collect`
  unfoldable pub collect_state : InvestigationState → Exec Directory InvestigationState
  unfolding mark_dispatched
  collect_state s w =
      if ltb s.tool_calls_reserved 20 || ltb s.backend_reads_reserved (required_reads s)
      then (updated (with_terminal s TerminalState.budget_exhausted), w)
      else settled s (collect_batch s w.retained w)

  -- The body of the `try` of `rank`, past the verification of the evidence.
  abbrev pub reason_with :
      Option (InvestigationState → Artifacts → Result InvestigationState × Artifacts)
      → InvestigationState
      → Exec Directory InvestigationState
  reason_with none s w = (ranked_baseline host.texts (host.verifiers w.artifacts) s, w)
  reason_with (some reasoner) s w =
      let (r, artifacts) = reasoner s w.artifacts in (r, record w { artifacts = artifacts })

  abbrev pub rank_verified :
      Result (Unit {0}) → InvestigationState → Exec Directory InvestigationState
  rank_verified (err e) s w = (err e, w)
  rank_verified (ok _) s w = reason_with host.reasoner s w

  abbrev pub stop_reason :
      Option (InvestigationState → Artifacts → Result InvestigationState × Artifacts)
      → Option String
  stop_reason none = none
  stop_reason (some _) = some "SECURITY_BLOCK"

  abbrev pub block :
      InvestigationState
      → Result InvestigationState × Directory
      → Result InvestigationState × Directory
  block s (ok t, w) = (ok t, w)
  block s (err e, w) = (
    if is_integrity e
        then updated (record s {
          terminal = some TerminalState.security_block;
          reasoning_stop_reason = stop_reason host.reasoner;
        })
        else err e,
    w,
  )

  -- The operation of `rank`.
  unfoldable pub rank_state : InvestigationState → Exec Directory InvestigationState
  rank_state s w = block s (rank_verified (verify_all (host.verifiers w.artifacts) s.evidence) s w)
