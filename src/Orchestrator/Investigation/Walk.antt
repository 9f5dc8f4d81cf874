-- ===== src/Orchestrator/Investigation/Walk.antt =====
-- The walk of src/payops/orchestrator/graph.py through the nodes of nodes.py: a linear graph that leaves
-- for `finish` on a terminal outcome. LangGraph stops a run at its recursion limit.
use pay_ops.Base.{
  Bool, false, ℕ, zero, suc, Option, none, some, [], ◌∷◌, ◌++◌, is_some, if◌then◌else◌,
}
use pay_ops.Base.Result.{Result, ok, err, runtime_error}
use pay_ops.Base.Action.{Exec, ◌>>=◌, pure, lift}
use pay_ops.Base.Table.{Codec}
use pay_ops.Orchestrator.Investigation.States.{
  Collection, InvestigationState, StepRecord, updated, pack, unpack,
}
use pay_ops.Orchestrator.Investigation.Nodes.{
  Moment, NodeHost, Node, triage, reserve, collect, rank, finish, node_name, triage_state,
  reserve_reads, finish_state, route,
}
use pay_ops.Orchestrator.Investigation.Steps.{Directory, reserve_attempt, collect_state, rank_state}

-- `StepRecord` of a node that has run.
abbrev pub step_record : Node → Moment → StepRecord
step_record node m = record {
  node = node_name node;
  observed_at = m.observed_at;
  duration_seconds = m.duration;
}

module _ {Artifacts Text : Type 0} (host : NodeHost Artifacts Text)
    (batch : Codec Collection Text) where
  -- `_step`
  unfoldable pub step :
      Moment
      → Node
      → (InvestigationState → Exec (Directory host batch) InvestigationState)
      → InvestigationState
      → Exec (Directory host batch) InvestigationState
  unfolding reserve_attempt ◌>>=◌
  step m node operation s = do
    reserved ← reserve_attempt host batch m.now s
    result ← if is_some reserved.terminal then pure reserved else operation reserved
    lift (updated (record result { steps = s.steps ++ step_record node m ∷ [] }))

  -- The five methods of `InvestigationNodes`, on an unpacked state.
  unfoldable pub run_node :
      Moment → Node → InvestigationState → Exec (Directory host batch) InvestigationState
  unfolding step
  run_node m triage s = step m triage (λ t. lift (triage_state t)) s
  run_node m reserve s = step m reserve (λ t. lift (reserve_reads t)) s
  run_node m collect s = step m collect (collect_state host batch) s
  run_node m rank s = step m rank (rank_state host batch) s
  run_node m finish s = lift (finish_state host.total m s)

  -- The edges of `compile_graph`.
  unfoldable pub next_node : Node → InvestigationState → Result (Option Node)
  next_node finish s = ok none
  next_node rank s = ok (some finish)
  next_node triage s = elim (route s) [ ok n ↦ ok (some n) | err e ↦ err e ]
  next_node reserve s = elim (route s) [ ok n ↦ ok (some n) | err e ↦ err e ]
  next_node collect s = elim (route s) [ ok n ↦ ok (some n) | err e ↦ err e ]

  module _ (codec : Codec InvestigationState Text) (clock : ℕ → Moment) where
    -- A checkpoint is unpacked by the node that takes it, and packed by the node that leaves it.
    unfoldable pub run_packed : Moment → Node → Text → Exec (Directory host batch) Text
    unfolding run_node unpack pack ◌>>=◌
    run_packed m node value = do
      s ← lift (unpack codec value)
      t ← run_node m node s
      pure (pack codec t)

    -- `interrupt_before=["rank"]` of a worker that pauses, once a node has run.
    abbrev pub is_held_back : Bool → Node → Bool
    is_held_back pause rank = pause
    is_held_back pause _ = false

    abbrev pub walk_on :
        Bool
        → (Node → Text → Exec (Directory host batch) Text)
        → Text
        → Result (Option Node)
        → Exec (Directory host batch) Text
    walk_on pause rest value (err e) w = (err e, w)
    walk_on pause rest value (ok none) w = (ok value, w)
    walk_on pause rest value (ok (some node)) w =
        if is_held_back pause node then (ok value, w) else rest node value w

    abbrev pub routed : Node → Result InvestigationState → Result (Option Node)
    routed node (err e) = err e
    routed node (ok s) = next_node node s

    -- `graph.invoke` from a node, with as many steps left as the first argument says.
    unfoldable pub walk : Bool → ℕ → Node → Text → Exec (Directory host batch) Text
    unfolding run_packed next_node unpack ◌>>=◌
    walk pause zero node value w = (err runtime_error, w)
    walk pause (suc n) node value w =
        (run_packed (clock n) node value >>= λ value'.
        walk_on pause (walk pause n) value' (routed node (unpack codec value')))
          w
