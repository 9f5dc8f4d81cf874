-- ===== src/Orchestrator/Investigation/Attempts.antt =====
-- Runs of any number of workers over the directory of one incident, with crashes between the writes of
-- src/payops/orchestrator/nodes.py: each node runs on whatever checkpoint its worker has.
use pay_ops.Base.{ℕ, suc, ◌≤◌, ◌≡◌, length, arith, Time}
use pay_ops.Base.Result.{ok}
use pay_ops.Base.Table.{Codec}
use pay_ops.Orchestrator.Investigation.States.{Collection, InvestigationState}
use pay_ops.Orchestrator.Investigation.Nodes.{Moment, NodeHost, Node}
use pay_ops.Orchestrator.Investigation.Steps.{Directory, reserve_attempt, mark_dispatched}
use pay_ops.Orchestrator.Investigation.Walk.{run_node}
use pay_ops.Orchestrator.Investigation.Dispatch.{
  Moves, Moves-order, mark_dispatched-ok, gather-Moves, reserve_attempt-Moves, run_node-Moves,
}

module _ {Artifacts Text : Type 0} (host : NodeHost Artifacts Text)
    (batch : Codec Collection Text) where
  -- A node that runs to its end, or stops after its attempt file, after the dispatch marker, or after
  -- the collector's call, which may have written any artifacts. Steps are limited to `n`.
  pub data Work (n : ℕ) : Directory host batch → Directory host batch → Type 0 where
    ran :
        (w : Directory host batch) (m : Moment) (node : Node) (s : InvestigationState)
        → s.budget.max_steps ≤ n
        → Work n w (run_node host batch m node s w).1
    lost_attempt :
        (w : Directory host batch) (now : Time) (s : InvestigationState)
        → s.budget.max_steps ≤ n
        → Work n w (reserve_attempt host batch now s w).1
    lost_marked : (w w' : Directory host batch) → mark_dispatched host batch w ≡ ok w' → Work n w w'
    lost_gathered :
        (w w' : Directory host batch) (a : Artifacts)
        → mark_dispatched host batch w ≡ ok w'
        → Work n w (record w' { artifacts = a; batches = suc w'.batches })

  pub data Working (n : ℕ) (start : Directory host batch) : Directory host batch → Type 0 where
    here : Working n start start
    next : {w w' : Directory host batch} → Working n start w → Work n w w' → Working n start w'

  Work-Moves : {n : ℕ} {w w' : Directory host batch} → Work n w w' → Moves host batch n w w'
  Work-Moves {n} (ran w m node s le) = (run_node-Moves host batch n m node s le).at w
  Work-Moves {n} (lost_attempt w now s le) = reserve_attempt-Moves host batch n now s w le
  Work-Moves {n} (lost_marked w w' h) =
      let (free, e) = mark_dispatched-ok host batch w w' h in
      rw e (record { marked = λ m. ground (arith, free, m); bounded = λ b. b })
  Work-Moves {n} (lost_gathered w w' a h) = gather-Moves host batch n w w' a w'.retained h

  Working-Moves :
      {n : ℕ} {start w : Directory host batch} → Working n start w → Moves host batch n start w
  Working-Moves {n} {start} here = (Moves-order host batch n).same start
  Working-Moves {n} {start} (next r c) =
      (Moves-order host batch n).chain start _ _ (Working-Moves r) (Work-Moves c)

  -- The collector is called at most once for an incident, in a directory where it has not been called
  -- yet: however many workers run nodes on whatever checkpoints, and wherever they crash.
  pub batches-le-one :
      (n : ℕ) (start w : Directory host batch)
      → start.batches ≡ 0
      → Working n start w
      → w.batches ≤ 1
  batches-le-one n start w none_yet run =
      ground (arith, (Working-Moves run).marked (ground (arith, none_yet)))

  -- No more attempts than the step limit are ever recorded for an incident, in a directory that has no
  -- more to begin with: crashed nodes count, and no checkpoint that a worker comes back with renews the
  -- limit.
  pub attempts-le-max_steps :
      (n : ℕ) (start w : Directory host batch)
      → length start.attempts ≤ n
      → Working n start w
      → length w.attempts ≤ n
  attempts-le-max_steps n start w le run = (Working-Moves run).bounded le
