-- ===== src/Orchestrator/Investigation/Lifecycle.antt =====
-- What starting an investigation in src/payops/orchestrator/graph.py promises.
use pay_ops.Base.{
  ℕ, true, false, ◌⊎◌, ◌≡◌, ◌↔◌, refl, sym, ap, ◌∙◌, subst, Option, none, some, Eq, ◌!=◌,
  ne-eq-false, string_eq, Time, arith, Bool-cases, inl, inr,
}
use pay_ops.Base.Result.{
  Result, ok, err, value_error, raise_if, raise_if-then, raise_if-eq-ok, ok_inj, ◌>>◌,
}
use pay_ops.Base.Table.{Codec}
use pay_ops.Contracts.{Incident, report_mode_eq, incident_valid}
use pay_ops.Orchestrator.Investigation.States.{
  Collection, InvestigationBudget, InvestigationState, budget_out_of_range, unpack,
}
use pay_ops.Orchestrator.Investigation.Nodes.{Moment, NodeHost, Node}
use pay_ops.Orchestrator.Investigation.Steps.{Directory}
use pay_ops.Orchestrator.Investigation.Progress.{IsUnderway, IsSound, IsReliable}
use pay_ops.Orchestrator.Investigation.Completion.{IsPaused, IsFinished}
use pay_ops.Orchestrator.Investigation.Termination.{triage-Ends}
use pay_ops.Orchestrator.Investigation.Worker.{
  Worker, initial_state, same_settings, collection_profile_eq, ranking_method_eq, invoke_read,
  invoke_checked, invoke, start,
}

module _ {Artifacts Text : Type 0} ⦃incident_eq : Eq Incident⦄ (host : NodeHost Artifacts Text)
    (batch : Codec Collection Text) (codec : Codec InvestigationState Text)
    (clock : ℕ → Moment) where
  initial-IsUnderway :
      (k : Worker) (i : Incident) (b : InvestigationBudget) (now : Time) (w : Directory host batch)
      → IsSound host batch w
      → IsUnderway host batch i b (initial_state k i b now) w
  initial-IsUnderway k i b now w sound = record {
    incident = refl;
    budget = refl;
    unreported = refl;
    receipts = refl;
    steps = omega arith;
    tool_calls = omega arith;
    backend_reads = omega arith;
    citable = record {
      distinct_evidence = tt;
      own_evidence = tt;
      distinct_causes = tt;
      grounded = tt;
    };
    sound = sound;
  }

  -- An investigation without a reasoner that starts on no checkpoint, with the incident's lock held,
  -- always ends, and its reservations keep to the budget. It returns a state in phase `FINISHED`, whose
  -- report is about the incident and cites its evidence by the rules of reports; only for a worker that
  -- pauses before ranking it may return one in phase `EVIDENCE_COLLECTED` instead, of the incident,
  -- without an outcome, hypotheses or a report. The incident is valid and the numbers of the budget are
  -- in their ranges; the collector and the checks of artifacts fail only with errors that the nodes
  -- handle, and the collector gives observations distinct identifiers; attempt files that earlier
  -- workers left are numbered from 1, at most 16, and a retained collection has distinct observations.
  pub start-IsFinished :
      (k : Worker) (i : Incident) (b : InvestigationBudget) (now : Time) (w : Directory host batch)
      (valid : incident_valid i ≡ ok tt) (in_range : budget_out_of_range b ≡ false)
      → IsReliable host batch
      → host.reasoner ≡ none
      → IsSound host batch w
      → (s : InvestigationState) × (w' : Directory host batch) × (start host batch codec clock k
            none i b now w
          ≡ (ok s, w'))
        × (IsFinished i b s ⊎ (k.pause_before_ranking ≡ true) × IsPaused i b s)
  unfolding start invoke
  start-IsFinished k i b now w valid in_range reliable baseline sound =
      let e =
        triage-Ends host batch i b valid in_range codec clock k.pause_before_ranking reliable
          baseline 11 (initial_state k i b now) w (initial-IsUnderway k i b now w sound) refl in
      (e.state, e.world, rw e.returned (ap (λ x. (x, e.world)) e.stored), e.done)

  -- The saved investigation has the settings of the worker.
  pub record Matches (k : Worker) (s : InvestigationState) : Type 0 where
    pub mode : s.mode ≡ k.mode
    pub collection_profile : s.collection_profile ≡ k.collection_profile
    pub ranking_profile : s.ranking_profile ≡ k.ranking_profile
    pub ranking_method : s.ranking_method ≡ k.ranking_method

  same_settings_iff :
      (k : Worker) (s : InvestigationState) → (same_settings k s ≡ ok tt) ↔ Matches k s
  unfolding same_settings
  same_settings_iff k s =
      let first = raise_if-then (s.mode != k.mode) value_error _ in
      let second = raise_if-then (s.collection_profile != k.collection_profile) value_error _ in
      let third = raise_if-then (s.ranking_profile != k.ranking_profile) value_error _ in
      let fourth = raise_if-eq-ok (s.ranking_method != k.ranking_method) value_error in
      (
        λ h.
            let (a, h) = first.0 h in
            let (c, h) = second.0 h in
            let (d, h) = third.0 h in
            record {
              mode = (ne-eq-false s.mode k.mode).0 a;
              collection_profile = (ne-eq-false s.collection_profile k.collection_profile).0 c;
              ranking_profile = (ne-eq-false s.ranking_profile k.ranking_profile).0 d;
              ranking_method = (ne-eq-false s.ranking_method k.ranking_method).0 (fourth.0 h);
            },
        λ m. first.1 (
          (ne-eq-false s.mode k.mode).1 m.mode,
          second.1 (
            (ne-eq-false s.collection_profile k.collection_profile).1 m.collection_profile,
            third.1 (
              (ne-eq-false s.ranking_profile k.ranking_profile).1 m.ranking_profile,
              fourth.1 ((ne-eq-false s.ranking_method k.ranking_method).1 m.ranking_method),
            ),
          ),
        ),
      )

  -- Starting an incident whose investigation is saved never runs a node, writes a file or renews the
  -- budget: the files stay as they are, and it returns a state exactly when that is the saved state, with
  -- the worker's settings and of the same incident.
  pub start_saved_iff :
      (k : Worker) (value : Text) (due : Option Node) (i : Incident) (b : InvestigationBudget)
      (now : Time) (w : Directory host batch) (s : InvestigationState)
      → ((start host batch codec clock k (some (value, due)) i b now w).1 ≡ w)
        × (((start host batch codec clock k (some (value, due)) i b now w).0 ≡ ok s)
            ↔ (unpack codec value ≡ ok s) × Matches k s × (s.incident ≡ i))
  unfolding start invoke
  start_saved_iff k value due i b now w s = from_read (unpack codec value)
    where
      of_incident :
          (x : InvestigationState)
          → ((raise_if (x.incident != i) value_error >> ok x) ≡ ok s) ↔ (x ≡ s) × (s.incident ≡ i)
      of_incident x = elim (Bool-cases (x.incident != i)) [
        | inl e ↦ rw e (
          λ z. absurd (cc),
          λ z. absurd (
              cc (
                e,
                (ne-eq-false x.incident i).1
                    (ap (λ (y : InvestigationState). y.incident) z.0 ∙ z.1),
              )),
        )
        | inr e ↦ rw e (
          λ z. (
            ok_inj z,
            subst (λ (y : InvestigationState). y.incident ≡ i) (ok_inj z)
                ((ne-eq-false x.incident i).0 e),
          ),
          λ z. ap ok z.0,
        )
      ]

      from_check :
          (x : InvestigationState) (c : Result (Unit {0}))
          → same_settings k x ≡ c
          → ((invoke_checked host batch codec clock k.pause_before_ranking c x value due
                (some (initial_state k i b now))
                w).1
              ≡ w)
            × (((invoke_checked host batch codec clock k.pause_before_ranking c x value due
                    (some (initial_state k i b now))
                    w).0
                  ≡ ok s)
                ↔ (◌≡◌ {A = Result InvestigationState} (ok x) (ok s))
                  × Matches k s
                  × (s.incident ≡ i))
      from_check x (err e) h = (
        refl,
        (
          λ z. absurd (cc),
          λ z.
              absurd (cc (h, (same_settings_iff k x).1 (subst (Matches k) (sym (ok_inj z.0)) z.1))),
        ),
      )
      from_check x (ok tt) h = (
        refl,
        (
          λ z.
              let (e, same) = (of_incident x).0 z in
              (ap ok e, subst (Matches k) e ((same_settings_iff k x).0 h), same),
          λ z. (of_incident x).1 (ok_inj z.0, z.2),
        ),
      )

      from_read :
          (r : Result InvestigationState)
          → ((invoke_read host batch codec clock k r value due (some (initial_state k i b now)) w).1
              ≡ w)
            × (((invoke_read host batch codec clock k r value due
                    (some (initial_state k i b now))
                    w).0
                  ≡ ok s)
                ↔ (r ≡ ok s) × Matches k s × (s.incident ≡ i))
      from_read (err e) = (refl, (λ z. absurd (cc), λ z. absurd (cc (z.0))))
      from_read (ok x) = from_check x (same_settings k x) refl
