-- ===== src/Sandbox/Samples/Tests.antt =====
-- One sample reserved, refused, completed and replayed in src/payops/sandbox/runtime.py.
use pay_ops.Base.{◌≤◌, String, ◌≡◌, refl, none, some, [], ◌∷◌, arith}
use pay_ops.Base.Result.{ok, err, http}
use pay_ops.Sandbox.Samples.{
  Sample, Processor, Region, Method, ServiceRole, Status, SimulationResult, SampleStore, reserve,
  complete,
}
use pay_ops.Sandbox.Samples.Reservations.{
  Run, Spares, SparingRun, capacity-Run, reserve-exclusive, reserve-replayed,
}

abbrev sample : Sample
sample = record {
  sample_id = "synthetic-1";
  processor = Processor.a;
  region = Region.us;
  payment_method = Method.credit;
}

abbrev other_sample : Sample
other_sample = record sample { sample_id = "synthetic-2" }

abbrev accepted_one : SimulationResult
accepted_one = record {
  sample_id = "synthetic-1";
  role = ServiceRole.payments;
  status = Status.accepted;
}

abbrev fingerprint : Sample → String
fingerprint s = s.sample_id

abbrev empty_store : SampleStore
empty_store = record { capacity = 1; entries = [] }

abbrev pending_store : SampleStore
pending_store = record { capacity = 1; entries = ("synthetic-1", ("synthetic-1", none)) ∷ [] }

abbrev done_store : SampleStore
done_store = record {
  capacity = 1;
  entries = ("synthetic-1", ("synthetic-1", some accepted_one)) ∷ [];
}

sample-reserved : reserve fingerprint sample empty_store ≡ (ok none, pending_store)
unfolding reserve
sample-reserved = refl

sample-completed : complete "synthetic-1" accepted_one pending_store ≡ (ok tt, done_store)
unfolding complete
sample-completed = refl

capacity-Run_example : 0 ≤ 1
capacity-Run_example =
    capacity-Run fingerprint {start = empty_store} {s = empty_store} Run.here (omega arith)

reserve-exclusive_example : (reserve fingerprint sample pending_store).0 ≡ err (http 409)
reserve-exclusive_example =
    reserve-exclusive fingerprint sample sample empty_store pending_store pending_store
      sample-reserved SparingRun.here refl

-- Another sample meets the full store in between.
reserve-replayed_example :
    reserve fingerprint sample (reserve fingerprint other_sample done_store).1
    ≡ (ok (some accepted_one), (reserve fingerprint other_sample done_store).1)
reserve-replayed_example =
    reserve-replayed fingerprint sample accepted_one empty_store pending_store pending_store
      done_store (reserve fingerprint other_sample done_store).1 sample-reserved SparingRun.here
      sample-completed (SparingRun.next SparingRun.here (Spares.reserved done_store other_sample))
