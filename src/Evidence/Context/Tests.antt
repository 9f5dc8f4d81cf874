-- ===== src/Evidence/Context/Tests.antt =====
-- A context of one item for src/payops/evidence/context.py.
use pay_ops.Base.{String, true, false, ◌≡◌, refl, some, [], ◌∷◌}
use pay_ops.Base.Result.{ok}
use pay_ops.Evidence.Context.{ReasoningContext, Sources, build_context}
use pay_ops.Evidence.Context.Bounds.{IsVerified, IsBuilt, build_context-IsBuilt}
use pay_ops.Remediation.Examples.{pod_status}

abbrev plain_sources : Sources String
plain_sources = record {
  verify_evidence = λ item. ok tt;
  facts_of = λ recent item. ok item.summary;
  signaled = λ table. [];
  json_length = λ c. 200;
  text_le = λ s t. true;
}

abbrev shown : ReasoningContext String
shown = record {
  entries = record { evidence = pod_status; facts = some "restarting"; facts_omitted = false } ∷ [];
  omitted_count = 0;
}

pod_status-shown : build_context plain_sources (pod_status ∷ []) "inc-1" 400 8 true [] ≡ ok shown
unfolding build_context
pod_status-shown = refl

build_context-IsBuilt_example :
    IsBuilt plain_sources (IsVerified plain_sources (pod_status ∷ []) "inc-1") 400 8 1 shown
build_context-IsBuilt_example =
    build_context-IsBuilt plain_sources (pod_status ∷ []) "inc-1" 400 8 true [] shown
      pod_status-shown
