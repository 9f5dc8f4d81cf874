-- ===== src/Remediation/Broker/Session.antt =====
-- Sequences of calls of src/payops/remediation/broker.py, and what they do to the outside.
use pay_ops.Base.Table.{Codec}
use pay_ops.Base.{◌≤◌, String, List, [], ◌∷◌, Eq, arith}
use pay_ops.Base.Result.{Result, ok, err}
use pay_ops.Base.Action.{Exec}
use pay_ops.Base.Action.Triple.{Holds, Triple}
use pay_ops.Policy.Records.{OperationMode}
use pay_ops.Policy.External.{Platform}
use pay_ops.Policy.{action_digest}
use pay_ops.Remediation.Records.{ActionRecord}
use pay_ops.Remediation.Store.Invariant.{IsValid}
use pay_ops.Remediation.Store.Claims.{claims-le-one, here}
use pay_ops.Remediation.Host.{Env, Host}
use pay_ops.Remediation.Broker.{State, propose, approve, execute}
use pay_ops.Remediation.Broker.Quiet.{propose-IsQuiet, approve-IsQuiet}
use pay_ops.Remediation.Broker.Payments.{dispatched, IsSafe, IsSafe-quiet}
use pay_ops.Remediation.Broker.Once.{execute-IsSafe}

-- A request to the broker.
pub data Request (Json : Type 0) : Type 0 where
  proposing : Json → String → Request Json
  approving executing : String → String → Request Json

module _ {Json World Text : Type 0} ⦃text_eq : Eq Text⦄ (platform : Platform Json)
    (codec : Codec ActionRecord Text) (host : Host World (action_digest platform) codec)
    (mode : OperationMode) where
  abbrev pub serve : Request Json → Exec (State World Text) ActionRecord
  serve (proposing value subject) = propose platform codec host mode value subject
  serve (approving id subject) = approve platform codec host mode id subject
  serve (executing id subject) = execute platform codec host mode id subject

  -- The state after any requests in turn, those that raise included.
  unfoldable pub serve_all : List (Request Json) → State World Text → State World Text
  serve_all [] s = s
  serve_all (r ∷ rs) s = serve_all rs (serve r s).1

  serve-IsSafe :
      (r : Request Json)
      → Triple
          (IsSafe platform codec host mode)
          (serve r)
          (λ _. IsSafe platform codec host mode)
          (IsSafe platform codec host mode)
  serve-IsSafe (proposing value subject) =
      IsSafe-quiet platform codec host mode (propose-IsQuiet platform codec host mode value subject)
  serve-IsSafe (approving id subject) =
      IsSafe-quiet platform codec host mode (approve-IsQuiet platform codec host mode id subject)
  serve-IsSafe (executing id subject) = execute-IsSafe platform codec host mode id subject

  kept :
      (x : Result ActionRecord × State World Text)
      → Holds (λ _. IsSafe platform codec host mode) (IsSafe platform codec host mode) x
      → IsSafe platform codec host mode x.1
  kept (ok a, s) h = h
  kept (err e, s) h = h

  serve_all-IsSafe :
      (rs : List (Request Json)) (s : State World Text)
      → IsSafe platform codec host mode s
      → IsSafe platform codec host mode (serve_all rs s)
  unfolding serve_all
  serve_all-IsSafe [] s h = h
  serve_all-IsSafe (r ∷ rs) s h =
      serve_all-IsSafe rs (serve r s).1 (kept (serve r s) ((serve-IsSafe r).at s h))

  -- From tables that satisfy the invariant, the broker hands the backend at most one effect for
  -- each action id, whatever requests it serves and whichever of them raise, and whatever calls of
  -- the store other workers make between its steps.
  pub effects_once :
      (requests : List (Request Json)) (env : Env World Text) (id : String)
      → IsValid (action_digest platform) codec env.db
      → dispatched id (serve_all requests (record { env = env; effects = [] })).effects ≤ 1
  effects_once requests env id v =
      let after = serve_all requests (record { env = env; effects = [] }) in
      let safe =
        serve_all-IsSafe requests (record { env = env; effects = [] })
          (record { valid = v; paid = λ i. omega arith }) in
      omega (
        arith,
        safe.paid id,
        claims-le-one (action_digest platform) codec after.env.db after.env.db id safe.valid here,
      )
