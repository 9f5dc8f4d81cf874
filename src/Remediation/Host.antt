-- ===== src/Remediation/Host.antt =====
-- What src/payops/remediation/broker.py is given by its host: the clock, the `TrustedBackend`, and
-- the database, on which other workers act between any two steps of the broker.
use pay_ops.Base.Table.{Codec}
use pay_ops.Base.{String, Option, Eq, Time}
use pay_ops.Base.Result.{Result}
use pay_ops.Policy.Records.{Action, Principal}
use pay_ops.Policy.{PolicyContext}
use pay_ops.Remediation.Records.{ActionRecord, EffectReceipt}
use pay_ops.Remediation.Store.{Db}
use pay_ops.Remediation.Store.Claims.{Run}

-- The world outside the broker, and the database that it shares with other workers.
pub record Env (World Text : Type 0) : Type 0 where
  pub world : World
  pub db : Db Text

module _ (World : Type 0) {Text : Type 0} ⦃text_eq : Eq Text⦄ (digest : Action → String)
    (codec : Codec ActionRecord Text) where
  pub record Host : Type 0 where
    -- `self.clock()` and `utc_now()`
    pub clock : Env World Text → Time × Env World Text
    -- `TrustedBackend`
    pub principal : String → Env World Text → Result (Option Principal) × Env World Text
    pub context : Action → String → Env World Text → Result PolicyContext × Env World Text
    pub execute : Action → String → Env World Text → Result EffectReceipt × Env World Text
    -- While the broker waits, the tables change only by other workers' calls of the store.
    pub clock-Run : (e : Env World Text) → Run digest codec e.db (clock e).1.db
    pub principal-Run :
        (s : String) (e : Env World Text) → Run digest codec e.db (principal s e).1.db
    pub context-Run :
        (a : Action) (s : String) (e : Env World Text) → Run digest codec e.db (context a s e).1.db
    pub execute-Run :
        (a : Action) (s : String) (e : Env World Text) → Run digest codec e.db (execute a s e).1.db
