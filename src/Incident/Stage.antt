-- ===== src/Incident/Stage.antt =====
-- monitor-v2/web/incident_runtime.py: the state of `IncidentScanner`, what a cycle of it meets, and the
-- stages that a cycle is made of.
use install_singboxhysteria.Incident.Bundle.{Bundle}
use install_singboxhysteria.Common.{ℕ, none, some, true, false, Bool, Option, List, if◌then◌else◌}
use install_singboxhysteria.Incident.Store.{Io, Row, Store}

pub data ErrorCode : Type 0 where
  evidence_read_failed classify_failed persist_failed runtime_state_corrupt : ErrorCode

pub record Scanner : Type 0 where
  pub enabled : Bool
  pub cycles_completed : ℕ
  pub cycles_failed : ℕ
  pub last_error_code : Option ErrorCode
  pub last_cycle_failed : Bool
  pub last_evaluated_end : Option ℕ
  pub open_incident_id : Option ℕ
  pub rearm_required : Bool
  pub warmup_gated : Bool
  pub discovery_floor : Option ℕ

unfoldable pub new_scanner : Scanner
new_scanner = record {
  enabled = false;
  cycles_completed = 0;
  cycles_failed = 0;
  last_error_code = none;
  last_cycle_failed = false;
  last_evaluated_end = none;
  open_incident_id = none;
  rearm_required = false;
  warmup_gated = true;
  discovery_floor = none;
}

-- `journal_status`: the token is fresh, another one, or the read raises.
pub data Heartbeat : Type 0 where
  heartbeat_fresh heartbeat_other heartbeat_error : Heartbeat

-- What a cycle meets: whether the snapshot can be read and the writes succeed, the clock at its two
-- readings and in the store, the heartbeat, and the classifier's bundle for a window.
pub record Env : Type 0 where
  pub snapshot_ok : Bool
  pub write_ok : Io
  pub mark_ok : Io
  pub now_fresh : ℕ
  pub now : ℕ
  pub store_now : ℕ
  pub heartbeat : Heartbeat
  pub bundle : ℕ → ℕ → Bool → Option Bundle
  pub rowid : List Row → ℕ

pub record World : Type 0 where
  pub scanner : Scanner
  pub store : Store

pub data Result (A : Type 0) : Type 0 where
  ok : A → Result A
  abort : ErrorCode → Result A

-- A stage of a cycle: `abort` is `_CycleAbort`, after which the writes that landed stay.
abbrev pub Stage : Type 0 → Type 0
Stage A = World → Result A × World

module _ {A : Type 0} where
  abbrev pub pure : A → Stage A
  pure a w = (ok a, w)

  abbrev pub raise : ErrorCode → Stage A
  raise e w = (abort e, w)

  abbrev pub or_raise : Option A → ErrorCode → Stage A
  or_raise none e = raise e
  or_raise (some a) e = pure a

infixl 5 ◌>>=◌ ◌>>◌
abbrev pub ◌>>=◌ : {A B : Type 0} → Stage A → (A → Stage B) → Stage B
◌>>=◌ m f w = let o = m w in elim o.0 [ ok a ↦ f a o.1 | abort e ↦ (abort e, o.1) ]

abbrev pub ◌>>◌ : {A B : Type 0} → Stage A → Stage B → Stage B
m >> k = m >>= λ _. k

abbrev pub modify : (Scanner → Scanner) → Stage (Unit {0})
modify f w = (ok tt, record w { scanner = f w.scanner })

-- A call of the store that answers whether it landed.
abbrev pub landing : (Store → Bool × Store) → Stage (Unit {0})
landing f w =
    let o = f w.store in (if o.0 then ok tt else abort persist_failed, record w { store = o.1 })
