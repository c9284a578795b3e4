-- ===== src/Incident/Startup.antt =====
-- monitor-v2/web/incident_runtime.py: `IncidentScanner._activate` and `start`. The thread that `start` spawns is
-- a flag; its cycles are the steps of `run_once`.
pub mod Sound
use install_singboxhysteria.Incident.Stage.{
  Env, World, Scanner, Heartbeat, heartbeat_fresh, heartbeat_other, heartbeat_error,
}
use install_singboxhysteria.Incident.Gates.{warming, last_complete_end, if_readable, failed_read}
use install_singboxhysteria.Incident.Store.{Store, Runtime, is_none}
use install_singboxhysteria.Incident.Transactions.{
  incident_activate, incident_runtime_mark, next_boundary,
}
use install_singboxhysteria.Common.{
  ℕ, Bool, Option, none, some, true, false, not, ◌&&◌, ◌==◌, if◌then◌else◌, [], ◌∷◌, zero, suc, inl,
  inr, refl, ◌≡◌, arith, ◌||◌,
}

-- The continuity that a start restarts: at the floor with a fresh heartbeat; the outer none is a read that
-- raises.
abbrev pub restart_rfs : Heartbeat → ℕ → Option (Option ℕ)
restart_rfs heartbeat_fresh floor = some (some floor)
restart_rfs heartbeat_other floor = some none
restart_rfs heartbeat_error floor = none

abbrev pub positive : ℕ → Option ℕ
positive n = if n == 0 then none else some n

-- What the scanner takes from the runtime row that it has read.
unfoldable pub enable : Env → Runtime → Scanner → Scanner
unfolding warming last_complete_end
enable env s sc = record sc {
  enabled = true;
  rearm_required = s.rearm_required;
  last_cycle_failed = false;
  last_error_code = none;
  last_evaluated_end = positive s.evaluated_end;
  discovery_floor = s.discovery_floor;
  warmup_gated =
      not s.rearm_required
      && warming s.discovery_floor (last_complete_end env.now s.activation_floor);
  open_incident_id = s.open_id;
}

-- A runtime row that carries no floor, or no discovery floor without the re-arm gate, leaves it dark.
abbrev pub is_dark : Runtime → Bool
is_dark s = s.activation_floor == 0 || (not s.rearm_required && is_none s.discovery_floor)

-- After the mark.
unfoldable pub enabling : Env → Runtime → Scanner → Bool × Store → Bool × World
unfolding enable
enabling env s sc r =
    let dark : World = record { scanner = sc; store = r.1 } in
    let lit : World = record { scanner = enable env s sc; store = r.1 } in
    if r.0 && not (is_dark s) then (true, lit) else (false, dark)

-- The mark of the restarted continuity, from the runtime row that was read.
unfoldable pub restart : Env → Runtime → Scanner → Store → Option (Option ℕ) → Bool × World
unfolding enabling
restart env s sc st none = (false, record { scanner = sc; store = st })
restart env s sc st (some since) =
    enabling env s sc (incident_runtime_mark env.mark_ok (some s.evaluated_end) (some since) st)

unfoldable pub restart_from : Env → ℕ → Scanner → Store → Option Runtime → Bool × World
unfolding restart failed_read
restart_from env floor sc st none = (false, record { scanner = sc; store = failed_read env st })
restart_from env floor sc st (some s) = restart env s sc st (restart_rfs env.heartbeat floor)

-- After the floor.
unfoldable pub activated : Env → ℕ → Scanner → Bool × Store → Bool × World
unfolding restart_from
activated env floor sc (false, st) = (false, record { scanner = sc; store = st })
activated env floor sc (true, st) =
    restart_from env floor sc st (if_readable (env.snapshot_ok && st.enabled) st.runtime)

-- `_activate`.
unfoldable pub activate : Env → World → Bool × World
unfolding activated next_boundary incident_activate
activate env w =
    let floor = next_boundary env.now_fresh in
    activated env floor w.scanner (incident_activate env.write_ok (some floor) w.store)

-- The scanner with its thread and its stop event.
pub record Process : Type 0 where
  pub world : World
  pub has_thread : Bool
  pub is_stopped : Bool

-- `start`.
unfoldable pub start : Env → Process → Process
unfolding activate
start env p =
    let o = activate env p.world in
    if p.has_thread || p.is_stopped then p else record p { world = o.1; has_thread = o.0 }
