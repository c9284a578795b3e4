-- ===== src/Incident/Scanner.antt =====
-- monitor-v2/web/incident_runtime.py: one cycle of `IncidentScanner` over the store. The columns of the store
-- are typed by its CHECKs, so that the walls against other shapes always pass; what the store, the clock and
-- the heartbeat answer in a cycle is its environment. The lock and the thread are left out: a cycle is one
-- step.
pub mod Stages
pub mod Writes
pub mod Cycle
pub mod Refines
pub mod Alarm
pub mod Counts
pub mod Outcome
pub mod Opening
pub mod Closing
use install_singboxhysteria.Incident.Gates.{
  discovery_buckets, close_clean_buckets, bucket_grace, row_of, pointed, if_readable, snapshot_of,
  read_snapshot, warming, last_complete_end, derive_rfs, discovery_gate, is_proven, judge,
  run_detect,
}
use install_singboxhysteria.Incident.Stage.{
  ErrorCode, evidence_read_failed, classify_failed, persist_failed, runtime_state_corrupt, Scanner,
  new_scanner, Heartbeat, heartbeat_fresh, heartbeat_other, heartbeat_error, Env, World, Result, ok,
  abort, Stage, pure, raise, or_raise, ◌>>=◌, ◌>>◌, modify, landing,
}
use install_singboxhysteria.Incident.Bits.{evidence_to_bits, unknown_to_bits}
use install_singboxhysteria.Incident.Anomaly.{is_empty}
use install_singboxhysteria.Incident.Detect.{detect}
use install_singboxhysteria.Incident.Bundle.{Bundle, bucket_span, min_baseline_buckets, max_buckets}
use install_singboxhysteria.Incident.Transactions.{
  incident_open_window, incident_update_window, incident_close_window, incident_runtime_mark,
}
use install_singboxhysteria.Incident.Verdict.{
  Category, Detection, Status, Classification, incident, vps_process_or_api, vps_outbound,
  reality_tcp_path, hysteria2_udp_path, common_inbound_client_office, destination_specific,
  insufficient_evidence, category_none,
}
use install_singboxhysteria.Common.{
  ℕ, [], ◌∷◌, none, some, true, false, Bool, Option, List, ◌/◌, not, if◌then◌else◌, ◌+◌, ◌==◌, ◌&&◌,
  ltb, leb, ◌-◌, all, is_some, ◌*◌, ◌%◌, max, ◌||◌, zero, suc, inl, inr, refl, ◌≡◌, arith,
}
use install_singboxhysteria.Incident.Store.{
  Row, Runtime, Store, Request, window_limit, clean_buckets,
}

-- A request with the verdict of this cycle.
unfoldable pub request_of : Classification → ℕ → ℕ → ℕ → Request
request_of c signal end_ count = record {
  category = c.category;
  last_signal = some signal;
  classified_end = some end_;
  buckets = count;
  evidence_bits = some (evidence_to_bits c.evidence);
  unknown_bits = some (unknown_to_bits c.unknowns);
}

abbrev pub is_incident : Status → Bool
is_incident incident = true
is_incident _ = false

-- `_open_row`.
unfoldable pub open_row : Env → ℕ → ℕ → Request → Stage ℕ
unfolding incident_open_window
open_row env analysis_start first q w =
    let o =
      incident_open_window env.rowid env.write_ok (some analysis_start) (some first) q
        (some env.store_now) w.store in
    (elim o.0 [ none ↦ abort persist_failed | some id ↦ ok id ], record w { store = o.1 })

abbrev pub point_at : ℕ → Scanner → Scanner
point_at id sc = record sc { open_incident_id = some id }

-- The window of a detection that is an incident.
unfoldable pub alarm_of : Env → ℕ → Detection → Stage (Option ℕ)
unfolding open_row request_of
alarm_of env last_end d = or_raise d.first_signal runtime_state_corrupt >>= λ first.
    or_raise d.last_signal runtime_state_corrupt >>= λ last.
    open_row env (first - min_baseline_buckets * bucket_span) first
      (request_of d.classification last last_end discovery_buckets)
    >>= λ id. modify (point_at id) >> pure (some last_end)

-- `_discovery_cycle`: none while it warms up.
unfoldable pub discovery_cycle : Env → ℕ → ℕ → Option ℕ → Stage (Option ℕ)
unfolding warming run_detect alarm_of
discovery_cycle env gate last_end rfs =
    if warming (some gate) (some last_end)
    then pure none
    else run_detect env (last_end - discovery_buckets * bucket_span) last_end rfs >>= λ d.
        if not (is_incident d.classification.status)
        then pure (some last_end)
        else alarm_of env last_end d

-- `int(round(span / BUCKET_SECONDS))`, to the even number where it lies in the middle.
unfoldable pub rounded : ℕ → ℕ
rounded span =
    let q = span / bucket_span in
    let r = span % bucket_span in
    if ltb (2 * r) bucket_span then q else if ltb bucket_span (2 * r) then q + 1 else q + q % 2

abbrev pub unpoint : Option ℕ → Bool → Scanner → Scanner
unpoint floor rearm sc = record sc {
  open_incident_id = none;
  discovery_floor = floor;
  rearm_required = rearm;
}

-- The row's own last snapshot.
unfoldable pub limit_request : Row → Request
limit_request r = record {
  category = r.category;
  last_signal = some r.last_signal;
  classified_end = some r.classified_end;
  buckets = r.buckets;
  evidence_bits = some r.evidence_bits;
  unknown_bits = some r.unknown_bits;
}

-- `_close_window_limit`.
unfoldable pub close_window_limit : Env → Row → Stage (Unit {0})
unfolding incident_close_window limit_request
close_window_limit env r =
    landing
      (incident_close_window env.write_ok r.id (limit_request r) window_limit (some env.store_now))
    >> modify (unpoint none true)

-- `_close_clean`, which leaves the cached re-arm gate as it is.
abbrev pub unpoint_clean : ℕ → Scanner → Scanner
unpoint_clean signal sc = record sc { open_incident_id = none; discovery_floor = some signal }

unfoldable pub close_clean : Env → Row → Request → ℕ → Stage (Unit {0})
unfolding incident_close_window
close_clean env r q signal =
    landing (incident_close_window env.write_ok r.id q clean_buckets (some env.store_now))
    >> modify (unpoint_clean signal)

-- `_advance_last_signal`.
unfoldable pub advance_last_signal : Row → Detection → Stage ℕ
advance_last_signal r d =
    if is_empty d.indices
    then pure r.last_signal
    else or_raise d.last_signal classify_failed >>= λ last. pure (max r.last_signal last)

abbrev pub category_index : Category → ℕ
category_index vps_process_or_api = 0
category_index vps_outbound = 1
category_index reality_tcp_path = 2
category_index hysteria2_udp_path = 3
category_index common_inbound_client_office = 4
category_index destination_specific = 5
category_index insufficient_evidence = 6
category_index category_none = 7

-- `_unchanged`.
unfoldable pub unchanged : Row → Classification → ℕ → ℕ → ℕ → Bool
unchanged r c signal last_end count =
    count == r.buckets
    && (last_end == r.classified_end
        && (category_index c.category == category_index r.category
            && (signal == r.last_signal
                && (evidence_to_bits c.evidence == r.evidence_bits
                    && unknown_to_bits c.unknowns == r.unknown_bits))))

-- `all(i < count - CLOSE_CLEAN_BUCKETS for i in indices)`.
abbrev pub clean_tail : ℕ → List ℕ → Bool
clean_tail count indices = all (λ (i : ℕ). ltb (i + close_clean_buckets) count) indices

-- The verdict of this cycle, settled in place or closed.
unfoldable pub settle_open : Env → Row → ℕ → ℕ → Detection → ℕ → Stage (Option ℕ)
unfolding close_clean unchanged incident_update_window request_of
settle_open env r last_end count d signal =
    let q = request_of d.classification signal last_end count in
    if clean_tail count d.indices
    then close_clean env r q signal >> pure (some last_end)
    else if unchanged r d.classification signal last_end count
    then pure (some last_end)
    else landing (incident_update_window env.write_ok r.id q (some env.store_now))
      >> pure (some last_end)

-- `_open_cycle`: none where the window limit closed the row.
unfoldable pub open_cycle : Env → Row → ℕ → Option ℕ → Stage (Option ℕ)
unfolding rounded close_window_limit run_detect advance_last_signal settle_open
open_cycle env r last_end rfs =
    let count = rounded (last_end - r.analysis_start) in
    if ltb last_end r.analysis_start || count == 0
    then raise runtime_state_corrupt
    else if ltb max_buckets count
    then close_window_limit env r >> pure none
    else run_detect env r.analysis_start last_end rfs >>= λ d.
        advance_last_signal r d >>= λ signal. settle_open env r last_end count d signal

abbrev pub set_warmup : Bool → Scanner → Scanner
set_warmup b sc = record sc { warmup_gated = b }

abbrev pub note_evaluated : Option ℕ → Scanner → Scanner
note_evaluated none sc = sc
note_evaluated (some end_) sc = record sc { last_evaluated_end = some end_ }

abbrev pub or_persisted : Option ℕ → ℕ → ℕ
or_persisted none n = n
or_persisted (some m) n = m

-- `_mark`.
unfoldable pub mark : Env → Option ℕ → Option ℕ → Runtime → Stage (Unit {0})
unfolding incident_runtime_mark
mark env evaluated rfs s =
    landing
      (incident_runtime_mark env.mark_ok (some (or_persisted evaluated s.evaluated_end)) (some rfs))
    >> modify (note_evaluated evaluated)

-- The phase's gate after the cycle, from what the scanner holds.
unfoldable pub regate : ℕ → Scanner → Scanner
unfolding warming
regate last_end sc = record sc {
  warmup_gated = not sc.rearm_required && warming sc.discovery_floor (some last_end);
}

-- Which cycle it is: of the open row, of discovery, or none under the re-arm gate.
unfoldable pub evaluate : Env → Option Row → Option ℕ → ℕ → Option ℕ → Stage (Option ℕ)
unfolding open_cycle discovery_cycle
evaluate env (some r) gate last_end rfs = open_cycle env r last_end rfs
evaluate env none none last_end rfs = pure none
evaluate env none (some gate) last_end rfs = discovery_cycle env gate last_end rfs

-- The rest of a cycle, after the gates are read.
unfoldable pub cycle_at :
    Env → Runtime → Option Row → Option ℕ → Option ℕ → Option ℕ → Stage (Unit {0})
unfolding evaluate mark regate
cycle_at env s r gate rfs none = modify (set_warmup true) >> mark env none rfs s
cycle_at env s r gate rfs (some last_end) = evaluate env r gate last_end rfs >>= λ evaluated.
    modify (regate last_end) >> mark env evaluated rfs s

-- The cycle on what it has read: nothing before the activation.
unfoldable pub cycle_on : Env → Runtime × Option Row → Stage (Unit {0})
unfolding discovery_gate derive_rfs cycle_at last_complete_end
cycle_on env p =
    if p.0.activation_floor == 0
    then pure tt
    else discovery_gate p.0 >>= λ gate. derive_rfs env p.0.fresh_since >>= λ rfs.
        cycle_at env p.0 p.1 gate rfs (last_complete_end env.now p.0.activation_floor)

-- `_run_one_cycle`.
unfoldable pub run_one_cycle : Env → Stage (Unit {0})
unfolding read_snapshot cycle_on
run_one_cycle env = read_snapshot env >>= cycle_on env

unfoldable pub note_success : Scanner → Scanner
note_success sc = record sc {
  cycles_completed = sc.cycles_completed + 1;
  last_cycle_failed = false;
  last_error_code = none;
}

unfoldable pub note_failure : ErrorCode → Scanner → Scanner
note_failure e sc = record sc {
  cycles_failed = sc.cycles_failed + 1;
  last_cycle_failed = true;
  last_error_code = some e;
}

unfoldable pub note : Result (Unit {0}) → Scanner → Scanner
unfolding note_success note_failure
note (ok t) = note_success
note (abort e) = note_failure e

-- `run_once`.
unfoldable pub run_once : Env → World → World
unfolding run_one_cycle note
run_once env w =
    if w.scanner.enabled
    then (let o = run_one_cycle env w in record o.1 { scanner = note o.0 o.1.scanner })
    else w

pub data Phase : Type 0 where
  phase_warmup phase_idle phase_open phase_rearm phase_degraded : Phase

-- `_phase`.
unfoldable pub phase : Scanner → Phase
phase sc =
    if not sc.enabled
    then phase_warmup
    else if sc.last_cycle_failed
    then phase_degraded
    else if is_some sc.open_incident_id
    then phase_open
    else if sc.rearm_required
    then phase_rearm
    else if sc.warmup_gated
    then phase_warmup
    else phase_idle
