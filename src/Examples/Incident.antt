-- ===== src/Examples/Incident.antt =====
-- The incident classifier, store and scanner on small inputs.
use install_singboxhysteria.Incident.Transactions.{incident_close_window, close_with}
use install_singboxhysteria.Incident.Scanner.Closing.{Evolves, run_once-Evolves}
use install_singboxhysteria.Incident.Lifecycle.Moves.{IsConsistent-at}
use install_singboxhysteria.Incident.Scanner.Refines.{run_once-refines}
use install_singboxhysteria.Incident.Scanner.Opening.{IsOpened, run_once-opens}
use install_singboxhysteria.Incident.Detect.Sound.{IsSound, detect-IsSound}
use install_singboxhysteria.Incident.Anomaly.{Flags, flags_of}
use install_singboxhysteria.Incident.Lifecycle.History.{Whole, Keeps, apply-Keeps, apply-Whole}
use install_singboxhysteria.Incident.Store.{
  Io, clean_buckets, Runtime, born_inert, Store, Row, runtime_ok, open_ids, row_ok,
}
use install_singboxhysteria.Incident.Verdict.Sound.{Names, attribute_iff}
use install_singboxhysteria.Incident.Scanner.Outcome.{Told, run_once-Told}
use install_singboxhysteria.Incident.Gates.{row_of}
use install_singboxhysteria.Incident.Scanner.{limit_request, run_once, run_one_cycle}
use install_singboxhysteria.Incident.Lifecycle.{IsConsistent, AtMostOne, life}
use install_singboxhysteria.Incident.Verdict.{Context, vps_outbound}
use install_singboxhysteria.Incident.Bundle.{Bundle, Sample, reader_fresh}
use install_singboxhysteria.Incident.Detect.{detect}
use install_singboxhysteria.Incident.Startup as Startup
use install_singboxhysteria.Incident.Lifecycle.Calls.{
  Call, close_window, activate, rearm, apply, apply-refines,
}
use install_singboxhysteria.Incident.Stage.{heartbeat_fresh, Env, World, new_scanner}
use install_singboxhysteria.Common.{
  ℕ, [], false, ◌+◌, ◌*◌, range_from, map, leb, ◌∷◌, some, true, refl, ◌≡◌, List, ◌⊎◌, none,
}

abbrev sample_at : ℕ → Sample
sample_at t = record {
  epoch = t;
  api_is_stale = leb 840000 t;
  collector_is_stale = false;
  total_active = 8;
  reality_active = 4;
  hysteria2_active = 4;
  other_active = 0;
}

abbrev window : Bundle
window = record {
  start = 600000;
  end_ = 900000;
  degraded = false;
  reader = reader_fresh;
  samples = map (λ i. sample_at (600000 + i * 10000)) (range_from 0 30);
  device_rows = [];
  probe_rows = [];
  journal_rows = [];
  audit_rows = [];
}

abbrev flags : Flags
flags = flags_of []

abbrev context : Context
context = record {
  probe_seen = true;
  negatives_provable = true;
  generic_healthy = true;
  api_is_healthy = true;
}

abbrev new_store : Store
new_store = record {
  enabled = true;
  rows = [];
  runtime = some born_inert;
  persisted_total = 0;
  rejected_total = 0;
  failure_count = 0;
  is_degraded = false;
}

abbrev watching_row : Runtime
watching_row = record born_inert { activation_floor = 600000; discovery_floor = some 600000 }

abbrev watching_store : Store
watching_store = record new_store { runtime = some watching_row }

abbrev first_rowid : List Row → ℕ
first_rowid [] = 1
first_rowid (r ∷ rows) = r.id + 1

abbrev all_succeed : Io
all_succeed = record { reads = true; writes_rows = true; writes_runtime = true; commits = true }

-- The second statement fails.
abbrev half : Io
half = record all_succeed { writes_runtime = false }

abbrev env : Env
env = record {
  snapshot_ok = true;
  write_ok = all_succeed;
  mark_ok = all_succeed;
  now_fresh = 590000;
  now = 915000;
  store_now = 915000;
  heartbeat = heartbeat_fresh;
  bundle = λ start last_end proven. some window;
  rowid = first_rowid;
}

abbrev enabled_world : World
enabled_world = record { scanner = record new_scanner { enabled = true }; store = watching_store }

abbrev new_world : World
new_world = record { scanner = new_scanner; store = new_store }

new_store-IsConsistent : IsConsistent new_store
unfolding born_inert runtime_ok open_ids
new_store-IsConsistent = IsConsistent-at new_store born_inert refl refl refl refl

watching_store-IsConsistent : IsConsistent watching_store
unfolding born_inert runtime_ok open_ids
watching_store-IsConsistent = IsConsistent-at watching_store watching_row refl refl refl refl

attribute_example : Names flags context
attribute_example = attribute_iff flags context

detect_example : IsSound window (detect window)
detect_example = detect-IsSound window

apply-refines_example :
    IsConsistent (apply first_rowid all_succeed (activate (some 600000)) new_store)
    × AtMostOne
        (life new_store)
        (life (apply first_rowid all_succeed (activate (some 600000)) new_store))
apply-refines_example =
    apply-refines first_rowid all_succeed (activate (some 600000)) new_store tt
      new_store-IsConsistent

apply-Keeps_example :
    Keeps watching_store (apply first_rowid all_succeed (rearm (some 7)) watching_store)
apply-Keeps_example = apply-Keeps first_rowid all_succeed (rearm (some 7)) watching_store

run_once-refines_example :
    IsConsistent (run_once env enabled_world).store
    × AtMostOne (life watching_store) (life (run_once env enabled_world).store)
run_once-refines_example = run_once-refines env enabled_world watching_store-IsConsistent

run_once-opens_example :
    ((run_once env enabled_world).store.rows ≡ [])
    ⊎ IsOpened env watching_row [] (run_once env enabled_world).store.rows
unfolding born_inert
run_once-opens_example = run_once-opens env enabled_world watching_row refl refl

run_once-Told_example :
    Told
      (run_one_cycle env enabled_world).0
      enabled_world.scanner
      (run_once env enabled_world).scanner
run_once-Told_example = run_once-Told env enabled_world refl

abbrev open_row_at : ℕ → Row
open_row_at id = record {
  id = id;
  is_open = true;
  category = vps_outbound;
  analysis_start = 600000;
  first_signal = 780000;
  last_signal = 840000;
  classified_end = 840000;
  closed_at = none;
  closure = none;
  buckets = 4;
  evidence_bits = 2;
  unknown_bits = 0;
  created = 860000;
  updated = 860000;
}

abbrev open_world : World
open_world = record enabled_world {
  store = record watching_store {
    rows = open_row_at 7 ∷ [];
    runtime = some (record watching_row { open_id = some 7 });
  };
}

abbrev closing : Call
closing = close_window 7 (limit_request (open_row_at 7)) clean_buckets (some 900000)

apply-Whole_example : Whole half open_world.store (apply first_rowid half closing open_world.store)
apply-Whole_example = apply-Whole first_rowid half closing open_world.store

-- The row of the closed window was written and is open again.
half_closed : (apply first_rowid half closing open_world.store).rows ≡ open_world.store.rows
unfolding incident_close_window close_with limit_request row_ok open_ids
half_closed = refl

run_once-Evolves_example :
    Evolves env
      (record watching_row { open_id = some 7 })
      (open_row_at 7)
      (open_row_at 7 ∷ [])
      (run_once env open_world).store.rows
unfolding row_of
run_once-Evolves_example =
    run_once-Evolves env open_world (record watching_row { open_id = some 7 }) (open_row_at 7) refl
      refl
