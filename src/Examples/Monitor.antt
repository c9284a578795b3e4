-- ===== src/Examples/Monitor.antt =====
-- The connection tracker, the limiter and the sessions on small inputs.
use install_singboxhysteria.Collector.Drift.{Updated, apply_update-Updated}
use install_singboxhysteria.Collector.Apart.{apply_batch-Separate}
use install_singboxhysteria.Collector.Final.{closed_once}
use install_singboxhysteria.Auth.Limiter.Burst.{run_failures, failures_lock_out}
use install_singboxhysteria.Collector.Batches.{apply_batch}
use install_singboxhysteria.Auth.Sessions.Expiry.{
  Call, run_calls, creating, touching, granting, expired_never_revived,
}
use install_singboxhysteria.Auth.Limiter.{Limiter, check, second}
use install_singboxhysteria.Wire.Varint.{pos}
use install_singboxhysteria.Dict.{find}
use install_singboxhysteria.Auth.Sessions.{live, is_expired, Session, Store}
use install_singboxhysteria.Collector.Once.{Separate}
use install_singboxhysteria.Collector.Tracker.{Fields, Tracker, Conn, count_duplicate, may_proceed}
use install_singboxhysteria.Common.{
  ℕ, [], ◌∷◌, none, some, true, false, refl, ◌≡◌, arith, List, ◌+◌, ◌≤◌, ◌*◌,
}
use install_singboxhysteria.Collector.Events.{
  Event, new_event, closed_event, apply_closed, update_event, apply_update,
}

abbrev row : Fields
row = record {
  row_id = some 7;
  user = some 1;
  inbound = some 2;
  created_at = 0;
  closed_at = 0;
  uplink_total = some (pos 50);
  downlink_total = some (pos 60);
}

abbrev opened : Event
opened = record {
  kind = new_event;
  event_id = some 7;
  connection = some row;
  uplink_delta = pos 0;
  downlink_delta = pos 0;
  event_closed_at = 0;
}

abbrev finished : Event
finished = record opened { kind = closed_event }

abbrev no_tracker : Tracker
no_tracker = record {
  active = [];
  recent = [];
  finalized = [];
  banked_id_cap = 4096;
  banked_ids = [];
  devices = [];
  batch_count = 0;
  skipped_events = 0;
  duplicate_events = 0;
  identity_conflicts = 0;
  abandoned_on_reset = 0;
}

no_tracker-Separate : Separate no_tracker
unfolding find
no_tracker-Separate = record {
  not_banked = λ i h. refl;
  not_recent = λ i h. refl;
  own_id = λ i c h. cc;
}

apply_batch-Separate_example : Separate (
    apply_batch
      (some (record { events = some opened ∷ some finished ∷ []; reset = false }))
      100
      no_tracker)
apply_batch-Separate_example =
    apply_batch-Separate
      (some (record { events = some opened ∷ some finished ∷ []; reset = false })) 100 no_tracker
      no_tracker-Separate

abbrev one_active : Conn
one_active = record {
  id = 7;
  owner = (some 1, some 2);
  created = 90;
  closed = 0;
  uplink = pos 50;
  downlink = pos 60;
  last_seen = 90;
}

abbrev busy : Tracker
busy = record no_tracker { active = (7, one_active) ∷ [] }

busy-Separate : Separate busy
unfolding find
busy-Separate = record {
  not_banked = λ i h. refl;
  not_recent = λ i h. refl;
  own_id = λ i c h. ground (arith, h);
}

closed_once_example :
    apply_closed 7 finished 200 (apply_closed 7 finished 100 busy)
    ≡ count_duplicate (apply_closed 7 finished 100 busy)
closed_once_example =
    closed_once 7 finished finished 100 200 busy one_active busy-Separate (unfold find in refl)

abbrev calm : Limiter
calm = record {
  max_failures = 3;
  window_seconds = 900 * second;
  lockout_seconds = 900 * second;
  failures = [];
  locked_until = [];
}

abbrev tries : List (ℕ × ℕ)
tries = (30000, 8) ∷ (20000, 8) ∷ (15500, 9) ∷ (10400, 8) ∷ []

failures_lock_out_example :
    let answer = (check 500250 8 (run_failures tries calm)).0 in
    (answer.0 ≡ false) × (10400 + 900 * second ≤ 500250 + answer.1 * second + 500)
failures_lock_out_example =
    failures_lock_out 10400 8 500250 tries calm (unfold find in refl) (omega arith)
      (
        λ e. (omega arith, omega arith),
        (
          λ e. (omega arith, omega arith),
          (λ e. (ground (arith, e), ground (arith, e)), (λ e. (omega arith, omega arith), tt)),
        ),
      )
      (omega arith) (omega arith)

-- A session that nobody used after 20 seconds.
abbrev idle_session : Session
idle_session = record {
  created = 0;
  expires = 100;
  idle_expires = 20;
  csrf_token = 1;
  step_up_expires = some 10;
  step_up_granted_at = some 0;
  stepup_fp = some 3;
}

abbrev one_session : Store
one_session = record {
  ttl = 100;
  step_up_ttl = 10;
  idle_ttl = 20;
  sessions = (3, idle_session) ∷ [];
}

abbrev sum_fp : ℕ → ℕ → ℕ
sum_fp a b = a + b

abbrev later_calls : List (ℕ × Call)
later_calls = (26, creating 4 1 true) ∷ (27, touching 3) ∷ (29, granting 3 none) ∷ []

expired_never_revived_example : live 30 3 (run_calls sum_fp later_calls one_session) ≡ none
expired_never_revived_example =
    expired_never_revived sum_fp 25 3 later_calls one_session 30
      (unfold live find is_expired in refl)
      (omega arith, refl, (omega arith, refl, (omega arith, refl, tt))) (omega arith)

abbrev drifted : Event
drifted = record opened { kind = update_event; connection = some (record row { user = some 3 }) }

apply_update-Updated_example :
    (c : Conn) × Updated 7 drifted one_active c busy (apply_update 7 drifted 95 busy)
unfolding may_proceed
apply_update-Updated_example =
    apply_update-Updated 7 drifted 95 busy one_active (unfold find in refl)
