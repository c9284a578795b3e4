-- ===== src/Examples/Quality.antt =====
-- The quality policy on small inputs.
use install_singboxhysteria.Quality.Engine.Updates.{update_feeds, RefusedOrFed}
use install_singboxhysteria.Quality.Engine.Target.{Switch, target_iff}
use install_singboxhysteria.Quality.NodePath.Missing.{hold-observe, down_needs_report}
use install_singboxhysteria.Quality.NodePath.Invariant.{Inv, new_path-Inv, observe-Inv}
use install_singboxhysteria.Quality.Policy.{Policy, Confirmation, unit, finite, verdict}
use install_singboxhysteria.Quality.NodePath.{usable, observe, new_path, degraded, down, up}
use install_singboxhysteria.Quality.Engine.{Engine, Node, target, reality, Observation, hysteria2}
use install_singboxhysteria.Common.{
  ℕ, [], ◌∷◌, none, some, true, false, refl, ◌≡◌, arith, Option, ◌*◌, List, ◌≤◌, ◌↔◌, inl,
}
use install_singboxhysteria.Quality.NodePath.Evidence.{
  Event, run, observe_event, run-counters, recovery_needs_streak, recovery_succeeds,
  leaves_up_needs_streak, sign, good_streak, bad_streak, good_next, bad_next, last_time,
}

abbrev small_policy : Policy
small_policy = record {
  fail_mbps = 5 * unit;
  recover_mbps = 10 * unit;
  fail_samples = 2;
  recover_samples = 2;
  hold_seconds = 30;
  freshness_seconds = 60;
}

abbrev upload : ℕ → Option Confirmation
upload rate =
    some (record { mbps = some (finite rate); timed_out = some false; endpoint_ready = some true })

abbrev event_at : ℕ → ℕ → Event
event_at t rate = record { now = t; reachable = some true; confirmation = upload (rate * unit) }

abbrev fast : List Event
fast = event_at 100 20 ∷ event_at 101 20 ∷ []

abbrev slow : Event
slow = event_at 102 1

abbrev outage : Event
outage = record { now = 10; reachable = some false; confirmation = none }

observe-Inv_example :
    Inv small_policy (observe new_path 7 (some true) (upload 20000000) small_policy)
observe-Inv_example =
    observe-Inv new_path 7 (some true) (upload 20000000) small_policy (new_path-Inv small_policy)

run-counters_example :
    ((run small_policy new_path fast).good ≡ 2) × ((run small_policy new_path fast).bad ≡ 0)
unfolding run sign observe_event observe new_path good_streak bad_streak good_next bad_next
    last_time usable verdict
run-counters_example = run-counters small_policy fast

recovery_needs_streak_example :
    ((run small_policy new_path (outage ∷ event_at 100 20 ∷ [])).hold_until ≤ 101) × (2 ≤ 2)
unfolding run sign observe_event observe new_path good_streak bad_streak good_next bad_next
    last_time usable verdict
recovery_needs_streak_example =
    recovery_needs_streak small_policy (outage ∷ event_at 100 20 ∷ []) (event_at 101 20) refl refl

leaves_up_needs_streak_example :
    ((observe_event small_policy
        (run small_policy new_path (outage ∷ event_at 100 20 ∷ event_at 101 20 ∷ slow ∷ []))
        (event_at 103 1)).state
      ≡ degraded)
    × (2 ≤ 2)
unfolding run sign observe_event observe new_path good_streak bad_streak good_next bad_next
    last_time usable verdict
leaves_up_needs_streak_example =
    leaves_up_needs_streak small_policy (outage ∷ event_at 100 20 ∷ event_at 101 20 ∷ slow ∷ [])
      (event_at 103 1) refl refl (λ e. cc)

recovery_succeeds_example : usable (run small_policy new_path fast) 101 small_policy ≡ true
unfolding run sign observe_event observe new_path good_streak bad_streak good_next bad_next
    last_time usable verdict
recovery_succeeds_example =
    recovery_succeeds small_policy 50 new_path (event_at 100 20) (event_at 101 20 ∷ [])
      (omega arith) (refl, omega arith, (refl, omega arith, tt)) (omega arith)

down_needs_report_example : (observe new_path 5 (some false) none small_policy).state ≡ down
down_needs_report_example = (down_needs_report new_path 5 (some false) none small_policy).1 refl

hold-observe_example : (observe new_path 5 (some false) none small_policy).hold_until ≡ 35
unfolding new_path
hold-observe_example = (hold-observe new_path 5 (some false) none small_policy).1 (inl refl)

abbrev small_engine : Engine
small_engine = record {
  entries =
      record { node = reality; policy = small_policy; path = record new_path { state = down } }
      ∷ record {
        node = hysteria2;
        policy = small_policy;
        path = record new_path { state = up; quality_verified_at = some 90; observed_at = some 90 };
      }
      ∷ [];
  last_time = none;
}

target_iff_example :
    (target 100 reality small_engine ≡ some hysteria2) ↔ Switch 100 reality hysteria2 small_engine
target_iff_example = target_iff 100 reality hysteria2 small_engine

abbrev no_observation : Node → Option Observation
no_observation n = none

update_feeds_example : RefusedOrFed (finite 7) no_observation small_engine
update_feeds_example = update_feeds (finite 7) no_observation small_engine
