-- ===== src/Incident/Startup/Sound.antt =====
-- What a start leaves.
use install_singboxhysteria.Incident.Bundle.{bucket_span}
use install_singboxhysteria.Incident.Transactions.{
  next_boundary, incident_runtime_mark, incident_activate,
}
use install_singboxhysteria.Incident.Startup.{
  incident_runtime_mark, next_boundary, incident_activate,
}
use install_singboxhysteria.Incident.Stage.{Env, World, Scanner}
use install_singboxhysteria.Incident.Gates.{last_complete_end, discovery_buckets}
use install_singboxhysteria.Incident.Lifecycle.{IsConsistent, AtMostOne, life, life_of}
use install_singboxhysteria.Incident.Store.{Store, Runtime}
use install_singboxhysteria.Common.{ℕ, Bool, none, some, true, false, ◌≡◌, ◌⊎◌, ◌+◌, ◌*◌, ◌≤◌}

-- A gate whose first buckets are complete by now, counted from the activation floor.
abbrev pub IsWarm : Env → Runtime → Type 0
IsWarm env s =
    (gate : ℕ) × ((last_end : ℕ) × ((s.discovery_floor ≡ some gate)
        × ((last_complete_end env.now s.activation_floor ≡ some last_end)
            × (gate + discovery_buckets * bucket_span ≤ last_end))))

-- The scanner after a start from the runtime row `s`: enabled, without the error of an earlier cycle, with
-- the gates, the open window and the last evaluated end of `s`. It does not wait for the operator and for
-- the warmup at once, and where it waits for neither the first buckets behind the gate are complete.
pub record IsLit (env : Env) (s : Runtime) (before after : Scanner) : Type 0 where
  is_enabled : after.enabled ≡ true
  rearm : after.rearm_required ≡ s.rearm_required
  gate : after.discovery_floor ≡ s.discovery_floor
  open_id : after.open_incident_id ≡ s.open_id
  no_failure : after.last_cycle_failed ≡ false
  no_error : after.last_error_code ≡ none
  no_end : s.evaluated_end ≡ 0 → after.last_evaluated_end ≡ none
  same_end : 1 ≤ s.evaluated_end → after.last_evaluated_end ≡ some s.evaluated_end
  not_both : s.rearm_required ≡ true → after.warmup_gated ≡ false
  warm : s.rearm_required ≡ false → after.warmup_gated ≡ false → IsWarm env s
  completed : after.cycles_completed ≡ before.cycles_completed
  failed : after.cycles_failed ≡ before.cycles_failed

-- A runtime row that is activated, and that waits for the operator or has a gate.
abbrev pub IsArmed : Runtime → Type 0
IsArmed s =
    (1 ≤ s.activation_floor)
    × ((s.rearm_required ≡ true) ⊎ ((gate : ℕ) × (s.discovery_floor ≡ some gate)))

-- How a start ends: dark, with the scanner as it was, or lit by an armed runtime row at which the store
-- stands.
abbrev pub IsStarted : Env → Scanner → Bool × World → Type 0
IsStarted env before o =
    ((o.0 ≡ false) × (o.1.scanner ≡ before))
    ⊎ ((s : Runtime) × ((o.0 ≡ true)
          × (IsLit env s before o.1.scanner × (IsArmed s × (life o.1.store ≡ life_of (some s))))))

-- To a consistent store with at most one move, and to a scanner that has started or is as it was.
abbrev pub Starts : Env → Scanner → Store → Bool × World → Type 0
Starts env sc st o =
    IsConsistent o.1.store × AtMostOne (life st) (life o.1.store) × IsStarted env sc o
