-- ===== src/Quality/NodePath/Invariant.antt =====
-- What holds of a `Path` between two observations.
use install_singboxhysteria.Common.{
  ℕ, ◌≤◌, ◌≡◌, ◌≢◌, ◌⊎◌, Bool, true, false, Option, none, some, arith, is_some,
}
use install_singboxhysteria.Quality.Policy.{Policy, Confirmation, Verdict, verdict, verdict_bad}
use install_singboxhysteria.Quality.NodePath.{
  NodePath, new_path, unknown, up, degraded, down, observe, observe_verdict, observe_reachable,
  observe_tick, reached,
}

pub record Inv (p : Policy) (s : NodePath) : Type 0 where
  pub bad_capped : s.bad ≤ p.fail_samples
  pub good_capped : s.good ≤ p.recover_samples
  pub one_streak : (s.bad ≡ 0) ⊎ (s.good ≡ 0)
  pub up_recovered : s.state ≡ up → s.needs_recovery ≡ false
  pub degraded_needs : s.state ≡ degraded → s.needs_recovery ≡ true
  pub down_needs : s.state ≡ down → s.needs_recovery ≡ true
  pub verified_up : is_some s.quality_verified_at ≡ true → s.state ≡ up

-- A fresh path satisfies the invariant, whatever the policy.
pub new_path-Inv : (p : Policy) → Inv p new_path
unfolding new_path
new_path-Inv p = ground arith

observe_verdict-Inv :
    (v : Verdict) (s : NodePath) (now : ℕ) (p : Policy)
    → s.state ≢ unknown
    → Inv p s
    → Inv p (observe_verdict v s now p)
unfolding observe_verdict
observe_verdict-Inv verdict_bad s now p k h = ground arith
observe_verdict-Inv _ s now p k h = ground arith

reached-Inv : (s : NodePath) (p : Policy) → Inv p s → Inv p (reached s)
unfolding reached
reached-Inv s p h = ground arith

state-reached : (s : NodePath) → (reached s).state ≢ unknown
unfolding reached
state-reached s = ground arith

observe_tick-Inv : (s : NodePath) (now : ℕ) (p : Policy) → Inv p s → Inv p (observe_tick s now p)
unfolding observe_tick
observe_tick-Inv s now p h = ground arith

observe_reachable-Inv :
    (c : Option Confirmation) (s : NodePath) (now : ℕ) (p : Policy)
    → s.state ≢ unknown
    → Inv p s
    → Inv p (observe_reachable c s now p)
unfolding observe_reachable
observe_reachable-Inv none s now p k h = observe_tick-Inv s now p h
observe_reachable-Inv (some c) s now p k h = observe_verdict-Inv (verdict c p) s now p k h

stamped : NodePath → ℕ → NodePath
stamped s now = record s { observed_at = some now }

stamped-Inv : (s : NodePath) (now : ℕ) (p : Policy) → Inv p s → Inv p (stamped s now)
unfolding stamped
stamped-Inv s now p h = ground arith

-- Every observation, of any kind and at any time, keeps the invariant.
pub observe-Inv :
    (s : NodePath) (now : ℕ) (reachable : Option Bool) (c : Option Confirmation) (p : Policy)
    → Inv p s
    → Inv p (observe s now reachable c p)
unfolding observe stamped
observe-Inv s now none c p h = ground arith
observe-Inv s now (some false) c p h = ground arith
observe-Inv s now (some true) c p h =
    observe_reachable-Inv c (reached (stamped s now)) now p (state-reached (stamped s now))
      (reached-Inv (stamped s now) p (stamped-Inv s now p h))
