-- ===== src/Quality/NodePath.antt =====
-- tools/quality_failover/policy.py: `Path`, the state of one node, fed by `observe`.
pub mod Invariant
pub mod Evidence
pub mod Missing
use install_singboxhysteria.Common.{
  ℕ, ◌+◌, ◌-◌, min, max, Bool, true, false, not, ◌&&◌, ◌||◌, Option, none, some, ltb, leb, is_some,
  if◌then◌else◌, [], ◌∷◌, zero, suc, inl, inr, refl, ◌≡◌, arith,
}
use install_singboxhysteria.Quality.Policy.{
  Policy, Confirmation, Verdict, verdict, verdict_unknown, verdict_bad, verdict_good,
  verdict_middle,
}

pub data State : Type 0 where
  unknown up degraded down : State

pub data Reason : Type 0 where
  no_evidence hard_probe_failed missing_reachability recovery_pending reachable_only : Reason
  upload_slow_pending upload_confirmed_bad quality_recovered upload_confirmed_good : Reason
  upload_unconfirmed upload_middle : Reason

pub record NodePath : Type 0 where
  pub state : State
  pub reason : Reason
  pub bad : ℕ
  pub good : ℕ
  pub hold_until : ℕ
  pub quality_verified_at : Option ℕ
  pub observed_at : Option ℕ
  pub needs_recovery : Bool

unfoldable pub new_path : NodePath
new_path = record {
  state = unknown;
  reason = no_evidence;
  bad = 0;
  good = 0;
  hold_until = 0;
  quality_verified_at = none;
  observed_at = none;
  needs_recovery = false;
}

abbrev pub is_up : State → Bool
is_up up = true
is_up _ = false

abbrev pub is_unknown : State → Bool
is_unknown unknown = true
is_unknown _ = false

-- `quality_verified_at is not None and now - quality_verified_at > freshness_seconds`
abbrev pub stale : Option ℕ → ℕ → Policy → Bool
stale none now p = false
stale (some at) now p = ltb (at + p.freshness_seconds) now

observe_unreachable : NodePath → ℕ → Policy → NodePath
observe_unreachable s now p = record s {
  needs_recovery = true;
  state = down;
  reason = hard_probe_failed;
  bad = 0;
  good = 0;
  quality_verified_at = none;
  hold_until = max s.hold_until (now + p.hold_seconds);
}

observe_missing : NodePath → NodePath
observe_missing s = record s {
  state = unknown;
  reason = missing_reachability;
  bad = 0;
  good = 0;
  quality_verified_at = none;
}

-- The node answers: leave UNKNOWN.
reached : NodePath → NodePath
reached s =
    if is_unknown s.state
    then if s.needs_recovery
      then record s { state = degraded; reason = recovery_pending }
      else record s { state = up; reason = reachable_only }
    else s

-- A tick with no probe: only an old confirmation expires.
observe_tick : NodePath → ℕ → Policy → NodePath
observe_tick s now p =
    if stale s.quality_verified_at now p
    then record s {
      quality_verified_at = none;
      reason = if is_up s.state then reachable_only else s.reason;
    }
    else s

observe_bad : NodePath → ℕ → Policy → NodePath
observe_bad s now p =
    let n = min p.fail_samples (s.bad + 1) in
    let t = record s {
      good = 0;
      bad = n;
      quality_verified_at = none;
      reason = if is_up s.state then upload_slow_pending else s.reason;
    } in
    if leb p.fail_samples n
    then record t {
      needs_recovery = true;
      state = degraded;
      reason = upload_confirmed_bad;
      hold_until = max s.hold_until (now + p.hold_seconds);
    }
    else t

observe_good : NodePath → ℕ → Policy → NodePath
observe_good s now p =
    let n = min p.recover_samples (s.good + 1) in
    let t = record s { bad = 0; good = n } in
    if s.needs_recovery
    then if leb s.hold_until now && leb p.recover_samples n
      then record t {
        needs_recovery = false;
        state = up;
        reason = quality_recovered;
        quality_verified_at = some now;
      }
      else t
    else record t { state = up; reason = upload_confirmed_good; quality_verified_at = some now }

-- The `else` of the verdict: the counters restart, and a stale confirmation expires.
expire : NodePath → ℕ → Policy → NodePath
expire s now p =
    let t = record s { bad = 0; good = 0 } in
    if is_up s.state && (not (is_some s.quality_verified_at) || stale s.quality_verified_at now p)
    then record t { quality_verified_at = none; reason = reachable_only }
    else t

observe_inconclusive : Reason → NodePath → ℕ → Policy → NodePath
unfolding expire
observe_inconclusive why s now p =
    let t = expire s now p in if is_up t.state then record t { reason = why } else t

observe_verdict : Verdict → NodePath → ℕ → Policy → NodePath
unfolding observe_bad observe_good observe_inconclusive
observe_verdict verdict_bad s now p = observe_bad s now p
observe_verdict verdict_good s now p = observe_good s now p
observe_verdict verdict_unknown s now p = observe_inconclusive upload_unconfirmed s now p
observe_verdict verdict_middle s now p = observe_inconclusive upload_middle s now p

observe_reachable : Option Confirmation → NodePath → ℕ → Policy → NodePath
unfolding observe_tick observe_verdict
observe_reachable none s now p = observe_tick s now p
observe_reachable (some c) s now p = observe_verdict (verdict c p) s now p

dispatch : Option Bool → Option Confirmation → NodePath → ℕ → Policy → NodePath
unfolding observe_unreachable observe_missing observe_reachable reached
dispatch none c s now p = observe_missing s
dispatch (some false) c s now p = observe_unreachable s now p
dispatch (some true) c s now p = observe_reachable c (reached s) now p

-- `reachable` is True, False or None.
unfoldable pub observe : NodePath → ℕ → Option Bool → Option Confirmation → Policy → NodePath
unfolding dispatch
observe s now reachable c p = dispatch reachable c (record s { observed_at = some now }) now p

-- `0 <= now - quality_verified_at <= freshness_seconds`
abbrev fresh : Option ℕ → ℕ → Policy → Bool
fresh none now p = false
fresh (some at) now p = leb at now && leb (now - at) p.freshness_seconds

unfoldable pub usable : NodePath → ℕ → Policy → Bool
usable s now p = is_up s.state && (not s.needs_recovery && fresh s.quality_verified_at now p)
