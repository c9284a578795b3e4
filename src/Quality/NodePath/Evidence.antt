-- ===== src/Quality/NodePath/Evidence.antt =====
-- The counters of a `Path` against the history of its observations, over runs of any length.
use install_singboxhysteria.Common.{
  ℕ, ◌+◌, ◌≡◌, min, Bool, true, false, Option, none, some, arith, List, [], ◌∷◌, ◌≤◌, ◌≢◌, ◌⊎◌, ◌<◌,
  length,
}
use install_singboxhysteria.Quality.Policy.{
  Policy, Confirmation, Verdict, verdict, verdict_bad, verdict_good,
}
use install_singboxhysteria.Quality.NodePath.{NodePath, observe, new_path, up, degraded, usable}

pub record Event : Type 0 where
  pub now : ℕ
  pub reachable : Option Bool
  pub confirmation : Option Confirmation

unfoldable pub observe_event : Policy → NodePath → Event → NodePath
observe_event p s e = observe s e.now e.reachable e.confirmation p

-- A path fed by a sequence of observations.
unfoldable pub run : Policy → NodePath → List Event → NodePath
run p s [] = s
run p s (e ∷ es) = run p (observe_event p s e) es

-- What an observation says of the node, read off the event alone.
pub data Sign : Type 0 where
  good_upload bad_upload silent break : Sign

sign_of : Option Bool → Option Verdict → Sign
sign_of (some true) none = silent
sign_of (some true) (some verdict_good) = good_upload
sign_of (some true) (some verdict_bad) = bad_upload
sign_of _ _ = break

graded : Policy → Option Confirmation → Option Verdict
graded p none = none
graded p (some c) = some (verdict c p)

unfoldable pub sign : Policy → Event → Sign
unfolding sign_of graded
sign p e = sign_of e.reachable (graded p e.confirmation)

-- Consecutive good (bad) uploads: a silent tick keeps the count, all else breaks it.
unfoldable pub good_next : Sign → ℕ → ℕ
good_next good_upload n = n + 1
good_next silent n = n
good_next _ n = 0

unfoldable pub bad_next : Sign → ℕ → ℕ
bad_next bad_upload n = n + 1
bad_next silent n = n
bad_next _ n = 0

unfoldable pub good_streak : Policy → ℕ → List Event → ℕ
good_streak p n [] = n
good_streak p n (e ∷ es) = good_streak p (good_next (sign p e) n) es

unfoldable pub bad_streak : Policy → ℕ → List Event → ℕ
bad_streak p n [] = n
bad_streak p n (e ∷ es) = bad_streak p (bad_next (sign p e) n) es

-- One observation, read by its sign, with the parts of `observe` in view.
module _ (p : Policy) (now : ℕ) (s : NodePath) where
  good-observe :
      (r : Option Bool) (c : Option Confirmation) (n : ℕ)
      → s.good ≡ min p.recover_samples n
      → (observe s now r c p).good
        ≡ min p.recover_samples
            (good_next (sign p (record { now = now; reachable = r; confirmation = c })) n)
  unfolding observe good_next sign
  good-observe none c n h = ground arith
  good-observe (some false) c n h = ground arith
  good-observe (some true) none n h = ground arith
  good-observe (some true) (some c) n h = ground arith

  bad-observe :
      (r : Option Bool) (c : Option Confirmation) (n : ℕ)
      → s.bad ≡ min p.fail_samples n
      → (observe s now r c p).bad
        ≡ min p.fail_samples
            (bad_next (sign p (record { now = now; reachable = r; confirmation = c })) n)
  unfolding observe bad_next sign
  bad-observe none c n h = ground arith
  bad-observe (some false) c n h = ground arith
  bad-observe (some true) none n h = ground arith
  bad-observe (some true) (some c) n h = ground arith

good-run :
    (p : Policy) (s : NodePath) (n : ℕ) (es : List Event)
    → s.good ≡ min p.recover_samples n
    → (run p s es).good ≡ min p.recover_samples (good_streak p n es)
unfolding run good_streak observe_event
good-run p s n [] h = h
good-run p s n (e ∷ es) h =
    good-run p (observe_event p s e) (good_next (sign p e) n) es
      (good-observe p e.now s e.reachable e.confirmation n h)

bad-run :
    (p : Policy) (s : NodePath) (n : ℕ) (es : List Event)
    → s.bad ≡ min p.fail_samples n
    → (run p s es).bad ≡ min p.fail_samples (bad_streak p n es)
unfolding run bad_streak observe_event
bad-run p s n [] h = h
bad-run p s n (e ∷ es) h =
    bad-run p (observe_event p s e) (bad_next (sign p e) n) es
      (bad-observe p e.now s e.reachable e.confirmation n h)

-- After any observations of a new path, the two counters are the lengths of the current streaks of
-- good and of bad uploads, cut off at the policy's two sample counts.
pub run-counters :
    (p : Policy) (es : List Event)
    → ((run p new_path es).good ≡ min p.recover_samples (good_streak p 0 es))
      × ((run p new_path es).bad ≡ min p.fail_samples (bad_streak p 0 es))
unfolding new_path
run-counters p es = (good-run p new_path 0 es (omega arith), bad-run p new_path 0 es (omega arith))

-- A single observation that takes a path out of recovery is a good upload that completes the
-- samples, after the hold.
recovery-observe :
    (p : Policy) (now : ℕ) (s : NodePath) (r : Option Bool) (c : Option Confirmation)
    → s.needs_recovery ≡ true
    → (observe s now r c p).needs_recovery ≡ false
    → (s.hold_until ≤ now) × (p.recover_samples ≤ (observe s now r c p).good)
unfolding observe
recovery-observe p now s none c h k = ground arith
recovery-observe p now s (some false) c h k = ground arith
recovery-observe p now s (some true) none h k = ground arith
recovery-observe p now s (some true) (some c) h k = ground arith

-- When an event takes a path that needed recovery out of it, the hold has passed and the last
-- `recover_samples` uploads, the event's own included, were good ones in a row.
pub recovery_needs_streak :
    (p : Policy) (es : List Event) (e : Event)
    → (run p new_path es).needs_recovery ≡ true
    → (observe_event p (run p new_path es) e).needs_recovery ≡ false
    → ((run p new_path es).hold_until ≤ e.now)
      × (p.recover_samples ≤ good_next (sign p e) (good_streak p 0 es))
unfolding observe_event
recovery_needs_streak p es e h k = ground (
  arith,
  recovery-observe p e.now (run p new_path es) e.reachable e.confirmation h k,
  good-observe p e.now (run p new_path es) e.reachable e.confirmation (good_streak p 0 es)
      (run-counters p es).0,
)

leaves_up-observe :
    (p : Policy) (now : ℕ) (s : NodePath) (c : Option Confirmation)
    → s.state ≡ up
    → (observe s now (some true) c p).state ≢ up
    → ((observe s now (some true) c p).state ≡ degraded)
      × (p.fail_samples ≤ (observe s now (some true) c p).bad)
unfolding observe
leaves_up-observe p now s none h k = ground arith
leaves_up-observe p now s (some c) h k = ground arith

-- A reachable path that is UP leaves UP only for DEGRADED, and only when the last `fail_samples`
-- uploads, the event's own included, were bad ones in a row.
pub leaves_up_needs_streak :
    (p : Policy) (es : List Event) (e : Event)
    → e.reachable ≡ some true
    → (run p new_path es).state ≡ up
    → (observe_event p (run p new_path es) e).state ≢ up
    → ((observe_event p (run p new_path es) e).state ≡ degraded)
      × (p.fail_samples ≤ bad_next (sign p e) (bad_streak p 0 es))
unfolding observe_event
leaves_up_needs_streak p es e r h = rw r λ k. ground (
  arith,
  leaves_up-observe p e.now (run p new_path es) e.confirmation h k,
  r,
  bad-observe p e.now (run p new_path es) e.reachable e.confirmation (bad_streak p 0 es)
      (run-counters p es).1,
)

-- Every event of the list is a good upload at `hold` or later.
abbrev pub AllGood : Policy → ℕ → List Event → Type 0
AllGood p hold [] = Unit {0}
AllGood p hold (e ∷ es) = (sign p e ≡ good_upload) × (hold ≤ e.now) × AllGood p hold es

good_upload-observe :
    (p : Policy) (now : ℕ) (s : NodePath) (r : Option Bool) (c : Option Confirmation)
    → sign p (record { now = now; reachable = r; confirmation = c }) ≡ good_upload
    → s.hold_until ≤ now
    → ((observe s now r c p).hold_until ≡ s.hold_until)
      × ((observe s now r c p).good ≡ min p.recover_samples (s.good + 1))
      × (((observe s now r c p).needs_recovery ≡ false)
          ⊎ ((observe s now r c p).good < p.recover_samples))
      × ((observe s now r c p).needs_recovery ≡ false
          → ((observe s now r c p).state ≡ up)
            × ((observe s now r c p).quality_verified_at ≡ some now))
unfolding observe sign
good_upload-observe p now s none c g h = ground arith
good_upload-observe p now s (some false) c g h = ground arith
good_upload-observe p now s (some true) none g h = ground arith
good_upload-observe p now s (some true) (some c) g h = ground arith

unfoldable pub last_time : Event → List Event → ℕ
last_time e [] = e.now
last_time e (d ∷ es) = last_time d es

-- From any state, good uploads in a row, none before the hold is over and enough of them to complete
-- the samples, make the path usable at the time of the last one.
pub recovery_succeeds :
    (p : Policy) (hold : ℕ) (s : NodePath) (e : Event) (es : List Event)
    → s.hold_until ≤ hold
    → AllGood p hold (e ∷ es)
    → p.recover_samples ≤ s.good + length (e ∷ es)
    → usable (run p s (e ∷ es)) (last_time e es) p ≡ true
unfolding run last_time usable observe_event
recovery_succeeds p hold s e [] h g n =
    ground (arith, good_upload-observe p e.now s e.reachable e.confirmation g.0 (omega arith))
recovery_succeeds p hold s e (d ∷ es) h g n =
    let step = good_upload-observe p e.now s e.reachable e.confirmation g.0 (omega arith) in
    recovery_succeeds p hold (observe_event p s e) d es (ground (arith, step)) g.2
      (ground (arith, step))
