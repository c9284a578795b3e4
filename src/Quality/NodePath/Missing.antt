-- ===== src/Quality/NodePath/Missing.antt =====
-- Missing evidence is UNKNOWN, never DOWN.
use install_singboxhysteria.Quality.Policy.{
  Confirmation, Policy, verdict, verdict_bad, Verdict, verdict_good, verdict_unknown,
  verdict_middle,
}
use install_singboxhysteria.Quality.NodePath.{
  observe, usable, NodePath, Confirmation, Policy, unknown, down, verdict, verdict_bad,
  observe_verdict, reached, Verdict,
}
use install_singboxhysteria.Common.{
  ℕ, none, some, true, false, ◌≡◌, arith, Option, Bool, ◌≤◌, ◌⊎◌, ◌+◌, inl, inr, refl, max, ap, ◌∙◌,
  subst,
}

-- No reachability report: UNKNOWN, both counters restart and nothing is verified any more, while the
-- need for recovery and the hold stay. A report that it is unreachable makes a path DOWN, and a path
-- that is DOWN after any other observation was DOWN before it and was reported reachable.
pub down_needs_report :
    (s : NodePath) (now : ℕ) (r : Option Bool) (c : Option Confirmation) (p : Policy)
    → ((r ≡ none)
        → ((observe s now r c p).state ≡ unknown)
          × (usable (observe s now r c p) now p ≡ false)
          × ((observe s now r c p).bad ≡ 0)
          × ((observe s now r c p).good ≡ 0)
          × ((observe s now r c p).needs_recovery ≡ s.needs_recovery)
          × ((observe s now r c p).hold_until ≡ s.hold_until))
      × ((r ≡ some false) → (observe s now r c p).state ≡ down)
      × ((observe s now r c p).state ≡ down
          → (r ≡ some false) ⊎ ((r ≡ some true) × (s.state ≡ down)))
unfolding observe usable
down_needs_report s now none c p = ground arith
down_needs_report s now (some false) c p = ground arith
down_needs_report s now (some true) none p = ground arith
down_needs_report s now (some true) (some c) p = ground arith

-- The streak of confirmed bad uploads is full with this one.
abbrev pub ConfirmsBad : NodePath → Confirmation → Policy → Type 0
ConfirmsBad s c p = (verdict c p ≡ verdict_bad) × (p.fail_samples ≤ s.bad + 1)

-- An observation that must extend the hold: the path is reported unreachable, or it is reachable and the
-- bad uploads are confirmed.
abbrev pub Fails : NodePath → Option Bool → Option Confirmation → Policy → Type 0
Fails s r c p =
    (r ≡ some false) ⊎ ((r ≡ some true) × ((k : Confirmation) × ((c ≡ some k) × ConfirmsBad s k p)))

extends-hold :
    (s : NodePath) (now : ℕ) (r : Option Bool) (c : Option Confirmation) (p : Policy)
    → Fails s r c p
    → (observe s now r c p).hold_until ≡ max s.hold_until (now + p.hold_seconds)
unfolding observe
extends-hold s now none c p f = ground (arith, f)
extends-hold s now (some false) c p f = ground (arith, f)
extends-hold s now (some true) none p f = ground (arith, f)
extends-hold s now (some true) (some c) p (inl f) = cc
extends-hold s now (some true) (some c) p (inr (e, (k, (same, (bad, full))))) =
    let this : c ≡ k = cc in
    let verdict_is : verdict c p ≡ verdict_bad = ap (λ x. verdict x p) this ∙ bad in
    ground (arith, verdict_is, full)

verdict_keeps-hold :
    (v : Verdict) (s : NodePath) (now : ℕ) (p : Policy)
    → (v ≡ verdict_bad → ¬ (p.fail_samples ≤ s.bad + 1))
    → (observe_verdict v s now p).hold_until ≡ s.hold_until
unfolding observe_verdict
verdict_keeps-hold verdict_bad s now p f = let short = f refl in ground (arith, short)
verdict_keeps-hold verdict_good s now p f = ground arith
verdict_keeps-hold verdict_unknown s now p f = ground arith
verdict_keeps-hold verdict_middle s now p f = ground arith

reached-hold : (s : NodePath) → ((reached s).hold_until ≡ s.hold_until) × ((reached s).bad ≡ s.bad)
unfolding reached
reached-hold s = ground arith

keeps-hold :
    (s : NodePath) (now : ℕ) (r : Option Bool) (c : Option Confirmation) (p : Policy)
    → ¬ Fails s r c p
    → (observe s now r c p).hold_until ≡ s.hold_until
unfolding observe
keeps-hold s now none c p f = ground arith
keeps-hold s now (some false) c p f = absurd (f (inl refl))
keeps-hold s now (some true) none p f = ground arith
keeps-hold s now (some true) (some c) p f =
    let t = reached (record s { observed_at = some now }) in
    let same = reached-hold (record s { observed_at = some now }) in
    verdict_keeps-hold (verdict c p) t now p (λ bad full.
      f (inr (refl, (c, (refl, (bad, subst (λ n. p.fail_samples ≤ n + 1) same.1 full))))))
    ∙ same.0

grows :
    (s : NodePath) (now : ℕ) (r : Option Bool) (c : Option Confirmation) (p : Policy)
    → s.hold_until ≤ (observe s now r c p).hold_until
unfolding observe
grows s now none c p = ground arith
grows s now (some false) c p = ground arith
grows s now (some true) none p = ground arith
grows s now (some true) (some c) p = ground arith

-- The hold never shrinks. Each report that the path is unreachable, and each bad upload of a reachable path
-- that completes the streak, whatever the state of the path was, extends it to at least the policy's hold
-- from now; every other observation leaves it as it is.
pub hold-observe :
    (s : NodePath) (now : ℕ) (r : Option Bool) (c : Option Confirmation) (p : Policy)
    → (s.hold_until ≤ (observe s now r c p).hold_until)
      × (Fails s r c p → (observe s now r c p).hold_until ≡ max s.hold_until (now + p.hold_seconds))
      × (¬ Fails s r c p → (observe s now r c p).hold_until ≡ s.hold_until)
hold-observe s now r c p = (grows s now r c p, extends-hold s now r c p, keeps-hold s now r c p)
