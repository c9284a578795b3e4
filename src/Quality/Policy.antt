-- ===== src/Quality/Policy.antt =====
-- tools/quality_failover/policy.py: the thresholds (`Policy`), one probe result (`Confirmation`) and
-- its verdict. Floats are whole multiples of 10 ^ -6 (of a second, of an Mbit/s).
use install_singboxhysteria.Common.{
  ℕ, ◌*◌, Bool, true, false, not, ◌&&◌, Option, none, some, ltb, leb, is_some, if◌then◌else◌,
}

-- A dynamic value that the code tests by `number(value, low, high)`: a finite number that is not
-- negative, or anything that the test refuses (a bool, a text, nan, inf, a negative number).
pub data Number : Type 0 where
  finite : ℕ → Number
  refused : Number

abbrev pub unit : ℕ
unit = 1000000

unfoldable pub in_range : Number → ℕ → ℕ → Bool
in_range (finite n) low high = leb low n && leb n high
in_range refused low high = false

pub record Policy : Type 0 where
  pub fail_mbps : ℕ
  pub recover_mbps : ℕ
  pub fail_samples : ℕ
  pub recover_samples : ℕ
  pub hold_seconds : ℕ
  pub freshness_seconds : ℕ

-- `__post_init__`; `fail_mbps >= .01` is the 10000 below.
unfoldable pub policy_valid : Policy → Bool
policy_valid p =
    leb 10000 p.fail_mbps
    && (leb p.fail_mbps (1000 * unit)
        && (leb 10000 p.recover_mbps
            && (leb p.recover_mbps (1000 * unit)
                && (ltb p.fail_mbps p.recover_mbps
                    && (leb 2 p.fail_samples
                        && (leb p.fail_samples 10
                            && (leb 2 p.recover_samples
                                && (leb p.recover_samples 10
                                    && (leb (30 * unit) p.hold_seconds
                                        && (leb p.hold_seconds (3600 * unit)
                                            && (leb (15 * unit) p.freshness_seconds
                                                && leb p.freshness_seconds (300 * unit))))))))))))

-- A flag that is no bool is none.
pub record Confirmation : Type 0 where
  pub mbps : Option Number
  pub timed_out : Option Bool
  pub endpoint_ready : Option Bool

pub data Verdict : Type 0 where
  verdict_unknown verdict_bad verdict_good verdict_middle : Verdict

mbps_valid : Option Number → Bool
unfolding in_range
mbps_valid none = true
mbps_valid (some n) = in_range n 0 (10000 * unit)

-- Behind the check of the types.
abbrev pub is_true : Option Bool → Bool
is_true none = false
is_true (some b) = b

unfoldable pub valid : Confirmation → Bool
unfolding mbps_valid
valid c =
    is_some c.timed_out
    && (is_some c.endpoint_ready
        && (mbps_valid c.mbps && not (is_true c.timed_out && is_some c.mbps)))

-- A value that `valid` has passed is finite, so the last clause is not reached from `verdict`.
grade : Option Number → Policy → Verdict
grade none p = verdict_unknown
grade (some (finite n)) p =
    if ltb n p.fail_mbps
    then verdict_bad
    else if leb p.recover_mbps n
    then verdict_good
    else verdict_middle
grade (some refused) p = verdict_unknown

unfoldable pub verdict : Confirmation → Policy → Verdict
unfolding valid grade
verdict c p =
    if not (valid c && is_true c.endpoint_ready)
    then verdict_unknown
    else if is_true c.timed_out
    then verdict_bad
    else grade c.mbps p
