-- ===== src/Auth/Limiter.antt =====
-- monitor-v2/web/auth.py: `LoginRateLimiter`. An address is a number. The clock and the two spans
-- of seconds are kept in whole milliseconds; the wait that `check` names is in seconds, as in the code.
-- The mutex makes each operation one step.
pub mod Burst
use install_singboxhysteria.Common.{
  ℕ, [], ◌∷◌, none, some, true, false, zero, suc, inl, inr, refl, ◌≡◌, arith, List, Option, Bool,
  ◌++◌, if◌then◌else◌, ltb, leb, ◌-◌, ◌+◌, length, ◌/◌, ◌*◌, ◌%◌,
}
use install_singboxhysteria.Dict.{find, put, remove}

pub record Limiter : Type 0 where
  pub max_failures : ℕ
  pub window_seconds : ℕ
  pub lockout_seconds : ℕ
  pub failures : List (ℕ × List ℕ)
  pub locked_until : List (ℕ × ℕ)

-- In milliseconds.
abbrev pub second : ℕ
second = 1000

-- `int(round(span))`, to the even number where it lies in the middle.
abbrev pub round_seconds : ℕ → ℕ
round_seconds span =
    let q = span / second in
    let r = span % second in
    if ltb (2 * r) second then q else if ltb second (2 * r) then q + 1 else q + q % 2

-- With the defaults of the module.
unfoldable pub new_limiter : Limiter
new_limiter = record {
  max_failures = 5;
  window_seconds = 900 * second;
  lockout_seconds = 900 * second;
  failures = [];
  locked_until = [];
}

abbrev pub list_or_empty : Option (List ℕ) → List ℕ
list_or_empty none = []
list_or_empty (some l) = l

unfoldable pub check_until : ℕ → ℕ → Option ℕ → Limiter → (Bool × ℕ) × Limiter
check_until now ip none l = ((true, 0), l)
check_until now ip (some until) l =
    if ltb now until then ((false, round_seconds (until - now)), l) else (
      (true, 0),
      record l { locked_until = remove ip l.locked_until; failures = remove ip l.failures },
    )

-- `check`: whether a login may be tried, and after how many seconds.
unfoldable pub check : ℕ → ℕ → Limiter → (Bool × ℕ) × Limiter
unfolding check_until
check now ip l = check_until now ip (find ip l.locked_until) l

-- `[t for t in times if t > now - window]`, where the difference may be below 0.
unfoldable pub recent : ℕ → ℕ → List ℕ → List ℕ
recent now window [] = []
recent now window (t ∷ ts) =
    let rest = recent now window ts in if ltb now (t + window) then t ∷ rest else rest

unfoldable pub record_failure : ℕ → ℕ → Limiter → Limiter
unfolding recent
record_failure now ip l =
    let times = recent now l.window_seconds (list_or_empty (find ip l.failures)) ++ now ∷ [] in
    record l {
      failures = put ip times l.failures;
      locked_until =
          if leb l.max_failures (length times)
          then put ip (now + l.lockout_seconds) l.locked_until
          else l.locked_until;
    }

unfoldable pub record_success : ℕ → Limiter → Limiter
record_success ip l = record l {
  failures = remove ip l.failures;
  locked_until = remove ip l.locked_until;
}
