-- ===== src/Auth/Limiter/Burst.antt =====
-- Enough failures within the window lock an address out, whatever other addresses do.
use install_singboxhysteria.Dict.{find, find-put, find-put_other, put}
use install_singboxhysteria.Auth.Limiter.{
  Limiter, record_failure, recent, list_or_empty, find, ltb, length, Bool, check, put, check_until,
  leb, round_seconds, second,
}
use install_singboxhysteria.Common.{
  ℕ, [], ◌∷◌, List, none, some, true, false, inl, inr, refl, ◌≡◌, arith, ◌==◌, ◌≤◌, if◌then◌else◌,
  ◌<◌, ◌++◌, ◌+◌, ltb, length, ap, Bool-cases, Bool, ◌∙◌, eqb→eq, subst, length-append, sym, leb,
  ◌*◌, ◌-◌,
}

-- Failures of all addresses, the newest first, each with its time and its address.
unfoldable pub run_failures : List (ℕ × ℕ) → Limiter → Limiter
run_failures [] l = l
run_failures ((now, ip) ∷ es) l = record_failure now ip (run_failures es l)

-- The failures of one address.
abbrev count_of : ℕ → List (ℕ × ℕ) → ℕ
count_of ip [] = 0
count_of ip ((t, j) ∷ es) = if j == ip then count_of ip es + 1 else count_of ip es

-- They lie in the window that starts at `a`.
abbrev pub Within : ℕ → ℕ → ℕ → List (ℕ × ℕ) → Type 0
Within a w ip [] = Unit {0}
Within a w ip ((t, j) ∷ es) = ((j == ip) ≡ true → (a ≤ t) × (t < a + w)) × Within a w ip es

abbrev AllFrom : ℕ → List ℕ → Type 0
AllFrom a [] = Unit {0}
AllFrom a (t ∷ ts) = (a ≤ t) × AllFrom a ts

recent-AllFrom : (now w a : ℕ) (ts : List ℕ) → now < a + w → AllFrom a ts → recent now w ts ≡ ts
unfolding recent
recent-AllFrom now w a [] h k = refl
recent-AllFrom now w a (t ∷ ts) h k =
    let this : ltb now (t + w) ≡ true = ground (arith, k.0, h) in
    rw (this, recent-AllFrom now w a ts h k.1) refl

AllFrom-append : (a t : ℕ) (ts : List ℕ) → a ≤ t → AllFrom a ts → AllFrom a (ts ++ t ∷ [])
AllFrom-append a t [] h k = (h, tt)
AllFrom-append a t (s ∷ ts) h k = (k.0, AllFrom-append a t ts h k.1)

-- What the failures leave in the limiter.
record Counted (a ip : ℕ) (es : List (ℕ × ℕ)) (l r : Limiter) : Type 0 where
  same_max : r.max_failures ≡ l.max_failures
  same_window : r.window_seconds ≡ l.window_seconds
  same_lockout : r.lockout_seconds ≡ l.lockout_seconds
  times_from : AllFrom a (list_or_empty (find ip r.failures))
  times_count : length (list_or_empty (find ip r.failures)) ≡ count_of ip es
  locked :
      1 ≤ l.max_failures
      → l.max_failures ≤ count_of ip es
      → (u : ℕ) × (find ip r.locked_until ≡ some u) × (a + l.lockout_seconds ≤ u)

if-find :
    (i j : ℕ) (b : Bool) (u : ℕ) (d : List (ℕ × ℕ))
    → (i == j) ≡ false
    → find i (if b then put j u d else d) ≡ find i d
if-find i j true u d h = find-put_other i j u d h
if-find i j false u d h = refl

other-Counted :
    (a ip t j : ℕ) (es : List (ℕ × ℕ)) (l r : Limiter)
    → (j == ip) ≡ false
    → Counted a ip es l r
    → Counted a ip ((t, j) ∷ es) l (record_failure t j r)
unfolding record_failure
other-Counted a ip t j es l r n c =
    let apart : (ip == j) ≡ false = ground (arith, n) in
    let times = recent t r.window_seconds (list_or_empty (find j r.failures)) ++ t ∷ [] in
    let same = ap list_or_empty (find-put_other ip j times r.failures apart) in
    let same_lock = λ (b : Bool). if-find ip j b (t + r.lockout_seconds) r.locked_until apart in
    record {
      same_max = c.same_max;
      same_window = c.same_window;
      same_lockout = c.same_lockout;
      times_from = subst (AllFrom a) (sym same) c.times_from;
      times_count = rw n (ap length same ∙ c.times_count);
      locked = λ one enough.
          let k = c.locked one (rw n at enough) in
          (k.0, same_lock (leb r.max_failures (length times)) ∙ k.1, k.2);
    }

own-Counted :
    (a ip t : ℕ) (es : List (ℕ × ℕ)) (l r : Limiter)
    → a ≤ t
    → t < a + l.window_seconds
    → Counted a ip es l r
    → Counted a ip ((t, ip) ∷ es) l (record_failure t ip r)
unfolding record_failure
own-Counted a ip t es l r lo hi c =
    let ts = list_or_empty (find ip r.failures) in
    let kept = recent-AllFrom t r.window_seconds a ts (omega (arith, c.same_window)) c.times_from in
    let times = recent t r.window_seconds ts ++ t ∷ [] in
    let there = ap list_or_empty (find-put ip times r.failures) in
    let self : (ip == ip) ≡ true = ground arith in
    let count : length times ≡ count_of ip es + 1 =
      ap (λ xs. length (xs ++ t ∷ [])) kept
      ∙ length-append ts (t ∷ [])
      ∙ ap (λ n. n + 1) c.times_count in
    record {
      same_max = c.same_max;
      same_window = c.same_window;
      same_lockout = c.same_lockout;
      times_from =
          subst (AllFrom a) (sym (there ∙ ap (λ xs. xs ++ t ∷ []) kept))
            (AllFrom-append a t ts lo c.times_from);
      times_count = rw self (ap length there ∙ count);
      locked = λ one enough.
          let full : leb r.max_failures (length times) ≡ true =
            ground (arith, c.same_max, count, rw self at enough) in
          (
            t + r.lockout_seconds,
            rw full (find-put ip (t + r.lockout_seconds) r.locked_until),
            omega (arith, lo, c.same_lockout),
          );
    }

run-Counted :
    (a ip : ℕ) (es : List (ℕ × ℕ)) (l : Limiter)
    → find ip l.failures ≡ none
    → Within a l.window_seconds ip es
    → Counted a ip es l (run_failures es l)
unfolding run_failures
run-Counted a ip [] l h k = record {
  same_max = refl;
  same_window = refl;
  same_lockout = refl;
  times_from = rw h tt;
  times_count = rw h refl;
  locked = λ one enough. ground (arith, one, enough);
}
run-Counted a ip ((t, j) ∷ es) l h k =
    let before = run-Counted a ip es l h k.1 in
    elim (Bool-cases (j == ip)) [
      | inl e ↦
          let same = eqb→eq j ip e in
          let here = k.0 e in
          subst (λ (i : ℕ). Counted a ip ((t, i) ∷ es) l (record_failure t i (run_failures es l)))
            (sym same) (own-Counted a ip t es l (run_failures es l) here.0 here.1 before)
      | inr n ↦ other-Counted a ip t j es l (run_failures es l) n before
    ]

-- Rounding takes off half a second at most.
round_seconds_bound : (span : ℕ) → span ≤ round_seconds span * second + 500
round_seconds_bound span = ground (arith)

-- However the failures of other addresses come between: when an address without failures fails at least
-- `max_failures` times (which is not 0) within one window that starts at `a`, then until
-- `a + lockout_seconds` the limiter refuses it, and the wait that it names, which is rounded to whole
-- seconds, ends no sooner than half a second before that.
pub failures_lock_out :
    (a ip now : ℕ) (es : List (ℕ × ℕ)) (l : Limiter)
    → find ip l.failures ≡ none
    → 1 ≤ l.max_failures
    → Within a l.window_seconds ip es
    → l.max_failures ≤ count_of ip es
    → now < a + l.lockout_seconds
    → let answer = (check now ip (run_failures es l)).0 in
      (answer.0 ≡ false) × (a + l.lockout_seconds ≤ now + answer.1 * second + 500)
unfolding check
failures_lock_out a ip now es l h one k enough before =
    let c = run-Counted a ip es l h k in
    let u = c.locked one enough in
    let early : ltb now u.0 ≡ true = ground (arith, u.2, before) in
    let wait = round_seconds_bound (u.0 - now) in
    rw (check, u.1) (rw (check_until, early) (refl, omega (arith, u.2, wait)))
