-- ===== src/Incident/Scanner/Outcome.antt =====
-- How a cycle ends: each counts once, and the phase tells a failure.
use install_singboxhysteria.Incident.Stage.{World, Scanner, Result, Env, ErrorCode, ok, abort}
use install_singboxhysteria.Incident.Scanner.{
  run_once, run_one_cycle, note, phase, phase_degraded, note_success, note_failure,
}
use install_singboxhysteria.Incident.Scanner.Counts.{run_one_cycle-Tallied, tally_of}
use install_singboxhysteria.Common.{
  ℕ, Bool, none, some, true, ◌≡◌, ◌≢◌, refl, sym, ◌∙◌, ap, subst, ◌+◌, arith, if◌then◌else◌,
}

-- It completed: its counter alone is raised, no error is kept, and the phase is not degraded.
pub record IsCompleted (before after : Scanner) : Type 0 where
  pub completed : after.cycles_completed ≡ before.cycles_completed + 1
  pub failed : after.cycles_failed ≡ before.cycles_failed
  pub no_error : after.last_error_code ≡ none
  pub shown : phase after ≢ phase_degraded

-- It failed: the other counter alone is raised, its error is kept, and the phase is degraded.
pub record IsFailed (e : ErrorCode) (before after : Scanner) : Type 0 where
  pub completed : after.cycles_completed ≡ before.cycles_completed
  pub failed : after.cycles_failed ≡ before.cycles_failed + 1
  pub error : after.last_error_code ≡ some e
  pub shown : phase after ≡ phase_degraded

-- How the result of the cycle is told.
abbrev pub Told : Result (Unit {0}) → Scanner → Scanner → Type 0
Told (ok t) before after = IsCompleted before after
Told (abort e) before after = IsFailed e before after

shown_completed : (sc : Scanner) → sc.enabled ≡ true → phase (note_success sc) ≢ phase_degraded
unfolding phase note_success
shown_completed sc e = ground arith

shown_failed :
    (x : ErrorCode) (sc : Scanner) → sc.enabled ≡ true → phase (note_failure x sc) ≡ phase_degraded
unfolding phase note_failure
shown_failed x sc e = ground arith

told :
    (r : Result (Unit {0})) (before during : Scanner)
    → before.enabled ≡ true
    → tally_of during ≡ tally_of before
    → Told r before (note r during)
unfolding note note_success note_failure
told (ok t) before during e h = record {
  completed = ap (λ (c : Bool × ℕ × ℕ). c.1 + 1) h;
  failed = ap (λ (c : Bool × ℕ × ℕ). c.2) h;
  no_error = refl;
  shown = shown_completed during (ap (λ (c : Bool × ℕ × ℕ). c.0) h ∙ e);
}
told (abort x) before during e h = record {
  completed = ap (λ (c : Bool × ℕ × ℕ). c.1) h;
  failed = ap (λ (c : Bool × ℕ × ℕ). c.2 + 1) h;
  error = refl;
  shown = shown_failed x during (ap (λ (c : Bool × ℕ × ℕ). c.0) h ∙ e);
}

-- Of an enabled scanner, `run_once` counts each cycle once: one that ends well raises the counter of
-- completed cycles alone, keeps no error and leaves a phase that is not degraded; one that aborts raises the
-- counter of failed cycles alone, keeps its error and leaves the degraded phase.
pub run_once-Told :
    (env : Env) (w : World)
    → w.scanner.enabled ≡ true
    → Told (run_one_cycle env w).0 w.scanner (run_once env w).scanner
unfolding run_once
run_once-Told env w e =
    let o = run_one_cycle env w in
    let noted : World = record o.1 { scanner = note o.0 o.1.scanner } in
    subst (λ b. Told o.0 w.scanner (if b then noted else w).scanner) (sym e)
      (told o.0 w.scanner o.1.scanner e (run_one_cycle-Tallied env w))
