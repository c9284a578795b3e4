-- ===== src/Incident/Scanner/Counts.antt =====
-- What a cycle leaves in the scanner's counters and its phase.
use install_singboxhysteria.Incident.Anomaly.{is_empty}
use install_singboxhysteria.Incident.Transactions.{
  incident_runtime_mark, incident_update_window, incident_close_window,
}
use install_singboxhysteria.Incident.Bundle.{Bundle, min_baseline_buckets, bucket_span, max_buckets}
use install_singboxhysteria.Incident.Verdict.{Detection}
use install_singboxhysteria.Incident.Stage.{
  World, Scanner, Stage, Result, Env, ErrorCode, ok, abort, ◌>>=◌, ◌>>◌, pure, raise, or_raise,
  modify, landing, classify_failed, runtime_state_corrupt,
}
use install_singboxhysteria.Incident.Gates.{
  read_snapshot, discovery_gate, derive_rfs, run_detect, judge, snapshot_of, if_readable,
  discovery_buckets, last_complete_end, warming, is_proven,
}
use install_singboxhysteria.Incident.Scanner.{
  run_one_cycle, cycle_on, cycle_at, evaluate, discovery_cycle, open_cycle, alarm_of, open_row,
  mark, advance_last_signal, settle_open, close_clean, close_window_limit, Bundle, Row, Detection,
  note_evaluated, regate, Runtime, request_of, rounded, set_warmup, incident_update_window,
  is_empty, incident_runtime_mark, unchanged, or_persisted, clean_tail, incident_close_window,
  point_at, clean_buckets, limit_request, is_incident, unpoint_clean, window_limit, unpoint,
}
use install_singboxhysteria.Incident.Store.{Store, Runtime, Row, clean_buckets, window_limit}
use install_singboxhysteria.Common.{
  ℕ, Bool, Option, none, some, true, false, ◌≡◌, refl, ◌∙◌, arith, if◌then◌else◌, max, ◌&&◌, ◌-◌,
  ltb, ◌==◌, ◌*◌, ◌||◌, not,
}

-- Whether it is enabled, and its two counters.
abbrev pub tally_of : Scanner → Bool × ℕ × ℕ
tally_of sc = (sc.enabled, sc.cycles_completed, sc.cycles_failed)

-- A stage that leaves them.
abbrev pub Tallied : {A : Type 0} → Stage A → Type 0
Tallied m = (w : World) → tally_of (m w).1.scanner ≡ tally_of w.scanner

bind-Tallied :
    {A B : Type 0} (m : Stage A) (k : A → Stage B)
    → Tallied m
    → ((a : A) → Tallied (k a))
    → Tallied (m >>= k)
bind-Tallied {A} {B} m k f g w = go (m w) (f w)
  where
    go :
        (o : Result A × World)
        → tally_of o.1.scanner ≡ tally_of w.scanner
        → tally_of
            (elim o.0 as (λ r. Result B × World) [
              | ok a ↦ k a o.1
              | abort x ↦ (abort x, o.1)
            ]).1.scanner
          ≡ tally_of w.scanner
    go (ok a, x) h = g a x ∙ h
    go (abort e, x) h = h

if_Tallied :
    {A : Type 0} (b : Bool) (m n : Stage A) → Tallied m → Tallied n → Tallied (if b then m else n)
if_Tallied true m n f g = f
if_Tallied false m n f g = g

or_raise-Tallied : {A : Type 0} (o : Option A) (x : ErrorCode) → Tallied (or_raise o x)
or_raise-Tallied none x w = refl
or_raise-Tallied (some a) x w = refl

landing-Tallied :
    (f : Store → Bool × Store) (g : Scanner → Scanner)
    → ((sc : Scanner) → tally_of (g sc) ≡ tally_of sc)
    → Tallied (landing f >> modify g)
landing-Tallied f g h = bind-Tallied (landing f) (λ t. modify g) (λ w. refl) (λ t w. h w.scanner)

judge-Tallied : (o : Option Bundle) → Tallied (judge o)
unfolding judge
judge-Tallied none w = refl
judge-Tallied (some b) w = refl

settle_open-Tallied :
    (env : Env) (r : Row) (last_end count : ℕ) (d : Detection) (signal : ℕ)
    → Tallied (settle_open env r last_end count d signal)
unfolding settle_open close_clean
settle_open-Tallied env r last_end count d signal =
    let q = request_of d.classification signal last_end count in
    let kept : Stage (Option ℕ) = pure (some last_end) in
    let update : Stage (Unit {0}) =
      landing (incident_update_window env.write_ok r.id q (some env.store_now)) in
    let moved : Stage (Option ℕ) = update >> kept in
    let same = unchanged r d.classification signal last_end count in
    if_Tallied (clean_tail count d.indices) (close_clean env r q signal >> kept)
      (if same then kept else moved)
      (bind-Tallied (close_clean env r q signal) (λ t. kept)
        (landing-Tallied
          (incident_close_window env.write_ok r.id q clean_buckets (some env.store_now))
          (unpoint_clean signal) (λ sc. refl))
        (λ t w. refl))
      (if_Tallied same kept moved (λ w. refl)
        (bind-Tallied update (λ t. kept) (λ w. refl) (λ t w. refl)))

advance-Tallied : (r : Row) (d : Detection) → Tallied (advance_last_signal r d)
unfolding advance_last_signal
advance-Tallied r d =
    let next : ℕ → Stage ℕ = λ last. pure (max r.last_signal last) in
    if_Tallied (is_empty d.indices) (pure r.last_signal)
      (or_raise d.last_signal classify_failed >>= next) (λ w. refl)
      (bind-Tallied (or_raise d.last_signal classify_failed) next
        (or_raise-Tallied d.last_signal classify_failed) (λ n w. refl))

open_cycle-Tallied :
    (env : Env) (r : Row) (last_end : ℕ) (since : Option ℕ)
    → Tallied (open_cycle env r last_end since)
unfolding open_cycle close_window_limit run_detect
open_cycle-Tallied env r last_end since =
    let count = rounded (last_end - r.analysis_start) in
    let advanced : Detection → Stage (Option ℕ) =
      λ d. advance_last_signal r d >>= λ signal. settle_open env r last_end count d signal in
    let found : Stage (Option ℕ) = run_detect env r.analysis_start last_end since >>= advanced in
    let over : Stage (Option ℕ) = close_window_limit env r >> pure none in
    if_Tallied (ltb last_end r.analysis_start || count == 0) (raise runtime_state_corrupt)
      (if ltb max_buckets count then over else found) (λ w. refl)
      (if_Tallied (ltb max_buckets count) over found
        (bind-Tallied (close_window_limit env r) (λ t. pure none)
          (landing-Tallied
            (incident_close_window env.write_ok r.id (limit_request r) window_limit
              (some env.store_now))
            (unpoint none true) (λ sc. refl))
          (λ t w. refl))
        (bind-Tallied (run_detect env r.analysis_start last_end since) advanced
          (judge-Tallied (env.bundle r.analysis_start last_end (is_proven since r.analysis_start)))
          (λ d.
            bind-Tallied (advance_last_signal r d)
              (λ signal. settle_open env r last_end count d signal) (advance-Tallied r d)
              (settle_open-Tallied env r last_end count d))))

alarm-Tallied : (env : Env) (last_end : ℕ) (d : Detection) → Tallied (alarm_of env last_end d)
unfolding alarm_of open_row
alarm-Tallied env last_end d =
    let opening : ℕ → ℕ → Stage (Option ℕ) = λ first last.
      open_row env (first - min_baseline_buckets * bucket_span) first
        (request_of d.classification last last_end discovery_buckets)
      >>= λ id. modify (point_at id) >> pure (some last_end) in
    let signalled : ℕ → Stage (Option ℕ) =
      λ first. or_raise d.last_signal runtime_state_corrupt >>= opening first in
    bind-Tallied (or_raise d.first_signal runtime_state_corrupt) signalled
      (or_raise-Tallied d.first_signal runtime_state_corrupt)
      (λ first.
        bind-Tallied (or_raise d.last_signal runtime_state_corrupt) (opening first)
          (or_raise-Tallied d.last_signal runtime_state_corrupt)
          (λ last.
            bind-Tallied
              (open_row env (first - min_baseline_buckets * bucket_span) first
                (request_of d.classification last last_end discovery_buckets))
              (λ id. modify (point_at id) >> pure (some last_end)) (λ w. refl) (λ id w. refl)))

evaluate-Tallied :
    (env : Env) (r : Option Row) (gate : Option ℕ) (last_end : ℕ) (since : Option ℕ)
    → Tallied (evaluate env r gate last_end since)
unfolding evaluate discovery_cycle run_detect
evaluate-Tallied env (some r) gate last_end since = open_cycle-Tallied env r last_end since
evaluate-Tallied env none none last_end since = λ w. refl
evaluate-Tallied env none (some gate) last_end since =
    let start = last_end - discovery_buckets * bucket_span in
    let judged : Detection → Stage (Option ℕ) = λ d.
      if not (is_incident d.classification.status)
      then pure (some last_end)
      else alarm_of env last_end d in
    if_Tallied (warming (some gate) (some last_end)) (pure none)
      (run_detect env start last_end since >>= judged) (λ w. refl)
      (bind-Tallied (run_detect env start last_end since) judged
        (judge-Tallied (env.bundle start last_end (is_proven since start)))
        (λ d.
          if_Tallied (not (is_incident d.classification.status)) (pure (some last_end))
            (alarm_of env last_end d) (λ w. refl) (alarm-Tallied env last_end d)))

note_evaluated_tally : (o : Option ℕ) (sc : Scanner) → tally_of (note_evaluated o sc) ≡ tally_of sc
note_evaluated_tally none sc = refl
note_evaluated_tally (some n) sc = refl

cycle_at-Tallied :
    (env : Env) (s : Runtime) (r : Option Row) (gate since last_end : Option ℕ)
    → Tallied (cycle_at env s r gate since last_end)
unfolding cycle_at mark regate
cycle_at-Tallied env s r gate since none =
    bind-Tallied (modify (set_warmup true)) (λ t. mark env none since s) (λ w. refl)
      (λ t.
        landing-Tallied (incident_runtime_mark env.mark_ok (some s.evaluated_end) (some since))
          (note_evaluated none) (note_evaluated_tally none))
cycle_at-Tallied env s r gate since (some last_end) =
    bind-Tallied (evaluate env r gate last_end since)
      (λ evaluated. modify (regate last_end) >> mark env evaluated since s)
      (evaluate-Tallied env r gate last_end since)
      (λ evaluated.
        bind-Tallied (modify (regate last_end)) (λ t. mark env evaluated since s) (λ w. refl)
          (λ t.
            landing-Tallied
              (incident_runtime_mark env.mark_ok (some (or_persisted evaluated s.evaluated_end))
                (some since))
              (note_evaluated evaluated) (note_evaluated_tally evaluated)))

snapshot-Tallied : (env : Env) (o : Option Runtime) → Tallied (snapshot_of env o)
snapshot-Tallied env none w = refl
snapshot-Tallied env (some s) w = refl

discovery_gate-Tallied : (s : Runtime) → Tallied (discovery_gate s)
unfolding discovery_gate
discovery_gate-Tallied s w = ground arith

derive_rfs-Tallied : (env : Env) (since : Option ℕ) → Tallied (derive_rfs env since)
unfolding derive_rfs
derive_rfs-Tallied env since w = ground arith

pub run_one_cycle-Tallied : (env : Env) → Tallied (run_one_cycle env)
unfolding run_one_cycle read_snapshot cycle_on
run_one_cycle-Tallied env =
    bind-Tallied (read_snapshot env) (cycle_on env)
      (λ w.
        snapshot-Tallied env (if_readable (env.snapshot_ok && w.store.enabled) w.store.runtime) w)
      (λ p.
        let body : Option ℕ → Option ℕ → Stage (Unit {0}) = λ gate since.
          cycle_at env p.0 p.1 gate since (last_complete_end env.now p.0.activation_floor) in
        let gated : Option ℕ → Stage (Unit {0}) =
          λ gate. derive_rfs env p.0.fresh_since >>= body gate in
        if_Tallied (p.0.activation_floor == 0) (pure tt) (discovery_gate p.0 >>= gated) (λ w. refl)
          (bind-Tallied (discovery_gate p.0) gated (discovery_gate-Tallied p.0) (λ gate.
            bind-Tallied (derive_rfs env p.0.fresh_since) (body gate)
              (derive_rfs-Tallied env p.0.fresh_since)
              (λ since.
                cycle_at-Tallied env p.0 p.1 gate since
                  (last_complete_end env.now p.0.activation_floor)))))
