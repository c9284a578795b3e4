-- ===== src/Incident/Scanner/Closing.antt =====
-- What a whole cycle does to the open window.
use install_singboxhysteria.Incident.Scanner.Opening.{mark_rows}
use install_singboxhysteria.Incident.Scanner.Cycle.{
  read_then, failed_read_same, discovery_gate_store, derive_rfs_store,
}
use install_singboxhysteria.Incident.Verdict.{Detection}
use install_singboxhysteria.Incident.Detect.{detect}
use install_singboxhysteria.Incident.Bundle.{Bundle, max_buckets}
use install_singboxhysteria.Incident.Scanner.Stages.{
  stage_then, if_stage, advance_last_signal_store, run_detect_store,
}
use install_singboxhysteria.Incident.Scanner.Alarm.{answered_stage, run_detect_answer}
use install_singboxhysteria.Incident.Writes.Transactions.{update_write, close_write}
use install_singboxhysteria.Incident.Stage.{
  World, Stage, Env, pure, raise, modify, landing, ◌>>=◌, ◌>>◌, runtime_state_corrupt,
}
use install_singboxhysteria.Incident.Gates.{
  run_detect, is_proven, pointed, last_complete_end, derive_rfs, discovery_gate,
}
use install_singboxhysteria.Incident.Scanner.{
  settle_open, open_cycle, clean_tail, rounded, limit_request, close_clean, close_window_limit,
  unchanged, request_of, Bundle, detect, Detection, advance_last_signal, unpoint_clean,
  runtime_state_corrupt, unpoint, Runtime, run_once, cycle_at, cycle_on, run_one_cycle, evaluate,
  note, set_warmup, regate, mark,
}
use install_singboxhysteria.Incident.Store.{
  Store, Row, Values, window_limit, clean_buckets, landed, Runtime,
}
use install_singboxhysteria.Incident.Transactions.{
  update_rows, settle, close_row, incident_update_window, incident_close_window,
}
use install_singboxhysteria.Common.{
  ◌≡◌, sym, ◌∙◌, subst, Option, some, none, ℕ, Bool, true, List, ◌-◌, ltb, if◌then◌else◌, ◌||◌,
  ◌==◌, inl, inr, refl, ◌⊎◌, Bool-cases, ap, all, ◌+◌,
}

-- What becomes of the rows for the open window `r`, evaluated up to `last_end`: they stay, the window is
-- settled and stays open, or it is closed, for clean buckets only after a verdict without an anomaly in the
-- last three, and for the limit only when it has more buckets than the classifier takes.
pub data Settled (env : Env) (r : Row) (last_end : ℕ) (before : List Row) : List Row → Type 0 where
  as_was : Settled env r last_end before before
  settled :
      (v : Values) (now : ℕ)
      → Settled env r last_end before (update_rows (settle v now) r.id before)
  closed_clean :
      (proven : Bool) (b : Bundle) (v : Values) (now : ℕ)
      → env.bundle r.analysis_start last_end proven ≡ some b
      → all (λ (i : ℕ). ltb (i + 3) (rounded (last_end - r.analysis_start))) (detect b).indices
        ≡ true
      → Settled env r last_end before (update_rows (close_row v clean_buckets now) r.id before)
  closed_at_limit :
      (v : Values) (now : ℕ)
      → ltb max_buckets (rounded (last_end - r.analysis_start)) ≡ true
      → Settled env r last_end before (update_rows (close_row v window_limit now) r.id before)

settle_open_settles :
    (env : Env) (r : Row) (last_end signal : ℕ) (proven : Bool) (b : Bundle) (w : World)
    → env.bundle r.analysis_start last_end proven ≡ some b
    → Settled env r last_end w.store.rows
        (settle_open env r last_end
          (rounded (last_end - r.analysis_start))
          (detect b)
          signal
          w).1.store.rows
unfolding settle_open close_clean landed
settle_open_settles env r last_end signal proven b w asked =
    let d = detect b in
    let count = rounded (last_end - r.analysis_start) in
    let q = request_of d.classification signal last_end count in
    let now = env.store_now in
    let R = λ (x : Store) (y : Store). Settled env r last_end x.rows y.rows in
    let P = λ (st : Store). R w.store st in
    let same : (x y : Store) → y.rows ≡ x.rows → y.runtime ≡ x.runtime → R x y =
      λ x y e h. subst (Settled env r last_end x.rows) (sym e) as_was in
    let kept : Stage (Option ℕ) = pure (some last_end) in
    let update : Stage (Unit {0}) =
      landing (incident_update_window env.write_ok r.id q (some now)) in
    let close : Stage (Unit {0}) =
      landing (incident_close_window env.write_ok r.id q clean_buckets (some now)) in
    let moved : Stage (Option ℕ) = update >> kept in
    let over : Stage (Option ℕ) = close_clean env r q signal >> kept in
    let known = unchanged r d.classification signal last_end count in
    if_stage P (clean_tail count d.indices) over (if known then kept else moved) w
      (λ c.
        stage_then P P (close_clean env r q signal) (λ t. kept) w
          (stage_then P P close (λ t. modify (unpoint_clean signal)) w
            (close_write R same env.write_ok r.id q clean_buckets (some now) w.store
              (λ v n k h. closed_clean proven b v n asked c))
            (λ st p. p) (λ t x p. p))
          (λ st p. p) (λ t x p. p))
      (λ c.
        if_stage P known kept moved w (λ h. as_was)
          (λ h.
            stage_then P P update (λ t. kept) w
              (update_write R same env.write_ok r.id q (some now) w.store (λ v n k a. settled v n))
              (λ st p. p) (λ t x p. p)))

open_cycle_settles :
    (env : Env) (r : Row) (last_end : ℕ) (since : Option ℕ) (w : World)
    → Settled env r last_end w.store.rows (open_cycle env r last_end since w).1.store.rows
unfolding open_cycle close_window_limit landed
open_cycle_settles env r last_end since w =
    let R = λ (x : Store) (y : Store). Settled env r last_end x.rows y.rows in
    let P = λ (st : Store). R w.store st in
    let same : (x y : Store) → y.rows ≡ x.rows → y.runtime ≡ x.runtime → R x y =
      λ x y e h. subst (Settled env r last_end x.rows) (sym e) as_was in
    let count = rounded (last_end - r.analysis_start) in
    let advanced : Detection → Stage (Option ℕ) =
      λ d. advance_last_signal r d >>= λ signal. settle_open env r last_end count d signal in
    let found : Stage (Option ℕ) = run_detect env r.analysis_start last_end since >>= advanced in
    let close : Stage (Unit {0}) = landing (
      incident_close_window env.write_ok r.id (limit_request r) window_limit
        (some env.store_now)) in
    let over : Stage (Option ℕ) = close_window_limit env r >> pure none in
    let from : (x y : Store) → y ≡ x → R x y = λ x y e. subst (R x) (sym e) as_was in
    if_stage P (ltb last_end r.analysis_start || count == 0) (raise runtime_state_corrupt)
      (if ltb max_buckets count then over else found) w (λ e. as_was)
      (λ e.
        if_stage P (ltb max_buckets count) over found w
          (λ l.
            stage_then P P (close_window_limit env r) (λ t. pure none) w
              (stage_then P P close (λ t. modify (unpoint none true)) w
                (close_write R same env.write_ok r.id (limit_request r) window_limit
                  (some env.store_now) w.store (λ v n k h. closed_at_limit v n l))
                (λ st p. p) (λ t x p. p))
              (λ st p. p) (λ t x p. p))
          (λ l.
            answered_stage P (run_detect env r.analysis_start last_end since) advanced w
              (run_detect_store env r.analysis_start last_end since w) as_was
              (λ d w1 a h1.
                let (b, (asked, is)) =
                  run_detect_answer env r.analysis_start last_end since w d a in
                answered_stage P (advance_last_signal r d)
                  (λ signal. settle_open env r last_end count d signal) w1
                  (advance_last_signal_store r d w1) (from w.store w1.store h1)
                  (λ signal w2 g h2.
                    subst (λ st. R st (settle_open env r last_end count d signal w2).1.store)
                      (h2 ∙ h1)
                      (subst
                        (λ x. R w2.store (settle_open env r last_end count x signal w2).1.store)
                        (sym is)
                        (settle_open_settles env r last_end signal
                          (is_proven since r.analysis_start) b w2 asked))))))

-- The rows as they were, or settled up to the last complete bucket.
abbrev pub Evolves : Env → Runtime → Row → List Row → List Row → Type 0
Evolves env s r before after =
    (after ≡ before)
    ⊎ ((last_end : ℕ) × ((last_complete_end env.now s.activation_floor ≡ some last_end)
          × Settled env r last_end before after))

module _ (env : Env) (s : Runtime) (r : Row) where
  cycle_at-Evolves :
      (gate since last_end : Option ℕ) (w : World)
      → last_complete_end env.now s.activation_floor ≡ last_end
      → Evolves env s r w.store.rows (cycle_at env s (some r) gate since last_end w).1.store.rows
  unfolding cycle_at evaluate
  cycle_at-Evolves gate since none w c =
      inl (mark_rows env none since s (record w { scanner = set_warmup true w.scanner }))
  cycle_at-Evolves gate since (some last_end) w c =
      let P = λ (st : Store). Evolves env s r w.store.rows st.rows in
      stage_then P P (open_cycle env r last_end since)
        (λ evaluated. modify (regate last_end) >> mark env evaluated since s) w
        (inr (last_end, (c, open_cycle_settles env r last_end since w))) (λ st p. p)
        (λ evaluated w' p.
          let w2 : World = record w' { scanner = regate last_end w'.scanner } in
          subst (Evolves env s r w.store.rows) (sym (mark_rows env evaluated since s w2)) p)

  cycle_on-Evolves :
      (w : World) → Evolves env s r w.store.rows (cycle_on env (s, some r) w).1.store.rows
  unfolding cycle_on
  cycle_on-Evolves w =
      let last_end = last_complete_end env.now s.activation_floor in
      let P = λ (st : Store). Evolves env s r w.store.rows st.rows in
      let body : Option ℕ → Option ℕ → Stage (Unit {0}) =
        λ gate since. cycle_at env s (some r) gate since last_end in
      let gated : Option ℕ → Stage (Unit {0}) =
        λ gate. derive_rfs env s.fresh_since >>= body gate in
      let rows = λ (x : Store). x.rows in
      if_stage P (s.activation_floor == 0) (pure tt) (discovery_gate s >>= gated) w (λ h. inl refl)
        (λ h.
          answered_stage P (discovery_gate s) gated w (discovery_gate_store s w) (inl refl)
            (λ gate w1 g h1.
              answered_stage P (derive_rfs env s.fresh_since) (body gate) w1
                (derive_rfs_store env s.fresh_since w1) (inl (ap rows h1))
                (λ since w2 q h2.
                  subst (λ x. Evolves env s r x (body gate since w2).1.store.rows)
                    (ap rows (h2 ∙ h1)) (cycle_at-Evolves gate since last_end w2 refl))))

  run_one_cycle-Evolves :
      (w : World)
      → w.store.runtime ≡ some s
      → pointed s.open_id w.store.rows ≡ some r
      → Evolves env s r w.store.rows (run_one_cycle env w).1.store.rows
  unfolding run_one_cycle
  run_one_cycle-Evolves w e n =
      read_then (λ o. Evolves env s r w.store.rows o.store.rows) env (cycle_on env) w
        (inl (failed_read_same env w.store).0)
        (λ t q.
          let both = sym e ∙ q in
          let same : s ≡ t = cc in
          subst
            (λ x.
              Evolves env s r w.store.rows
                (cycle_on env (x, pointed x.open_id w.store.rows) w).1.store.rows)
            same
            (subst (λ o. Evolves env s r w.store.rows (cycle_on env (s, o) w).1.store.rows) (sym n)
              (cycle_on-Evolves w)))

-- Where the pointer names a window, `run_once` in any environment leaves the rows as they are, or settles that
-- window and keeps it open, or closes it: for clean buckets only when the verdict on the whole window up to
-- the last complete bucket has no anomaly in its last three buckets, and for the limit only when the window
-- has more buckets than the classifier takes. Only the open row of that id is written, and none is added.
pub run_once-Evolves :
    (env : Env) (w : World) (s : Runtime) (r : Row)
    → w.store.runtime ≡ some s
    → pointed s.open_id w.store.rows ≡ some r
    → Evolves env s r w.store.rows (run_once env w).store.rows
unfolding run_once
run_once-Evolves env w s r e n =
    let o = run_one_cycle env w in
    let noted : World = record o.1 { scanner = note o.0 o.1.scanner } in
    let P = λ (b : Bool). Evolves env s r w.store.rows (if b then noted else w).store.rows in
    elim (Bool-cases w.scanner.enabled) [
      | inl b ↦ subst P (sym b) (run_one_cycle-Evolves env s r w e n)
      | inr b ↦ subst P (sym b) (inl refl)
    ]
