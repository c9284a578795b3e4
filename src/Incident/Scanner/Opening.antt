-- ===== src/Incident/Scanner/Opening.antt =====
-- When a whole cycle opens a window.
use install_singboxhysteria.Incident.Transactions.{incident_runtime_mark}
use install_singboxhysteria.Incident.Stage.{
  World, Stage, Env, modify, landing, pure, ◌>>=◌, ◌>>◌, ok,
}
use install_singboxhysteria.Incident.Gates.{discovery_gate, derive_rfs, last_complete_end, pointed}
use install_singboxhysteria.Incident.Scanner.{
  run_once, run_one_cycle, cycle_on, cycle_at, evaluate, mark, note, regate, set_warmup,
  note_evaluated, or_persisted, incident_runtime_mark,
}
use install_singboxhysteria.Incident.Scanner.Stages.{stage_then, if_stage}
use install_singboxhysteria.Incident.Scanner.Cycle.{
  read_then, failed_read_same, discovery_gate_store, derive_rfs_store,
}
use install_singboxhysteria.Incident.Scanner.Alarm.{IsAlarm, answered_stage, discovery_cycle_opens}
use install_singboxhysteria.Incident.Writes.Transactions.{mark_write}
use install_singboxhysteria.Incident.Store.{Store, Runtime, Row, landed}
use install_singboxhysteria.Common.{
  ◌≡◌, refl, sym, ◌∙◌, subst, Option, some, none, ℕ, Bool, true, false, List, ◌⊎◌, inl, inr, ◌∷◌,
  ltb, ◌==◌, ap, arith, if◌then◌else◌, Bool-cases,
}

-- The window that a cycle opened, with the gates that it passed.
pub record IsOpened (env : Env) (s : Runtime) (before after : List Row) : Type 0 where
  pub gate : ℕ
  pub last_end : ℕ
  pub row : Row
  pub activated : ltb 0 s.activation_floor ≡ true
  pub armed : s.rearm_required ≡ false
  pub gate_is : s.discovery_floor ≡ some gate
  pub complete : last_complete_end env.now s.activation_floor ≡ some last_end
  pub on_top : after ≡ row ∷ before
  pub alarm : IsAlarm env gate last_end row

abbrev pub OpensOnly : Env → Runtime → List Row → List Row → Type 0
OpensOnly env s before after = (after ≡ before) ⊎ IsOpened env s before after

pub mark_rows :
    (env : Env) (end_ since : Option ℕ) (s : Runtime) (w : World)
    → (mark env end_ since s w).1.store.rows ≡ w.store.rows
unfolding mark landed
mark_rows env end_ since s w =
    let n = or_persisted end_ s.evaluated_end in
    let R = λ (a : Store) (b : Store). b.rows ≡ a.rows in
    stage_then (R w.store) (R w.store)
      (landing (incident_runtime_mark env.mark_ok (some n) (some since)))
      (λ t. modify (note_evaluated end_)) w
      (mark_write R (λ a b r q. r) env.mark_ok (some n) (some since) w.store (λ k o x e h. refl))
      (λ st p. p) (λ t w' p. p)

discovery_gate_answer :
    (s : Runtime) (w : World) (gate : ℕ)
    → (discovery_gate s w).0 ≡ ok (some gate)
    → (s.rearm_required ≡ false) × (s.discovery_floor ≡ some gate)
unfolding discovery_gate
discovery_gate_answer s w gate h = ground (arith, h)

module _ (env : Env) (s : Runtime) (activated : ltb 0 s.activation_floor ≡ true) where
  evaluate_opens :
      (gate : Option ℕ) (last_end : ℕ) (since : Option ℕ) (w : World)
      → ((g : ℕ) → gate ≡ some g → (s.rearm_required ≡ false) × (s.discovery_floor ≡ some g))
      → last_complete_end env.now s.activation_floor ≡ some last_end
      → OpensOnly env s w.store.rows (evaluate env none gate last_end since w).1.store.rows
  unfolding evaluate
  evaluate_opens none last_end since w g c = inl refl
  evaluate_opens (some gate) last_end since w g c =
      elim (discovery_cycle_opens env gate last_end since w) [
        | inl e ↦ inl e
        | inr (r, (e, a)) ↦ inr (record {
          gate = gate;
          last_end = last_end;
          row = r;
          activated = activated;
          armed = (g gate refl).0;
          gate_is = (g gate refl).1;
          complete = c;
          on_top = e;
          alarm = a;
        })
      ]

  cycle_at_opens :
      (gate since last_end : Option ℕ) (w : World)
      → ((g : ℕ) → gate ≡ some g → (s.rearm_required ≡ false) × (s.discovery_floor ≡ some g))
      → last_complete_end env.now s.activation_floor ≡ last_end
      → OpensOnly env s w.store.rows (cycle_at env s none gate since last_end w).1.store.rows
  unfolding cycle_at
  cycle_at_opens gate since none w g c =
      inl (mark_rows env none since s (record w { scanner = set_warmup true w.scanner }))
  cycle_at_opens gate since (some last_end) w g c =
      let P = λ (st : Store). OpensOnly env s w.store.rows st.rows in
      stage_then P P (evaluate env none gate last_end since)
        (λ evaluated. modify (regate last_end) >> mark env evaluated since s) w
        (evaluate_opens gate last_end since w g c) (λ st p. p)
        (λ evaluated w' p.
          let w2 : World = record w' { scanner = regate last_end w'.scanner } in
          subst (OpensOnly env s w.store.rows) (sym (mark_rows env evaluated since s w2)) p)

  armed_opens :
      (w : World)
      → OpensOnly env s w.store.rows
          ((discovery_gate s >>= λ gate. derive_rfs env s.fresh_since >>= λ since.
              cycle_at env s none gate since (last_complete_end env.now s.activation_floor))
            w).1.store.rows
  armed_opens w =
      let last_end = last_complete_end env.now s.activation_floor in
      let P = λ (st : Store). OpensOnly env s w.store.rows st.rows in
      let body : Option ℕ → Option ℕ → Stage (Unit {0}) =
        λ gate since. cycle_at env s none gate since last_end in
      let gated : Option ℕ → Stage (Unit {0}) =
        λ gate. derive_rfs env s.fresh_since >>= body gate in
      let rows = λ (x : Store). x.rows in
      answered_stage P (discovery_gate s) gated w (discovery_gate_store s w) (inl refl)
        (λ gate w1 g h1.
          answered_stage P (derive_rfs env s.fresh_since) (body gate) w1
            (derive_rfs_store env s.fresh_since w1) (inl (ap rows h1))
            (λ since w2 q h2.
              subst (λ x. OpensOnly env s x (body gate since w2).1.store.rows) (ap rows (h2 ∙ h1))
                (cycle_at_opens gate since last_end w2
                  (λ n e. discovery_gate_answer s w n (g ∙ ap (λ (o : Option ℕ). ok o) e)) refl)))

cycle_on_opens :
    (env : Env) (w : World) (s : Runtime)
    → OpensOnly env s w.store.rows (cycle_on env (s, none) w).1.store.rows
unfolding cycle_on
cycle_on_opens env w s =
    let P = λ (st : Store). OpensOnly env s w.store.rows st.rows in
    let running : Stage (Unit {0}) = discovery_gate s >>= λ gate.
    derive_rfs env s.fresh_since >>= λ since.
    cycle_at env s none gate since (last_complete_end env.now s.activation_floor) in
    if_stage P (s.activation_floor == 0) (pure tt) running w (λ h. inl refl)
      (λ h. armed_opens env s (ground (arith, h)) w)

run_one_cycle_opens :
    (env : Env) (w : World) (s : Runtime)
    → w.store.runtime ≡ some s
    → s.open_id ≡ none
    → OpensOnly env s w.store.rows (run_one_cycle env w).1.store.rows
unfolding run_one_cycle
run_one_cycle_opens env w s e n =
    read_then (λ o. OpensOnly env s w.store.rows o.store.rows) env (cycle_on env) w
      (inl (failed_read_same env w.store).0)
      (λ t q.
        let both = sym e ∙ q in
        let same : s ≡ t = cc in
        subst
          (λ x.
            OpensOnly env s w.store.rows
              (cycle_on env (x, pointed x.open_id w.store.rows) w).1.store.rows)
          same
          (subst
            (λ o.
              OpensOnly env s w.store.rows
                (cycle_on env (s, pointed o w.store.rows) w).1.store.rows)
            (sym n) (cycle_on_opens env w s)))

-- Where no window is open, `run_once` in any environment leaves the rows as they are, or puts one new row on
-- top; it does so only after the activation, without the re-arm gate, on five complete buckets of which
-- none lies before the discovery floor, in which the classifier finds an incident, and the row is open and
-- holds the category and the signal of that incident, with its start three buckets before the signal.
pub run_once-opens :
    (env : Env) (w : World) (s : Runtime)
    → w.store.runtime ≡ some s
    → s.open_id ≡ none
    → ((run_once env w).store.rows ≡ w.store.rows)
      ⊎ IsOpened env s w.store.rows (run_once env w).store.rows
unfolding run_once
run_once-opens env w s e n =
    let o = run_one_cycle env w in
    let noted : World = record o.1 { scanner = note o.0 o.1.scanner } in
    let P = λ (b : Bool). OpensOnly env s w.store.rows (if b then noted else w).store.rows in
    elim (Bool-cases w.scanner.enabled) [
      | inl b ↦ subst P (sym b) (run_one_cycle_opens env w s e n)
      | inr b ↦ subst P (sym b) (inl refl)
    ]
