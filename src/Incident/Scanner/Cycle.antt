-- ===== src/Incident/Scanner/Cycle.antt =====
-- What a whole cycle does to the store: nothing before the activation, and else what its one write does.
use install_singboxhysteria.Incident.Lifecycle.{Armed}
use install_singboxhysteria.Incident.Stage.{World, Stage, Env, ◌>>=◌, pure}
use install_singboxhysteria.Incident.Gates.{
  read_snapshot, discovery_gate, derive_rfs, last_complete_end, if_readable, pointed, snapshot_of,
  failed_read,
}
use install_singboxhysteria.Incident.Scanner.{run_one_cycle, run_once, cycle_at, note, cycle_on}
use install_singboxhysteria.Incident.Scanner.Stages.{then_stage, if_stage}
use install_singboxhysteria.Incident.Scanner.Writes.{StoreLaws, cycle_at_write}
use install_singboxhysteria.Incident.Store.{Store, Runtime, Row, fail}
use install_singboxhysteria.Common.{
  ◌≡◌, refl, sym, ◌∙◌, subst, Option, some, none, ℕ, Bool, true, false, inl, inr, arith, Bool-cases,
  ltb, ◌&&◌, ◌==◌, if◌then◌else◌,
}

pub if_readable-some :
    (b : Bool) (o : Option Runtime) (s : Runtime) → if_readable b o ≡ some s → o ≡ some s
if_readable-some true o s e = e
if_readable-some false o s e = cc

pub discovery_gate_store : (s : Runtime) (w : World) → (discovery_gate s w).1.store ≡ w.store
unfolding discovery_gate
discovery_gate_store s w = ground arith

pub derive_rfs_store :
    (env : Env) (since : Option ℕ) (w : World) → (derive_rfs env since w).1.store ≡ w.store
unfolding derive_rfs
derive_rfs_store env since w = ground arith

-- A read, even one that fails, leaves both tables.
pub failed_read_same :
    (env : Env) (st : Store)
    → ((failed_read env st).rows ≡ st.rows) × ((failed_read env st).runtime ≡ st.runtime)
unfolding failed_read fail
failed_read_same env st = (ground arith, ground arith)

snapshot_then :
    {A : Type 0} (P : World → Type 0) (env : Env) (o : Option Runtime)
    (k : Runtime × Option Row → Stage A) (w : World)
    → P (record w { store = failed_read env w.store })
    → ((s : Runtime) → o ≡ some s → P (k (s, pointed s.open_id w.store.rows) w).1)
    → P ((snapshot_of env o >>= k) w).1
snapshot_then P env none k w p f = p
snapshot_then P env (some s) k w p f = f s refl

-- What follows a read, from the runtime row that the store has.
pub read_then :
    {A : Type 0} (P : World → Type 0) (env : Env) (k : Runtime × Option Row → Stage A) (w : World)
    → P (record w { store = failed_read env w.store })
    → ((s : Runtime) → w.store.runtime ≡ some s → P (k (s, pointed s.open_id w.store.rows) w).1)
    → P ((read_snapshot env >>= k) w).1
unfolding read_snapshot
read_then P env k w p f =
    let can = env.snapshot_ok && w.store.enabled in
    snapshot_then P env (if_readable can w.store.runtime) k w p
      (λ s e. f s (if_readable-some can w.store.runtime s e))

module _ {R Q : Store → Store → Type 0} (laws : StoreLaws R Q) where
  armed_cycle_write :
      (env : Env) (s : Runtime) (r : Option Row) (w : World)
      → Armed w.store
      → R w.store
          ((discovery_gate s >>= λ gate. derive_rfs env s.fresh_since >>= λ since.
              cycle_at env s r gate since (last_complete_end env.now s.activation_floor))
            w).1.store
  armed_cycle_write env s r w a =
      let last_end = last_complete_end env.now s.activation_floor in
      let still : R w.store w.store = laws.same w.store w.store refl refl in
      let body : Option ℕ → Option ℕ → Stage (Unit {0}) =
        λ gate since. cycle_at env s r gate since last_end in
      let gated : Option ℕ → Stage (Unit {0}) =
        λ gate. derive_rfs env s.fresh_since >>= body gate in
      then_stage (R w.store) (discovery_gate s) gated w (discovery_gate_store s w) still
        (λ gate w1 h1.
          then_stage (R w.store) (derive_rfs env s.fresh_since) (body gate) w1
            (derive_rfs_store env s.fresh_since w1) (subst (R w.store) (sym h1) still)
            (λ since w2 h2.
              subst (λ st. R st (body gate since w2).1.store) (h2 ∙ h1)
                (cycle_at_write laws env s r gate since last_end w2
                  (subst Armed (sym (h2 ∙ h1)) a))))

  pub run_one_cycle_write : (env : Env) (w : World) → R w.store (run_one_cycle env w).1.store
  unfolding run_one_cycle cycle_on
  run_one_cycle_write env w =
      let still : R w.store w.store = laws.same w.store w.store refl refl in
      let kept = failed_read_same env w.store in
      read_then (λ o. R w.store o.store) env (cycle_on env) w
        (laws.same w.store (failed_read env w.store) kept.0 kept.1)
        (λ s e.
          let r = pointed s.open_id w.store.rows in
          let armed : ltb 0 s.activation_floor ≡ true → Armed w.store = λ a x q.
            let both = sym e ∙ q in
            let same : s ≡ x = cc in
            subst (λ (y : Runtime). ltb 0 y.activation_floor ≡ true) same a in
          let running : Stage (Unit {0}) = discovery_gate s >>= λ gate.
          derive_rfs env s.fresh_since >>= λ since.
          cycle_at env s r gate since (last_complete_end env.now s.activation_floor) in
          if_stage (R w.store) (s.activation_floor == 0) (pure tt) running w (λ h. still)
            (λ h. armed_cycle_write env s r w (armed (ground (arith, h)))))

  pub run_once_write : (env : Env) (w : World) → R w.store (run_once env w).store
  unfolding run_once
  run_once_write env w =
      let o = run_one_cycle env w in
      let noted : World = record o.1 { scanner = note o.0 o.1.scanner } in
      let P = λ (b : Bool). R w.store (if b then noted else w).store in
      elim (Bool-cases w.scanner.enabled) [
        | inl e ↦ subst P (sym e) (run_one_cycle_write env w)
        | inr e ↦ subst P (sym e) (laws.same w.store w.store refl refl)
      ]
