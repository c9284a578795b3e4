-- ===== src/Incident/Writes.antt =====
-- What the transactions of the incident runtime write, as a relation of the store before and after: a
-- relation that holds of a write that leaves the tables, and of the one that SQLite accepts, holds of the
-- transaction.
pub mod Transactions
use install_singboxhysteria.Incident.Store.{
  Store, Row, Runtime, Io, after_rows, write_rows, rows_succeed, runtime_succeeds, roll_back,
  finish, counted, write_runtime, fail, refuse, commit, accepts, landed, one_open, runtime_ok,
  Values, values_of, Request, Closure,
}
use install_singboxhysteria.Incident.Transactions.{
  with_runtime, when_enabled, row_count, update_rows, change_one, map_runtime, settle, close_row,
  close_runtime, update_with, close_with, incident_update_window, incident_close_window,
  incident_runtime_mark, open_with, new_row, incident_open_window, id_if, same_runtime, activate_at,
  incident_activate, incident_rearm, is_rearmable, next_boundary,
}
use install_singboxhysteria.Common.{
  ℕ, Bool, Option, List, none, some, true, false, ◌≡◌, refl, sym, inl, inr, ◌∷◌, Option-cases, ◌==◌,
  eqb→eq, subst, if◌then◌else◌, ltb, arith, not, [], zero, suc, ◌&&◌,
}

-- What SQLite has checked of a write that it accepts.
pub accepts-one_open :
    (io : Io) (rows : List Row) (s : Option Runtime)
    → accepts io rows s ≡ true
    → one_open rows ≡ true
unfolding accepts rows_succeed runtime_succeeds
accepts-one_open io rows s h = ground arith

pub accepts-runtime_ok :
    (io : Io) (rows : List Row) (s : Runtime)
    → accepts io rows (some s) ≡ true
    → runtime_ok s ≡ true
unfolding accepts rows_succeed runtime_succeeds
accepts-runtime_ok io rows s h = ground arith

module _ (R : Store → Store → Type 0)
    (same : (a b : Store) → b.rows ≡ a.rows → b.runtime ≡ a.runtime → R a b) where
  -- A write of neither table.
  pub fail_write : (st : Store) → R st (fail st)
  unfolding fail
  fail_write st = same st (fail st) refl refl

  pub refuse_write : (st : Store) → R st (refuse st)
  unfolding refuse
  refuse_write st = same st (refuse st) refl refl

  pub if_write :
      {A : Type 0} (b : Bool) (x y : A × Store) (st : Store)
      → (b ≡ true → R st x.1)
      → (b ≡ false → R st y.1)
      → R st (if b then x else y).1
  if_write true x y st f g = f refl
  if_write false x y st f g = g refl

  commit_step :
      (count : Store → Store) (c : Bool) (st x : Store)
      → (c ≡ true → R st (count x))
      → R st (if◌then◌else◌ {A = Bool × Store} c (true, count x) (false, fail (roll_back st x))).1
  unfolding fail roll_back
  commit_step count true st x g = g refl
  commit_step count false st x g = same st (fail (roll_back st x)) refl refl

  runtime_step :
      (io : Io) (count : Store → Store) (r : Bool) (s : Option Runtime) (st x : Store)
      → (r && io.commits ≡ true → R st (count (record x { runtime = s })))
      → R st (finish io count st (if r then (true, record x { runtime = s }) else (false, x))).1
  unfolding finish fail roll_back
  runtime_step io count true s st x g = commit_step count io.commits st (record x { runtime = s }) g
  runtime_step io count false s st x g = same st (fail (roll_back st x)) refl refl

  count_step :
      (io : Io) (count : Store → Store) (b : Bool) (s : Option Runtime) (st x : Store)
      → (b ≡ true
          → runtime_succeeds io s && io.commits ≡ true
          → R st (count (record x { runtime = s })))
      → R st (after_rows io count b s st (true, x)).1
  unfolding after_rows write_runtime refuse roll_back
  count_step io count false s st x g = same st (refuse (roll_back st x)) refl refl
  count_step io count true s st x g = runtime_step io count (runtime_succeeds io s) s st x (g refl)

  rows_step :
      (io : Io) (count : Store → Store) (b w : Bool) (rows : List Row) (s : Option Runtime)
      (st : Store)
      → (b ≡ true
          → w && (runtime_succeeds io s && io.commits) ≡ true
          → R st (count (record st { rows = rows; runtime = s })))
      → R st
          (after_rows io count b s st
            (if w then (true, record st { rows = rows }) else (false, st))).1
  unfolding after_rows fail roll_back
  rows_step io count b true rows s st g = count_step io count b s st (record st { rows = rows }) g
  rows_step io count b false rows s st g = same st (fail (roll_back st st)) refl refl

  -- The statements of a transaction one after the other, each failure rolled back.
  pub after_rows_write :
      (io : Io) (count : Store → Store) (is_one : Bool) (rows : List Row) (s : Option Runtime)
      (st : Store)
      → (is_one ≡ true
          → accepts io rows s ≡ true
          → R st (count (record st { rows = rows; runtime = s })))
      → R st (after_rows io count is_one s st (write_rows io rows st)).1
  unfolding write_rows accepts
  after_rows_write io count is_one rows s st g =
      rows_step io count is_one (rows_succeed io rows) rows s st g

  pub commit_write :
      (io : Io) (rows : List Row) (s : Option Runtime) (st : Store)
      → (accepts io rows s ≡ true → R st (landed rows s st))
      → R st (commit io rows s st).1
  unfolding commit landed counted
  commit_write io rows s st f = after_rows_write io counted true rows s st (λ e. f)

  pub when_enabled_write :
      {A : Type 0} (nothing : A) (st : Store) (r : A × Store)
      → R st r.1
      → R st (when_enabled nothing st r).1
  unfolding when_enabled
  when_enabled_write nothing st r f =
      if_write st.enabled r (nothing, st) st (λ e. f) (λ e. same st st refl refl)

  pub with_runtime_write :
      {A : Type 0} (nothing : A) (st : Store) (f : Runtime → A × Store)
      → ((s : Runtime) → st.runtime ≡ some s → R st (f s).1)
      → R st (with_runtime nothing st f).1
  unfolding with_runtime
  with_runtime_write {A} nothing st f k =
      let P = λ (o : Option Runtime).
        R st (elim o as (λ o. A × Store) [ none ↦ (nothing, fail st) | some s ↦ f s ]).1 in
      elim (Option-cases st.runtime) [
        | inl e ↦ subst P (sym e) (fail_write st)
        | inr (s, e) ↦ subst P (sym e) (k s e)
      ]

  pub change_one_write :
      (io : Io) (f : Row → Row) (g : Runtime → Runtime) (id : ℕ) (st : Store)
      → (row_count id st.rows ≡ 1
          → accepts io (update_rows f id st.rows) (map_runtime g st.runtime) ≡ true
          → R st (landed (update_rows f id st.rows) (map_runtime g st.runtime) st))
      → R st (change_one io f g id st).1
  unfolding change_one landed counted
  change_one_write io f g id st k =
      after_rows_write io counted (row_count id st.rows == 1) (update_rows f id st.rows)
        (map_runtime g st.runtime) st (λ n. k (eqb→eq (row_count id st.rows) 1 n))
