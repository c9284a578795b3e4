-- ===== src/Incident/Writes/Transactions.antt =====
-- What each transaction of the incident runtime writes, on any arguments.
use install_singboxhysteria.Incident.Store.{
  Store, Row, Runtime, Io, after_rows, write_rows, fail, refuse, commit, accepts, landed, Values,
  values_of, Request, Closure,
}
use install_singboxhysteria.Incident.Transactions.{
  with_runtime, row_count, update_rows, change_one, map_runtime, settle, close_row, close_runtime,
  update_with, close_with, incident_update_window, incident_close_window, incident_runtime_mark,
  open_with, new_row, incident_open_window, id_if, same_runtime, activate_at, incident_activate,
  incident_rearm, is_rearmable, next_boundary, mark_at, rearm_at,
}
use install_singboxhysteria.Common.{
  ℕ, Bool, Option, List, none, some, true, false, ◌≡◌, refl, sym, ◌∷◌, ◌==◌, subst, if◌then◌else◌,
  ltb, not,
}
use install_singboxhysteria.Incident.Writes.{
  after_rows_write, fail_write, refuse_write, commit_write, if_write, when_enabled_write,
  with_runtime_write, change_one_write,
}

id_if_lem : (id : ℕ) (r : Bool × Store) → (id_if id r).1 ≡ r.1
id_if_lem id (true, st) = refl
id_if_lem id (false, st) = refl

-- The runtime row that an activation leaves.
abbrev pub armed_with : ℕ → Runtime → Runtime
armed_with floor s = record s {
  activation_floor = floor;
  discovery_floor = some floor;
  rearm_required = false;
}

module _ (R : Store → Store → Type 0)
    (same : (a b : Store) → b.rows ≡ a.rows → b.runtime ≡ a.runtime → R a b) where
  -- SQLite accepts the row and its pointer, and then the relation holds.
  abbrev Opens : Io → Row → Runtime → Store → Type 0
  Opens io r s st =
      accepts io (r ∷ st.rows) (some (record s { open_id = some r.id })) ≡ true
      → R st (landed (r ∷ st.rows) (some (record s { open_id = some r.id })) st)

  pub activate_write :
      (io : Io) (floor : Option ℕ) (st : Store)
      → ((n : ℕ) (s : Runtime)
          → st.runtime ≡ some s
          → ltb 0 s.activation_floor ≡ false
          → accepts io st.rows (some (armed_with n s)) ≡ true
          → R st (record st { runtime = some (armed_with n s) }))
      → R st (incident_activate io floor st).1
  unfolding incident_activate activate_at
  activate_write io none st k =
      when_enabled_write R same false st (false, refuse st) (refuse_write R same st)
  activate_write io (some n) st k =
      when_enabled_write R same false st (with_runtime false st (λ s. activate_at io n s st)) (
        with_runtime_write R same false st (λ s. activate_at io n s st)
          (λ s e.
            let armed = some (armed_with n s) in
            let tried = after_rows io (λ x. x) true armed st (write_rows io st.rows st) in
            let asked = if ltb 0 s.activation_floor then (true, st) else tried in
            if_write R same (not io.reads) (false, fail st) asked st (λ h. fail_write R same st)
              (λ h.
                if_write R same (ltb 0 s.activation_floor) (true, st) tried st
                  (λ a. same st st refl refl)
                  (λ a.
                    after_rows_write R same io (λ x. x) true st.rows armed st (λ q. k n s e a)))))

  open_with_write :
      (fresh : List Row → ℕ) (io : Io) (a f now : ℕ) (o : Option Values) (st : Store)
      → ((v : Values) (s : Runtime)
          → o ≡ some v
          → st.runtime ≡ some s
          → Opens io (new_row (fresh st.rows) a f now v) s st)
      → R st (open_with fresh io a f now o st).1
  unfolding open_with new_row
  open_with_write fresh io a f now none st k = refuse_write R same st
  open_with_write fresh io a f now (some v) st k =
      let r = new_row (fresh st.rows) a f now v in
      let write =
        λ (s : Runtime). commit io (r ∷ st.rows) (some (record s { open_id = some r.id })) st in
      let body = λ (s : Runtime). id_if r.id (write s) in
      if_write R same (ltb f a) (none, refuse st) (with_runtime none st body) st
        (λ e. refuse_write R same st)
        (λ e. with_runtime_write R same none st body (λ s h.
          subst (R st) (sym (id_if_lem r.id (write s))) (
            commit_write R same io (r ∷ st.rows) (some (record s { open_id = some r.id })) st
              (k v s refl h))))

  -- On arguments that are all given: the row is the new one of its values.
  pub open_at_write :
      (fresh : List Row → ℕ) (io : Io) (a f : ℕ) (q : Request) (now : ℕ) (st : Store)
      → ((v : Values) (s : Runtime)
          → values_of q ≡ some v
          → st.runtime ≡ some s
          → Opens io (new_row (fresh st.rows) a f now v) s st)
      → R st (incident_open_window fresh io (some a) (some f) q (some now) st).1
  unfolding incident_open_window
  open_at_write fresh io a f q now st k =
      when_enabled_write R same none st (open_with fresh io a f now (values_of q) st)
        (open_with_write fresh io a f now (values_of q) st k)

  pub open_write :
      (fresh : List Row → ℕ) (io : Io) (start first : Option ℕ) (q : Request) (now : Option ℕ)
      (st : Store)
      → ((r : Row) (s : Runtime) → r.is_open ≡ true → st.runtime ≡ some s → Opens io r s st)
      → R st (incident_open_window fresh io start first q now st).1
  unfolding incident_open_window new_row
  open_write fresh io none first q now st k =
      when_enabled_write R same none st (none, refuse st) (refuse_write R same st)
  open_write fresh io (some a) none q now st k =
      when_enabled_write R same none st (none, refuse st) (refuse_write R same st)
  open_write fresh io (some a) (some f) q none st k =
      when_enabled_write R same none st (none, refuse st) (refuse_write R same st)
  open_write fresh io (some a) (some f) q (some now) st k =
      open_at_write fresh io a f q now st (λ v s e. k (new_row (fresh st.rows) a f now v) s refl)

  update_with_write :
      (io : Io) (id now : ℕ) (v : Option Values) (st : Store)
      → ((v : Values) (n : ℕ)
          → row_count id st.rows ≡ 1
          → accepts io (update_rows (settle v n) id st.rows) (map_runtime same_runtime st.runtime)
            ≡ true
          → R st (
              landed
                (update_rows (settle v n) id st.rows)
                (map_runtime same_runtime st.runtime)
                st))
      → R st (update_with io id now v st).1
  unfolding update_with
  update_with_write io id now none st k = refuse_write R same st
  update_with_write io id now (some v) st k =
      change_one_write R same io (settle v now) same_runtime id st (k v now)

  pub update_write :
      (io : Io) (id : ℕ) (q : Request) (now : Option ℕ) (st : Store)
      → ((v : Values) (n : ℕ)
          → row_count id st.rows ≡ 1
          → accepts io (update_rows (settle v n) id st.rows) (map_runtime same_runtime st.runtime)
            ≡ true
          → R st (
              landed
                (update_rows (settle v n) id st.rows)
                (map_runtime same_runtime st.runtime)
                st))
      → R st (incident_update_window io id q now st).1
  unfolding incident_update_window update_with
  update_write io id q none st k =
      when_enabled_write R same false st (false, refuse st) (refuse_write R same st)
  update_write io id q (some now) st k =
      let write = update_with io id now (values_of q) st in
      when_enabled_write R same false st (if id == 0 then (false, refuse st) else write) (
        if_write R same (id == 0) (false, refuse st) write st (λ e. refuse_write R same st)
          (λ e. update_with_write io id now (values_of q) st k))

  close_with_write :
      (io : Io) (id : ℕ) (why : Closure) (now : ℕ) (v : Option Values) (st : Store)
      → ((v : Values) (n : ℕ)
          → row_count id st.rows ≡ 1
          → accepts io
              (update_rows (close_row v why n) id st.rows)
              (map_runtime (close_runtime why v.last_signal) st.runtime)
            ≡ true
          → R st (
              landed
                (update_rows (close_row v why n) id st.rows)
                (map_runtime (close_runtime why v.last_signal) st.runtime)
                st))
      → R st (close_with io id why now v st).1
  unfolding close_with
  close_with_write io id why now none st k = refuse_write R same st
  close_with_write io id why now (some v) st k =
      let f = close_row v why now in
      let g = close_runtime why v.last_signal in
      if_write R same (ltb now v.last_signal) (false, refuse st) (change_one io f g id st) st
        (λ e. refuse_write R same st) (λ e. change_one_write R same io f g id st (k v now))

  pub close_write :
      (io : Io) (id : ℕ) (q : Request) (why : Closure) (now : Option ℕ) (st : Store)
      → ((v : Values) (n : ℕ)
          → row_count id st.rows ≡ 1
          → accepts io
              (update_rows (close_row v why n) id st.rows)
              (map_runtime (close_runtime why v.last_signal) st.runtime)
            ≡ true
          → R st (
              landed
                (update_rows (close_row v why n) id st.rows)
                (map_runtime (close_runtime why v.last_signal) st.runtime)
                st))
      → R st (incident_close_window io id q why now st).1
  unfolding incident_close_window
  close_write io id q why none st k =
      when_enabled_write R same false st (false, refuse st) (refuse_write R same st)
  close_write io id q why (some now) st k =
      let write = close_with io id why now (values_of q) st in
      when_enabled_write R same false st (if id == 0 then (false, refuse st) else write) (
        if_write R same (id == 0) (false, refuse st) write st (λ e. refuse_write R same st)
          (λ e. close_with_write io id why now (values_of q) st k))

  pub mark_write :
      (io : Io) (end_ : Option ℕ) (since : Option (Option ℕ)) (st : Store)
      → ((n : ℕ) (o : Option ℕ) (s : Runtime)
          → st.runtime ≡ some s
          → accepts io st.rows (some (record s { evaluated_end = n; fresh_since = o })) ≡ true
          → R st (landed st.rows (some (record s { evaluated_end = n; fresh_since = o })) st))
      → R st (incident_runtime_mark io end_ since st).1
  unfolding incident_runtime_mark mark_at
  mark_write io none since st k =
      when_enabled_write R same false st (false, refuse st) (refuse_write R same st)
  mark_write io (some n) none st k =
      when_enabled_write R same false st (false, refuse st) (refuse_write R same st)
  mark_write io (some n) (some o) st k =
      let marked = λ (s : Runtime). record s { evaluated_end = n; fresh_since = o } in
      let write = λ (s : Runtime). commit io st.rows (some (marked s)) st in
      when_enabled_write R same false st (with_runtime false st write) (
        with_runtime_write R same false st write
          (λ s e. commit_write R same io st.rows (some (marked s)) st (k n o s e)))

  pub rearm_write :
      (io : Io) (now : Option ℕ) (st : Store)
      → ((n : ℕ) (s : Runtime)
          → st.runtime ≡ some s
          → is_rearmable s ≡ true
          → accepts io st.rows
              (some (record s { rearm_required = false; discovery_floor = some (next_boundary n) }))
            ≡ true
          → R st (
              landed st.rows
                (some
                  (record s { rearm_required = false; discovery_floor = some (next_boundary n) }))
                st))
      → R st (incident_rearm io now st).1
  unfolding incident_rearm rearm_at
  rearm_write io none st k =
      when_enabled_write R same false st (false, refuse st) (refuse_write R same st)
  rearm_write io (some n) st k =
      let after = λ (s : Runtime). record s {
        rearm_required = false;
        discovery_floor = some (next_boundary n);
      } in
      let write = λ (s : Runtime). commit io st.rows (some (after s)) st in
      let asked = λ (s : Runtime). if is_rearmable s then write s else (false, refuse st) in
      let body = λ (s : Runtime). if not io.reads then (false, fail st) else asked s in
      when_enabled_write R same false st (with_runtime false st body) (
        with_runtime_write R same false st body (λ s e.
          if_write R same (not io.reads) (false, fail st) (asked s) st (λ h. fail_write R same st)
            (λ h.
              if_write R same (is_rearmable s) (write s) (false, refuse st) st
                (λ a. commit_write R same io st.rows (some (after s)) st (k n s e a))
                (λ a. refuse_write R same st))))
