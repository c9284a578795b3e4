-- ===== src/Incident/Transactions.antt =====
-- monitor-v2/web/incident_history.py: the transactions of the incident runtime, `_incident_activate`,
-- `_incident_open_window`, `_incident_update_window`, `_incident_close_window`,
-- `_incident_runtime_mark` and `_incident_rearm`, each with the guard of its public method.
use install_singboxhysteria.Incident.Bundle.{bucket_span}
use install_singboxhysteria.Common.{
  ℕ, [], ◌∷◌, none, some, true, false, if◌then◌else◌, Bool, List, ◌+◌, not, Option, ◌==◌, length,
  ltb, ◌&&◌, filter, ◌-◌, ◌/◌, ◌*◌,
}
use install_singboxhysteria.Incident.Store.{
  Row, Runtime, Store, Io, after_rows, write_rows, counted, fail, refuse, Values, commit, values_of,
  Closure, Request, clean_buckets, window_limit, is_none,
}

-- `_incident_activate_locked`.
unfoldable pub activate_at : Io → ℕ → Runtime → Store → Bool × Store
unfolding fail after_rows write_rows
activate_at io floor s st =
    let armed = record s {
      activation_floor = floor;
      discovery_floor = some floor;
      rearm_required = false;
    } in
    if not io.reads
    then (false, fail st)
    else if ltb 0 s.activation_floor
    then (true, st)
    else after_rows io (λ x. x) true (some armed) st (write_rows io st.rows st)

-- A disabled store answers nothing, and a missing runtime row is never created again.
unfoldable pub with_runtime : {A : Type 0} → A → Store → (Runtime → A × Store) → A × Store
unfolding fail
with_runtime nothing st f = elim st.runtime [ none ↦ (nothing, fail st) | some s ↦ f s ]

unfoldable pub when_enabled : {A : Type 0} → A → Store → A × Store → A × Store
when_enabled nothing st r = if st.enabled then r else (nothing, st)

unfoldable pub incident_activate : Io → Option ℕ → Store → Bool × Store
unfolding with_runtime when_enabled activate_at refuse
incident_activate io none st = when_enabled false st (false, refuse st)
incident_activate io (some floor) st =
    when_enabled false st (with_runtime false st (λ s. activate_at io floor s st))

-- The row of a new window.
unfoldable pub new_row : ℕ → ℕ → ℕ → ℕ → Values → Row
new_row id analysis_start first_signal now v = record {
  id = id;
  is_open = true;
  category = v.category;
  analysis_start = analysis_start;
  first_signal = first_signal;
  last_signal = v.last_signal;
  classified_end = v.classified_end;
  closed_at = none;
  closure = none;
  buckets = v.buckets;
  evidence_bits = v.evidence;
  unknown_bits = v.unknown;
  created = now;
  updated = now;
}

abbrev pub id_if : ℕ → Bool × Store → Option ℕ × Store
id_if id (true, st) = (some id, st)
id_if id (false, st) = (none, st)

module _ (fresh : List Row → ℕ) where
  -- `_incident_open_window_locked`: the row and the pointer in one transaction.
  unfoldable pub open_with : Io → ℕ → ℕ → ℕ → Option Values → Store → Option ℕ × Store
  unfolding commit new_row with_runtime refuse
  open_with io analysis_start first_signal now none st = (none, refuse st)
  open_with io analysis_start first_signal now (some v) st =
      let id = fresh st.rows in
      if ltb first_signal analysis_start
      then (none, refuse st)
      else with_runtime none st (λ s. id_if id (
          commit io (new_row id analysis_start first_signal now v ∷ st.rows)
            (some (record s { open_id = some id })) st))

  unfoldable pub incident_open_window :
      Io → Option ℕ → Option ℕ → Request → Option ℕ → Store → Option ℕ × Store
  unfolding open_with when_enabled values_of refuse
  incident_open_window io (some start) (some first) q (some now) st =
      when_enabled none st (open_with io start first now (values_of q) st)
  incident_open_window io _ _ q _ st = when_enabled none st (none, refuse st)

-- `WHERE incident_id = ? AND state = 'open'`.
abbrev pub is_target : ℕ → Row → Bool
is_target id r = r.id == id && r.is_open

unfoldable pub update_rows : (Row → Row) → ℕ → List Row → List Row
update_rows f id [] = []
update_rows f id (r ∷ rs) =
    let rest = update_rows f id rs in if is_target id r then f r ∷ rest else r ∷ rest

abbrev pub row_count : ℕ → List Row → ℕ
row_count id rows = length (filter (is_target id) rows)

unfoldable pub settle : Values → ℕ → Row → Row
settle v now r = record r {
  category = v.category;
  last_signal = v.last_signal;
  classified_end = v.classified_end;
  buckets = v.buckets;
  evidence_bits = v.evidence;
  unknown_bits = v.unknown;
  updated = now;
}

abbrev pub map_runtime : (Runtime → Runtime) → Option Runtime → Option Runtime
map_runtime g none = none
map_runtime g (some s) = some (g s)

-- A statement that must change one row, and what the transaction then makes of the runtime row.
unfoldable pub change_one : Io → (Row → Row) → (Runtime → Runtime) → ℕ → Store → Bool × Store
unfolding after_rows write_rows update_rows counted
change_one io f g id st =
    after_rows io counted (row_count id st.rows == 1) (map_runtime g st.runtime) st
      (write_rows io (update_rows f id st.rows) st)

abbrev pub same_runtime : Runtime → Runtime
same_runtime s = s

unfoldable pub update_with : Io → ℕ → ℕ → Option Values → Store → Bool × Store
unfolding change_one settle refuse
update_with io id now none st = (false, refuse st)
update_with io id now (some v) st = change_one io (settle v now) same_runtime id st

unfoldable pub incident_update_window : Io → ℕ → Request → Option ℕ → Store → Bool × Store
unfolding update_with when_enabled values_of refuse
incident_update_window io id q none st = when_enabled false st (false, refuse st)
incident_update_window io id q (some now) st =
    when_enabled false st
      (if id == 0 then (false, refuse st) else update_with io id now (values_of q) st)

unfoldable pub close_row : Values → Closure → ℕ → Row → Row
unfolding settle
close_row v why now r = record (settle v now r) {
  is_open = false;
  closed_at = some now;
  closure = some why;
}

-- The pointer and the discovery gate, in the same transaction.
unfoldable pub close_runtime : Closure → ℕ → Runtime → Runtime
close_runtime clean_buckets signal s = record s {
  open_id = none;
  discovery_floor = some signal;
  rearm_required = false;
}
close_runtime window_limit signal s = record s {
  open_id = none;
  discovery_floor = none;
  rearm_required = true;
}

unfoldable pub close_with : Io → ℕ → Closure → ℕ → Option Values → Store → Bool × Store
unfolding change_one close_row close_runtime refuse
close_with io id why now none st = (false, refuse st)
close_with io id why now (some v) st =
    if ltb now v.last_signal
    then (false, refuse st)
    else change_one io (close_row v why now) (close_runtime why v.last_signal) id st

unfoldable pub incident_close_window : Io → ℕ → Request → Closure → Option ℕ → Store → Bool × Store
unfolding close_with when_enabled values_of refuse
incident_close_window io id q why none st = when_enabled false st (false, refuse st)
incident_close_window io id q why (some now) st =
    when_enabled false st
      (if id == 0 then (false, refuse st) else close_with io id why now (values_of q) st)

-- `_incident_runtime_mark_locked`.
unfoldable pub mark_at : Io → ℕ → Option ℕ → Store → Bool × Store
unfolding commit with_runtime
mark_at io end_ since st =
    with_runtime false st
      (λ s. commit io st.rows (some (record s { evaluated_end = end_; fresh_since = since })) st)

-- The outer none of `fresh` is a value that is refused.
unfoldable pub incident_runtime_mark : Io → Option ℕ → Option (Option ℕ) → Store → Bool × Store
unfolding mark_at when_enabled refuse
incident_runtime_mark io (some end_) (some fresh) st =
    when_enabled false st (mark_at io end_ fresh st)
incident_runtime_mark io _ _ st = when_enabled false st (false, refuse st)

-- `math.ceil(now / 60) * 60`.
unfoldable pub next_boundary : ℕ → ℕ
next_boundary now = (now + (bucket_span - 1)) / bucket_span * bucket_span

-- What the re-arm's UPDATE asks of the runtime row.
unfoldable pub is_rearmable : Runtime → Bool
is_rearmable s =
    ltb 0 s.activation_floor
    && (is_none s.open_id && (is_none s.discovery_floor && s.rearm_required))

-- `_incident_rearm_locked`.
unfoldable pub rearm_at : Io → ℕ → Store → Bool × Store
unfolding commit with_runtime next_boundary is_rearmable refuse
rearm_at io now st = with_runtime false st (λ s.
    if not io.reads
    then (false, fail st)
    else if is_rearmable s
    then commit io st.rows
        (some (record s { rearm_required = false; discovery_floor = some (next_boundary now) })) st
    else (false, refuse st))

unfoldable pub incident_rearm : Io → Option ℕ → Store → Bool × Store
unfolding rearm_at when_enabled refuse
incident_rearm io none st = when_enabled false st (false, refuse st)
incident_rearm io (some now) st = when_enabled false st (rearm_at io now st)
