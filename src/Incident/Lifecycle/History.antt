-- ===== src/Incident/Lifecycle/History.antt =====
-- What no transaction ever undoes, and that each is applied whole or not at all.
use install_singboxhysteria.Incident.Lifecycle.Calls.{
  Call, activate, open_window, update_window, close_window, runtime_mark, rearm, apply,
}
use install_singboxhysteria.Incident.Writes.Transactions.{
  open_write, update_write, close_write, mark_write, activate_write, rearm_write, armed_with,
}
use install_singboxhysteria.Incident.Store.{
  all_runtime, one_open, row_ok, rows_succeed, runtime_succeeds, Io, Store, Row, Runtime, landed,
  Closure, accepts, clean_buckets, window_limit,
}
use install_singboxhysteria.Incident.Transactions.{
  update_rows, is_target, close_runtime, map_runtime, settle, same_runtime, close_row,
  next_boundary,
}
use install_singboxhysteria.Common.{
  ℕ, Bool, List, true, false, ◌≡◌, refl, sym, ◌∙◌, subst, ◌∷◌, [], some, arith, ltb, if◌then◌else◌,
  ap, Option, inl, inr, ◌⊎◌, all,
}

-- A row of the table.
pub data Among (r : Row) : List Row → Type 0 where
  at_head : {x : Row} {rows : List Row} → r ≡ x → Among r (x ∷ rows)
  in_tail : {x : Row} {rows : List Row} → Among r rows → Among r (x ∷ rows)

-- The closed windows stay as they are, and a runtime that was activated keeps its activation floor.
pub record Keeps (a b : Store) : Type 0 where
  pub closed : (r : Row) → r.is_open ≡ false → Among r a.rows → Among r b.rows
  pub floor :
      (s : Runtime)
      → a.runtime ≡ some s
      → ltb 0 s.activation_floor ≡ true
      → (t : Runtime) × ((b.runtime ≡ some t) × (t.activation_floor ≡ s.activation_floor))

Keeps-same : (a b : Store) → b.rows ≡ a.rows → b.runtime ≡ a.runtime → Keeps a b
Keeps-same a b r s = record {
  closed = λ x c m. subst (Among x) (sym r) m;
  floor = λ x e p. (x, (s ∙ e, refl));
}

Among-if :
    (b : Bool) (x y : Row) (rows : List Row) (r : Row)
    → Among r rows
    → Among r (if b then x ∷ rows else y ∷ rows)
Among-if true x y rows r m = in_tail m
Among-if false x y rows r m = in_tail m

update_rows-closed :
    (f : Row → Row) (id : ℕ) (rows : List Row) (r : Row)
    → r.is_open ≡ false
    → Among r rows
    → Among r (update_rows f id rows)
unfolding update_rows
update_rows-closed f id [] r c m = elim m [ ]
update_rows-closed f id (x ∷ rows) r c (in_tail m) =
    Among-if (is_target id x) (f x) x (update_rows f id rows) r (update_rows-closed f id rows r c m)
update_rows-closed f id (x ∷ rows) r c (at_head e) =
    let closed : x.is_open ≡ false = ap (λ (y : Row). y.is_open) (sym e) ∙ c in
    let other : is_target id x ≡ false = ground (arith, closed) in
    subst (λ b. Among r (if b then f x ∷ update_rows f id rows else x ∷ update_rows f id rows))
      (sym other) (at_head e)

-- A write of a runtime row with the same activation floor.
keeping :
    (rows : List Row) (t : Runtime) (s : Runtime) (a b : Store)
    → b.rows ≡ rows
    → b.runtime ≡ some t
    → a.runtime ≡ some s
    → t.activation_floor ≡ s.activation_floor
    → ((r : Row) → r.is_open ≡ false → Among r a.rows → Among r rows)
    → Keeps a b
keeping rows t s a b r q e f c = record {
  closed = λ x h m. subst (Among x) (sym r) (c x h m);
  floor = λ x g p.
      let both = sym e ∙ g in
      let same : s ≡ x = cc in (t, (q, f ∙ ap (λ (y : Runtime). y.activation_floor) same));
}

close_runtime-floor :
    (why : Closure) (signal : ℕ) (s : Runtime)
    → (close_runtime why signal s).activation_floor ≡ s.activation_floor
unfolding close_runtime
close_runtime-floor clean_buckets signal s = refl
close_runtime-floor window_limit signal s = refl

-- A write that changes the open rows and keeps the activation floor.
changing :
    (f : Row → Row) (g : Runtime → Runtime) (id : ℕ) (st : Store)
    → ((s : Runtime) → (g s).activation_floor ≡ s.activation_floor)
    → Keeps st (landed (update_rows f id st.rows) (map_runtime g st.runtime) st)
unfolding landed
changing f g id st h = record {
  closed = update_rows-closed f id st.rows;
  floor = λ s e p. (g s, (ap (map_runtime g) e, h s));
}

contradiction :
    (s x : Runtime) → s ≡ x → ltb 0 s.activation_floor ≡ false → ltb 0 x.activation_floor ≡ true → ⊥
contradiction s x e a b = let c = ap (λ (y : Runtime). ltb 0 y.activation_floor) e in cc

-- Every transaction, on any arguments and whichever statements succeed or fail, leaves each closed window as it
-- is, and the activation floor once it is set.
pub apply-Keeps :
    (fresh : List Row → ℕ) (io : Io) (c : Call) (st : Store) → Keeps st (apply fresh io c st)
unfolding landed
apply-Keeps fresh io (activate floor) st = activate_write Keeps Keeps-same io floor st (λ n s e a h.
    record {
      closed = λ x q m. m;
      floor = λ x q p.
          let both = sym e ∙ q in let same : s ≡ x = cc in absurd (contradiction s x same a p);
    })
apply-Keeps fresh io (open_window start first q now) st =
    open_write Keeps Keeps-same fresh io start first q now st (λ r s o e h.
      keeping (r ∷ st.rows) (record s { open_id = some r.id }) s st
        (landed (r ∷ st.rows) (some (record s { open_id = some r.id })) st) refl refl e refl
        (λ x q m. in_tail m))
apply-Keeps fresh io (update_window id q now) st =
    update_write Keeps Keeps-same io id q now st
      (λ v n c h. changing (settle v n) same_runtime id st (λ s. refl))
apply-Keeps fresh io (close_window id q why now) st =
    close_write Keeps Keeps-same io id q why now st (λ v n c h.
      changing (close_row v why n) (close_runtime why v.last_signal) id st
        (close_runtime-floor why v.last_signal))
apply-Keeps fresh io (runtime_mark end_ since) st =
    mark_write Keeps Keeps-same io end_ since st (λ n o s e h.
      let t : Runtime = record s { evaluated_end = n; fresh_since = o } in
      keeping st.rows t s st (landed st.rows (some t) st) refl refl e refl (λ x q m. m))
apply-Keeps fresh io (rearm now) st = rearm_write Keeps Keeps-same io now st (λ n s e a h.
    let t : Runtime = record s {
      rearm_required = false;
      discovery_floor = some (next_boundary n);
    } in
    keeping st.rows t s st (landed st.rows (some t) st) refl refl e refl (λ x q m. m))

-- Both tables are the same, or every statement and the commit succeeded and the tables pass the CHECKs.
abbrev pub Whole : Io → Store → Store → Type 0
Whole io a b =
    ((b.rows ≡ a.rows) × (b.runtime ≡ a.runtime))
    ⊎ ((io.writes_rows ≡ true)
        × ((io.writes_runtime ≡ true)
            × ((io.commits ≡ true)
                × ((all row_ok b.rows ≡ true)
                    × ((one_open b.rows ≡ true) × (all_runtime b.runtime ≡ true))))))

Whole-same : (io : Io) (a b : Store) → b.rows ≡ a.rows → b.runtime ≡ a.runtime → Whole io a b
Whole-same io a b r s = inl (r, s)

accepted :
    (io : Io) (rows : List Row) (s : Option Runtime) (a b : Store)
    → b.rows ≡ rows
    → b.runtime ≡ s
    → accepts io rows s ≡ true
    → Whole io a b
unfolding accepts rows_succeed runtime_succeeds
accepted io rows s a b r q h = inr (
  ground (arith, h),
  (
    ground (arith, h),
    (
      ground (arith, h),
      (rw (r) (ground (arith, h)), (rw (r) (ground (arith, h)), rw (q) (ground (arith, h)))),
    ),
  ),
)

landed-Whole :
    (io : Io) (rows : List Row) (s : Option Runtime) (st : Store)
    → accepts io rows s ≡ true
    → Whole io st (landed rows s st)
unfolding landed
landed-Whole io rows s st h = accepted io rows s st (landed rows s st) refl refl h

-- Whichever statements of a transaction on any arguments succeed, it is whole: either both tables are as
-- before, or the statement on each table and the commit succeeded and both tables pass the CHECKs. In
-- particular a failure behind the first statement leaves nothing of what that statement wrote.
pub apply-Whole :
    (fresh : List Row → ℕ) (io : Io) (c : Call) (st : Store) → Whole io st (apply fresh io c st)
apply-Whole fresh io (activate floor) st =
    activate_write (Whole io) (Whole-same io) io floor st (λ n s e a h.
      let armed = some (armed_with n s) in
      accepted io st.rows armed st (record st { runtime = armed }) refl refl h)
apply-Whole fresh io (open_window start first q now) st =
    open_write (Whole io) (Whole-same io) fresh io start first q now st
      (λ r s o e. landed-Whole io (r ∷ st.rows) (some (record s { open_id = some r.id })) st)
apply-Whole fresh io (update_window id q now) st =
    update_write (Whole io) (Whole-same io) io id q now st (λ v n c.
      landed-Whole io (update_rows (settle v n) id st.rows) (map_runtime same_runtime st.runtime)
        st)
apply-Whole fresh io (close_window id q why now) st =
    close_write (Whole io) (Whole-same io) io id q why now st (λ v n c.
      landed-Whole io (update_rows (close_row v why n) id st.rows)
        (map_runtime (close_runtime why v.last_signal) st.runtime) st)
apply-Whole fresh io (runtime_mark end_ since) st =
    mark_write (Whole io) (Whole-same io) io end_ since st (λ n o s e.
      landed-Whole io st.rows (some (record s { evaluated_end = n; fresh_since = o })) st)
apply-Whole fresh io (rearm now) st = rearm_write (Whole io) (Whole-same io) io now st (λ n s e a.
    landed-Whole io st.rows
      (some (record s { rearm_required = false; discovery_floor = some (next_boundary n) })) st)
