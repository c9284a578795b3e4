-- ===== src/Incident/Lifecycle/Ends.antt =====
-- The writes that close a window, re-arm and activate, as SQLite accepts them, follow the lifecycle.
use install_singboxhysteria.Incident.Lifecycle.{
  AtMostOne, Follows, IsConsistent, closes, gates, is_armed_or_free, is_none, life, life_at,
  life_of, moves, pointer, runtime_ok, stays, rearms, arms,
}
use install_singboxhysteria.Incident.Store.{
  Io, Closure, Runtime, Store, Values, accepts, clean_buckets, is_none, landed, runtime_ok,
  window_limit,
}
use install_singboxhysteria.Incident.Transactions.{
  close_row, close_runtime, map_runtime, row_count, update_rows, is_rearmable,
}
use install_singboxhysteria.Common.{
  Bool, Option, Option-cases, [], ap, arith, false, filter, inl, inr, leb, length, ltb, none, not,
  refl, some, subst, suc, sym, true, zero, ℕ, ◌&&◌, ◌==◌, ◌||◌, ◌∙◌, ◌≡◌,
}
use install_singboxhysteria.Incident.Lifecycle.Rows.{open_ids-drop, row_count-open_ids}
use install_singboxhysteria.Incident.Writes.{accepts-runtime_ok}
use install_singboxhysteria.Incident.Writes.Transactions.{armed_with}
use install_singboxhysteria.Incident.Lifecycle.Moves.{
  written, IsConsistent-at, IsConsistent-without_runtime,
}

-- The pointer's window is the one that is closed.
closed_pointer :
    (id : ℕ) (p : Option ℕ)
    → length (filter (λ n. n == id) (pointer p)) ≡ 1
    → (filter (λ n. not (n == id)) (pointer p) ≡ []) × (is_none p ≡ false)
closed_pointer id none h = cc
closed_pointer id (some i) h = ground (arith, h)

closing_move :
    (floor signal : ℕ) (p gate : Option ℕ)
    → is_none p ≡ false
    → (ltb 0 floor || is_none p) ≡ true
    → leb floor signal ≡ true
    → AtMostOne (life_at floor p gate) (life_at floor none (some signal))
closing_move zero signal p gate n a f = stays
closing_move (suc k) signal none gate n a f = cc
closing_move (suc k) signal (some id) gate n a f = moves (closes (suc k) id signal f)

gating_move :
    (floor : ℕ) (p gate : Option ℕ)
    → is_none p ≡ false
    → (ltb 0 floor || is_none p) ≡ true
    → AtMostOne (life_at floor p gate) (life_at floor none none)
gating_move zero p gate n a = stays
gating_move (suc k) none gate n a = cc
gating_move (suc k) (some id) gate n a = moves (gates (suc k) id)

close_runtime_lem :
    (why : Closure) (signal : ℕ) (s : Runtime)
    → is_none s.open_id ≡ false
    → is_armed_or_free s ≡ true
    → runtime_ok (close_runtime why signal s) ≡ true
    → ([] ≡ pointer (close_runtime why signal s).open_id)
      × (is_armed_or_free (close_runtime why signal s) ≡ true)
      × AtMostOne (life_of (some s)) (life_of (some (close_runtime why signal s)))
unfolding close_runtime runtime_ok
close_runtime_lem clean_buckets signal s n a ok = (
  refl,
  ground arith,
  closing_move s.activation_floor signal s.open_id s.discovery_floor n a (ground (arith, ok)),
)
close_runtime_lem window_limit signal s n a ok =
    (refl, ground arith, gating_move s.activation_floor s.open_id s.discovery_floor n a)

pub closed-Follows :
    (io : Io) (v : Values) (why : Closure) (now id : ℕ) (st : Store)
    → row_count id st.rows ≡ 1
    → accepts io
        (update_rows (close_row v why now) id st.rows)
        (map_runtime (close_runtime why v.last_signal) st.runtime)
      ≡ true
    → Follows st (
        landed
          (update_rows (close_row v why now) id st.rows)
          (map_runtime (close_runtime why v.last_signal) st.runtime)
          st)
unfolding landed close_row life
closed-Follows io v why now id st n h c =
    let rows = update_rows (close_row v why now) id st.rows in
    let g = close_runtime why v.last_signal in
    let dropped = open_ids-drop (close_row v why now) id st.rows (λ r. refl) in
    elim (Option-cases st.runtime) [
      | inl e ↦ (
        IsConsistent-without_runtime (landed rows (map_runtime g st.runtime) st)
            (ap (map_runtime g) e),
        rw (e) stays,
      )
      | inr (s, e) ↦
          let at = c.points s e in
          let one = closed_pointer id s.open_id (
            ap (λ l. length (filter (λ n. n == id) l)) (sym at)
            ∙ sym (row_count-open_ids id st.rows)
            ∙ n) in
          let ok =
            accepts-runtime_ok io rows (g s)
              (subst (λ o. accepts io rows o ≡ true) (ap (map_runtime g) e) h) in
          let after = close_runtime_lem why v.last_signal s one.1 (c.armed s e) ok in
          subst (λ o. IsConsistent (landed rows o st) × AtMostOne (life st) (life_of o))
            (sym (ap (map_runtime g) e))
            (written rows st s (g s) e ok
              (dropped ∙ ap (filter (λ n. not (n == id))) at ∙ one.0 ∙ after.0) after.1 after.2)
    ]

rearming_move :
    (floor gate : ℕ) (p g : Option ℕ) (rearm : Bool)
    → (ltb 0 floor && (is_none p && (is_none g && rearm))) ≡ true
    → leb floor gate ≡ true
    → AtMostOne (life_at floor p g) (life_at floor p (some gate))
rearming_move zero gate p g rearm a f = cc
rearming_move (suc k) gate none none rearm a f = moves (rearms (suc k) gate f)
rearming_move (suc k) gate none (some n) rearm a f = absurd (ground (arith, a))
rearming_move (suc k) gate (some n) g rearm a f = absurd (ground (arith, a))

pub rearmed-Follows :
    (io : Io) (gate : ℕ) (s : Runtime) (st : Store)
    → st.runtime ≡ some s
    → is_rearmable s ≡ true
    → accepts io st.rows (some (record s { rearm_required = false; discovery_floor = some gate }))
      ≡ true
    → Follows st (
        landed st.rows (some (record s { rearm_required = false; discovery_floor = some gate })) st)
unfolding is_rearmable runtime_ok
rearmed-Follows io gate s st e a h c =
    let after : Runtime = record s { rearm_required = false; discovery_floor = some gate } in
    let ok = accepts-runtime_ok io st.rows after h in
    written st.rows st s after e ok (c.points s e) (c.armed s e) (
      rearming_move s.activation_floor gate s.open_id s.discovery_floor s.rearm_required a
        (ground (arith, ok)))

arming_move :
    (n floor : ℕ) (p gate : Option ℕ)
    → ltb 0 floor ≡ false
    → (ltb 0 floor || is_none p) ≡ true
    → AtMostOne (life_at floor p gate) (life_at n p (some n))
arming_move n (suc floor) p gate a f = absurd (ground (arith, a))
arming_move n zero (some id) gate a f = cc
arming_move zero zero none gate a f = stays
arming_move (suc n) zero none gate a f = moves (arms (suc n))

armed_free :
    (n floor : ℕ) (p : Option ℕ)
    → ltb 0 floor ≡ false
    → (ltb 0 floor || is_none p) ≡ true
    → (ltb 0 n || is_none p) ≡ true
armed_free n floor p a f = ground (arith, a, f)

pub armed-Follows :
    (io : Io) (n : ℕ) (s : Runtime) (st : Store)
    → st.runtime ≡ some s
    → ltb 0 s.activation_floor ≡ false
    → accepts io st.rows (some (armed_with n s)) ≡ true
    → Follows st (record st { runtime = some (armed_with n s) })
unfolding life
armed-Follows io n s st e a h c =
    let after = armed_with n s in
    let ok = accepts-runtime_ok io st.rows after h in
    (
      IsConsistent-at (record st { runtime = some after }) after refl ok (c.points s e)
          (armed_free n s.activation_floor s.open_id a (c.armed s e)),
      subst (λ o. AtMostOne (life_of o) (life_of (some after))) (sym e)
          (arming_move n s.activation_floor s.open_id s.discovery_floor a (c.armed s e)),
    )
