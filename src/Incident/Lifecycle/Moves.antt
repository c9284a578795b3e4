-- ===== src/Incident/Lifecycle/Moves.antt =====
-- Each write that SQLite accepts follows the lifecycle.
use install_singboxhysteria.Incident.Lifecycle.{
  AtMostOne, Follows, IsConsistent, is_armed_or_free, is_none, life, life_at, life_of, moves,
  open_ids, opens, pointer, runtime_ok, stays, Rests,
}
use install_singboxhysteria.Incident.Store.{
  Io, Row, Runtime, Store, Values, accepts, at_least, is_none, landed, open_ids, runtime_ok,
}
use install_singboxhysteria.Incident.Transactions.{map_runtime, same_runtime, settle, update_rows}
use install_singboxhysteria.Common.{
  Bool, List, Option, Option-cases, [], ap, arith, false, inl, inr, leb, length, ltb, none, not,
  refl, some, subst, suc, sym, true, zero, ℕ, ◌&&◌, ◌==◌, ◌||◌, ◌∙◌, ◌∷◌, ◌≡◌,
}
use install_singboxhysteria.Incident.Lifecycle.Rows.{open_ids-keep}
use install_singboxhysteria.Incident.Writes.{accepts-runtime_ok, accepts-one_open}

-- A write of nothing that the lifecycle reads.
pub Follows-same : (a b : Store) → b.rows ≡ a.rows → b.runtime ≡ a.runtime → Follows a b
unfolding life
Follows-same a b r s c = (
  record {
    checked = λ x e. c.checked x (sym s ∙ e);
    points = λ x e. ap open_ids r ∙ c.points x (sym s ∙ e);
    armed = λ x e. c.armed x (sym s ∙ e);
  },
  rw (s) stays,
)

-- A store is consistent by its runtime row.
pub IsConsistent-at :
    (st : Store) (s : Runtime)
    → st.runtime ≡ some s
    → runtime_ok s ≡ true
    → open_ids st.rows ≡ pointer s.open_id
    → is_armed_or_free s ≡ true
    → IsConsistent st
IsConsistent-at st s e ok p a =
    let same : (x : Runtime) → st.runtime ≡ some x → s ≡ x = λ x q. let both = sym e ∙ q in cc in
    record {
      checked = λ x q. subst (λ y. runtime_ok y ≡ true) (same x q) ok;
      points = λ x q. subst (λ y. open_ids st.rows ≡ pointer y.open_id) (same x q) p;
      armed = λ x q. subst (λ y. is_armed_or_free y ≡ true) (same x q) a;
    }

pub IsConsistent-without_runtime : (st : Store) → st.runtime ≡ none → IsConsistent st
IsConsistent-without_runtime st e = record {
  checked = λ x q. let both = sym e ∙ q in cc;
  points = λ x q. let both = sym e ∙ q in cc;
  armed = λ x q. let both = sym e ∙ q in cc;
}

-- An armed runtime that SQLite lets open a window was watching.
opening_move :
    (floor id : ℕ) (gate : Option ℕ) (rearm : Bool)
    → (at_least floor gate
        && (at_least 1 (some id)
            && ((not rearm || (false && is_none gate))
                && (floor == 0 || rearm || not (is_none gate)))))
      ≡ true
    → AtMostOne (life_at floor none gate) (life_at floor (some id) gate)
opening_move zero id gate rearm ok = stays
opening_move (suc n) id (some gate) rearm ok = moves (opens (suc n) gate id)
opening_move (suc n) id none rearm ok = absurd (ground (arith, ok))

no_other :
    (id : ℕ) (ids : List ℕ) (p : Option ℕ)
    → leb (length (id ∷ ids)) 1 ≡ true
    → ids ≡ pointer p
    → (ids ≡ []) × (p ≡ none)
no_other id [] none h e = (refl, refl)
no_other id [] (some i) h e = cc
no_other id (i ∷ ids) p h e = absurd (ground (arith, h))

-- A written runtime row that moves the lifecycle from where the row before it stood.
pub written :
    (rows : List Row) (st : Store) (s s' : Runtime)
    → st.runtime ≡ some s
    → runtime_ok s' ≡ true
    → open_ids rows ≡ pointer s'.open_id
    → is_armed_or_free s' ≡ true
    → AtMostOne (life_of (some s)) (life_of (some s'))
    → IsConsistent (landed rows (some s') st)
      × AtMostOne (life st) (life (landed rows (some s') st))
unfolding landed life
written rows st s s' e ok p a m = (
  IsConsistent-at (landed rows (some s') st) s' refl ok p a,
  subst (λ o. AtMostOne (life_of o) (life_of (some s'))) (sym e) m,
)

-- A row opened beside the others.
pub opened-Follows :
    (io : Io) (r : Row) (s : Runtime) (st : Store)
    → r.is_open ≡ true
    → st.runtime ≡ some s
    → ltb 0 s.activation_floor ≡ true
    → accepts io (r ∷ st.rows) (some (record s { open_id = some r.id })) ≡ true
    → Follows st (landed (r ∷ st.rows) (some (record s { open_id = some r.id })) st)
unfolding landed open_ids life runtime_ok
opened-Follows io r s st o e a h c =
    let s' : Runtime = record s { open_id = some r.id } in
    let one = accepts-one_open io (r ∷ st.rows) (some s') h in
    let ok = accepts-runtime_ok io (r ∷ st.rows) s' h in
    let ids : open_ids (r ∷ st.rows) ≡ r.id ∷ open_ids st.rows = rw (o) refl in
    let alone =
      no_other r.id (open_ids st.rows) s.open_id (subst (λ l. leb (length l) 1 ≡ true) ids one)
        (c.points s e) in
    (
      IsConsistent-at (landed (r ∷ st.rows) (some s') st) s' refl ok
          (ids ∙ ap (λ l. r.id ∷ l) alone.0) (ground (arith, a)),
      subst (λ l. AtMostOne l (life_of (some s'))) (ap life_of (sym e))
          (subst
            (λ p. AtMostOne (life_at s.activation_floor p s.discovery_floor) (life_of (some s')))
            (sym alone.1)
            (opening_move s.activation_floor r.id s.discovery_floor s.rearm_required ok)),
    )

pub updated-Follows :
    (v : Values) (now id : ℕ) (st : Store)
    → Follows st
        (landed (update_rows (settle v now) id st.rows) (map_runtime same_runtime st.runtime) st)
unfolding landed settle life
updated-Follows v now id st c =
    let rows = update_rows (settle v now) id st.rows in
    let kept : open_ids rows ≡ open_ids st.rows =
      open_ids-keep (settle v now) id st.rows (λ r. refl) (λ r. refl) in
    elim (Option-cases st.runtime) [
      | inl e ↦ (
        IsConsistent-without_runtime (landed rows (map_runtime same_runtime st.runtime) st)
            (ap (map_runtime same_runtime) e),
        rw (e) stays,
      )
      | inr (s, e) ↦
          subst (λ o. IsConsistent (landed rows o st) × AtMostOne (life st) (life_of o))
            (sym (ap (map_runtime same_runtime) e))
            (written rows st s s e (c.checked s e) (kept ∙ c.points s e) (c.armed s e) stays)
    ]

-- A mark leaves the lifecycle where it stands.
pub marked-Rests :
    (io : Io) (n : ℕ) (since : Option ℕ) (s : Runtime) (st : Store)
    → st.runtime ≡ some s
    → accepts io st.rows (some (record s { evaluated_end = n; fresh_since = since })) ≡ true
    → Rests st (landed st.rows (some (record s { evaluated_end = n; fresh_since = since })) st)
unfolding landed life
marked-Rests io n since s st e h c =
    let marked : Runtime = record s { evaluated_end = n; fresh_since = since } in
    let ok = accepts-runtime_ok io st.rows marked h in
    ((written st.rows st s marked e ok (c.points s e) (c.armed s e) stays).0, ap life_of (sym e))

pub Rests-Follows : (a b : Store) → Rests a b → Follows a b
Rests-Follows a b r c = ((r c).0, subst (AtMostOne (life a)) (sym (r c).1) stays)

pub Rests-same : (a b : Store) → b.rows ≡ a.rows → b.runtime ≡ a.runtime → Rests a b
unfolding life
Rests-same a b r s c = ((Follows-same a b r s c).0, ap life_of s)

pub Follows-Rests : (a b c : Store) → Follows a b → Rests b c → Follows a c
Follows-Rests a b c f r k =
    let g = f k in let h = r g.0 in (h.0, subst (AtMostOne (life a)) (sym h.1) g.1)
