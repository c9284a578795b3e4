-- ===== src/Collector/Final.antt =====
-- A closure counts once.
use install_singboxhysteria.Collector.Once.{Separate}
use install_singboxhysteria.Collector.Tracker.{
  finalize, Conn, Tracker, Banked, record_banked, was_closed, bank, count_duplicate, or_else,
  to_seconds, count_conflict,
}
use install_singboxhysteria.Collector.Events.{
  close_active, apply_closed, close_banked, Event, close_by_event, refresh_given, fields_of,
  event_proceeds,
}
use install_singboxhysteria.Common.{
  ℕ, [], ◌∷◌, none, some, true, zero, suc, inl, inr, refl, ◌≡◌, arith, is_some, List, drop, ◌++◌,
  ◌⊎◌, ap, Option-cases, sym, subst, ◌∙◌, Bool-cases,
}
use install_singboxhysteria.Dict.{find, remove, find-remove, find-put}

find-last {ℓ} :
    {A : Type ℓ} (k : ℕ) (a : A) (d : List (ℕ × A))
    → find k d ≡ none
    → find k (d ++ (k, a) ∷ []) ≡ some a
unfolding find
find-last k a [] h = ground arith
find-last k a ((i, b) ∷ d) h = ground (arith, h, find-last k a d)

drop-none {ℓ} : (A : Type ℓ) (n k : ℕ) → find {A = A} k (drop {A = ℕ × A} n []) ≡ none
unfolding find
drop-none A zero k = refl
drop-none A (suc n) k = refl

-- The last entry of what is kept is that of the new id, or nothing of it is kept.
find-drop_last {ℓ} :
    {A : Type ℓ} (n k : ℕ) (a : A) (d : List (ℕ × A))
    → find k d ≡ none
    → (find k (drop n (d ++ (k, a) ∷ [])) ≡ none) ⊎ (find k (drop n (d ++ (k, a) ∷ [])) ≡ some a)
unfolding find
find-drop_last zero k a d h = inr (find-last k a d h)
find-drop_last (suc n) k a [] h = inl (drop-none _ n k)
find-drop_last (suc n) k a ((i, b) ∷ d) h = find-drop_last n k a d (ground (arith, h))

-- What a closure leaves of its id.
record Done (id : ℕ) (t : Tracker) : Type 0 where
  inactive : find id t.active ≡ none
  shown : is_some (find id t.recent) ≡ true
  banked_once : (b : Banked) → find id t.banked_ids ≡ some b → b.bank_state ≡ was_closed

record_banked-find :
    (id : ℕ) (b : Banked) (t : Tracker)
    → (find id (record_banked id b t).banked_ids ≡ none)
      ⊎ (find id (record_banked id b t).banked_ids ≡ some b)
unfolding record_banked
record_banked-find id b t =
    find-drop_last _ id b (remove id t.banked_ids) (find-remove id t.banked_ids)

own-Done :
    (c : Conn) (now closed_at : ℕ) (t : Tracker) → Done c.id (close_active c.id c now closed_at t)
unfolding close_active finalize bank
own-Done c now closed_at t =
    let entry : Banked = record {
      owner = c.owner;
      uplink = c.uplink;
      downlink = c.downlink;
      bank_state = was_closed;
    } in
    let before = bank c.owner c.uplink c.downlink (record t { active = remove c.id t.active }) in
    record {
      inactive = find-remove c.id t.active;
      shown = ap is_some (
          find-put c.id
            (record c {
              closed = or_else (to_seconds closed_at) (or_else c.closed now);
              last_seen = now;
            })
            t.recent);
      banked_once = λ b h. elim (record_banked-find c.id entry before) [
        | inl n ↦ let no = sym n ∙ h in cc
        | inr k ↦
            let this = sym k ∙ h in
            let same : entry ≡ b = cc in ap (λ (x : Banked). x.bank_state) (sym same)
      ];
    }

close_active-Done :
    (id : ℕ) (c : Conn) (now closed_at : ℕ) (t : Tracker)
    → c.id ≡ id
    → Done id (close_active id c now closed_at t)
close_active-Done id c now closed_at t own =
    subst (λ j. Done j (close_active j c now closed_at t)) own (own-Done c now closed_at t)

close_by_event-Done :
    (id : ℕ) (e : Event) (now : ℕ) (c : Conn) (t : Tracker)
    → c.id ≡ id
    → Done id (close_by_event id e now c t)
unfolding close_by_event refresh_given
close_by_event-Done id e now c t own =
    let f = fields_of e.connection in
    let closed_at = or_else e.event_closed_at f.closed_at in
    elim (Bool-cases (event_proceeds c e.connection)) [
      | inl p ↦
          rw (close_by_event, p) (close_active-Done id (refresh_given f c) now closed_at t own)
      | inr p ↦
          rw (close_by_event, p)
            (close_active-Done id (record c { last_seen = now }) now closed_at (count_conflict t)
              own)
    ]

closed_twice :
    (id : ℕ) (e : Event) (now : ℕ) (t : Tracker)
    → Done id t
    → apply_closed id e now t ≡ count_duplicate t
unfolding apply_closed close_banked
closed_twice id e now t d = elim (Option-cases (find id t.banked_ids)) [
  | inl n ↦ rw (apply_closed, d.inactive, n, d.shown) refl
  | inr h ↦ rw (apply_closed, d.inactive, h.1) (rw (close_banked, d.banked_once h.0 h.1) refl)
]

-- In a tracker that keeps its active connections apart: when a CLOSED closes an active connection, a
-- CLOSED of the same id right after it, whatever it carries, only counts as a duplicate: it changes no
-- total, no table and no other counter.
pub closed_once :
    (id : ℕ) (e e' : Event) (now now' : ℕ) (t : Tracker) (c : Conn)
    → Separate t
    → find id t.active ≡ some c
    → let u = apply_closed id e now t in apply_closed id e' now' u ≡ count_duplicate u
unfolding apply_closed
closed_once id e e' now now' t c s h =
    closed_twice id e' now' (apply_closed id e now t)
      (rw (apply_closed, h) (close_by_event-Done id e now c t (s.own_id id c h)))
