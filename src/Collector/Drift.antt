-- ===== src/Collector/Drift.antt =====
-- An UPDATE never moves traffic from one identity to another.
use install_singboxhysteria.Collector.Tracker.{Conn, Tracker, count_conflict}
use install_singboxhysteria.Collector.Signed.{
  ◌+ℤ◌, ◌≤ℤ◌, max_ℤ-left, max_ℤ-right, max_ℤ-cases, ≤ℤ-refl, +ℤ-grows,
}
use install_singboxhysteria.Collector.Events.{
  apply_update, update_totals, refresh_given, set_active, raise_if_given, Event, fields_of,
  event_proceeds,
}
use install_singboxhysteria.Wire.Varint.{ℤ, pos}
use install_singboxhysteria.Common.{
  ℕ, none, some, true, false, inl, inr, refl, ◌≡◌, arith, Bool, Option, ◌==◌, ◌+◌, is_some, ◌||◌,
  Bool-cases, ◌⊎◌,
}
use install_singboxhysteria.Dict.{find, find-put, find-put_other}

-- Whether the event carries a total.
abbrev pub carries : Event → Bool
carries e = let f = fields_of e.connection in is_some f.uplink_total || is_some f.downlink_total

-- A total from `before` to `after`, when the event carries `o` of it.
abbrev pub Raised : Option ℤ → ℤ → ℤ → Type 0
Raised none before after = after ≡ before
Raised (some m) before after = (before ≤ℤ after) × ((m ≤ℤ after) × ((after ≡ before) ⊎ (after ≡ m)))

-- From the totals of `c` to the totals of `c'` under an event of their own identity.
abbrev pub Accounted : Event → Conn → Conn → Type 0
Accounted e c c' =
    let f = fields_of e.connection in
    (carries e ≡ true
      → Raised f.uplink_total c.uplink c'.uplink × Raised f.downlink_total c.downlink c'.downlink)
    × (carries e ≡ false
        → (c'.uplink ≡ c.uplink +ℤ e.uplink_delta) × (c'.downlink ≡ c.downlink +ℤ e.downlink_delta))

-- From the connection `c` of `t` to the connection `c'` of `u`.
pub record Updated (id : ℕ) (e : Event) (c c' : Conn) (t u : Tracker) : Type 0 where
  pub found : find id u.active ≡ some c'
  pub same_owner : c'.owner ≡ c.owner
  pub nothing_banked : (u.finalized ≡ t.finalized) × (u.banked_ids ≡ t.banked_ids)
  pub others : (j : ℕ) → (j == id) ≡ false → find j u.active ≡ find j t.active
  pub accounted : event_proceeds c e.connection ≡ true → Accounted e c c'
  pub totals_grow :
      (carries e ≡ true) ⊎ ((pos 0 ≤ℤ e.uplink_delta) × (pos 0 ≤ℤ e.downlink_delta))
      → (c.uplink ≤ℤ c'.uplink) × (c.downlink ≤ℤ c'.downlink)
  pub drift_ignored :
      event_proceeds c e.connection ≡ false
      → (c'.uplink ≡ c.uplink)
        × (c'.downlink ≡ c.downlink)
        × (u.identity_conflicts ≡ t.identity_conflicts + 1)

raise_if_given-Raised : (o : Option ℤ) (n : ℤ) → Raised o n (raise_if_given o n)
raise_if_given-Raised none n = refl
raise_if_given-Raised (some m) n = (max_ℤ-left n m, (max_ℤ-right n m, max_ℤ-cases n m))

Raised-grows : (o : Option ℤ) (a b : ℤ) → Raised o a b → a ≤ℤ b
Raised-grows none a b h = rw (h) (≤ℤ-refl a)
Raised-grows (some m) a b h = h.0

update_totals-Accounted : (e : Event) (c : Conn) → Accounted e c (update_totals e c)
unfolding update_totals refresh_given
update_totals-Accounted e c =
    let f = fields_of e.connection in
    (
      (λ h. rw (h) (
        raise_if_given-Raised f.uplink_total c.uplink,
        raise_if_given-Raised f.downlink_total c.downlink,
      )),
      λ h. rw (h) (refl, refl),
    )

update_totals-owner : (e : Event) (c : Conn) → (update_totals e c).owner ≡ c.owner
unfolding update_totals refresh_given
update_totals-owner e c = ground arith

Accounted-grows :
    (e : Event) (c c' : Conn)
    → Accounted e c c'
    → (carries e ≡ true) ⊎ ((pos 0 ≤ℤ e.uplink_delta) × (pos 0 ≤ℤ e.downlink_delta))
    → (c.uplink ≤ℤ c'.uplink) × (c.downlink ≤ℤ c'.downlink)
Accounted-grows e c c' a k = elim (Bool-cases (carries e)) [
  | inl h ↦
      let f = fields_of e.connection in
      let r = a.0 h in
      (
        Raised-grows f.uplink_total c.uplink c'.uplink r.0,
        Raised-grows f.downlink_total c.downlink c'.downlink r.1,
      )
  | inr h ↦ elim k [
    | inl y ↦ cc
    | inr d ↦
        let r = a.1 h in
        (
          rw (r.0) (+ℤ-grows c.uplink e.uplink_delta d.0),
          rw (r.1) (+ℤ-grows c.downlink e.downlink_delta d.1),
        )
  ]
]

-- An UPDATE of an active connection leaves it active under its own user and inbound; it banks nothing and
-- leaves every other connection as it is. Where the event carries another identity, both totals stay and a
-- conflict is counted. Otherwise each total that it carries replaces a smaller one, or the signed deltas
-- are added where it carries neither. So a total is lowered only by a negative delta of an event that
-- carries no total.
pub apply_update-Updated :
    (id : ℕ) (e : Event) (now : ℕ) (t : Tracker) (c : Conn)
    → find id t.active ≡ some c
    → (c' : Conn) × Updated id e c c' t (apply_update id e now t)
unfolding apply_update set_active count_conflict
apply_update-Updated id e now t c h = elim (Bool-cases (event_proceeds c e.connection)) [
  | inl p ↦
      let a = update_totals-Accounted e c in
      let c' = record (update_totals e c) { last_seen = now } in
      (
        c',
        rw (apply_update, h, p)
            (record {
              found = find-put id c' t.active;
              same_owner = update_totals-owner e c;
              nothing_banked = (refl, refl);
              others = λ j n. find-put_other j id c' t.active n;
              accounted = λ q. a;
              totals_grow = Accounted-grows e c c' a;
              drift_ignored = λ d. cc;
            }),
      )
  | inr p ↦
      let c' = record c { last_seen = now } in
      (
        c',
        rw (apply_update, h, p)
            (record {
              found = find-put id c' t.active;
              same_owner = refl;
              nothing_banked = (refl, refl);
              others = λ j n. find-put_other j id c' t.active n;
              accounted = λ q. cc;
              totals_grow = λ k. (≤ℤ-refl c.uplink, ≤ℤ-refl c.downlink);
              drift_ignored = λ d. (refl, refl, refl);
            }),
      )
]
