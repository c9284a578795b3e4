-- ===== src/Collector/Steps.antt =====
-- Every event keeps the active connections apart from the finalized ones.
use install_singboxhysteria.Collector.Tracker.{
  was_closed, was_abandoned, or_else, to_seconds, may_proceed,
}
use install_singboxhysteria.Collector.Once.{
  Separate, finalize-Separate, Separate-same, set_active-Separate, close_active-Separate,
  Separate-drop,
}
use install_singboxhysteria.Collector.Tracker.{
  Banked, count_skipped, count_conflict, new_connection, Tracker, unbank_record, count_duplicate,
  Fields, unbank, Conn, drop_banked, same_identity, row_identity, add_device, raise_totals,
}
use install_singboxhysteria.Collector.Events.{
  finalize_new, refresh_given, replace_bound, update_totals, Event, apply_update, closed_again,
  close_by_event, event_proceeds, close_banked, apply_closed, record_closed_row, fields_of,
  refresh_active, unbank_carried, since_display, start_active, upsert_active, carry, foreign,
  set_active, identity_source,
}
use install_singboxhysteria.Common.{
  ℕ, none, some, true, false, inl, inr, refl, ◌≡◌, arith, Option-cases, ap, Bool-cases, is_some,
  ◌∙◌, Bool, if◌then◌else◌, Option, not,
}
use install_singboxhysteria.Dict.{find, remove, remove-none, find-remove}

update_totals-id : (e : Event) (c : Conn) → (update_totals e c).id ≡ c.id
unfolding update_totals refresh_given
update_totals-id e c = ground arith

pub apply_update-Separate :
    (id : ℕ) (e : Event) (now : ℕ) (t : Tracker) → Separate t → Separate (apply_update id e now t)
unfolding apply_update count_skipped count_conflict
apply_update-Separate id e now t s = elim (Option-cases (find id t.active)) [
  | inl h ↦ rw (apply_update, h) (Separate-same t _ refl refl refl s)
  | inr h ↦
      let here = ap is_some h.1 in
      let nb = s.not_banked id here in
      let nr = s.not_recent id here in
      let own = s.own_id id h.0 h.1 in
      elim (Bool-cases (event_proceeds h.0 e.connection)) [
        | inl p ↦
            rw (apply_update, h.1, p)
              (set_active-Separate id _ t (update_totals-id e h.0 ∙ own) nb nr s)
        | inr p ↦
            rw (apply_update, h.1, p)
              (set_active-Separate id _ _ own nb nr (Separate-same t _ refl refl refl s))
      ]
]

finalize_new-Separate :
    (id : ℕ) (f : Fields) (now closed_at : ℕ) (t : Tracker)
    → find id t.active ≡ none
    → Separate t
    → Separate (finalize_new id f now closed_at t)
unfolding finalize_new new_connection
finalize_new-Separate id f now closed_at t n s =
    finalize-Separate (record (new_connection id f now) { closed = closed_at }) now closed_at t n s

-- What is banked is not active.
not_active :
    (id : ℕ) (b : Banked) (t : Tracker)
    → Separate t
    → find id t.banked_ids ≡ some b
    → find id t.active ≡ none
not_active id b t s h = elim (Option-cases (find id t.active)) [
  | inl n ↦ n
  | inr k ↦ let gone = s.not_banked id (ap is_some k.1) in cc
]

replace_bound-Separate :
    (id : ℕ) (b : Banked) (f : Fields) (now closed_at : ℕ) (t : Tracker)
    → find id t.active ≡ none
    → Separate t
    → Separate (replace_bound id b f now closed_at t)
unfolding replace_bound unbank_record unbank drop_banked
replace_bound-Separate id b f now closed_at t n s =
    finalize_new-Separate id f now closed_at _ n (record {
      not_banked = λ i h. remove-none i id t.banked_ids (s.not_banked i h);
      not_recent = s.not_recent;
      own_id = s.own_id;
    })

closed_again-Separate :
    (id : ℕ) (b : Banked) (f : Fields) (now closed_at : ℕ) (t : Tracker)
    → find id t.active ≡ none
    → Separate t
    → Separate (closed_again id b f now closed_at t)
unfolding closed_again count_conflict count_duplicate
closed_again-Separate id b f now closed_at t n s =
    elim (Bool-cases (same_identity b.owner (row_identity f))) [
      | inl p ↦
          rw (closed_again, p)
            (elim b.bank_state
              as (λ k. Separate (elim k [
                | was_closed ↦ count_duplicate t
                | was_abandoned ↦ replace_bound id b f now closed_at (count_duplicate t)
              ])) [
                | was_closed ↦ Separate-same t _ refl refl refl s
                | was_abandoned ↦
                    replace_bound-Separate id b f now closed_at _ n
                      (Separate-same t _ refl refl refl s)
              ])
      | inr p ↦ rw (closed_again, p) (Separate-same t _ refl refl refl s)
    ]

close_by_event-Separate :
    (id : ℕ) (e : Event) (now : ℕ) (c : Conn) (t : Tracker)
    → c.id ≡ id
    → Separate t
    → Separate (close_by_event id e now c t)
unfolding close_by_event refresh_given count_conflict
close_by_event-Separate id e now c t own s =
    let f = fields_of e.connection in
    let closed_at = or_else e.event_closed_at f.closed_at in
    elim (Bool-cases (event_proceeds c e.connection)) [
      | inl p ↦
          rw (close_by_event, p)
            (close_active-Separate id (refresh_given f c) now closed_at t own s)
      | inr p ↦
          rw (close_by_event, p)
            (close_active-Separate id (record c { last_seen = now }) now closed_at
              (count_conflict t) own (Separate-same t _ refl refl refl s))
    ]

pub Separate-if :
    (b : Bool) (t u : Tracker) → Separate t → Separate u → Separate (if b then t else u)
Separate-if true t u s r = s
Separate-if false t u s r = r

close_banked-Separate :
    (id : ℕ) (e : Event) (now : ℕ) (b : Banked) (t : Tracker)
    → find id t.active ≡ none
    → Separate t
    → Separate (close_banked id e now b t)
unfolding close_banked count_conflict count_duplicate
close_banked-Separate id e now b t n s =
    let f = fields_of e.connection in
    let closed_at = or_else (to_seconds e.event_closed_at) (or_else (to_seconds f.closed_at) now) in
    elim b.bank_state
      as (λ k. Separate (elim k [
        | was_closed ↦ count_duplicate t
        | was_abandoned ↦
            if not (is_some e.connection)
            then t
            else if not (same_identity b.owner (row_identity f))
            then count_conflict t
            else replace_bound id b f now closed_at t
      ])) [
        | was_closed ↦ Separate-same t _ refl refl refl s
        | was_abandoned ↦ Separate-if (not (is_some e.connection)) t _ s (
            Separate-if (not (same_identity b.owner (row_identity f))) (count_conflict t) _
              (Separate-same t _ refl refl refl s)
              (replace_bound-Separate id b f now closed_at t n s))
      ]

pub apply_closed-Separate :
    (id : ℕ) (e : Event) (now : ℕ) (t : Tracker) → Separate t → Separate (apply_closed id e now t)
unfolding apply_closed count_duplicate count_skipped
apply_closed-Separate id e now t s = elim (Option-cases (find id t.active)) [
  | inr h ↦ rw (apply_closed, h.1) (close_by_event-Separate id e now h.0 t (s.own_id id h.0 h.1) s)
  | inl n ↦ elim (Option-cases (find id t.banked_ids)) [
    | inr h ↦ rw (apply_closed, n, h.1) (close_banked-Separate id e now h.0 t n s)
    | inl m ↦ elim (Bool-cases (is_some (find id t.recent))) [
      | inl p ↦ rw (apply_closed, n, m, p) (Separate-same t _ refl refl refl s)
      | inr p ↦ rw (apply_closed, n, m, p) (Separate-same t _ refl refl refl s)
    ]
  ]
]

pub record_closed_row-Separate :
    (id : ℕ) (f : Fields) (now closed_at : ℕ) (t : Tracker)
    → Separate t
    → Separate (record_closed_row id f now closed_at t)
unfolding record_closed_row add_device count_duplicate raise_totals
record_closed_row-Separate id f now closed_at t s =
    let u = add_device f.user t in
    let su : Separate u = Separate-same t u refl refl refl s in
    elim (Option-cases (find id t.banked_ids)) [
      | inr h ↦
          rw (record_closed_row, h.1)
            (closed_again-Separate id h.0 f now (or_else closed_at now) u
              (not_active id h.0 t s h.1) su)
      | inl n ↦ elim (Bool-cases (is_some (find id t.recent))) [
        | inl p ↦ rw (record_closed_row, n, p) (Separate-same u _ refl refl refl su)
        | inr p ↦ elim (Option-cases (find id t.active)) [
          | inr h ↦
              rw (record_closed_row, n, p, h.1)
                (close_active-Separate id (raise_totals f h.0) now closed_at u (s.own_id id h.0 h.1)
                  su)
          | inl m ↦
              rw (record_closed_row, n, p, m)
                (finalize_new-Separate id f now (or_else closed_at now) u m su)
        ]
      ]
    ]

refresh_active-Separate :
    (id : ℕ) (f : Fields) (now : ℕ) (c : Conn) (t : Tracker)
    → find id t.active ≡ some c
    → Separate t
    → Separate (refresh_active id f now c t)
unfolding refresh_active count_conflict raise_totals
refresh_active-Separate id f now c t h s =
    let here = ap is_some h in
    let nb = s.not_banked id here in
    let nr = s.not_recent id here in
    let own = s.own_id id c h in
    Separate-if (may_proceed c f) _ _
      (set_active-Separate id (record (raise_totals f c) { last_seen = now }) t own nb nr s)
      (set_active-Separate id (record c { last_seen = now }) (count_conflict t) own nb nr
        (Separate-same t _ refl refl refl s))

-- The tables that a new connection is entered into, and its id.
unbank_carried-Separate :
    (b : Option Banked) (t : Tracker) → Separate t → Separate (unbank_carried b t)
unfolding unbank_carried unbank_record unbank
unbank_carried-Separate none t s = s
unbank_carried-Separate (some b) t s = Separate-same t _ refl refl refl s

carried-id :
    (d : Option Conn) (b : Option Banked) (c : Conn) → (since_display d (carry b c)).id ≡ c.id
unfolding since_display carry
carried-id none none c = refl
carried-id none (some b) c = refl
carried-id (some d) none c = refl
carried-id (some d) (some b) c = refl

unbank_carried-tables :
    (b : Option Banked) (t : Tracker)
    → ((unbank_carried b t).recent ≡ t.recent) × ((unbank_carried b t).banked_ids ≡ t.banked_ids)
unfolding unbank_carried unbank_record unbank
unbank_carried-tables none t = (refl, refl)
unbank_carried-tables (some b) t = (refl, refl)

start_active-Separate :
    (id : ℕ) (f : Fields) (now : ℕ) (t : Tracker) → Separate t → Separate (start_active id f now t)
unfolding start_active add_device drop_banked new_connection
start_active-Separate id f now t s =
    let display = find id t.recent in
    let carried = find id t.banked_ids in
    let c = since_display display (carry carried (new_connection id f now)) in
    let u = drop_banked id (record t { recent = remove id t.recent }) in
    let same = unbank_carried-tables carried u in
    Separate-same (set_active id c (unbank_carried carried u)) _ refl refl refl (
      set_active-Separate id c (unbank_carried carried u)
        (carried-id display carried (new_connection id f now))
        (rw same.1 (find-remove id t.banked_ids)) (rw same.0 (find-remove id t.recent))
        (unbank_carried-Separate carried u (Separate-drop id t s)))

pub upsert_active-Separate :
    (id : ℕ) (f : Fields) (now : ℕ) (t : Tracker) → Separate t → Separate (upsert_active id f now t)
unfolding upsert_active count_conflict
upsert_active-Separate id f now t s = elim (Option-cases (find id t.active)) [
  | inr h ↦ rw (upsert_active, h.1) (refresh_active-Separate id f now h.0 t h.1 s)
  | inl n ↦
      rw (upsert_active, n)
        (Separate-if
          (foreign (identity_source (find id t.recent) (find id t.banked_ids)) (row_identity f))
          (count_conflict t) _ (Separate-same t _ refl refl refl s)
          (start_active-Separate id f now t s))
]
