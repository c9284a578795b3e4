-- ===== src/Collector/Events.antt =====
-- monitor-v2/collector.py: `Tracker`'s events: `_upsert_active`, `_record_closed_row`, `_apply_event`,
-- `_apply_reset`, `apply_batch`, and the pruning of the closed connections in `snapshot`.
use install_singboxhysteria.Collector.Tracker.{
  Fields, may_proceed, count_duplicate, count_skipped, or_else, count_conflict, drop_banked,
  unbank_record, Conn, finalize, Banked, Identity, Tracker, raise_totals, new_connection,
  add_device, to_seconds, row_identity, same_identity, id_or_empty, is_named,
}
use install_singboxhysteria.Common.{
  ℕ, none, some, true, false, Option, if◌then◌else◌, Bool, not, is_some, ◌==◌, ◌||◌,
}
use install_singboxhysteria.Collector.Signed.{◌+ℤ◌, max_ℤ}
use install_singboxhysteria.Wire.Varint.{ℤ}
use install_singboxhysteria.Dict.{find, put, remove}
use install_singboxhysteria.Collector.Tracker.{was_closed, was_abandoned}

pub data EventKind : Type 0 where
  new_event update_event closed_event other_event : EventKind

-- An event's dictionary. `connection` is none where the key is missing, no dictionary or empty.
pub record Event : Type 0 where
  pub kind : EventKind
  pub event_id : Option ℕ
  pub connection : Option Fields
  pub uplink_delta : ℤ
  pub downlink_delta : ℤ
  pub event_closed_at : ℕ

pub no_fields : Fields
no_fields = record {
  row_id = none;
  user = none;
  inbound = none;
  created_at = 0;
  closed_at = 0;
  uplink_total = none;
  downlink_total = none;
}

-- `event.get("connection")`, or the empty dictionary.
abbrev pub fields_of : Option Fields → Fields
fields_of none = no_fields
fields_of (some f) = f

-- `display or banked`, of which only the identity is read.
unfoldable pub identity_source : Option Conn → Option Banked → Option Identity
identity_source (some c) _ = some c.owner
identity_source none (some b) = some b.owner
identity_source none none = none

abbrev pub foreign : Option Identity → Identity → Bool
foreign none key = false
foreign (some o) key = not (same_identity o key)

-- The lower bound that a new connection takes over.
unfoldable pub carry : Option Banked → Conn → Conn
unfolding max_ℤ
carry none c = c
carry (some b) c = record c {
  uplink = max_ℤ b.uplink c.uplink;
  downlink = max_ℤ b.downlink c.downlink;
}

unfoldable pub since_display : Option Conn → Conn → Conn
unfolding or_else
since_display none c = c
since_display (some d) c = record c { created = or_else d.created c.created }

unfoldable pub unbank_carried : Option Banked → Tracker → Tracker
unfolding unbank_record
unbank_carried none t = t
unbank_carried (some b) t = unbank_record b t

unfoldable pub set_active : ℕ → Conn → Tracker → Tracker
set_active id c t = record t { active = put id c t.active }

-- An existing lifecycle: its totals are replaced by larger ones, under its own identity.
unfoldable pub refresh_active : ℕ → Fields → ℕ → Conn → Tracker → Tracker
unfolding set_active may_proceed raise_totals count_conflict
refresh_active id f now c t =
    if may_proceed c f
    then set_active id (record (raise_totals f c) { last_seen = now }) t
    else set_active id (record c { last_seen = now }) (count_conflict t)

unfoldable pub start_active : ℕ → Fields → ℕ → Tracker → Tracker
unfolding set_active drop_banked unbank_carried since_display carry new_connection add_device
start_active id f now t =
    let display = find id t.recent in
    let carried = find id t.banked_ids in
    let c = since_display display (carry carried (new_connection id f now)) in
    add_device c.owner.0 (
      set_active id c
        (unbank_carried carried (drop_banked id (record t { recent = remove id t.recent }))))

unfoldable pub upsert_active : ℕ → Fields → ℕ → Tracker → Tracker
unfolding refresh_active start_active identity_source count_conflict
upsert_active id f now t = elim (find id t.active) [
  | some c ↦ refresh_active id f now c t
  | none ↦
      if foreign (identity_source (find id t.recent) (find id t.banked_ids)) (row_identity f)
      then count_conflict t
      else start_active id f now t
]

-- A closed connection that takes the place of a lower bound, or that is new.
unfoldable pub finalize_new : ℕ → Fields → ℕ → ℕ → Tracker → Tracker
unfolding finalize new_connection
finalize_new id f now closed_at t =
    finalize (record (new_connection id f now) { closed = closed_at }) now closed_at t

unfoldable pub replace_bound : ℕ → Banked → Fields → ℕ → ℕ → Tracker → Tracker
unfolding finalize_new unbank_record drop_banked
replace_bound id b f now closed_at t =
    finalize_new id f now closed_at (unbank_record b (drop_banked id t))

unfoldable pub closed_again : ℕ → Banked → Fields → ℕ → ℕ → Tracker → Tracker
unfolding replace_bound count_conflict count_duplicate
closed_again id b f now closed_at t =
    if not (same_identity b.owner (row_identity f)) then count_conflict t else elim b.bank_state [
      | was_closed ↦ count_duplicate t
      | was_abandoned ↦ replace_bound id b f now closed_at (count_duplicate t)
    ]

unfoldable pub close_active : ℕ → Conn → ℕ → ℕ → Tracker → Tracker
unfolding finalize
close_active id c now closed_at t =
    finalize c now closed_at (record t { active = remove id t.active })

-- `_record_closed_row`, called with a `closed_at` that is not 0.
unfoldable pub record_closed_row : ℕ → Fields → ℕ → ℕ → Tracker → Tracker
unfolding closed_again close_active finalize_new count_duplicate add_device or_else raise_totals
record_closed_row id f now closed_at t0 =
    let t = add_device f.user t0 in
    elim (find id t.banked_ids) [
      | some b ↦ closed_again id b f now (or_else closed_at now) t
      | none ↦ if is_some (find id t.recent) then count_duplicate t else elim (find id t.active) [
        | some c ↦ close_active id (raise_totals f c) now closed_at t
        | none ↦ finalize_new id f now (or_else closed_at now) t
      ]
    ]

-- The branch NEW.
unfoldable pub apply_new : Option ℕ → Fields → ℕ → Tracker → Tracker
unfolding record_closed_row upsert_active count_skipped to_seconds
apply_new id f now t =
    let closed_at = to_seconds f.closed_at in
    if not (closed_at == 0)
    then record_closed_row (id_or_empty id) f now closed_at t
    else if not (is_named id) || not (is_named f.user) || not (is_named f.inbound)
    then count_skipped t
    else upsert_active (id_or_empty id) f now t

-- A total that the event carries replaces a smaller one.
abbrev pub raise_if_given : Option ℤ → ℤ → ℤ
raise_if_given none n = n
raise_if_given (some m) n = max_ℤ n m

unfoldable pub refresh_given : Fields → Conn → Conn
unfolding max_ℤ
refresh_given f c = record c {
  uplink = raise_if_given f.uplink_total c.uplink;
  downlink = raise_if_given f.downlink_total c.downlink;
}

-- The totals of an UPDATE: replaced where it has any, else added to.
unfoldable pub update_totals : Event → Conn → Conn
unfolding refresh_given ◌+ℤ◌
update_totals e c =
    let f = fields_of e.connection in
    if is_some f.uplink_total || is_some f.downlink_total
    then refresh_given f c
    else record c { uplink = c.uplink +ℤ e.uplink_delta; downlink = c.downlink +ℤ e.downlink_delta }

-- `fields and not self._identity_conflict(...)`, negated: an empty dictionary has no identity.
abbrev pub event_proceeds : Conn → Option Fields → Bool
event_proceeds c none = true
event_proceeds c (some f) = may_proceed c f

-- The branch UPDATE.
unfoldable pub apply_update : ℕ → Event → ℕ → Tracker → Tracker
unfolding update_totals set_active count_skipped count_conflict
apply_update id e now t = elim (find id t.active) [
  | none ↦ count_skipped t
  | some c ↦
      if event_proceeds c e.connection
      then set_active id (record (update_totals e c) { last_seen = now }) t
      else set_active id (record c { last_seen = now }) (count_conflict t)
]

-- The closure of an active connection, which counts a conflict of identities and closes all the same.
unfoldable pub close_by_event : ℕ → Event → ℕ → Conn → Tracker → Tracker
unfolding close_active refresh_given count_conflict or_else
close_by_event id e now c t =
    let f = fields_of e.connection in
    let closed_at = or_else e.event_closed_at f.closed_at in
    if event_proceeds c e.connection
    then close_active id (refresh_given f c) now closed_at t
    else close_active id (record c { last_seen = now }) now closed_at (count_conflict t)

-- The closure of a banked lifecycle.
unfoldable pub close_banked : ℕ → Event → ℕ → Banked → Tracker → Tracker
unfolding replace_bound count_conflict count_duplicate or_else to_seconds
close_banked id e now b t =
    let f = fields_of e.connection in
    let closed_at = or_else (to_seconds e.event_closed_at) (or_else (to_seconds f.closed_at) now) in
    elim b.bank_state [
      | was_closed ↦ count_duplicate t
      | was_abandoned ↦
          if not (is_some e.connection)
          then t
          else if not (same_identity b.owner (row_identity f))
          then count_conflict t
          else replace_bound id b f now closed_at t
    ]

-- The branch CLOSED.
unfoldable pub apply_closed : ℕ → Event → ℕ → Tracker → Tracker
unfolding close_by_event close_banked count_duplicate count_skipped
apply_closed id e now t = elim (find id t.active) [
  | some c ↦ close_by_event id e now c t
  | none ↦ elim (find id t.banked_ids) [
    | some b ↦ close_banked id e now b t
    | none ↦ if is_some (find id t.recent) then count_duplicate t else count_skipped t
  ]
]

-- A missing id finds nothing.
unfoldable pub with_id : Option ℕ → (ℕ → Tracker → Tracker) → Tracker → Tracker
unfolding count_skipped
with_id none f t = count_skipped t
with_id (some id) f t = f id t

unfoldable pub by_kind : EventKind → Event → ℕ → Tracker → Tracker
unfolding apply_new apply_update apply_closed with_id count_skipped
by_kind new_event e now t = apply_new e.event_id (fields_of e.connection) now t
by_kind update_event e now t = with_id e.event_id (λ id. apply_update id e now) t
by_kind closed_event e now t = with_id e.event_id (λ id. apply_closed id e now) t
by_kind other_event e now t = count_skipped t

-- `_apply_event`; none is an event that is no dictionary.
unfoldable pub apply_event : Option Event → ℕ → Tracker → Tracker
unfolding by_kind count_skipped
apply_event none now t = count_skipped t
apply_event (some e) now t = by_kind e.kind e now t
