-- ===== src/Collector/Batches.antt =====
-- monitor-v2/collector.py: `apply_batch` with `_apply_reset`, and what `snapshot` prunes.
use install_singboxhysteria.Collector.Events.{
  Event, fields_of, apply_event, record_closed_row, upsert_active,
}
use install_singboxhysteria.Collector.Tracker.{
  Tracker, Conn, or_else, count_skipped, id_or_empty, to_seconds, record_banked, was_abandoned,
  is_named, bank,
}
use install_singboxhysteria.Common.{
  ℕ, [], ◌∷◌, none, some, true, false, List, Option, Bool, if◌then◌else◌, ◌+◌, not, any, ◌&&◌, ltb,
  ◌==◌,
}
use install_singboxhysteria.Dict.{remove, find}

pub record Batch : Type 0 where
  pub events : List (Option Event)
  pub reset : Bool

-- `event.get("id") or fields.get("id")`.
unfoldable pub row_id_of : Event → ℕ
row_id_of e = or_else (id_or_empty e.event_id) (id_or_empty (fields_of e.connection).row_id)

-- Whether a row of a reset is counted as seen.
unfoldable pub row_is_valid : Event → Bool
unfolding row_id_of
row_is_valid e =
    let f = fields_of e.connection in
    not (row_id_of e == 0) && is_named f.user && is_named f.inbound

-- One event of the loop of `_apply_reset`.
unfoldable pub apply_row : Event → ℕ → Tracker → Tracker
unfolding row_id_of row_is_valid
apply_row e now t =
    let f = fields_of e.connection in
    let closed_at = to_seconds f.closed_at in
    if not (row_is_valid e)
    then count_skipped t
    else if not (closed_at == 0)
    then record_closed_row (row_id_of e) f now closed_at t
    else upsert_active (row_id_of e) f now t

unfoldable pub apply_rows : List (Option Event) → ℕ → Tracker → Tracker
unfolding apply_row
apply_rows [] now t = t
apply_rows (none ∷ es) now t = apply_rows es now (count_skipped t)
apply_rows (some e ∷ es) now t = apply_rows es now (apply_row e now t)

unfoldable pub seen_ids : List (Option Event) → List ℕ
unfolding row_is_valid
seen_ids [] = []
seen_ids (none ∷ es) = seen_ids es
seen_ids (some e ∷ es) =
    let rest = seen_ids es in if row_is_valid e then row_id_of e ∷ rest else rest

-- An active connection that the reset does not name: its totals are banked as a lower bound.
unfoldable pub abandon : ℕ → Conn → Tracker → Tracker
abandon id c t =
    let t1 = record t {
      active = remove id t.active;
      abandoned_on_reset = t.abandoned_on_reset + 1;
    } in
    record_banked c.id
      (record {
        owner = c.owner;
        uplink = c.uplink;
        downlink = c.downlink;
        bank_state = was_abandoned;
      })
      (bank c.owner c.uplink c.downlink t1)

abbrev pub keys : List (ℕ × Conn) → List ℕ
keys [] = []
keys ((id, c) ∷ cs) = id ∷ keys cs

-- `conn = self.active.pop(cid)`, of an id that is there.
unfoldable pub abandon_found : ℕ → Option Conn → Tracker → Tracker
unfolding abandon
abandon_found id none t = t
abandon_found id (some c) t = abandon id c t

-- The second loop of `_apply_reset`, over the ids that are active at its start.
unfoldable pub abandon_unseen : List ℕ → List ℕ → Tracker → Tracker
unfolding abandon_found
abandon_unseen seen [] t = t
abandon_unseen seen (id ∷ ids) t =
    abandon_unseen seen ids
      (if any (λ i. i == id) seen then t else abandon_found id (find id t.active) t)

unfoldable pub apply_reset : List (Option Event) → ℕ → Tracker → Tracker
unfolding apply_rows seen_ids abandon_unseen
apply_reset es now t =
    let t' = apply_rows es now t in abandon_unseen (seen_ids es) (keys t'.active) t'

unfoldable pub apply_events : List (Option Event) → ℕ → Tracker → Tracker
apply_events [] now t = t
apply_events (e ∷ es) now t = apply_events es now (apply_event e now t)

abbrev pub no_events : List (Option Event) → Bool
no_events [] = true
no_events (e ∷ es) = false

-- `apply_batch`; none is a batch that is no dictionary.
unfoldable pub apply_batch : Option Batch → ℕ → Tracker → Tracker
unfolding apply_reset apply_events
apply_batch none now t = count_skipped t
apply_batch (some b) now t =
    let counted = record t { batch_count = t.batch_count + 1 } in
    if no_events b.events && not b.reset
    then t
    else if b.reset
    then apply_reset b.events now counted
    else apply_events b.events now counted

-- `now - _to_seconds(c["closed_at"]) > self.closed_ttl`.
unfoldable pub is_expired : ℕ → ℕ → Conn → Bool
is_expired ttl now c = ltb (ttl + to_seconds c.closed) now

unfoldable pub prune_closed : ℕ → ℕ → List (ℕ × Conn) → List (ℕ × Conn)
unfolding is_expired
prune_closed ttl now [] = []
prune_closed ttl now ((id, c) ∷ cs) =
    let rest = prune_closed ttl now cs in if is_expired ttl now c then rest else (id, c) ∷ rest

-- The first step of `snapshot`.
unfoldable pub prune_recent : ℕ → ℕ → Tracker → Tracker
unfolding prune_closed
prune_recent ttl now t = record t { recent = prune_closed ttl now t.recent }
