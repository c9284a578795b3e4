-- ===== src/Collector/Apart.antt =====
-- Any batch keeps the active connections apart from the finalized ones, and a closure counts once.
use install_singboxhysteria.Collector.Steps.{
  Separate-if, apply_update-Separate, record_closed_row-Separate, apply_closed-Separate,
  upsert_active-Separate,
}
use install_singboxhysteria.Collector.Once.{
  Separate, Separate-same, remove-Separate, record_banked-none, not_same,
}
use install_singboxhysteria.Collector.Tracker.{
  count_skipped, Conn, bank, Tracker, Fields, to_seconds, id_or_empty, is_named, was_abandoned,
  record_banked,
}
use install_singboxhysteria.Collector.Events.{
  apply_new, apply_event, by_kind, with_id, EventKind, Event, fields_of, apply_update, apply_closed,
  new_event, update_event, closed_event, other_event,
}
use install_singboxhysteria.Collector.Batches.{
  abandon_unseen, abandon, apply_row, apply_rows, row_is_valid, row_id_of, abandon_found,
  apply_events, apply_batch, apply_reset, Batch, no_events, seen_ids, keys,
}
use install_singboxhysteria.Common.{
  ℕ, [], ◌∷◌, none, some, refl, ◌≡◌, List, Option, ap, not, ◌∙◌, any, ◌==◌, ◌||◌, ◌+◌, ◌&&◌,
}
use install_singboxhysteria.Dict.{find, remove, find-remove}

apply_new-Separate :
    (id : Option ℕ) (f : Fields) (now : ℕ) (t : Tracker)
    → Separate t
    → Separate (apply_new id f now t)
unfolding apply_new count_skipped
apply_new-Separate id f now t s =
    Separate-if (not (to_seconds f.closed_at == 0)) _ _
      (record_closed_row-Separate (id_or_empty id) f now (to_seconds f.closed_at) t s)
      (Separate-if (not (is_named id) || not (is_named f.user) || not (is_named f.inbound))
        (count_skipped t) _ (Separate-same t _ refl refl refl s)
        (upsert_active-Separate (id_or_empty id) f now t s))

by_kind-Separate :
    (k : EventKind) (e : Event) (now : ℕ) (t : Tracker) → Separate t → Separate (by_kind k e now t)
unfolding by_kind with_id count_skipped
by_kind-Separate new_event e now t s =
    apply_new-Separate e.event_id (fields_of e.connection) now t s
by_kind-Separate update_event e now t s =
    elim e.event_id as (λ i. Separate (with_id i (λ id. apply_update id e now) t)) [
      | none ↦ Separate-same t _ refl refl refl s
      | some id ↦ apply_update-Separate id e now t s
    ]
by_kind-Separate closed_event e now t s =
    elim e.event_id as (λ i. Separate (with_id i (λ id. apply_closed id e now) t)) [
      | none ↦ Separate-same t _ refl refl refl s
      | some id ↦ apply_closed-Separate id e now t s
    ]
by_kind-Separate other_event e now t s = Separate-same t _ refl refl refl s

pub apply_event-Separate :
    (e : Option Event) (now : ℕ) (t : Tracker) → Separate t → Separate (apply_event e now t)
unfolding apply_event count_skipped
apply_event-Separate none now t s = Separate-same t _ refl refl refl s
apply_event-Separate (some e) now t s = by_kind-Separate e.kind e now t s

apply_row-Separate : (e : Event) (now : ℕ) (t : Tracker) → Separate t → Separate (apply_row e now t)
unfolding apply_row count_skipped
apply_row-Separate e now t s =
    let f = fields_of e.connection in
    Separate-if (not (row_is_valid e)) (count_skipped t) _ (Separate-same t _ refl refl refl s) (
      Separate-if (not (to_seconds f.closed_at == 0)) _ _
        (record_closed_row-Separate (row_id_of e) f now (to_seconds f.closed_at) t s)
        (upsert_active-Separate (row_id_of e) f now t s))

apply_rows-Separate :
    (es : List (Option Event)) (now : ℕ) (t : Tracker) → Separate t → Separate (apply_rows es now t)
unfolding apply_rows count_skipped
apply_rows-Separate [] now t s = s
apply_rows-Separate (none ∷ es) now t s =
    apply_rows-Separate es now _ (Separate-same t (count_skipped t) refl refl refl s)
apply_rows-Separate (some e ∷ es) now t s =
    apply_rows-Separate es now _ (apply_row-Separate e now t s)

abandon-Separate :
    (id : ℕ) (c : Conn) (t : Tracker) → c.id ≡ id → Separate t → Separate (abandon id c t)
unfolding abandon bank record_banked remove
abandon-Separate id c t own s =
    let gone : find c.id (remove id t.active) ≡ none =
      ap (λ x. find x (remove id t.active)) own ∙ find-remove id t.active in
    let r = remove-Separate id t s in
    record {
      not_banked = λ i h.
          record_banked-none i c.id
            (record {
              owner = c.owner;
              uplink = c.uplink;
              downlink = c.downlink;
              bank_state = was_abandoned;
            })
            (bank c.owner c.uplink c.downlink (record t {
              active = remove id t.active;
              abandoned_on_reset = t.abandoned_on_reset + 1;
            }))
            (not_same i c.id _ h gone) (r.not_banked i h);
      not_recent = r.not_recent;
      own_id = r.own_id;
    }

abandon_found-Separate :
    (id : ℕ) (t : Tracker) (o : Option Conn)
    → find id t.active ≡ o
    → Separate t
    → Separate (abandon_found id o t)
unfolding abandon_found
abandon_found-Separate id t none h s = s
abandon_found-Separate id t (some c) h s = abandon-Separate id c t (s.own_id id c h) s

abandon_unseen-Separate :
    (seen ids : List ℕ) (t : Tracker) → Separate t → Separate (abandon_unseen seen ids t)
unfolding abandon_unseen
abandon_unseen-Separate seen [] t s = s
abandon_unseen-Separate seen (i ∷ ids) t s = abandon_unseen-Separate seen ids _ (
    Separate-if (any (λ j. j == i) seen) t _ s
      (abandon_found-Separate i t (find i t.active) refl s))

apply_events-Separate :
    (es : List (Option Event)) (now : ℕ) (t : Tracker)
    → Separate t
    → Separate (apply_events es now t)
unfolding apply_events
apply_events-Separate [] now t s = s
apply_events-Separate (e ∷ es) now t s =
    apply_events-Separate es now _ (apply_event-Separate e now t s)

-- Whatever a batch brings, a reset or single events, it keeps this: no id is at once active and banked,
-- nor at once active and among the recently closed, and an active connection carries the id that it
-- stands under.
pub apply_batch-Separate :
    (b : Option Batch) (now : ℕ) (t : Tracker) → Separate t → Separate (apply_batch b now t)
unfolding apply_batch apply_reset count_skipped
apply_batch-Separate none now t s = Separate-same t _ refl refl refl s
apply_batch-Separate (some b) now t s =
    let counted = record t { batch_count = t.batch_count + 1 } in
    let sc : Separate counted = Separate-same t counted refl refl refl s in
    Separate-if (no_events b.events && not b.reset) t _ s (
      Separate-if b.reset _ _
        (abandon_unseen-Separate (seen_ids b.events) (keys (apply_rows b.events now counted).active)
          _ (apply_rows-Separate b.events now counted sc))
        (apply_events-Separate b.events now counted sc))
