-- ===== src/Collector/Tracker.antt =====
-- monitor-v2/collector.py: `Tracker`, from `_bank` to `_apply_event`, and the pruning of `snapshot`.
-- A text is a number: it is only compared, and 0 is the empty text. Totals are signed numbers of bytes. A time
-- counts thousandths of what the source's number counts, and 0 is a missing one. The rates and the
-- fields that are only displayed (inbound_type, network, source, destination) are left out.
use install_singboxhysteria.Common.{
  ℕ, [], ◌∷◌, none, some, true, false, Option, List, if◌then◌else◌, Bool, ◌+◌, ◌-◌, ◌++◌, ◌==◌, ltb,
  ◌&&◌, not, drop, any, ◌/◌, length, ◌||◌,
}
use install_singboxhysteria.Collector.Signed.{◌+ℤ◌, ◌-ℤ◌, max_ℤ}
use install_singboxhysteria.Wire.Varint.{ℤ, pos}
use install_singboxhysteria.Dict.{put, remove}

-- `(user, inbound)`.
abbrev pub Identity : Type 0
Identity = Option ℕ × Option ℕ

-- The keys of a connection's dictionary that are read.
pub record Fields : Type 0 where
  pub row_id : Option ℕ
  pub user : Option ℕ
  pub inbound : Option ℕ
  pub created_at : ℕ
  pub closed_at : ℕ
  pub uplink_total : Option ℤ
  pub downlink_total : Option ℤ

pub record Conn : Type 0 where
  pub id : ℕ
  pub owner : Identity
  pub created : ℕ
  pub closed : ℕ
  pub uplink : ℤ
  pub downlink : ℤ
  pub last_seen : ℕ

pub data BankState : Type 0 where
  was_closed was_abandoned : BankState

pub record Banked : Type 0 where
  pub owner : Identity
  pub uplink : ℤ
  pub downlink : ℤ
  pub bank_state : BankState

pub record Tracker : Type 0 where
  pub active : List (ℕ × Conn)
  pub recent : List (ℕ × Conn)
  pub finalized : List (Identity × (ℤ × ℤ))
  pub banked_id_cap : ℕ
  pub banked_ids : List (ℕ × Banked)
  pub devices : List (Option ℕ)
  pub batch_count : ℕ
  pub skipped_events : ℕ
  pub duplicate_events : ℕ
  pub identity_conflicts : ℕ
  pub abandoned_on_reset : ℕ

unfoldable pub new_tracker : ℕ → Tracker
new_tracker cap = record {
  active = [];
  recent = [];
  finalized = [];
  banked_id_cap = cap;
  banked_ids = [];
  devices = [];
  batch_count = 0;
  skipped_events = 0;
  duplicate_events = 0;
  identity_conflicts = 0;
  abandoned_on_reset = 0;
}

-- `a or b` on numbers.
unfoldable pub or_else : ℕ → ℕ → ℕ
or_else a b = if a == 0 then b else a

-- `_to_seconds`, whose bound 1e11 is 10^14 thousandths.
unfoldable pub to_seconds : ℕ → ℕ
to_seconds t = if ltb 100000000000000 t then t / 1000 else t

-- A missing id is the empty text.
abbrev pub id_or_empty : Option ℕ → ℕ
id_or_empty none = 0
id_or_empty (some n) = n

-- `fields.get(name, 0)`.
abbrev pub total_or_zero : Option ℤ → ℤ
total_or_zero none = pos 0
total_or_zero (some n) = n

abbrev pub row_identity : Fields → Identity
row_identity f = (f.user, f.inbound)

abbrev pub same_name : Option ℕ → Option ℕ → Bool
same_name none none = true
same_name (some a) (some b) = a == b
same_name _ _ = false

abbrev pub same_identity : Identity → Identity → Bool
same_identity (a, b) (c, d) = same_name a c && same_name b d

-- `not (None in incoming or not all(incoming))`, one half.
abbrev pub is_named : Option ℕ → Bool
is_named none = false
is_named (some n) = not (n == 0)

unfoldable pub new_connection : ℕ → Fields → ℕ → Conn
unfolding or_else to_seconds
new_connection id f now = record {
  id = id;
  owner = row_identity f;
  created = or_else (to_seconds f.created_at) now;
  closed = 0;
  uplink = total_or_zero f.uplink_total;
  downlink = total_or_zero f.downlink_total;
  last_seen = now;
}

unfoldable pub slot_of : Identity → List (Identity × (ℤ × ℤ)) → ℤ × ℤ
slot_of key [] = (pos 0, pos 0)
slot_of key ((k, v) ∷ table) = if same_identity k key then v else slot_of key table

unfoldable pub set_slot : Identity → ℤ × ℤ → List (Identity × (ℤ × ℤ)) → List (Identity × (ℤ × ℤ))
set_slot key v [] = (key, v) ∷ []
set_slot key v ((k, w) ∷ table) =
    if same_identity k key then (k, v) ∷ table else (k, w) ∷ set_slot key v table

-- `_bank`, and `_unbank`, which leaves no total below 0.
unfoldable pub bank : Identity → ℤ → ℤ → Tracker → Tracker
unfolding slot_of set_slot ◌+ℤ◌
bank key up down t =
    let s = slot_of key t.finalized in
    record t { finalized = set_slot key (s.0 +ℤ up, s.1 +ℤ down) t.finalized }

unfoldable pub unbank : Identity → ℤ → ℤ → Tracker → Tracker
unfolding slot_of set_slot ◌-ℤ◌ max_ℤ
unbank key up down t =
    let s = slot_of key t.finalized in
    record t {
      finalized = set_slot key (max_ℤ (pos 0) (s.0 -ℤ up), max_ℤ (pos 0) (s.1 -ℤ down)) t.finalized;
    }

-- `_record_banked`: the id goes to the end, and the oldest go while there are too many.
unfoldable pub record_banked : ℕ → Banked → Tracker → Tracker
unfolding remove
record_banked id b t =
    let all_ids = remove id t.banked_ids ++ (id, b) ∷ [] in
    record t { banked_ids = drop (length all_ids - t.banked_id_cap) all_ids }

unfoldable pub drop_banked : ℕ → Tracker → Tracker
drop_banked id t = record t { banked_ids = remove id t.banked_ids }

unfoldable pub unbank_record : Banked → Tracker → Tracker
unfolding unbank
unbank_record b = unbank b.owner b.uplink b.downlink

-- `_identity_conflict`: true where the event may proceed. Where it may not, the caller's tracker counts
-- it and the connection is seen.
unfoldable pub may_proceed : Conn → Fields → Bool
may_proceed c f =
    not (is_named f.user && is_named f.inbound) || same_identity (row_identity f) c.owner

unfoldable pub finalize : Conn → ℕ → ℕ → Tracker → Tracker
unfolding bank record_banked to_seconds or_else put
finalize c now closed_at t =
    let c' = record c {
      closed = or_else (to_seconds closed_at) (or_else c.closed now);
      last_seen = now;
    } in
    let b : Banked = record {
      owner = c.owner;
      uplink = c.uplink;
      downlink = c.downlink;
      bank_state = was_closed;
    } in
    let t' = record_banked c.id b (bank c.owner c.uplink c.downlink t) in
    record t' { recent = put c.id c' t'.recent }

-- `conn[...] = max(conn[...], float(fields.get(..., 0)))`, for both totals.
unfoldable pub raise_totals : Fields → Conn → Conn
unfolding max_ℤ
raise_totals f c = record c {
  uplink = max_ℤ c.uplink (total_or_zero f.uplink_total);
  downlink = max_ℤ c.downlink (total_or_zero f.downlink_total);
}

unfoldable pub count_conflict : Tracker → Tracker
count_conflict t = record t { identity_conflicts = t.identity_conflicts + 1 }

unfoldable pub count_duplicate : Tracker → Tracker
count_duplicate t = record t { duplicate_events = t.duplicate_events + 1 }

unfoldable pub count_skipped : Tracker → Tracker
count_skipped t = record t { skipped_events = t.skipped_events + 1 }

unfoldable pub add_device : Option ℕ → Tracker → Tracker
add_device u t = record t {
  devices = if any (same_name u) t.devices then t.devices else t.devices ++ u ∷ [];
}
