-- ===== src/Wire/Events.antt =====
-- monitor-v2/api_bridge/proto_wire.py: the concrete messages of the connection API.
-- `float(v)` of an int64 is kept as the integer.
pub mod Batches
use install_singboxhysteria.Wire.Varint.{
  Bytes, ℤ, Result, pos, ok, ◌>>=◌, negsuc, err, not_a_number, negative_varint, unhashable_type,
}
use install_singboxhysteria.Wire.Message.{
  encode_varint_field, Spec, Kind, string_kind, varint_kind, message_kind, Slot, decode_message,
  get_value, Field, bool_kind, Values, Decoded, single, int_value, several, bool_value, bytes_value,
  text_value,
}
use install_singboxhysteria.Common.{
  ℕ, [], ◌∷◌, none, some, true, false, zero, suc, inl, inr, refl, ◌≡◌, arith, String, Option, Bool,
  List,
}

abbrev field : ℕ → String → Kind → Field
field n name kind = record { number = n; name = name; kind = kind }

abbrev pub connection_spec : Spec
connection_spec =
    field 1 "id" string_kind
    ∷ field 2 "inbound" string_kind
    ∷ field 3 "inbound_type" string_kind
    ∷ field 4 "ip_version" varint_kind
    ∷ field 5 "network" string_kind
    ∷ field 6 "source" string_kind
    ∷ field 7 "destination" string_kind
    ∷ field 10 "user" string_kind
    ∷ field 12 "created_at" varint_kind
    ∷ field 13 "closed_at" varint_kind
    ∷ field 16 "uplink_total" varint_kind
    ∷ field 17 "downlink_total" varint_kind
    ∷ []

abbrev pub connection_event_spec : Spec
connection_event_spec =
    field 1 "type" varint_kind
    ∷ field 2 "id" string_kind
    ∷ field 3 "connection" message_kind
    ∷ field 4 "uplink_delta" varint_kind
    ∷ field 5 "downlink_delta" varint_kind
    ∷ field 6 "closed_at" varint_kind
    ∷ []

abbrev pub connection_events_spec : Spec
connection_events_spec = field 1 "events" message_kind ∷ field 2 "reset" bool_kind ∷ []

abbrev interval_spec : Spec
interval_spec = field 1 "interval" varint_kind ∷ []

-- `int(fields.get(name, 0))`: a repeated field is a list, which `int` and `float` refuse.
pub number_or_zero : {Text : Type 0} → Option (Slot Text) → Result ℤ
number_or_zero none = ok (pos 0)
number_or_zero (some (single (int_value v))) = ok v
number_or_zero (some (single (bool_value b))) = err not_a_number
number_or_zero (some (single (text_value t))) = err not_a_number
number_or_zero (some (single (bytes_value b))) = err not_a_number
number_or_zero (some (several vs)) = err not_a_number

-- `encode_subscribe_connections_request`: the varint encoder refuses a negative interval.
unfoldable pub encode_subscribe_connections_request : ℤ → Result Bytes
encode_subscribe_connections_request (pos n) = ok (encode_varint_field 1 n)
encode_subscribe_connections_request (negsuc n) = err negative_varint

pub data EventType : Type 0 where
  new_event update_event closed_event : EventType
  unknown_event : ℤ → EventType

event_type : ℤ → EventType
event_type (pos zero) = new_event
event_type (pos (suc zero)) = update_event
event_type (pos (suc (suc zero))) = closed_event
event_type v = unknown_event v

-- `_EVENT_TYPE_NAMES.get(type_number, ...)`: a list cannot be a key.
event_type_of : {Text : Type 0} → Option (Slot Text) → Result EventType
unfolding event_type
event_type_of none = ok new_event
event_type_of (some (single (int_value v))) = ok (event_type v)
event_type_of (some (single (bool_value b))) = err not_a_number
event_type_of (some (single (text_value t))) = err not_a_number
event_type_of (some (single (bytes_value b))) = err not_a_number
event_type_of (some (several vs)) = err unhashable_type

pub record Event (Text : Type 0) : Type 0 where
  pub kind : EventType
  pub id : Option (Slot Text)  -- `none` is the default ""
  pub connection : Option (Values Text)
  pub uplink_delta : ℤ
  pub downlink_delta : ℤ
  pub closed_at : ℤ

pub record Batch (Text : Type 0) : Type 0 where
  pub reset : Bool
  pub events : List (Event Text)

-- `fields.get("events", [])`, a single one wrapped in a list.
pub listed : {Text : Type 0} → Option (Slot Text) → List (Decoded Text)
listed none = []
listed (some (single d)) = d ∷ []
listed (some (several ds)) = ds

-- `bool(fields.get("reset", False))`
pub truth : {Text : Type 0} → Option (Slot Text) → Bool
truth none = false
truth (some (single (bool_value b))) = b
truth (some (single (int_value (pos zero)))) = false
truth (some (single (bytes_value []))) = false
truth (some (single d)) = true
truth (some (several [])) = false
truth (some (several (d ∷ ds))) = true

module _ {Text : Type 0} (utf8 : Bytes → Text) where
  unfoldable pub decode_subscribe_connections_request : Bytes → Result ℤ
  unfolding number_or_zero
  decode_subscribe_connections_request raw = decode_message utf8 interval_spec raw >>= λ fields.
      number_or_zero (get_value "interval" fields)

  decode_connection : Bytes → Result (Values Text)
  decode_connection raw = decode_message utf8 connection_spec raw

  -- A connection is decoded only from a single embedded message.
  embedded : Option (Slot Text) → Result (Option (Values Text))
  unfolding decode_connection
  embedded (some (single (bytes_value raw))) =
      decode_connection raw >>= λ (c : Values Text). ok (some c)
  embedded _ = ok none

  event_of : Values Text → Result (Event Text)
  unfolding event_type_of embedded number_or_zero
  event_of fields = do
    kind ← event_type_of (get_value "type" fields)
    connection ← embedded (get_value "connection" fields)
    up ← number_or_zero (get_value "uplink_delta" fields)
    down ← number_or_zero (get_value "downlink_delta" fields)
    closed ← number_or_zero (get_value "closed_at" fields)
    ok (record {
      kind = kind;
      id = get_value "id" fields;
      connection = connection;
      uplink_delta = up;
      downlink_delta = down;
      closed_at = closed;
    })

  pub decode_connection_event : Bytes → Result (Event Text)
  unfolding event_of
  decode_connection_event raw = decode_message utf8 connection_event_spec raw >>= event_of

  -- The loop over the raw events; the first error ends it.
  pub decode_events : List (Decoded Text) → Result (List (Event Text))
  decode_events [] = ok []
  decode_events (bytes_value raw ∷ rest) = decode_connection_event raw >>= λ (e : Event Text).
      decode_events rest >>= λ (es : List (Event Text)). ok (e ∷ es)
  decode_events (d ∷ rest) = decode_events rest

  unfoldable pub decode_connection_events : Bytes → Result (Batch Text)
  decode_connection_events raw = do
    fields ← decode_message utf8 connection_events_spec raw
    events ← decode_events (listed (get_value "events" fields))
    ok (record { reset = truth (get_value "reset" fields); events = events })
