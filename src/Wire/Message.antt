-- ===== src/Wire/Message.antt =====
-- monitor-v2/api_bridge/proto_wire.py: `decode_message` and the two field encoders.
-- The text decoder (`bytes.decode("utf-8", errors="replace")`) is the parameter `utf8`.
pub mod Total
pub mod RoundTrip
use install_singboxhysteria.Wire.Varint.{
  decode_varint, encode_varint, to_signed64, Bytes, ℤ, WireError, Result, ok, ◌>>=◌, pos, err,
  field_overrun, truncated_fixed64, out_of_fuel, truncated_fixed32, unsupported_wire_type,
}
use install_singboxhysteria.Common.{
  ℕ, [], ◌∷◌, none, some, true, false, zero, suc, inl, inr, refl, ◌≡◌, arith, String, List, Option,
  ◌++◌, if◌then◌else◌, Bool, ◌*◌, ◌==◌, ltb, str_eq, length, ◌+◌, ◌%◌, take, ◌/◌, drop,
}

pub data Kind : Type 0 where
  varint_kind bool_kind string_kind message_kind : Kind

-- {field_number: (name, kind)}
pub record Field : Type 0 where
  pub number : ℕ
  pub name : String
  pub kind : Kind

abbrev pub Spec : Type 0
Spec = List Field

unfoldable pub find_field : ℕ → Spec → Option Field
find_field n [] = none
find_field n (f ∷ fs) = if f.number == n then some f else find_field n fs

-- The value of a field before its kind is known.
pub data Raw : Type 0 where
  raw_int : ℤ → Raw
  raw_bytes : Bytes → Raw

pub data Decoded (Text : Type 0) : Type 0 where
  int_value : ℤ → Decoded Text
  bool_value : Bool → Decoded Text
  text_value : Text → Decoded Text
  bytes_value : Bytes → Decoded Text

-- A field that occurs once is its value, one that repeats is a list.
pub data Slot (Text : Type 0) : Type 0 where
  single : Decoded Text → Slot Text
  several : List (Decoded Text) → Slot Text

abbrev pub Values : Type 0 → Type 0
Values Text = List (String × Slot Text)

-- The next `n` bytes and the rest.
split_at : ℕ → WireError → Bytes → Result (Bytes × Bytes)
split_at n e buf = if ltb (length buf) n then err e else ok (take n buf, drop n buf)

as_raw : Bytes × Bytes → Result (Raw × Bytes)
as_raw (chunk, rest) = ok (raw_bytes chunk, rest)

read_value : ℕ → Bytes → Result (Raw × Bytes)
read_value wire buf =
    if wire == 0
    then (decode_varint buf >>= λ (v, rest). ok (raw_int (to_signed64 v), rest))
    else if wire == 2
    then (decode_varint buf >>= λ (n, rest). split_at n field_overrun rest >>= as_raw)
    else if wire == 1
    then (split_at 8 truncated_fixed64 buf >>= as_raw)
    else if wire == 5
    then (split_at 4 truncated_fixed32 buf >>= as_raw)
    else err unsupported_wire_type

with_number : ℕ → Raw × Bytes → Result (ℕ × Raw × Bytes)
with_number n (v, rest) = ok (n, v, rest)

-- One tag and its value: the field number, the value, the rest.
pub read_field : Bytes → Result (ℕ × Raw × Bytes)
read_field buf =
    decode_varint buf >>= λ (tag, rest). read_value (tag % 8) rest >>= with_number (tag / 8)

int_truth : ℤ → Bool
int_truth (pos zero) = false
int_truth _ = true

bytes_truth : Bytes → Bool
bytes_truth [] = false
bytes_truth _ = true

module _ {Text : Type 0} (utf8 : Bytes → Text) where
  -- `decoded`; `none` is dropped by the code.
  pub interpret : Kind → Raw → Option (Decoded Text)
  unfolding int_truth bytes_truth
  interpret varint_kind (raw_int v) = some (int_value v)
  interpret varint_kind (raw_bytes b) = none
  interpret bool_kind (raw_int v) = some (bool_value (int_truth v))
  interpret bool_kind (raw_bytes b) = some (bool_value (bytes_truth b))
  interpret string_kind (raw_int v) = none
  interpret string_kind (raw_bytes b) = some (text_value (utf8 b))
  interpret message_kind (raw_int v) = none
  interpret message_kind (raw_bytes b) = some (bytes_value b)

abbrev pub append_slot : {Text : Type 0} → Slot Text → Decoded Text → Slot Text
append_slot (single v) d = several (v ∷ d ∷ [])
append_slot (several vs) d = several (vs ++ d ∷ [])

unfoldable pub add_value : {Text : Type 0} → String → Decoded Text → Values Text → Values Text
add_value name d [] = (name, single d) ∷ []
add_value name d ((n, s) ∷ vs) =
    if str_eq n name then (n, append_slot s d) ∷ vs else (n, s) ∷ add_value name d vs

unfoldable pub get_value : {Text : Type 0} → String → Values Text → Option (Slot Text)
get_value name [] = none
get_value name ((n, s) ∷ vs) = if str_eq n name then some s else get_value name vs

module _ {Text : Type 0} (utf8 : Bytes → Text) (spec : Spec) where
  -- The end of the loop's body: an unknown field and an ill-typed value are skipped.
  unfoldable pub store : ℕ → Raw → Values Text → Values Text
  unfolding find_field interpret add_value
  store n raw values = elim (find_field n spec) [
    | none ↦ values
    | some f ↦ elim (interpret utf8 f.kind raw) [
      | none ↦ values
      | some d ↦ add_value f.name d values
    ]
  ]

  -- `while pos < size`, one round for each field; the fuel is the number of bytes.
  pub message_loop : ℕ → Values Text → Bytes → Result (Values Text)
  message_loop fuel values [] = ok values
  message_loop zero values (b ∷ buf) = err out_of_fuel
  message_loop (suc fuel) values (b ∷ buf) =
      read_field (b ∷ buf) >>= λ (n, raw, rest). message_loop fuel (store n raw values) rest

  unfoldable pub decode_message : Bytes → Result (Values Text)
  unfolding message_loop read_field read_value with_number split_at as_raw decode_varint to_signed64
      store
  decode_message buf = message_loop (length buf) [] buf

-- (field_number << 3) | WIRE_LEN, and the payload behind its length.
unfoldable pub encode_length_delimited : ℕ → Bytes → Bytes
unfolding encode_varint
encode_length_delimited n payload =
    encode_varint (n * 8 + 2) ++ (encode_varint (length payload) ++ payload)

unfoldable pub encode_varint_field : ℕ → ℕ → Bytes
unfolding encode_varint
encode_varint_field n v = encode_varint (n * 8) ++ encode_varint v
