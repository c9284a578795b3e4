-- ===== src/Examples/Wire.antt =====
-- The wire codec on small inputs.
use install_singboxhysteria.Wire.Stream.Framing.{pending_bytes, is_flowing, read_frame-framed}
use install_singboxhysteria.Wire.Stream.{
  Stream, read_frame, framed, data_read, got, read_exact, idle_read, read_loop, read_payload, idle,
  ended,
}
use install_singboxhysteria.Wire.Message.Total.{decode_message_total}
use install_singboxhysteria.Wire.Varint.RoundTrip.{decode_varint-encode_varint}
use install_singboxhysteria.Wire.Message.RoundTrip.{
  WireField, payload_field, encode_fields, varint_field, collect, decode_message-encode_fields,
}
use install_singboxhysteria.Wire.Events.Batches.{
  from_signed64, batch_bytes, to_signed64-from_signed64_negsuc, decode_connection_events-batch,
  Decodes,
}
use install_singboxhysteria.Wire.Message.{decode_message}
use install_singboxhysteria.Wire.Varint.{
  Bytes, to_signed64, decode_varint, encode_varint, negsuc, ok, err, out_of_fuel,
}
use install_singboxhysteria.Wire.Events.{Event, decode_connection_events, connection_spec}
use install_singboxhysteria.Common.{[], ◌∷◌, true, ◌≡◌, arith, List, ◌++◌, ◌≢◌, refl}

abbrev raw_text : Bytes → Bytes
raw_text b = b

decode_varint-encode_varint_example : decode_varint (encode_varint 300 ++ 7 ∷ []) ≡ ok (300, 7 ∷ [])
decode_varint-encode_varint_example = decode_varint-encode_varint 300 (7 ∷ []) (omega arith)

decode_message_total_example :
    decode_message raw_text connection_spec (10 ∷ 1 ∷ 65 ∷ []) ≢ err out_of_fuel
decode_message_total_example = decode_message_total raw_text connection_spec (10 ∷ 1 ∷ 65 ∷ [])

abbrev two_fields : List WireField
two_fields = payload_field 1 (65 ∷ []) ∷ varint_field 12 300 ∷ []

decode_message-encode_fields_example :
    decode_message raw_text connection_spec (encode_fields two_fields)
    ≡ ok (collect raw_text connection_spec [] two_fields)
decode_message-encode_fields_example =
    decode_message-encode_fields raw_text connection_spec two_fields
      ((omega arith, omega arith), ((omega arith, omega arith), tt))

to_signed64-from_signed64_negsuc_example : to_signed64 (from_signed64 (negsuc 4)) ≡ negsuc 4
to_signed64-from_signed64_negsuc_example = to_signed64-from_signed64_negsuc 4 (omega arith)

-- A message of two bytes, split between the buffer and two reads, with one byte of the next.
abbrev split_stream : Stream
split_stream = record {
  raw = 0 ∷ [];
  buffer = 0 ∷ [];
  arrivals = data_read 0 (0 ∷ 2 ∷ 8 ∷ []) ∷ data_read 1 (128 ∷ []) ∷ [];
}

read_frame-framed_example :
    ((read_frame split_stream).0 ≡ got (0, 8 ∷ 1 ∷ []))
    × (pending_bytes (read_frame split_stream).1 ≡ 128 ∷ [])
    × (is_flowing (read_frame split_stream).1.arrivals ≡ true)
unfolding framed
read_frame-framed_example =
    read_frame-framed 0 (8 ∷ 1 ∷ []) (128 ∷ []) split_stream (omega arith) refl refl

-- A silence within a message: the header is lost, and the next read takes the payload for one.
abbrev silent_stream : Stream
silent_stream = record {
  raw = [];
  buffer = [];
  arrivals = data_read 0 (0 ∷ 0 ∷ 0 ∷ 5 ∷ []) ∷ idle_read ∷ data_read 1 (2 ∷ 3 ∷ 4 ∷ 0 ∷ []) ∷ [];
}

silence_loses_header :
    ((read_frame silent_stream).0 ≡ idle) × ((read_frame (read_frame silent_stream).1).0 ≡ ended)
unfolding read_frame read_exact read_loop read_payload
silence_loses_header = (refl, refl)

abbrev two_events : List Bytes
two_events = (8 ∷ 2 ∷ []) ∷ (8 ∷ 1 ∷ []) ∷ []

decode_connection_events-batch_example :
    Decodes raw_text
      (λ (es : List (Event Bytes)). record { reset = true; events = es })
      two_events
      (decode_connection_events raw_text (batch_bytes two_events true))
decode_connection_events-batch_example =
    decode_connection_events-batch raw_text two_events true (omega arith, (omega arith, tt))
