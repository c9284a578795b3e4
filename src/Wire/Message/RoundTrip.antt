-- ===== src/Wire/Message/RoundTrip.antt =====
-- `decode_message` reads back what the field encoders write.
use install_singboxhysteria.Wire.Message.Total.{Shrinks, read_field-Shrinks}
use install_singboxhysteria.Wire.Varint.RoundTrip.{decode_varint-encode_varint}
use install_singboxhysteria.Wire.Varint.{
  Bytes, WireError, to_signed64, ok, encode_varint, field_overrun, decode_varint,
}
use install_singboxhysteria.Wire.Message.{
  Raw, split_at, read_value, encode_varint_field, raw_int, WireError, read_field,
  encode_length_delimited, to_signed64, ok, raw_bytes, encode_varint, as_raw, with_number,
  field_overrun, decode_varint, Spec, Values, decode_message, store, message_loop,
}
use mathlib.Core.List.{append_assoc, append-nil}
use install_singboxhysteria.Common.{
  ℕ, drop-length_append, take-length_append, [], ◌∷◌, false, ◌≡◌, arith, List, ◌*◌, ◌<◌, length,
  ◌++◌, ◌^◌, ltb, ◌+◌, length-append, ◌%◌, ◌/◌, zero, suc, refl, subst, ◌≤◌, ◌∙◌, ap, sym,
}

-- What the encoders can write: a field number with a varint, or with a payload.
pub data WireField : Type 0 where
  varint_field : ℕ → ℕ → WireField
  payload_field : ℕ → Bytes → WireField

unfoldable pub encode_field : WireField → Bytes
unfolding encode_varint_field encode_length_delimited
encode_field (varint_field n v) = encode_varint_field n v
encode_field (payload_field n b) = encode_length_delimited n b

unfoldable pub encode_fields : List WireField → Bytes
unfolding encode_field
encode_fields [] = []
encode_fields (f ∷ fs) = encode_field f ++ encode_fields fs

unfoldable pub field_number : WireField → ℕ
field_number (varint_field n v) = n
field_number (payload_field n b) = n

unfoldable pub field_raw : WireField → Raw
field_raw (varint_field n v) = raw_int (to_signed64 v)
field_raw (payload_field n b) = raw_bytes b

-- The numbers of a field fit in the 77 bits of a varint.
abbrev pub Fits : WireField → Type 0
Fits (varint_field n v) = (n * 8 < 2 ^ 77) × (v < 2 ^ 77)
Fits (payload_field n b) = (n * 8 + 2 < 2 ^ 77) × (length b < 2 ^ 77)

abbrev pub AllFit : List WireField → Type 0
AllFit [] = Unit {0}
AllFit (f ∷ fs) = Fits f × AllFit fs

split_at-append :
    (b rest : Bytes) (e : WireError) → split_at (length b) e (b ++ rest) ≡ ok (b, rest)
unfolding split_at
split_at-append b rest e =
    let enough : ltb (length (b ++ rest)) (length b) ≡ false =
      ground (arith, length-append b rest) in
    rw (enough, take-length_append, drop-length_append)

read_value-varint :
    (v : ℕ) (rest : Bytes)
    → v < 2 ^ 77
    → read_value 0 (encode_varint v ++ rest) ≡ ok (raw_int (to_signed64 v), rest)
unfolding read_value
read_value-varint v rest h = rw (decode_varint-encode_varint v rest h)

read_value-payload :
    (b rest : Bytes)
    → length b < 2 ^ 77
    → read_value 2 (encode_varint (length b) ++ (b ++ rest)) ≡ ok (raw_bytes b, rest)
unfolding read_value as_raw
read_value-payload b rest h =
    rw (decode_varint-encode_varint (length b) (b ++ rest) h)
      (rw (split_at-append b rest field_overrun))

-- A tag in front of a value that `read_value` reads back.
read_field-tag :
    (n wire : ℕ) (buf : Bytes) (v : Raw) (rest : Bytes)
    → n * 8 + wire < 2 ^ 77
    → wire < 8
    → read_value wire buf ≡ ok (v, rest)
    → read_field (encode_varint (n * 8 + wire) ++ buf) ≡ ok (n, v, rest)
unfolding read_field with_number
read_field-tag n wire buf v rest h w e =
    let low : (n * 8 + wire) % 8 ≡ wire = omega arith in
    let high : (n * 8 + wire) / 8 ≡ n = omega arith in
    rw (decode_varint-encode_varint (n * 8 + wire) buf h) (rw (low, high, e))

read_field-encode_field :
    (f : WireField) (rest : Bytes)
    → Fits f
    → read_field (encode_field f ++ rest) ≡ ok (field_number f, field_raw f, rest)
unfolding encode_field field_number field_raw encode_varint_field encode_length_delimited
read_field-encode_field (varint_field n v) rest h =
    let tag : n * 8 + 0 ≡ n * 8 = omega arith in
    rw append_assoc (
      rw tag at (
        read_field-tag n 0 (encode_varint v ++ rest) (raw_int (to_signed64 v)) rest (omega arith)
          (omega arith) (read_value-varint v rest h.1)))
read_field-encode_field (payload_field n b) rest h =
    rw (append_assoc, append_assoc)
      (read_field-tag n 2 (encode_varint (length b) ++ (b ++ rest)) (raw_bytes b) rest h.0
        (omega arith) (read_value-payload b rest h.1))

read_field-shorter :
    (buf : Bytes) (n : ℕ) (v : Raw) (rest : Bytes)
    → read_field buf ≡ ok (n, v, rest)
    → length rest < length buf
unfolding read_field decode_varint
read_field-shorter [] n v rest h = cc
read_field-shorter (b ∷ buf) n v rest h =
    let shrinks =
      subst (Shrinks (λ (p : ℕ × Raw × Bytes). p.2) (length buf)) h (read_field-Shrinks b buf) in
    omega (arith, shrinks)

module _ {Text : Type 0} (utf8 : Bytes → Text) (spec : Spec) where
  -- What the fields stand for: each is stored in turn.
  unfoldable pub collect : Values Text → List WireField → Values Text
  collect values [] = values
  collect values (f ∷ fs) = collect (store utf8 spec (field_number f) (field_raw f) values) fs

  message_loop-step :
      (fuel : ℕ) (values : Values Text) (buf : Bytes) (n : ℕ) (v : Raw) (rest : Bytes)
      → read_field buf ≡ ok (n, v, rest)
      → message_loop utf8 spec (suc fuel) values buf
        ≡ message_loop utf8 spec fuel (store utf8 spec n v values) rest
  message_loop-step fuel values [] n v rest h =
      absurd (omega (arith, read_field-shorter [] n v rest h))
  message_loop-step fuel values (b ∷ buf) n v rest h = unfold message_loop in rw h

  message_loop-encode_fields :
      (fuel : ℕ) (values : Values Text) (fs : List WireField)
      → AllFit fs
      → length (encode_fields fs) ≤ fuel
      → message_loop utf8 spec fuel values (encode_fields fs) ≡ ok (collect values fs)
  unfolding encode_fields collect
  message_loop-encode_fields fuel values [] fit h = unfold message_loop in refl
  message_loop-encode_fields zero values (f ∷ fs) fit h = absurd (
      omega (
        arith,
        read_field-shorter (encode_field f ++ encode_fields fs) (field_number f) (field_raw f)
            (encode_fields fs) (read_field-encode_field f (encode_fields fs) fit.0),
      ))
  message_loop-encode_fields (suc fuel) values (f ∷ fs) fit h =
      let read = read_field-encode_field f (encode_fields fs) fit.0 in
      message_loop-step fuel values (encode_field f ++ encode_fields fs) (field_number f)
        (field_raw f) (encode_fields fs) read
      ∙ message_loop-encode_fields fuel (store utf8 spec (field_number f) (field_raw f) values) fs
          fit.1
          (omega (
            arith,
            read_field-shorter (encode_field f ++ encode_fields fs) (field_number f) (field_raw f)
                (encode_fields fs) read,
          ))

  -- Decoding a sequence of encoded fields succeeds and stores each field's value in turn, for any
  -- specification, any field numbers and payloads that fit a 77-bit varint.
  pub decode_message-encode_fields :
      (fs : List WireField)
      → AllFit fs
      → decode_message utf8 spec (encode_fields fs) ≡ ok (collect [] fs)
  unfolding decode_message
  decode_message-encode_fields fs fit =
      message_loop-encode_fields (length (encode_fields fs)) [] fs fit (omega arith)

  pub decode_message-varint_field :
      (n v : ℕ)
      → n * 8 < 2 ^ 77
      → v < 2 ^ 77
      → decode_message utf8 spec (encode_varint_field n v)
        ≡ ok (store utf8 spec n (raw_int (to_signed64 v)) [])
  unfolding encode_fields encode_field field_number field_raw collect
  decode_message-varint_field n v h k =
      ap (decode_message utf8 spec) (sym (append-nil (encode_varint_field n v)))
      ∙ decode_message-encode_fields (varint_field n v ∷ []) ((h, k), tt)
