-- ===== src/Wire/Varint.antt =====
-- monitor-v2/api_bridge/proto_wire.py: `encode_varint`, `_decode_varint`, `_to_signed64`.
-- A buffer with a position is the list of the bytes from that position on.
pub mod RoundTrip
pub mod Shorter
use install_singboxhysteria.Common.{
  ℕ, [], ◌∷◌, none, some, true, false, zero, suc, inl, inr, refl, ◌≡◌, arith, List, ◌/◌, ◌+◌,
  if◌then◌else◌, ◌==◌, ◌%◌, leb, ◌*◌, ◌^◌, ltb, ◌-◌,
}

pub data WireError : Type 0 where
  truncated_varint varint_too_long field_overrun truncated_fixed64 truncated_fixed32 : WireError
  unsupported_wire_type negative_varint not_bytes out_of_fuel unhashable_type not_a_number :
      WireError

pub data Result {ℓ} (A : Type ℓ) : Type ℓ where
  ok : A → Result A
  err : WireError → Result A

infixl 5 ◌>>=◌
abbrev pub ◌>>=◌ {ℓ κ} : {A : Type ℓ} {B : Type κ} → Result A → (A → Result B) → Result B
ok a >>= f = f a
err e >>= f = err e

abbrev pub Bytes : Type 0
Bytes = List ℕ

-- `while True`, one round for each byte; the fuel is more than the value, which every round divides.
encode_loop : ℕ → ℕ → Bytes
encode_loop zero v = []
encode_loop (suc fuel) v =
    let rest = encode_loop fuel (v / 128) in
    if v / 128 == 0 then v % 128 ∷ [] else (v % 128 + 128) ∷ rest

-- `encode_varint` of a value that is not negative.
unfoldable pub encode_varint : ℕ → Bytes
unfolding encode_loop
encode_varint v = encode_loop (suc v) v

-- The loop of `_decode_varint`. The bits of `result` are below `shift`, so `|=` is `+`.
pub decode_loop : ℕ → ℕ → Bytes → Result (ℕ × Bytes)
decode_loop shift result [] = err truncated_varint
decode_loop shift result (byte ∷ buf) =
    let total = result + byte % 128 * 2 ^ shift in
    let more = decode_loop (shift + 7) total buf in
    if byte / 128 % 2 == 0
    then ok (total, buf)
    else if ltb 70 (shift + 7)
    then err varint_too_long
    else more

unfoldable pub decode_varint : Bytes → Result (ℕ × Bytes)
unfolding decode_loop
decode_varint buf = decode_loop 0 0 buf

-- Two's complement; `negsuc n` is -(n + 1).
pub data ℤ : Type 0 where
  pos : ℕ → ℤ
  negsuc : ℕ → ℤ

unfoldable pub to_signed64 : ℕ → ℤ
to_signed64 v =
    if leb (2 ^ 63) v
    then (if leb (2 ^ 64) v then pos (v - 2 ^ 64) else negsuc (2 ^ 64 - 1 - v))
    else pos v
