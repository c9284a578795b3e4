-- ===== src/Wire/Varint/Shorter.antt =====
-- `_decode_varint` consumes at least one byte, and is structural, so it needs no fuel.
use install_singboxhysteria.Wire.Varint.{decode_loop, decode_varint, Bytes, ok, err, out_of_fuel}
use install_singboxhysteria.Common.{ℕ, [], ◌∷◌, ◌≡◌, arith, ◌≢◌, length, ◌<◌, ◌+◌, ◌%◌, ◌*◌, ◌^◌}

decode_loop-shorter :
    (shift r : ℕ) (buf : Bytes) (v : ℕ) (rest : Bytes)
    → decode_loop shift r buf ≡ ok (v, rest)
    → length rest < length buf
unfolding decode_loop
decode_loop-shorter shift r [] v rest h = cc
decode_loop-shorter shift r (b ∷ buf) v rest h =
    ground (arith, h, decode_loop-shorter (shift + 7) (r + b % 128 * 2 ^ shift) buf v rest)

decode_loop-fuelled : (shift r : ℕ) (buf : Bytes) → decode_loop shift r buf ≢ err out_of_fuel
unfolding decode_loop
decode_loop-fuelled shift r [] h = cc
decode_loop-fuelled shift r (b ∷ buf) h =
    ground (arith, h, decode_loop-fuelled (shift + 7) (r + b % 128 * 2 ^ shift) buf)

pub decode_varint-shorter :
    (buf : Bytes) (v : ℕ) (rest : Bytes)
    → decode_varint buf ≡ ok (v, rest)
    → length rest < length buf
unfolding decode_varint
decode_varint-shorter buf = decode_loop-shorter 0 0 buf

pub decode_varint-fuelled : (buf : Bytes) → decode_varint buf ≢ err out_of_fuel
unfolding decode_varint
decode_varint-fuelled buf = decode_loop-fuelled 0 0 buf
