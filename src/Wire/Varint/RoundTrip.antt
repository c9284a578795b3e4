-- ===== src/Wire/Varint/RoundTrip.antt =====
-- `_decode_varint` reads back what `encode_varint` writes, up to 77 bits, and refuses the rest.
use install_singboxhysteria.Wire.Varint.{
  decode_loop, encode_loop, Bytes, ok, decode_varint, encode_varint,
}
use native.Mathlib.Numerals.{towards_suc}
use native.Mathlib.Nat.{pow-suc}
use install_singboxhysteria.Common.{
  ℕ, [], ◌∷◌, true, false, zero, suc, inl, inr, ◌≡◌, arith, ◌^◌, ◌+◌, ◌*◌, ◌<◌, ◌++◌, Bool-cases,
  ◌/◌, ◌==◌, ◌≤◌, ltb, ◌%◌, ◌∙◌, ap,
}

shift_seven : (s : ℕ) → 2 ^ (s + 7) ≡ 128 * 2 ^ s
shift_seven s = simp towards_suc (omega arith)

decode_last :
    (shift r b : ℕ) (buf : Bytes)
    → b < 128
    → decode_loop shift r (b ∷ buf) ≡ ok (r + b * 2 ^ shift, buf)
unfolding decode_loop
decode_last shift r b buf h =
    let low : b % 128 ≡ b = omega arith in
    let stop : b / 128 % 2 == 0 ≡ true = ground arith in rw (stop, low)

decode_more :
    (shift r b : ℕ) (buf : Bytes)
    → b < 128
    → shift + 7 ≤ 70
    → decode_loop shift r ((b + 128) ∷ buf) ≡ decode_loop (shift + 7) (r + b * 2 ^ shift) buf
unfolding decode_loop
decode_more shift r b buf h k =
    let low : (b + 128) % 128 ≡ b = omega arith in
    let go : (b + 128) / 128 % 2 == 0 ≡ false = ground arith in
    let short : ltb 70 (shift + 7) ≡ false = ground arith in rw (go, short, low)

encode_last : (fuel v : ℕ) → v < 128 → encode_loop (suc fuel) v ≡ v ∷ []
unfolding encode_loop
encode_last fuel v h =
    let low : v % 128 ≡ v = omega arith in
    let stop : v / 128 == 0 ≡ true = ground arith in rw (stop, low)

encode_more :
    (fuel v : ℕ) → 128 ≤ v → encode_loop (suc fuel) v ≡ (v % 128 + 128) ∷ encode_loop fuel (v / 128)
unfolding encode_loop
encode_more fuel v h = let go : v / 128 == 0 ≡ false = ground arith in rw go

split_value : (r v p q : ℕ) → q ≡ 128 * p → r + v % 128 * p + v / 128 * q ≡ r + v * p
split_value r v p q e =
    let parts : v ≡ v % 128 + 128 * (v / 128) = omega arith in
    omega (arith, ap (λ (t : ℕ). t * p) parts, ap (λ (t : ℕ). v / 128 * t) e)

-- The encoding of a value of at most `left` groups of seven bits, read at the shift that leaves room
-- for exactly `left` groups.
decode-encode_loop :
    (left fuel v shift r : ℕ) (rest : Bytes)
    → shift + 7 * left ≡ 77
    → v < fuel
    → v < 128 ^ left
    → decode_loop shift r (encode_loop fuel v ++ rest) ≡ ok (r + v * 2 ^ shift, rest)
decode-encode_loop left zero v shift r rest e f b = absurd (omega arith)
decode-encode_loop zero (suc fuel) v shift r rest e f b =
    rw (encode_last fuel v (omega arith)) (decode_last shift r v rest (omega arith))
decode-encode_loop (suc zero) (suc fuel) v shift r rest e f b =
    rw (encode_last fuel v (omega arith)) (decode_last shift r v rest (omega arith))
decode-encode_loop (suc (suc left)) (suc fuel) v shift r rest e f b =
    elim (Bool-cases (ltb v 128)) [
      | inl last ↦
          rw (encode_last fuel v (ground arith)) (decode_last shift r v rest (ground arith))
      | inr more ↦ rw (encode_more fuel v (ground arith)) (
          decode_more shift r (v % 128) (encode_loop fuel (v / 128) ++ rest) (omega arith)
            (omega arith)
          ∙ decode-encode_loop (suc left) fuel (v / 128) (shift + 7) (r + v % 128 * 2 ^ shift) rest
              (omega arith) (ground arith) (omega (arith, pow-suc 128 (suc left)))
          ∙ ap (λ (n : ℕ). ok (n, rest))
              (split_value r v (2 ^ shift) (2 ^ (shift + 7)) (shift_seven shift)))
    ]

-- `_decode_varint` reads back the value that `encode_varint` wrote, and leaves the bytes behind it,
-- for every value of at most 77 bits.
pub decode_varint-encode_varint :
    (v : ℕ) (rest : Bytes) → v < 2 ^ 77 → decode_varint (encode_varint v ++ rest) ≡ ok (v, rest)
unfolding decode_varint encode_varint
decode_varint-encode_varint v rest h =
    decode-encode_loop 11 (suc v) v 0 0 rest (omega arith) (omega arith) (omega arith)
    ∙ ap (λ (n : ℕ). ok (n, rest)) (omega arith)
