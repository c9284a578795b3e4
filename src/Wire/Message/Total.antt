-- ===== src/Wire/Message/Total.antt =====
-- Every field that `decode_message` reads is shorter than what it is read from, so the loop ends
-- within as many rounds as there are bytes.
use install_singboxhysteria.Wire.Varint.Shorter.{decode_varint-fuelled, decode_varint-shorter}
use install_singboxhysteria.Wire.Message.{
  split_at, read_value, as_raw, Raw, WireError, truncated_fixed64, truncated_fixed32, raw_int,
  with_number, read_field, Spec, to_signed64, Values, decode_message, message_loop, field_overrun,
  store,
}
use install_singboxhysteria.Wire.Varint.{
  Bytes, decode_varint, Result, ok, err, out_of_fuel, ◌>>=◌, WireError, truncated_fixed64,
  truncated_fixed32, to_signed64, field_overrun,
}
use install_singboxhysteria.Common.{
  ℕ, [], ◌∷◌, zero, suc, inl, inr, refl, ◌≡◌, arith, ◌≢◌, length, ◌≤◌, drop, ap, Bool-cases, ltb,
  ◌==◌, ◌%◌, ◌/◌,
}

length-drop-le : (n : ℕ) (buf : Bytes) → length (drop n buf) ≤ length buf
length-drop-le zero buf = omega arith
length-drop-le (suc n) [] = omega arith
length-drop-le (suc n) (b ∷ buf) = omega (arith, length-drop-le n buf)

-- What a result promises of the rest of its input, and that it is no lack of fuel.
abbrev pub Shrinks {ℓ} : {A : Type ℓ} → (A → Bytes) → ℕ → Result A → Type 0
Shrinks rest n (ok a) = length (rest a) ≤ n
Shrinks rest n (err e) = e ≢ out_of_fuel

split_at-Shrinks :
    (n : ℕ) (e : WireError) (buf : Bytes)
    → e ≢ out_of_fuel
    → Shrinks (λ (p : Raw × Bytes). p.1) (length buf) (split_at n e buf >>= as_raw)
unfolding split_at as_raw
split_at-Shrinks n e buf h = elim (Bool-cases (ltb (length buf) n)) [
  | inl short ↦ rw short h
  | inr fits ↦ rw fits (length-drop-le n buf)
]

bind-Shrinks {ℓ} :
    {A : Type ℓ} (r : Result (ℕ × Bytes)) (f : ℕ × Bytes → Result A) (rest : A → Bytes) (n : ℕ)
    → r ≢ err out_of_fuel
    → ((v : ℕ) (b : Bytes) → r ≡ ok (v, b) → Shrinks rest n (f (v, b)))
    → Shrinks rest n (r >>= f)
bind-Shrinks (ok (v, b)) f rest n k h = h v b refl
bind-Shrinks (err e) f rest n k h = λ p. k (ap err p)

Shrinks-weaken {ℓ} :
    {A : Type ℓ} (r : Result A) (rest : A → Bytes) (m n : ℕ)
    → m ≤ n
    → Shrinks rest m r
    → Shrinks rest n r
Shrinks-weaken (ok a) rest m n h k = omega arith
Shrinks-weaken (err e) rest m n h k = k

read_value-Shrinks :
    (wire : ℕ) (buf : Bytes) → Shrinks (λ (p : Raw × Bytes). p.1) (length buf) (read_value wire buf)
unfolding read_value
read_value-Shrinks wire buf = elim (Bool-cases (wire == 0)) [
  | inl a ↦ rw a (
      bind-Shrinks (decode_varint buf) (λ (v, rest). ok (raw_int (to_signed64 v), rest))
        (λ (p : Raw × Bytes). p.1) (length buf) (decode_varint-fuelled buf)
        (λ v b e. omega (arith, decode_varint-shorter buf v b e)))
  | inr a ↦ elim (Bool-cases (wire == 2)) [
    | inl b ↦
        rw (a, b)
          (bind-Shrinks (decode_varint buf) (λ (n, rest). split_at n field_overrun rest >>= as_raw)
            (λ (p : Raw × Bytes). p.1) (length buf) (decode_varint-fuelled buf)
            (λ v r e.
              Shrinks-weaken (split_at v field_overrun r >>= as_raw) (λ (p : Raw × Bytes). p.1)
                (length r) (length buf) (omega (arith, decode_varint-shorter buf v r e))
                (split_at-Shrinks v field_overrun r (λ p. cc))))
    | inr b ↦ elim (Bool-cases (wire == 1)) [
      | inl c ↦ rw (a, b, c) (split_at-Shrinks 8 truncated_fixed64 buf (λ p. cc))
      | inr c ↦ elim (Bool-cases (wire == 5)) [
        | inl d ↦ rw (a, b, c, d) (split_at-Shrinks 4 truncated_fixed32 buf (λ p. cc))
        | inr d ↦ rw (a, b, c, d) (λ p. cc)
      ]
    ]
  ]
]

with_number-Shrinks :
    (n : ℕ) (r : Result (Raw × Bytes)) (k : ℕ)
    → Shrinks (λ (p : Raw × Bytes). p.1) k r
    → Shrinks (λ (p : ℕ × Raw × Bytes). p.2) k (r >>= with_number n)
unfolding with_number
with_number-Shrinks n (ok (v, rest)) k h = h
with_number-Shrinks n (err e) k h = h

-- Reading a field consumes at least one byte.
pub read_field-Shrinks :
    (b : ℕ) (buf : Bytes)
    → Shrinks (λ (p : ℕ × Raw × Bytes). p.2) (length buf) (read_field (b ∷ buf))
unfolding read_field
read_field-Shrinks b buf =
    bind-Shrinks (decode_varint (b ∷ buf))
      (λ (tag, rest). read_value (tag % 8) rest >>= with_number (tag / 8))
      (λ (p : ℕ × Raw × Bytes). p.2) (length buf) (decode_varint-fuelled (b ∷ buf))
      (λ tag r e.
        Shrinks-weaken (read_value (tag % 8) r >>= with_number (tag / 8))
          (λ (p : ℕ × Raw × Bytes). p.2) (length r) (length buf)
          (omega (arith, decode_varint-shorter (b ∷ buf) tag r e))
          (with_number-Shrinks (tag / 8) (read_value (tag % 8) r) (length r)
            (read_value-Shrinks (tag % 8) r)))

bind-fuelled {ℓ κ} :
    {A : Type ℓ} {B : Type κ} (rest : A → Bytes) (n : ℕ) (r : Result A) (f : A → Result B)
    → Shrinks rest n r
    → ((a : A) → length (rest a) ≤ n → f a ≢ err out_of_fuel)
    → (r >>= f) ≢ err out_of_fuel
bind-fuelled rest n (ok a) f h k = k a h
bind-fuelled rest n (err e) f h k = λ p. h (ground (arith, p))

module _ {Text : Type 0} (utf8 : Bytes → Text) (spec : Spec) where
  message_loop-fuelled :
      (fuel : ℕ) (values : Values Text) (buf : Bytes)
      → length buf ≤ fuel
      → message_loop utf8 spec fuel values buf ≢ err out_of_fuel
  unfolding message_loop
  message_loop-fuelled fuel values [] h = λ p. cc
  message_loop-fuelled zero values (b ∷ buf) h = absurd (omega arith)
  message_loop-fuelled (suc fuel) values (b ∷ buf) h =
      bind-fuelled (λ (p : ℕ × Raw × Bytes). p.2) (length buf) (read_field (b ∷ buf))
        (λ (n, raw, rest). message_loop utf8 spec fuel (store utf8 spec n raw values) rest)
        (read_field-Shrinks b buf)
        (λ (n, raw, rest) k.
          message_loop-fuelled fuel (store utf8 spec n raw values) rest (omega arith))

  -- `decode_message` never stops for lack of fuel: as many rounds as bytes are enough.
  pub decode_message_total : (buf : Bytes) → decode_message utf8 spec buf ≢ err out_of_fuel
  unfolding decode_message
  decode_message_total buf = message_loop-fuelled (length buf) [] buf (omega arith)
