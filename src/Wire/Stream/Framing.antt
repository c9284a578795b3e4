-- ===== src/Wire/Stream/Framing.antt =====
-- A frame is read whole, however its bytes arrive.
use install_singboxhysteria.Wire.Stream.{
  Arrival, data_read, idle_read, socket_error, Stream, Outcome, got, taken, read_loop, read_exact,
  read_frame, read_payload, after_header, framed, to_bytes, from_bytes, at_end,
}
use install_singboxhysteria.Wire.Varint.{Bytes}
use install_singboxhysteria.Common.{
  ℕ, [], ◌∷◌, List, Bool, true, false, ◌++◌, ◌≡◌, refl, sym, ◌∙◌, ap, subst, length, take, drop,
  leb, ◌≤◌, ◌<◌, arith, leb→le, length-append, ◌/◌, if◌then◌else◌, ◌%◌,
}

-- The bytes that arrive, when nothing but bytes arrives.
abbrev pub arriving : List Arrival → Bytes
arriving [] = []
arriving (data_read first more ∷ later) = first ∷ (more ++ arriving later)
arriving (a ∷ later) = arriving later

abbrev pub is_flowing : List Arrival → Bool
is_flowing [] = true
is_flowing (data_read first more ∷ later) = is_flowing later
is_flowing (idle_read ∷ later) = false
is_flowing (socket_error ∷ later) = false

-- What the stream still holds, in order.
abbrev pub pending_bytes : Stream → Bytes
pending_bytes st = st.buffer ++ (st.raw ++ arriving st.arrivals)

-- A read got a value and leaves the rest.
pub record Reads {A : Type 0} (o : Outcome A × Stream) (a : A) (rest : Bytes) : Type 0 where
  pub value : o.0 ≡ got a
  pub left : pending_bytes o.1 ≡ rest
  pub flows : is_flowing o.1.arrivals ≡ true

append_assoc : (xs ys zs : Bytes) → (xs ++ ys) ++ zs ≡ xs ++ (ys ++ zs)
append_assoc [] ys zs = refl
append_assoc (x ∷ xs) ys zs = ap (λ l. x ∷ l) (append_assoc xs ys zs)

-- Where the buffer is long enough, it begins with what is read.
take-prefix :
    (xs : Bytes) (buffer tail rest : Bytes)
    → length xs ≤ length buffer
    → buffer ++ tail ≡ xs ++ rest
    → (take (length xs) buffer ≡ xs) × (drop (length xs) buffer ++ tail ≡ rest)
take-prefix [] buffer tail rest h e = (refl, e)
take-prefix (x ∷ xs) [] tail rest h e = absurd (omega (arith, h))
take-prefix (x ∷ xs) (b ∷ buffer) tail rest h e =
    let heads : b ≡ x = cc in
    let tails : buffer ++ tail ≡ xs ++ rest = cc in
    let more = take-prefix xs buffer tail rest (omega (arith, h)) tails in
    (rw (heads) (ap (λ l. x ∷ l) more.0), more.1)

Reads-if :
    {A : Type 0} (b : Bool) (x y : Outcome A × Stream) (a : A) (rest : Bytes)
    → (b ≡ true → Reads x a rest)
    → (b ≡ false → Reads y a rest)
    → Reads (if b then x else y) a rest
Reads-if true x y a rest f g = f refl
Reads-if false x y a rest f g = g refl

taken-Reads :
    (xs : Bytes) (st : Stream) (rest : Bytes)
    → leb (length xs) (length st.buffer) ≡ true
    → is_flowing st.arrivals ≡ true
    → pending_bytes st ≡ xs ++ rest
    → Reads (taken (length xs) st) xs rest
taken-Reads xs st rest h f e =
    let parts =
      take-prefix xs st.buffer (st.raw ++ arriving st.arrivals) rest
        (leb→le (length xs) (length st.buffer) h) e in
    record { value = ap got parts.0; left = parts.1; flows = f }

-- The end comes only after what is read.
too_short :
    (xs buffer rest : Bytes)
    → leb (length xs) (length buffer) ≡ false
    → buffer ++ [] ≡ xs ++ rest
    → ⊥
too_short xs buffer rest h e =
    let sizes = ap (λ (l : Bytes). length l) e in
    ground (arith, h, sizes, length-append buffer [], length-append xs rest)

read_loop-Reads :
    (xs buffer : Bytes) (later : List Arrival) (rest : Bytes)
    → is_flowing later ≡ true
    → buffer ++ arriving later ≡ xs ++ rest
    → Reads (read_loop (length xs) buffer later) xs rest
unfolding read_loop
read_loop-Reads xs buffer [] rest f e =
    let st : Stream = record { raw = []; buffer = buffer; arrivals = [] } in
    Reads-if (leb (length xs) (length buffer)) (taken (length xs) st) (at_end buffer, st) xs rest
      (λ h. taken-Reads xs st rest h refl e) (λ h. absurd (too_short xs buffer rest h e))
read_loop-Reads xs buffer (data_read b bs ∷ later) rest f e =
    let st : Stream = record { raw = []; buffer = buffer; arrivals = data_read b bs ∷ later } in
    Reads-if (leb (length xs) (length buffer)) (taken (length xs) st)
      (read_loop (length xs) (buffer ++ (b ∷ bs)) later) xs rest (λ h. taken-Reads xs st rest h f e)
      (λ h.
        read_loop-Reads xs (buffer ++ (b ∷ bs)) later rest f
          (append_assoc buffer (b ∷ bs) (arriving later) ∙ e))
read_loop-Reads xs buffer (idle_read ∷ later) rest f e = cc
read_loop-Reads xs buffer (socket_error ∷ later) rest f e = cc

read_exact-Reads :
    (xs : Bytes) (st : Stream) (rest : Bytes)
    → is_flowing st.arrivals ≡ true
    → pending_bytes st ≡ xs ++ rest
    → Reads (read_exact (length xs) st) xs rest
unfolding read_exact
read_exact-Reads xs st rest f e =
    Reads-if (leb (length xs) (length st.buffer)) (taken (length xs) st)
      (read_loop (length xs) (st.buffer ++ st.raw) st.arrivals) xs rest
      (λ h. taken-Reads xs st rest h f e)
      (λ h.
        read_loop-Reads xs (st.buffer ++ st.raw) st.arrivals rest f
          (append_assoc st.buffer st.raw (arriving st.arrivals) ∙ e))

read_payload-Reads :
    (flags : ℕ) (payload : Bytes) (st : Stream) (rest : Bytes)
    → is_flowing st.arrivals ≡ true
    → pending_bytes st ≡ payload ++ rest
    → Reads (read_payload flags (length payload) st) (flags, payload) rest
unfolding read_payload
read_payload-Reads flags [] st rest f e = record { value = refl; left = e; flows = f }
read_payload-Reads flags (b ∷ bs) st rest f e =
    let r = read_exact-Reads (b ∷ bs) st rest f e in
    record { value = rw (read_payload, r.value) refl; left = r.left; flows = r.flows }

after_header-Reads :
    (flags : ℕ) (payload rest : Bytes) (o : Outcome Bytes × Stream)
    → length payload < 4294967296
    → Reads o (flags ∷ to_bytes (length payload)) (payload ++ rest)
    → Reads (after_header o.0 o.1) (flags, payload) rest
after_header-Reads flags payload rest o h r =
    let n = length payload in
    let same : from_bytes (n / 16777216) (n / 65536 % 256) (n / 256 % 256) (n % 256) ≡ n =
      omega (arith, h) in
    subst (λ x. Reads (after_header x o.1) (flags, payload) rest) (sym r.value)
      (subst (λ k. Reads (read_payload flags k o.1) (flags, payload) rest) (sym same)
        (read_payload-Reads flags payload o.1 rest r.flows r.left))

-- On a stream from which only bytes arrive, however they are split between the buffer and the reads, what
-- begins with an envelope of less than four gigabytes is read as that message with its flags, and exactly
-- what follows it is left.
pub read_frame-framed :
    (flags : ℕ) (payload rest : Bytes) (st : Stream)
    → length payload < 4294967296
    → is_flowing st.arrivals ≡ true
    → pending_bytes st ≡ framed flags payload ++ rest
    → ((read_frame st).0 ≡ got (flags, payload))
      × (pending_bytes (read_frame st).1 ≡ rest)
      × (is_flowing (read_frame st).1.arrivals ≡ true)
unfolding read_frame framed
read_frame-framed flags payload rest st h f e =
    let r =
      after_header-Reads flags payload rest (read_exact 5 st) h
        (read_exact-Reads (flags ∷ to_bytes (length payload)) st (payload ++ rest) f e) in
    (r.value, r.left, r.flows)
