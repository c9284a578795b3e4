-- ===== src/Wire/Events/Batches.antt =====
-- Requests and event batches: what the decoders make of encoded messages.
use install_singboxhysteria.Wire.Message.RoundTrip.{
  WireField, collect, payload_field, field_number, field_raw, AllFit, encode_fields, varint_field,
  decode_message-encode_fields, decode_message-varint_field,
}
use install_singboxhysteria.Wire.Message.{
  Slot, append_slot, Decoded, store, bytes_value, Spec, Values, encode_varint_field, get_value,
  bool_value,
}
use install_singboxhysteria.Wire.Varint.{
  WireError, Result, Bytes, ℤ, to_signed64, ok, ◌>>=◌, err, negative_varint,
}
use install_singboxhysteria.Wire.Events.{
  Event, decode_connection_event, listed, pos, encode_subscribe_connections_request, Decoded,
  negsuc, bytes_value, single, ok, several, decode_subscribe_connections_request,
  connection_events_spec, Spec, decode_connection_events, err, Values, decode_events,
  negative_varint, encode_varint_field, interval_spec, get_value, bool_value, number_or_zero, truth,
}
use mathlib.Core.List.{append_assoc, append-nil}
use install_singboxhysteria.Common.{
  inl, inr, ◌⊎◌, ℕ, map, [], ◌∷◌, some, true, false, refl, ◌≡◌, arith, List, ◌<◌, ◌++◌, ◌^◌, sym,
  ◌-◌, ◌∙◌, ap, length, Bool, if◌then◌else◌,
}

-- The two's complement encoding of a signed value.
pub from_signed64 : ℤ → ℕ
from_signed64 (pos n) = n
from_signed64 (negsuc n) = 2 ^ 64 - 1 - n

-- A varint that carries the two's complement of an int64 decodes to this int64, negative ones too.
pub to_signed64-from_signed64_pos :
    (n : ℕ) → n < 2 ^ 63 → to_signed64 (from_signed64 (pos n)) ≡ pos n
unfolding to_signed64 from_signed64
to_signed64-from_signed64_pos n h = ground arith

pub to_signed64-from_signed64_negsuc :
    (n : ℕ) → n < 2 ^ 63 → to_signed64 (from_signed64 (negsuc n)) ≡ negsuc n
unfolding to_signed64 from_signed64
to_signed64-from_signed64_negsuc n h = ground arith

module _ {Text : Type 0} (utf8 : Bytes → Text) where
  -- A subscription request carries its interval, for every interval of an int64 that is not
  -- negative, and a negative interval is refused.
  pub decode-encode_subscribe :
      ((n : ℕ)
        → n < 2 ^ 63
        → (encode_subscribe_connections_request (pos n)
            >>= decode_subscribe_connections_request utf8)
          ≡ ok (pos n))
      × ((n : ℕ) → encode_subscribe_connections_request (negsuc n) ≡ err negative_varint)
  unfolding encode_subscribe_connections_request
  decode-encode_subscribe = (carries, λ n. refl)
    where
      carries :
          (n : ℕ)
          → n < 2 ^ 63
          → decode_subscribe_connections_request utf8 (encode_varint_field 1 n) ≡ ok (pos n)
      carries n h =
          unfold decode_subscribe_connections_request in
          rw (decode_message-varint_field utf8 interval_spec 1 n (omega arith) (omega arith)) (
            unfold get_value store number_or_zero in
            ap ok (unfold from_signed64 in to_signed64-from_signed64_pos n h))

abbrev payloads : List Bytes → List WireField
payloads raws = map (λ (b : Bytes). payload_field 1 b) raws

module _ {Text : Type 0} where
  push : Slot Text → List Bytes → Slot Text
  push s [] = s
  push s (b ∷ bs) = push (append_slot s (bytes_value b)) bs

  abbrev messages : List Bytes → List (Decoded Text)
  messages raws = map (λ (b : Bytes). bytes_value b) raws

  listed-append_slot :
      (s : Slot Text) (d : Decoded Text)
      → listed (some (append_slot s d)) ≡ listed (some s) ++ d ∷ []
  unfolding listed
  listed-append_slot (single v) d = refl
  listed-append_slot (several vs) d = refl

  listed-push :
      (s : Slot Text) (raws : List Bytes)
      → listed (some (push s raws)) ≡ listed (some s) ++ messages raws
  unfolding push
  listed-push s [] = sym (append-nil (listed (some s)))
  listed-push s (b ∷ bs) =
      listed-push (append_slot s (bytes_value b)) bs
      ∙ ap (λ (l : List (Decoded Text)). l ++ messages bs) (listed-append_slot s (bytes_value b))
      ∙ append_assoc (listed (some s)) (bytes_value b ∷ []) (messages bs)

module _ {Text : Type 0} (utf8 : Bytes → Text) where
  collect-payloads :
      (s : Slot Text) (raws : List Bytes)
      → collect utf8 connection_events_spec (("events", s) ∷ []) (payloads raws)
        ≡ ("events", push s raws) ∷ []
  unfolding collect store push field_number field_raw
  collect-payloads s [] = refl
  collect-payloads s (b ∷ bs) = collect-payloads (append_slot s (bytes_value b)) bs

  collect-append :
      (spec : Spec) (values : Values Text) (fs gs : List WireField)
      → collect utf8 spec values (fs ++ gs) ≡ collect utf8 spec (collect utf8 spec values fs) gs
  unfolding collect
  collect-append spec values [] gs = refl
  collect-append spec values (f ∷ fs) gs =
      collect-append spec (store utf8 spec (field_number f) (field_raw f) values) fs gs

abbrev AllShort : List Bytes → Type 0
AllShort [] = Unit {0}
AllShort (b ∷ bs) = (length b < 2 ^ 77) × AllShort bs

-- A batch as the service sends it: the events in order, and the reset flag behind them.
pub batch_bytes : List Bytes → Bool → Bytes
batch_bytes raws reset =
    encode_fields (payloads raws ++ varint_field 2 (if reset then 1 else 0) ∷ [])

AllFit-payloads :
    (raws : List Bytes) (v : ℕ)
    → v < 2 ^ 77
    → AllShort raws
    → AllFit (payloads raws ++ varint_field 2 v ∷ [])
AllFit-payloads [] v h k = omega arith
AllFit-payloads (b ∷ bs) v h k = ((omega arith, k.0), AllFit-payloads bs v h k.1)

Result-cases :
    {A : Type 0} (r : Result A) → ((a : A) × (r ≡ ok a)) ⊎ ((why : WireError) × (r ≡ err why))
Result-cases (ok a) = inl (a, refl)
Result-cases (err why) = inr (why, refl)

module _ {Text : Type 0} (utf8 : Bytes → Text) where
  batch_values : List Bytes → Bool → Values Text
  batch_values raws reset =
      collect utf8 connection_events_spec []
        (payloads raws ++ varint_field 2 (if reset then 1 else 0) ∷ [])

  -- The fields behind the reset flag, when `s` holds the events.
  batch_values-cons :
      (b : Bytes) (bs : List Bytes) (reset : Bool)
      → batch_values (b ∷ bs) reset
        ≡ ("events", push (single (bytes_value b)) bs) ∷ ("reset", single (bool_value reset)) ∷ []
  unfolding batch_values collect store field_number field_raw to_signed64
  batch_values-cons b bs true =
      collect-append utf8 connection_events_spec [] (payloads (b ∷ bs)) (varint_field 2 1 ∷ [])
      ∙ ap (λ (vs : Values Text). collect utf8 connection_events_spec vs (varint_field 2 1 ∷ []))
          (collect-payloads utf8 (single (bytes_value b)) bs)
  batch_values-cons b bs false =
      collect-append utf8 connection_events_spec [] (payloads (b ∷ bs)) (varint_field 2 0 ∷ [])
      ∙ ap (λ (vs : Values Text). collect utf8 connection_events_spec vs (varint_field 2 0 ∷ []))
          (collect-payloads utf8 (single (bytes_value b)) bs)

  batch_values-read :
      (raws : List Bytes) (reset : Bool)
      → (listed (get_value "events" (batch_values raws reset)) ≡ messages raws)
        × (truth (get_value "reset" (batch_values raws reset)) ≡ reset)
  unfolding listed truth get_value
  batch_values-read [] true =
      unfold batch_values collect store field_number field_raw to_signed64 in (refl, refl)
  batch_values-read [] false =
      unfold batch_values collect store field_number field_raw to_signed64 in (refl, refl)
  batch_values-read (b ∷ bs) reset =
      rw (batch_values-cons b bs reset) (listed-push (single (bytes_value b)) bs, refl)

  decode_batch :
      (raws : List Bytes) (reset : Bool)
      → AllShort raws
      → decode_connection_events utf8 (batch_bytes raws reset)
        ≡ (decode_events utf8 (messages raws) >>= λ es. ok (record { reset = reset; events = es }))
  unfolding decode_connection_events batch_bytes
  decode_batch raws reset h =
      rw
        (decode_message-encode_fields utf8 connection_events_spec
          (payloads raws ++ varint_field 2 (if reset then 1 else 0) ∷ [])
          (AllFit-payloads raws (if reset then 1 else 0) (ground arith) h))
        (unfold batch_values in
          rw ((batch_values-read raws reset).0, (batch_values-read raws reset).1))

  -- Each message of the list is decoded to the event at its place.
  pub EachDecodes : List Bytes → List (Event Text) → Type 0
  EachDecodes [] [] = Unit {0}
  EachDecodes (b ∷ bs) (e ∷ es) = (decode_connection_event utf8 b ≡ ok e) × EachDecodes bs es
  EachDecodes _ _ = ⊥

  -- The first message of the list that is not decoded is refused with `why`.
  pub FirstRefused : List Bytes → WireError → Type 0
  FirstRefused [] why = ⊥
  FirstRefused (b ∷ bs) why =
      (decode_connection_event utf8 b ≡ err why)
      ⊎ ((e : Event Text) × ((decode_connection_event utf8 b ≡ ok e) × FirstRefused bs why))

  -- What becomes of the events of a batch, `make` of them being the result.
  abbrev pub Decodes : {A : Type 0} → (List (Event Text) → A) → List Bytes → Result A → Type 0
  Decodes make raws r =
      ((es : List (Event Text)) × ((r ≡ ok (make es)) × EachDecodes raws es))
      ⊎ ((why : WireError) × ((r ≡ err why) × FirstRefused raws why))

  decode_events-Decodes :
      (raws : List Bytes) → Decodes (λ es. es) raws (decode_events utf8 (messages raws))
  unfolding decode_events EachDecodes FirstRefused
  decode_events-Decodes [] = inl ([], (refl, tt))
  decode_events-Decodes (b ∷ bs) = elim (Result-cases (decode_connection_event utf8 b)) [
    | inr (why, e) ↦ inr (why, (rw (e) refl, inl e))
    | inl (event, e) ↦ elim (decode_events-Decodes bs) [
      | inl (es, (h, k)) ↦ inl (event ∷ es, (rw (e, h) refl, (e, k)))
      | inr (why, (h, k)) ↦ inr (why, (rw (e, h) refl, inr (event, (e, k))))
    ]
  ]

  -- A batch of events shorter than 2^77 bytes is decoded to its reset flag and to the decodings of all its
  -- events, each at its place, or the first of its events that cannot be decoded refuses it, with the error of
  -- that event.
  pub decode_connection_events-batch :
      (raws : List Bytes) (reset : Bool)
      → AllShort raws
      → Decodes
          (λ es. record { reset = reset; events = es })
          raws
          (decode_connection_events utf8 (batch_bytes raws reset))
  decode_connection_events-batch raws reset h = elim (decode_events-Decodes raws) [
    | inl (es, (e, k)) ↦ inl (es, (decode_batch raws reset h ∙ rw (e) refl, k))
    | inr (why, (e, k)) ↦ inr (why, (decode_batch raws reset h ∙ rw (e) refl, k))
  ]
