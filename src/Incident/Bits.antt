-- ===== src/Incident/Bits.antt =====
-- monitor-v2/web/incident_classifier.py: the bitsets that a verdict is stored as.
use install_singboxhysteria.Common.{
  ℕ, [], ◌∷◌, none, some, if◌then◌else◌, List, Option, ◌/◌, map, leb, ◌^◌, ◌%◌, filter, ◌==◌, ◌+◌,
}
use install_singboxhysteria.Incident.Vocabulary.{
  Evidence, Unknown, evidence_index, unknown_index, evidence_order, unknown_order,
}

-- `_tokens_to_bits`, on positions: `bits |= 1 << position`.
unfoldable pub or_bit : ℕ → ℕ → ℕ
or_bit bits p = if bits / 2 ^ p % 2 == 1 then bits else bits + 2 ^ p

unfoldable pub bits_from : ℕ → List ℕ → ℕ
unfolding or_bit
bits_from bits [] = bits
bits_from bits (p ∷ ps) = bits_from (or_bit bits p) ps

unfoldable pub evidence_to_bits : List Evidence → ℕ
unfolding bits_from
evidence_to_bits ts = bits_from 0 (map evidence_index ts)

unfoldable pub unknown_to_bits : List Unknown → ℕ
unfolding bits_from
unknown_to_bits ts = bits_from 0 (map unknown_index ts)

-- `_bits_to_tokens`.
unfoldable pub bits_to_evidence : ℕ → Option (List Evidence)
bits_to_evidence value =
    if leb (2 ^ 45) value
    then none
    else some (filter (λ (t : Evidence). value / 2 ^ evidence_index t % 2 == 1) evidence_order)

unfoldable pub bits_to_unknown : ℕ → Option (List Unknown)
bits_to_unknown value =
    if leb (2 ^ 28) value
    then none
    else some (filter (λ (t : Unknown). value / 2 ^ unknown_index t % 2 == 1) unknown_order)
