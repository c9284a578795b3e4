-- ===== src/Incident/Verdict.antt =====
-- monitor-v2/web/incident_classifier.py: `_attribute`, `_guarded` and `_seal`.
pub mod Sound
use install_singboxhysteria.Incident.Anomaly.{Flags, unknown_if, is_empty}
use install_singboxhysteria.Common.{
  ℕ, [], ◌∷◌, true, false, List, Bool, Option, if◌then◌else◌, filter, ◌++◌, ◌&&◌, ◌||◌, ltb, not,
  any, ◌==◌, length, none, some, zero, suc, inl, inr, refl, ◌≡◌, arith,
}
use install_singboxhysteria.Incident.Vocabulary.{
  Evidence, Unknown, un_root_cause_not_established, un_attribution_ambiguous,
  un_unattributed_evidence_present, un_probe_endpoint_confounded, un_no_target_specific_proof,
  un_process_and_network_evidence_conflict, evidence_index, unknown_index, evidence_order,
  unknown_order, un_transport_negatives_unproven, un_contemporaneous_negatives_unproven,
  un_multiple_destinations, un_probe_evidence_absent,
}

pub data Status : Type 0 where
  incident no_incident indeterminate : Status

pub data Category : Type 0 where
  vps_process_or_api vps_outbound reality_tcp_path hysteria2_udp_path : Category
  common_inbound_client_office destination_specific insufficient_evidence category_none : Category

pub record Classification : Type 0 where
  pub status : Status
  pub category : Category
  pub window_start : ℕ
  pub window_end : ℕ
  pub buckets : ℕ
  pub evidence : List Evidence
  pub unknowns : List Unknown

pub record Detection : Type 0 where
  pub classification : Classification
  pub indices : List ℕ
  pub first_signal : Option ℕ
  pub last_signal : Option ℕ

-- `category in EMITTABLE_CATEGORIES`.
abbrev pub is_emittable : Category → Bool
is_emittable destination_specific = false
is_emittable category_none = false
is_emittable _ = true

abbrev pub is_none_category : Category → Bool
is_none_category category_none = true
is_none_category _ = false

-- `pairing_valid` of `_seal`.
abbrev pub is_paired : Status → Category → Bool
is_paired no_incident c = is_none_category c
is_paired incident c = is_emittable c
is_paired indeterminate c = is_emittable c

-- `tuple(sorted(tokens))`: the tokens of the vocabulary's order that are in the set.
unfoldable pub sorted_evidence : List Evidence → List Evidence
sorted_evidence ts =
    filter (λ (t : Evidence). any (λ (u : Evidence). evidence_index u == evidence_index t) ts)
      evidence_order

unfoldable pub sorted_unknown : List Unknown → List Unknown
sorted_unknown ts =
    filter (λ (t : Unknown). any (λ (u : Unknown). unknown_index u == unknown_index t) ts)
      unknown_order

abbrev pub root_cause : Status → List Unknown
root_cause incident = un_root_cause_not_established ∷ []
root_cause _ = []

-- The window that a verdict names.
pub record Window : Type 0 where
  pub from : ℕ
  pub to : ℕ
  pub count : ℕ

-- `_seal`; that no other token can leave holds since tokens are constructors.
unfoldable pub seal : Status → Category → Window → List Evidence → List Unknown → Classification
seal status category w seen unknown =
    if is_paired status category
    then record {
      status = status;
      category = category;
      window_start = w.from;
      window_end = w.to;
      buckets = w.count;
      evidence = sorted_evidence seen;
      unknowns = sorted_unknown (root_cause status ++ unknown);
    }
    else record {
      status = indeterminate;
      category = insufficient_evidence;
      window_start = w.from;
      window_end = w.to;
      buckets = w.count;
      evidence = [];
      unknowns = un_attribution_ambiguous ∷ [];
    }

-- The category that `_attribute` names, with the unknowns that it adds.
abbrev pub Named : Type 0
Named = Category × List Unknown

-- `_guarded`.
unfoldable pub guarded : Category → Bool → Bool → Bool → Named
guarded category unattributed negatives_provable probe_seen =
    let loose = unknown_if unattributed un_unattributed_evidence_present in
    if not negatives_provable
    then (insufficient_evidence, un_transport_negatives_unproven ∷ loose)
    else (category, unknown_if (not probe_seen) un_probe_evidence_absent ++ loose)

-- What surrounds the flags in `_attribute`.
pub record Context : Type 0 where
  pub probe_seen : Bool
  pub negatives_provable : Bool
  pub generic_healthy : Bool
  pub api_is_healthy : Bool

-- From `if generic_journal or generic_probe` on.
unfoldable pub attribute_path : Flags → Context → Named
unfolding guarded
attribute_path f c =
    let shared = f.reality_impact && f.hy2_impact in
    let guard =
      λ (category : Category). guarded category f.unattributed c.negatives_provable c.probe_seen in
    if f.generic_journal || f.generic_probe
    then (if f.generic_probe
          && not f.generic_journal
          && not (f.reality || f.hy2 || f.reality_impact || f.hy2_impact)
        then (insufficient_evidence, un_probe_endpoint_confounded ∷ [])
        else (vps_outbound, []))
    else if shared || (f.reality && f.hy2)
    then (if not shared
        then (insufficient_evidence, un_attribution_ambiguous ∷ [])
        else if not (c.generic_healthy && c.api_is_healthy)
        then (insufficient_evidence, un_contemporaneous_negatives_unproven ∷ [])
        else guard common_inbound_client_office)
    else if f.reality && not f.hy2
    then guard reality_tcp_path
    else if f.hy2 && not f.reality
    then guard hysteria2_udp_path
    else (insufficient_evidence, un_attribution_ambiguous ∷ [])

abbrev pub add_unknowns : List Unknown → Named → Named
add_unknowns us (category, vs) = (category, us ++ vs)

-- From `if destination` on.
unfoldable pub attribute_destination : Flags → Context → Named
unfolding attribute_path
attribute_destination f c =
    let shared = f.reality_impact && f.hy2_impact in
    let named =
      un_no_target_specific_proof
      ∷ unknown_if (ltb 1 (length f.destination)) un_multiple_destinations in
    if is_empty f.destination
    then attribute_path f c
    else if not (f.reality || f.hy2 || f.generic_journal || f.generic_probe || shared)
    then (insufficient_evidence, named)
    else add_unknowns named (attribute_path f c)

abbrev pub has_network_fault : Flags → Bool
has_network_fault f =
    f.reality
    || f.hy2
    || f.generic_journal
    || f.generic_probe
    || not (is_empty f.destination)
    || (f.reality_impact && f.hy2_impact)

-- `_attribute`.
unfoldable pub attribute : Flags → Context → Named
unfolding attribute_destination
attribute f c =
    if f.process_fault && has_network_fault f
    then (insufficient_evidence, un_process_and_network_evidence_conflict ∷ [])
    else if f.process_fault
    then (vps_process_or_api, [])
    else attribute_destination f c
