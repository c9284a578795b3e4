-- ===== src/Incident/Anomaly.antt =====
-- monitor-v2/web/incident_classifier.py: `_baseline`, `_bucket_anomaly`, `_observations`, `_clusters`
-- and `_collect`. A set is a list, in which an item may stand twice.
use install_singboxhysteria.Incident.Vocabulary.{
  proto_reality, proto_hysteria2, proto_other, class_token, audit_token, ev_journal_continuity_gap,
  ev_journal_rejected_batch, ev_egress_ip_changed, ev_history_degraded, ev_probe_source_unavailable,
}
use install_singboxhysteria.Incident.Stats.{
  SampleStats, sample_stats, Count, Mean, Key, mean_of_means, threshold_twice, count_reality,
  count_hysteria2, key_count, probe_marks, tally, same_pair, all_quiet, all_counts, key_of,
  is_fault, pairs_of, count_total, count_other, Pair,
}
use install_singboxhysteria.Common.{
  ℕ, [], ◌∷◌, true, false, List, Bool, max, filter, leb, ◌/◌, ◌&&◌, if◌then◌else◌, any, not, ◌||◌,
  range_from, ◌==◌, map, ◌++◌, ◌*◌, ltb, ◌+◌, length, ◌-◌,
}
use install_singboxhysteria.Incident.Vocabulary.{
  Evidence, Unknown, ev_probe_failed_dns, Dcls, ev_journal_burst_reality, ev_count_drop_total,
  ev_probe_failed_https, ev_journal_burst_hysteria2, dcls_index, dcls_https443,
  ev_count_drop_reality, ev_probe_failed_udp, ev_journal_burst_other_generic, ev_all_devices_quiet,
  un_device_states_are_change_only, dcls_http80, ev_sample_coverage_gap, un_probe_evidence_unusable,
  ev_count_drop_hysteria2, ev_probe_failed_egress, ev_journal_burst_destination, dcls_none,
  ev_api_stale, un_baseline_evidence_absent, ev_count_drop_other, ev_journal_burst_unattributed,
  ev_collector_stale, un_probe_evidence_absent,
}
use install_singboxhysteria.Incident.Bundle.{
  Bundle, Slot, ProbeRow, bucket_of, JournalRow, slot_udp, Sample, min_samples_per_bucket,
  min_baseline_buckets, all_slots, slot_dns, DeviceRow, slot_https, slot_egress, AuditRow,
}

-- The views of a bundle by bucket.
pub record View : Type 0 where
  pub buckets : ℕ
  pub samples : ℕ → SampleStats
  pub quiet : ℕ → Bool
  pub probes : ℕ → List ProbeRow
  pub journal : ℕ → List JournalRow

unfoldable pub view_of : Bundle → ℕ → ℕ → View
view_of b start buckets = record {
  buckets = buckets;
  samples = λ i. sample_stats (bucket_of (λ (r : Sample). r.epoch) start i b.samples);
  quiet = λ i.
      all_quiet (pairs_of b.device_rows)
        (bucket_of (λ (r : DeviceRow). r.epoch) start i b.device_rows);
  probes = λ i. bucket_of (λ (r : ProbeRow). r.epoch) start i b.probe_rows;
  journal = λ i. bucket_of (λ (r : JournalRow). r.ts) start i b.journal_rows;
}

-- The reference buckets with enough samples.
abbrev pub sampled_baseline : View → List ℕ
sampled_baseline v =
    filter (λ (i : ℕ). leb min_samples_per_bucket (v.samples i).rows)
      (range_from 0 min_baseline_buckets)

-- `reference["usable"]`.
abbrev pub is_usable : View → Bool
is_usable v = leb min_baseline_buckets (length (sampled_baseline v))

-- `reference["means"][name]`, of which the source has None only where nothing is usable.
pub base_mean : View → Count → Mean
base_mean v name = mean_of_means (map (λ (i : ℕ). (v.samples i).mean name) (sampled_baseline v))

-- Twice `reference["thresholds"][key]`.
pub burst_threshold : View → Key → ℕ
burst_threshold v k =
    threshold_twice (map (λ (i : ℕ). key_count k (v.journal i)) (range_from 0 min_baseline_buckets))

-- `base >= 5.0`, `base - value >= 3.0` and `value <= base * 0.5`, on fractions.
pub is_drop : Mean → Mean → Bool
is_drop base value =
    leb (5 * base.den) base.num
    && leb ((value.num + 3 * value.den) * base.den) (base.num * value.den)
    && leb (2 * (value.num * base.den)) (base.num * value.den)

pub record Marks : Type 0 where
  pub connections : List Count
  pub device : Bool
  pub bursts : List Key
  pub failed : List Slot
  pub process : List Evidence

abbrev pub is_empty {ℓ} : {A : Type ℓ} → List A → Bool
is_empty [] = true
is_empty (x ∷ xs) = false

abbrev pub token_if : Bool → Evidence → List Evidence
token_if true t = t ∷ []
token_if false t = []

abbrev pub unknown_if : Bool → Unknown → List Unknown
unknown_if true t = t ∷ []
unknown_if false t = []

-- `max(1, int(rows * 0.5))`.
abbrev pub stale_floor : ℕ → ℕ
stale_floor rows = max 1 (rows / 2)

pub process_marks : Bool → SampleStats → List Evidence
process_marks window_has_samples s =
    token_if (window_has_samples && ltb s.rows min_samples_per_bucket) ev_sample_coverage_gap
    ++ (token_if (not (s.rows == 0) && leb (stale_floor s.rows) s.stale) ev_api_stale
        ++ token_if (not (s.rows == 0) && leb (stale_floor s.rows) s.collector_stale)
            ev_collector_stale)

pub connection_marks : View → SampleStats → List Count
unfolding is_drop base_mean
connection_marks v s =
    if is_usable v && leb min_samples_per_bucket s.rows
    then filter (λ (name : Count). is_drop (base_mean v name) (s.mean name)) all_counts
    else []

pub burst_marks : View → List JournalRow → List Key
unfolding burst_threshold
burst_marks v rows =
    filter (λ (k : Key). leb (burst_threshold v k) (2 * key_count k rows)) (map key_of rows)

-- Whether the slot's fault is marked in the bucket.
pub slot_failed : View → Slot → ℕ → Bool
slot_failed v slot i =
    any (λ (j : ℕ). j == i) (probe_marks (λ (j : ℕ). is_fault (tally slot (v.probes j))) v.buckets)

pub marks_of : View → Bool → ℕ → Marks
unfolding process_marks connection_marks burst_marks slot_failed
marks_of v window_has_samples i = record {
  connections = connection_marks v (v.samples i);
  device = v.quiet i;
  bursts = burst_marks v (v.journal i);
  failed = filter (λ (slot : Slot). slot_failed v slot i) all_slots;
  process = process_marks window_has_samples (v.samples i);
}

-- The families other than `connections`, which may corroborate.
abbrev pub corroborates : Marks → Bool
corroborates m = not (is_empty m.process) || not (is_empty m.bursts) || not (is_empty m.failed)

-- `_bucket_anomaly` is not None.
abbrev pub is_anomalous : Marks → Bool
is_anomalous m = corroborates m || not (is_empty m.connections) || m.device

pub record Candidate : Type 0 where
  pub index : ℕ
  pub marks : Marks

unfoldable pub candidates_from : View → Bool → List ℕ → List Candidate
unfolding marks_of
candidates_from v w [] = []
candidates_from v w (i ∷ is) =
    let m = marks_of v w i in
    let rest = candidates_from v w is in
    elim (is_anomalous m) [ true ↦ record { index = i; marks = m } ∷ rest | false ↦ rest ]

-- The loop over `range(MIN_BASELINE_BUCKETS, buckets)`.
unfoldable pub candidates : View → Bool → List Candidate
unfolding candidates_from
candidates v w =
    candidates_from v w (range_from min_baseline_buckets (v.buckets - min_baseline_buckets))

-- `_clusters` of indices in order: an index joins the run whose last index is right below it.
pub clusters_loop : List ℕ → ℕ → List ℕ → List (List ℕ)
clusters_loop run last [] = run ∷ []
clusters_loop run last (i ∷ is) = elim (i == last + 1) [
  | true ↦ clusters_loop (run ++ i ∷ []) i is
  | false ↦ run ∷ clusters_loop (i ∷ []) i is
]

pub clusters : List ℕ → List (List ℕ)
unfolding clusters_loop
clusters [] = []
clusters (i ∷ is) = clusters_loop (i ∷ []) i is

-- `_observations`: what is seen and what is unknown whatever the verdict.
pub seen_first : Bundle → View → List Evidence
seen_first b v =
    let window = range_from 0 v.buckets in
    map (λ (r : JournalRow). class_token r.cls) b.journal_rows
    ++ (map (λ (r : AuditRow). audit_token r.code) b.audit_rows
        ++ (token_if (any (λ (r : AuditRow). r.is_gap) b.audit_rows) ev_journal_continuity_gap
            ++ (token_if (any (λ (r : AuditRow). not r.is_gap) b.audit_rows)
                  ev_journal_rejected_batch
                ++ (token_if (any (λ (i : ℕ). not ((v.samples i).stale == 0)) window) ev_api_stale
                    ++ (token_if (any (λ (r : ProbeRow). r.egress_changed) b.probe_rows)
                          ev_egress_ip_changed
                        ++ (token_if b.degraded ev_history_degraded
                            ++ token_if
                                (any
                                  (λ (slot : Slot).
                                    any
                                      (λ (i : ℕ).
                                        not ((tally slot (v.probes i)).unusable_count == 0))
                                      window)
                                  all_slots)
                                ev_probe_source_unavailable))))))

pub has_samples : View → Bool
has_samples v = any (λ (i : ℕ). not ((v.samples i).rows == 0)) (range_from 0 v.buckets)

pub unknown_first : Bundle → View → List Unknown
unfolding has_samples
unknown_first b v =
    let window = range_from 0 v.buckets in
    unknown_if
      (any
        (λ (slot : Slot).
          any (λ (i : ℕ). not ((tally slot (v.probes i)).unusable_count == 0)) window)
        all_slots)
      un_probe_evidence_unusable
    ++ (unknown_if (not (has_samples v)) un_baseline_evidence_absent
        ++ unknown_if (is_empty b.probe_rows) un_probe_evidence_absent)

abbrev pub drop_token : Count → Evidence
drop_token count_total = ev_count_drop_total
drop_token count_reality = ev_count_drop_reality
drop_token count_hysteria2 = ev_count_drop_hysteria2
drop_token count_other = ev_count_drop_other

abbrev pub failed_token : Slot → Evidence
failed_token slot_dns = ev_probe_failed_dns
failed_token slot_https = ev_probe_failed_https
failed_token slot_udp = ev_probe_failed_udp
failed_token slot_egress = ev_probe_failed_egress

-- Where a burst's key is placed by `_collect`.
pub data Place : Type 0 where
  place_reality place_hysteria2 place_generic place_destination place_unattributed : Place

abbrev pub place_dcls : Dcls → Place
place_dcls dcls_https443 = place_generic
place_dcls dcls_http80 = place_generic
place_dcls dcls_none = place_unattributed
place_dcls _ = place_destination

abbrev pub place_of : Key → Place
place_of k = elim k.key_proto [
  | proto_reality ↦ place_reality
  | proto_hysteria2 ↦ place_hysteria2
  | proto_other ↦ place_dcls k.key_dcls
]

abbrev pub place_index : Place → ℕ
place_index place_reality = 0
place_index place_hysteria2 = 1
place_index place_generic = 2
place_index place_destination = 3
place_index place_unattributed = 4

abbrev pub burst_token : Place → Evidence
burst_token place_reality = ev_journal_burst_reality
burst_token place_hysteria2 = ev_journal_burst_hysteria2
burst_token place_generic = ev_journal_burst_other_generic
burst_token place_destination = ev_journal_burst_destination
burst_token place_unattributed = ev_journal_burst_unattributed

pub collected : Marks → List Evidence
collected m =
    map drop_token m.connections
    ++ (token_if m.device ev_all_devices_quiet
        ++ (m.process
            ++ (map failed_token m.failed ++ map (λ (k : Key). burst_token (place_of k)) m.bursts)))

pub collect_seen : List Candidate → List Evidence
unfolding collected
collect_seen [] = []
collect_seen (c ∷ cs) = collected c.marks ++ collect_seen cs

pub collect_unknown : List Candidate → List Unknown
collect_unknown cs =
    unknown_if (any (λ (c : Candidate). c.marks.device) cs) un_device_states_are_change_only

abbrev pub is_placed : Place → Marks → Bool
is_placed p m = any (λ (k : Key). place_index (place_of k) == place_index p) m.bursts

abbrev pub is_generic_slot : Slot → Bool
is_generic_slot slot_udp = false
is_generic_slot _ = true

abbrev pub is_reality_count : Count → Bool
is_reality_count count_reality = true
is_reality_count _ = false

abbrev pub is_hysteria2_count : Count → Bool
is_hysteria2_count count_hysteria2 = true
is_hysteria2_count _ = false

-- The distinct `(dcls, port)` of the destination bursts.
pub destinations : List Key → List (ℕ × ℕ)
destinations [] = []
destinations (k ∷ ks) =
    let rest = destinations ks in
    let d : Pair = (dcls_index k.key_dcls, k.key_port) in
    if not (place_index (place_of k) == 3) || any (same_pair d) rest then rest else d ∷ rest

-- The attribution facts that `_collect` returns.
pub record Flags : Type 0 where
  pub reality : Bool
  pub hy2 : Bool
  pub generic_journal : Bool
  pub generic_probe : Bool
  pub process_fault : Bool
  pub unattributed : Bool
  pub reality_impact : Bool
  pub hy2_impact : Bool
  pub destination : List (ℕ × ℕ)

pub flags_of : List Candidate → Flags
unfolding destinations
flags_of cs = record {
  reality = any (λ (c : Candidate). is_placed place_reality c.marks) cs;
  hy2 = any (λ (c : Candidate). is_placed place_hysteria2 c.marks) cs;
  generic_journal = any (λ (c : Candidate). is_placed place_generic c.marks) cs;
  generic_probe = any (λ (c : Candidate). any is_generic_slot c.marks.failed) cs;
  process_fault = any (λ (c : Candidate). not (is_empty c.marks.process)) cs;
  unattributed = any (λ (c : Candidate). is_placed place_unattributed c.marks) cs;
  reality_impact = any (λ (c : Candidate). any is_reality_count c.marks.connections) cs;
  hy2_impact = any (λ (c : Candidate). any is_hysteria2_count c.marks.connections) cs;
  destination = destinations (all_bursts cs);
}
  where
    all_bursts : List Candidate → List Key
    all_bursts [] = []
    all_bursts (c ∷ cs) = c.marks.bursts ++ all_bursts cs
