-- ===== src/Incident/Detect.antt =====
-- monitor-v2/web/incident_classifier.py: `_analyse_with_meta`, `classify` and `detect`.
pub mod Closed
pub mod Sound
use install_singboxhysteria.Incident.Anomaly.{
  view_of, token_if, View, Candidate, is_empty, is_usable, seen_first, flags_of, unknown_first,
  unknown_if, collect_seen, collect_unknown, candidates, corroborates, has_samples, clusters,
}
use install_singboxhysteria.Incident.Accept.{refusals, echo_window}
use install_singboxhysteria.Incident.Verdict.{
  attribute, seal, Classification, Detection, Window, indeterminate, insufficient_evidence,
  no_incident, incident, category_none,
}
use install_singboxhysteria.Common.{
  ℕ, [], ◌∷◌, none, some, true, false, Bool, List, map, ◌+◌, if◌then◌else◌, ◌*◌, range_from, ◌-◌,
  ◌||◌, ◌/◌, ◌&&◌, not, ◌++◌, leb, any, ltb, length, zero, suc, inl, inr, refl, ◌≡◌, arith,
}
use install_singboxhysteria.Incident.Vocabulary.{
  Evidence, Unknown, un_journal_evidence_incomplete, un_journal_evidence_absent,
  ev_probe_generic_tcp_healthy, un_baseline_evidence_absent, ev_no_anomaly, un_count_drop_only,
  un_no_corroboration, un_multiple_anomaly_clusters,
}
use install_singboxhysteria.Incident.Bundle.{Bundle, bucket_span, min_baseline_buckets}
use install_singboxhysteria.Incident.Stats.{
  JournalView, view_complete, view_incomplete, view_absent, generic_tcp_healthy, journal_view,
  api_healthy,
}

abbrev pub is_complete : JournalView → Bool
is_complete view_complete = true
is_complete _ = false

abbrev pub journal_unknown : JournalView → List Unknown
journal_unknown view_complete = []
journal_unknown view_incomplete = un_journal_evidence_incomplete ∷ []
journal_unknown view_absent = un_journal_evidence_absent ∷ []

abbrev pub indices_of : List Candidate → List ℕ
indices_of cs = map (λ (c : Candidate). c.index) cs

-- `note_health`.
abbrev pub health_token : Bool → List Evidence
health_token healthy = token_if healthy ev_probe_generic_tcp_healthy

-- The verdict over one cluster.
unfoldable pub verdict_cluster :
    Bundle → View → Window → List Candidate → List Evidence → List Unknown → Classification
unfolding attribute
verdict_cluster b v w cs seen unknown =
    let indices = indices_of cs in
    let healthy = generic_tcp_healthy v.probes indices in
    let provable = is_complete (journal_view b.reader b.audit_rows) || healthy in
    let named = attribute (flags_of cs) (record {
      probe_seen = not (is_empty b.probe_rows);
      negatives_provable = provable;
      generic_healthy = healthy;
      api_is_healthy = api_healthy v.samples indices;
    }) in
    seal incident named.0 w (collect_seen cs ++ (health_token healthy ++ seen))
      (named.1 ++ (collect_unknown cs ++ unknown))

-- The verdict over the candidates, with their indices where there is an incident.
unfoldable pub verdict :
    Bundle → View → Window → List Candidate → List Evidence → List Unknown → Classification × List ℕ
unfolding verdict_cluster seal
verdict b v w [] seen unknown =
    let window_health = health_token (generic_tcp_healthy v.probes (range_from 0 v.buckets)) in
    if is_usable v && (not (is_empty b.probe_rows) || not (is_empty b.journal_rows))
    then (seal no_incident category_none w (ev_no_anomaly ∷ window_health ++ seen) unknown, [])
    else (seal indeterminate insufficient_evidence w (window_health ++ seen) unknown, [])
verdict b v w (c ∷ cs) seen unknown =
    let all_cs = c ∷ cs in
    let window_health = health_token (generic_tcp_healthy v.probes (range_from 0 v.buckets)) in
    let all_seen = collect_seen all_cs ++ (window_health ++ seen) in
    let all_unknown = collect_unknown all_cs ++ unknown in
    if not (any (λ (x : Candidate). corroborates x.marks) all_cs)
    then (
      seal no_incident category_none w all_seen
          (un_count_drop_only ∷ un_no_corroboration ∷ all_unknown),
      [],
    )
    else if ltb 1 (length (clusters (indices_of all_cs)))
    then (
      seal incident insufficient_evidence w all_seen (un_multiple_anomaly_clusters ∷ all_unknown),
      indices_of all_cs,
    )
    else (verdict_cluster b v w all_cs seen unknown, indices_of all_cs)

-- `_analyse_with_meta`.
unfoldable pub analyse : Bundle → ℕ → ℕ → Classification × List ℕ
unfolding verdict seal
analyse b start buckets =
    let v = view_of b start buckets in
    let w : Window = record { from = start; to = start + buckets * bucket_span; count = buckets } in
    let seen = seen_first b v in
    let unknown = unknown_first b v in
    let gaps =
      unknown_if (not (is_usable v)) un_baseline_evidence_absent
      ++ journal_unknown (journal_view b.reader b.audit_rows) in
    if leb buckets min_baseline_buckets
    then (
      seal indeterminate insufficient_evidence w seen (un_baseline_evidence_absent ∷ unknown),
      [],
    )
    else verdict b v w (candidates v (has_samples v)) seen (gaps ++ unknown)

abbrev pub last_of : ℕ → List ℕ → ℕ
last_of n [] = n
last_of n (m ∷ ms) = last_of m ms

-- The epochs of the first and the last anomalous bucket.
abbrev pub with_signals : ℕ → Classification × List ℕ → Detection
with_signals start (c, []) = record {
  classification = c;
  indices = [];
  first_signal = none;
  last_signal = none;
}
with_signals start (c, i ∷ is) = record {
  classification = c;
  indices = i ∷ is;
  first_signal = some (start + i * bucket_span);
  last_signal = some (start + (last_of i is + 1) * bucket_span);
}

-- `detect`; `classify` is its classification.
unfoldable pub detect : Bundle → Detection
unfolding analyse refusals echo_window seal
detect b =
    if is_empty (refusals b)
    then with_signals b.start (analyse b b.start ((b.end_ - b.start) / bucket_span))
    else record {
      classification = seal indeterminate insufficient_evidence (echo_window b) [] (refusals b);
      indices = [];
      first_signal = none;
      last_signal = none;
    }
