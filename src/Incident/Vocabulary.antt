-- ===== src/Incident/Vocabulary.antt =====
-- monitor-v2/web/incident_classifier.py: the closed vocabularies. A token is a constructor; the order
-- of the tokens is that of their spellings, `sorted(EVIDENCE_TOKENS)` and `sorted(UNKNOWN_TOKENS)`.
use install_singboxhysteria.Common.{ℕ, [], ◌∷◌, List}

pub data Class : Type 0 where
  cls_dns cls_dial_timeout cls_reset cls_net_unreachable cls_tls_handshake cls_quic_error : Class
  cls_eof_cancel cls_other : Class

pub data Proto : Type 0 where
  proto_reality proto_hysteria2 proto_other : Proto

pub data Dcls : Type 0 where
  dcls_none dcls_https443 dcls_http80 dcls_quic dcls_dns53 dcls_dot853 dcls_smtpish dcls_other :
      Dcls

pub data AuditCode : Type 0 where
  code_sequence_gap code_exchange_bad_json code_exchange_bad_name code_exchange_bad_shape :
      AuditCode
  code_exchange_empty code_exchange_event_invalid code_exchange_header_invalid : AuditCode
  code_exchange_header_position code_exchange_no_header code_exchange_not_regular : AuditCode
  code_exchange_seq_mismatch code_exchange_too_large code_exchange_unreadable : AuditCode

pub data Evidence : Type 0 where
  ev_all_devices_quiet ev_api_stale ev_collector_stale ev_count_drop_hysteria2 : Evidence
  ev_count_drop_other ev_count_drop_reality ev_count_drop_total ev_egress_ip_changed : Evidence
  ev_history_degraded ev_journal_audit_exchange_bad_json ev_journal_audit_exchange_bad_name :
      Evidence
  ev_journal_audit_exchange_bad_shape ev_journal_audit_exchange_empty : Evidence
  ev_journal_audit_exchange_event_invalid ev_journal_audit_exchange_header_invalid : Evidence
  ev_journal_audit_exchange_header_position ev_journal_audit_exchange_no_header : Evidence
  ev_journal_audit_exchange_not_regular ev_journal_audit_exchange_seq_mismatch : Evidence
  ev_journal_audit_exchange_too_large ev_journal_audit_exchange_unreadable : Evidence
  ev_journal_audit_sequence_gap ev_journal_burst_destination ev_journal_burst_hysteria2 : Evidence
  ev_journal_burst_other_generic ev_journal_burst_reality ev_journal_burst_unattributed : Evidence
  ev_journal_cls_dial_timeout ev_journal_cls_dns ev_journal_cls_eof_cancel : Evidence
  ev_journal_cls_net_unreachable ev_journal_cls_other ev_journal_cls_quic_error : Evidence
  ev_journal_cls_reset ev_journal_cls_tls_handshake ev_journal_continuity_gap : Evidence
  ev_journal_rejected_batch ev_no_anomaly ev_probe_failed_dns ev_probe_failed_egress : Evidence
  ev_probe_failed_https ev_probe_failed_udp ev_probe_generic_tcp_healthy : Evidence
  ev_probe_source_unavailable ev_sample_coverage_gap : Evidence

pub data Unknown : Type 0 where
  un_attribution_ambiguous un_baseline_evidence_absent un_contemporaneous_negatives_unproven :
      Unknown
  un_count_drop_only un_device_states_are_change_only un_evidence_outside_window : Unknown
  un_evidence_rejected_audit un_evidence_rejected_device_states un_evidence_rejected_health :
      Unknown
  un_evidence_rejected_journal_events un_evidence_rejected_probe_rows : Unknown
  un_evidence_rejected_reader un_evidence_rejected_samples un_evidence_rejected_window : Unknown
  un_evidence_shape_rejected un_journal_evidence_absent un_journal_evidence_incomplete : Unknown
  un_multiple_anomaly_clusters un_multiple_destinations un_no_corroboration : Unknown
  un_no_target_specific_proof un_probe_endpoint_confounded un_probe_evidence_absent : Unknown
  un_probe_evidence_unusable un_process_and_network_evidence_conflict : Unknown
  un_root_cause_not_established un_transport_negatives_unproven : Unknown
  un_unattributed_evidence_present : Unknown

-- `_EVIDENCE_BIT_INDEX`.
abbrev pub evidence_index : Evidence → ℕ
evidence_index ev_all_devices_quiet = 0
evidence_index ev_api_stale = 1
evidence_index ev_collector_stale = 2
evidence_index ev_count_drop_hysteria2 = 3
evidence_index ev_count_drop_other = 4
evidence_index ev_count_drop_reality = 5
evidence_index ev_count_drop_total = 6
evidence_index ev_egress_ip_changed = 7
evidence_index ev_history_degraded = 8
evidence_index ev_journal_audit_exchange_bad_json = 9
evidence_index ev_journal_audit_exchange_bad_name = 10
evidence_index ev_journal_audit_exchange_bad_shape = 11
evidence_index ev_journal_audit_exchange_empty = 12
evidence_index ev_journal_audit_exchange_event_invalid = 13
evidence_index ev_journal_audit_exchange_header_invalid = 14
evidence_index ev_journal_audit_exchange_header_position = 15
evidence_index ev_journal_audit_exchange_no_header = 16
evidence_index ev_journal_audit_exchange_not_regular = 17
evidence_index ev_journal_audit_exchange_seq_mismatch = 18
evidence_index ev_journal_audit_exchange_too_large = 19
evidence_index ev_journal_audit_exchange_unreadable = 20
evidence_index ev_journal_audit_sequence_gap = 21
evidence_index ev_journal_burst_destination = 22
evidence_index ev_journal_burst_hysteria2 = 23
evidence_index ev_journal_burst_other_generic = 24
evidence_index ev_journal_burst_reality = 25
evidence_index ev_journal_burst_unattributed = 26
evidence_index ev_journal_cls_dial_timeout = 27
evidence_index ev_journal_cls_dns = 28
evidence_index ev_journal_cls_eof_cancel = 29
evidence_index ev_journal_cls_net_unreachable = 30
evidence_index ev_journal_cls_other = 31
evidence_index ev_journal_cls_quic_error = 32
evidence_index ev_journal_cls_reset = 33
evidence_index ev_journal_cls_tls_handshake = 34
evidence_index ev_journal_continuity_gap = 35
evidence_index ev_journal_rejected_batch = 36
evidence_index ev_no_anomaly = 37
evidence_index ev_probe_failed_dns = 38
evidence_index ev_probe_failed_egress = 39
evidence_index ev_probe_failed_https = 40
evidence_index ev_probe_failed_udp = 41
evidence_index ev_probe_generic_tcp_healthy = 42
evidence_index ev_probe_source_unavailable = 43
evidence_index ev_sample_coverage_gap = 44

-- `_UNKNOWN_BIT_INDEX`.
abbrev pub unknown_index : Unknown → ℕ
unknown_index un_attribution_ambiguous = 0
unknown_index un_baseline_evidence_absent = 1
unknown_index un_contemporaneous_negatives_unproven = 2
unknown_index un_count_drop_only = 3
unknown_index un_device_states_are_change_only = 4
unknown_index un_evidence_outside_window = 5
unknown_index un_evidence_rejected_audit = 6
unknown_index un_evidence_rejected_device_states = 7
unknown_index un_evidence_rejected_health = 8
unknown_index un_evidence_rejected_journal_events = 9
unknown_index un_evidence_rejected_probe_rows = 10
unknown_index un_evidence_rejected_reader = 11
unknown_index un_evidence_rejected_samples = 12
unknown_index un_evidence_rejected_window = 13
unknown_index un_evidence_shape_rejected = 14
unknown_index un_journal_evidence_absent = 15
unknown_index un_journal_evidence_incomplete = 16
unknown_index un_multiple_anomaly_clusters = 17
unknown_index un_multiple_destinations = 18
unknown_index un_no_corroboration = 19
unknown_index un_no_target_specific_proof = 20
unknown_index un_probe_endpoint_confounded = 21
unknown_index un_probe_evidence_absent = 22
unknown_index un_probe_evidence_unusable = 23
unknown_index un_process_and_network_evidence_conflict = 24
unknown_index un_root_cause_not_established = 25
unknown_index un_transport_negatives_unproven = 26
unknown_index un_unattributed_evidence_present = 27

-- `_EVIDENCE_BIT_ORDER`.
abbrev pub evidence_order : List Evidence
evidence_order =
    ev_all_devices_quiet ∷ ev_api_stale ∷ ev_collector_stale ∷ ev_count_drop_hysteria2
    ∷ ev_count_drop_other ∷ ev_count_drop_reality ∷ ev_count_drop_total ∷ ev_egress_ip_changed
    ∷ ev_history_degraded ∷ ev_journal_audit_exchange_bad_json ∷ ev_journal_audit_exchange_bad_name
    ∷ ev_journal_audit_exchange_bad_shape ∷ ev_journal_audit_exchange_empty
    ∷ ev_journal_audit_exchange_event_invalid ∷ ev_journal_audit_exchange_header_invalid
    ∷ ev_journal_audit_exchange_header_position ∷ ev_journal_audit_exchange_no_header
    ∷ ev_journal_audit_exchange_not_regular ∷ ev_journal_audit_exchange_seq_mismatch
    ∷ ev_journal_audit_exchange_too_large ∷ ev_journal_audit_exchange_unreadable
    ∷ ev_journal_audit_sequence_gap ∷ ev_journal_burst_destination ∷ ev_journal_burst_hysteria2
    ∷ ev_journal_burst_other_generic ∷ ev_journal_burst_reality ∷ ev_journal_burst_unattributed
    ∷ ev_journal_cls_dial_timeout ∷ ev_journal_cls_dns ∷ ev_journal_cls_eof_cancel
    ∷ ev_journal_cls_net_unreachable ∷ ev_journal_cls_other ∷ ev_journal_cls_quic_error
    ∷ ev_journal_cls_reset ∷ ev_journal_cls_tls_handshake ∷ ev_journal_continuity_gap
    ∷ ev_journal_rejected_batch ∷ ev_no_anomaly ∷ ev_probe_failed_dns ∷ ev_probe_failed_egress
    ∷ ev_probe_failed_https ∷ ev_probe_failed_udp ∷ ev_probe_generic_tcp_healthy
    ∷ ev_probe_source_unavailable ∷ ev_sample_coverage_gap ∷ []

-- `_UNKNOWN_BIT_ORDER`.
abbrev pub unknown_order : List Unknown
unknown_order =
    un_attribution_ambiguous ∷ un_baseline_evidence_absent ∷ un_contemporaneous_negatives_unproven
    ∷ un_count_drop_only ∷ un_device_states_are_change_only ∷ un_evidence_outside_window
    ∷ un_evidence_rejected_audit ∷ un_evidence_rejected_device_states ∷ un_evidence_rejected_health
    ∷ un_evidence_rejected_journal_events ∷ un_evidence_rejected_probe_rows
    ∷ un_evidence_rejected_reader ∷ un_evidence_rejected_samples ∷ un_evidence_rejected_window
    ∷ un_evidence_shape_rejected ∷ un_journal_evidence_absent ∷ un_journal_evidence_incomplete
    ∷ un_multiple_anomaly_clusters ∷ un_multiple_destinations ∷ un_no_corroboration
    ∷ un_no_target_specific_proof ∷ un_probe_endpoint_confounded ∷ un_probe_evidence_absent
    ∷ un_probe_evidence_unusable ∷ un_process_and_network_evidence_conflict
    ∷ un_root_cause_not_established ∷ un_transport_negatives_unproven
    ∷ un_unattributed_evidence_present ∷ []

-- `"journal_cls_" + name`.
abbrev pub class_token : Class → Evidence
class_token cls_dns = ev_journal_cls_dns
class_token cls_dial_timeout = ev_journal_cls_dial_timeout
class_token cls_reset = ev_journal_cls_reset
class_token cls_net_unreachable = ev_journal_cls_net_unreachable
class_token cls_tls_handshake = ev_journal_cls_tls_handshake
class_token cls_quic_error = ev_journal_cls_quic_error
class_token cls_eof_cancel = ev_journal_cls_eof_cancel
class_token cls_other = ev_journal_cls_other

-- `"journal_audit_" + code`.
abbrev pub audit_token : AuditCode → Evidence
audit_token code_sequence_gap = ev_journal_audit_sequence_gap
audit_token code_exchange_bad_json = ev_journal_audit_exchange_bad_json
audit_token code_exchange_bad_name = ev_journal_audit_exchange_bad_name
audit_token code_exchange_bad_shape = ev_journal_audit_exchange_bad_shape
audit_token code_exchange_empty = ev_journal_audit_exchange_empty
audit_token code_exchange_event_invalid = ev_journal_audit_exchange_event_invalid
audit_token code_exchange_header_invalid = ev_journal_audit_exchange_header_invalid
audit_token code_exchange_header_position = ev_journal_audit_exchange_header_position
audit_token code_exchange_no_header = ev_journal_audit_exchange_no_header
audit_token code_exchange_not_regular = ev_journal_audit_exchange_not_regular
audit_token code_exchange_seq_mismatch = ev_journal_audit_exchange_seq_mismatch
audit_token code_exchange_too_large = ev_journal_audit_exchange_too_large
audit_token code_exchange_unreadable = ev_journal_audit_exchange_unreadable

abbrev pub class_index : Class → ℕ
class_index cls_dns = 0
class_index cls_dial_timeout = 1
class_index cls_reset = 2
class_index cls_net_unreachable = 3
class_index cls_tls_handshake = 4
class_index cls_quic_error = 5
class_index cls_eof_cancel = 6
class_index cls_other = 7

abbrev pub proto_index : Proto → ℕ
proto_index proto_reality = 0
proto_index proto_hysteria2 = 1
proto_index proto_other = 2

abbrev pub dcls_index : Dcls → ℕ
dcls_index dcls_none = 0
dcls_index dcls_https443 = 1
dcls_index dcls_http80 = 2
dcls_index dcls_quic = 3
dcls_index dcls_dns53 = 4
dcls_index dcls_dot853 = 5
dcls_index dcls_smtpish = 6
dcls_index dcls_other = 7
