-- ===== src/Incident/Accept.antt =====
-- monitor-v2/web/incident_classifier.py: `_refusals` and `_echo_window`, for rows of the right shape.
use install_singboxhysteria.Incident.Verdict.{Window}
use install_singboxhysteria.Common.{
  ℕ, [], ◌∷◌, none, some, true, false, Bool, Option, List, ltb, if◌then◌else◌, ◌&&◌, ◌||◌, length,
  not, ◌-◌, ◌%◌, leb, ◌==◌, ◌/◌, ◌*◌, ◌++◌,
}
use install_singboxhysteria.Incident.Vocabulary.{
  Unknown, Dcls, dcls_none, un_evidence_outside_window, un_evidence_rejected_window,
  un_evidence_rejected_samples, un_evidence_rejected_device_states, un_evidence_rejected_probe_rows,
  un_evidence_rejected_journal_events, un_evidence_rejected_audit,
}
use install_singboxhysteria.Incident.Bundle.{
  Bundle, JournalRow, bucket_span, max_buckets, Sample, DeviceRow, ProbeRow, AuditRow,
}

-- `_valid_window`.
unfoldable pub valid_window : Bundle → Bool
valid_window b =
    ltb b.start b.end_
    && (b.start % bucket_span == 0
        && b.end_ % bucket_span == 0
        && (leb bucket_span (b.end_ - b.start)
            && leb (b.end_ - b.start) (max_buckets * bucket_span)))

-- What is wrong with a row: nothing, its shape, or its time.
pub data Fault : Type 0 where
  shape_fault outside_fault : Fault

-- `_row_time`.
abbrev pub time_fault : Bundle → ℕ → Option Fault
time_fault b t = if ltb t b.start || leb b.end_ t then some outside_fault else none

abbrev pub is_dcls_none : Dcls → Bool
is_dcls_none dcls_none = true
is_dcls_none _ = false

-- `_row_journal`, after the time.
unfoldable pub journal_fault : Bundle → JournalRow → Option Fault
journal_fault b r = elim (time_fault b r.ts) [
  | some f ↦ some f
  | none ↦
      if ltb 65535 r.port
        || (is_dcls_none r.dcls && not (r.port == 0))
        || (not (is_dcls_none r.dcls) && r.port == 0)
        || r.n == 0
      then some shape_fault
      else none
]

-- The first row that is refused.
abbrev pub first_fault {ℓ} : {A : Type ℓ} → (A → Option Fault) → List A → Option Fault
first_fault f [] = none
first_fault f (r ∷ rs) = elim (f r) [ some x ↦ some x | none ↦ first_fault f rs ]

-- The refusals of one section with its own token.
abbrev pub section_refusals {ℓ} :
    {A : Type ℓ} → Unknown → (A → Option Fault) → List A → List Unknown
section_refusals token f rows =
    if ltb 2000 (length rows) then token ∷ [] else elim (first_fault f rows) [
      | none ↦ []
      | some shape_fault ↦ token ∷ []
      | some outside_fault ↦ un_evidence_outside_window ∷ token ∷ []
    ]

-- `_refusals`, as far as rows of the right shape can be refused.
unfoldable pub refusals : Bundle → List Unknown
unfolding valid_window journal_fault
refusals b =
    if not (valid_window b)
    then un_evidence_rejected_window ∷ []
    else section_refusals un_evidence_rejected_samples (λ (r : Sample). time_fault b r.epoch)
        b.samples
      ++ (section_refusals un_evidence_rejected_device_states
            (λ (r : DeviceRow). time_fault b r.epoch) b.device_rows
          ++ (section_refusals un_evidence_rejected_probe_rows
                (λ (r : ProbeRow). time_fault b r.epoch) b.probe_rows
              ++ (section_refusals un_evidence_rejected_journal_events (journal_fault b)
                    b.journal_rows
                  ++ section_refusals un_evidence_rejected_audit
                      (λ (r : AuditRow). time_fault b r.epoch) b.audit_rows)))

-- `_echo_window`.
unfoldable pub echo_window : Bundle → Window
unfolding valid_window
echo_window b =
    if valid_window b
    then record { from = b.start; to = b.end_; count = (b.end_ - b.start) / bucket_span }
    else record { from = 0; to = 0; count = 0 }
