-- ===== src/Incident/Bundle.antt =====
-- monitor-v2/web/incident_classifier.py: the accepted rows, as far as they are read, and the bundle.
-- A time is a whole number of milliseconds; a device and an inbound are opaque keys.
use install_singboxhysteria.Common.{ℕ, [], ◌∷◌, List, Bool, leb, filter, ◌+◌, ◌*◌, ◌&&◌, ltb}
use install_singboxhysteria.Incident.Vocabulary.{Class, Proto, Dcls, AuditCode}

abbrev pub bucket_span : ℕ
bucket_span = 60000

abbrev pub max_buckets : ℕ
max_buckets = 60

abbrev pub min_baseline_buckets : ℕ
min_baseline_buckets = 3

abbrev pub min_samples_per_bucket : ℕ
min_samples_per_bucket = 6

pub data ReaderStatus : Type 0 where
  reader_disabled reader_absent reader_unreadable reader_invalid reader_stale reader_fresh :
      ReaderStatus

pub data Slot : Type 0 where
  slot_dns slot_https slot_udp slot_egress : Slot

abbrev pub all_slots : List Slot
all_slots = slot_dns ∷ slot_https ∷ slot_udp ∷ slot_egress ∷ []

abbrev pub generic_slots : List Slot
generic_slots = slot_dns ∷ slot_https ∷ slot_egress ∷ []

-- What a slot's status and error code say: `ok`, a code of PROBE_NETWORK_CODES, or another one.
pub data ProbeResult : Type 0 where
  probe_ok probe_network probe_unusable : ProbeResult

pub record Sample : Type 0 where
  pub epoch : ℕ
  pub api_is_stale : Bool
  pub collector_is_stale : Bool
  pub total_active : ℕ
  pub reality_active : ℕ
  pub hysteria2_active : ℕ
  pub other_active : ℕ

pub record DeviceRow : Type 0 where
  pub epoch : ℕ
  pub device : ℕ
  pub inbound : ℕ
  pub active : ℕ

pub record ProbeRow : Type 0 where
  pub epoch : ℕ
  pub result : Slot → ProbeResult
  pub egress_changed : Bool

pub record JournalRow : Type 0 where
  pub ts : ℕ
  pub cls : Class
  pub proto : Proto
  pub dcls : Dcls
  pub port : ℕ
  pub n : ℕ

pub record AuditRow : Type 0 where
  pub epoch : ℕ
  pub is_gap : Bool
  pub code : AuditCode

pub record Bundle : Type 0 where
  pub start : ℕ
  pub end_ : ℕ
  pub degraded : Bool
  pub reader : ReaderStatus
  pub samples : List Sample
  pub device_rows : List DeviceRow
  pub probe_rows : List ProbeRow
  pub journal_rows : List JournalRow
  pub audit_rows : List AuditRow

-- `int((t - start) // BUCKET_SECONDS) == index`.
abbrev pub in_bucket : ℕ → ℕ → ℕ → Bool
in_bucket start index t =
    leb (start + index * bucket_span) t && ltb t (start + (index + 1) * bucket_span)

-- `_bucketed`, one bucket of it, for rows with the time `at`.
abbrev pub bucket_of {ℓ} : {A : Type ℓ} → (A → ℕ) → ℕ → ℕ → List A → List A
bucket_of at start index rows = filter (λ r. in_bucket start index (at r)) rows
