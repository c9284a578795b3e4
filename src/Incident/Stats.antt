-- ===== src/Incident/Stats.antt =====
-- monitor-v2/web/incident_classifier.py: what the buckets hold, from `_sample_stats` to
-- `_journal_view_state`. A mean is an exact fraction; the source rounds it to a double.
use install_singboxhysteria.Common.{
  ℕ, [], ◌∷◌, none, some, true, false, zero, suc, List, ◌*◌, Bool, Option, total, ◌+◌, length, ◌==◌,
  if◌then◌else◌, ltb, leb, max, ◌++◌, range_from, not, all, map, ◌&&◌, any, ◌||◌, filter, ◌/◌, ◌%◌,
  ◌-◌,
}
use install_singboxhysteria.Incident.Vocabulary.{
  Class, Proto, Dcls, class_index, proto_index, dcls_index,
}
use install_singboxhysteria.Incident.Bundle.{
  Sample, DeviceRow, ProbeRow, JournalRow, AuditRow, ProbeResult, Slot, ReaderStatus, probe_ok,
  probe_network, reader_fresh, probe_unusable, reader_stale, generic_slots, reader_invalid,
  reader_unreadable, reader_disabled, reader_absent,
}

-- A fraction with a denominator that is not 0.
pub record Mean : Type 0 where
  pub num : ℕ
  pub den : ℕ

abbrev pub mean_over : ℕ → ℕ → Mean
mean_over sum zero = record { num = 0; den = 1 }
mean_over sum (suc n) = record { num = sum; den = suc n }

-- `_mean` of whole numbers.
pub mean_of : List ℕ → Mean
mean_of values = mean_over (total values) (length values)

-- The sum of fractions.
sum_of : List Mean → Mean
sum_of [] = record { num = 0; den = 1 }
sum_of (m ∷ ms) =
    let s = sum_of ms in record { num = m.num * s.den + s.num * m.den; den = m.den * s.den }

divide : Mean → ℕ → Mean
divide s zero = record { num = 0; den = 1 }
divide s (suc n) = record { num = s.num; den = s.den * suc n }

-- `_mean` of means.
pub mean_of_means : List Mean → Mean
unfolding sum_of divide
mean_of_means ms = divide (sum_of ms) (length ms)

pub data Count : Type 0 where
  count_total count_reality count_hysteria2 count_other : Count

abbrev pub all_counts : List Count
all_counts = count_total ∷ count_reality ∷ count_hysteria2 ∷ count_other ∷ []

abbrev pub value_of : Count → Sample → ℕ
value_of count_total s = s.total_active
value_of count_reality s = s.reality_active
value_of count_hysteria2 s = s.hysteria2_active
value_of count_other s = s.other_active

pub record SampleStats : Type 0 where
  pub rows : ℕ
  pub mean : Count → Mean
  pub stale : ℕ
  pub collector_stale : ℕ

pub sample_stats : List Sample → SampleStats
unfolding mean_of
sample_stats rows = record {
  rows = length rows;
  mean = λ name. mean_of (map (value_of name) rows);
  stale = length (filter (λ (s : Sample). s.api_is_stale) rows);
  collector_stale = length (filter (λ (s : Sample). s.collector_is_stale) rows);
}

-- `(device, inbound)`.
abbrev pub Pair : Type 0
Pair = ℕ × ℕ

abbrev pub same_pair : Pair → Pair → Bool
same_pair (a, b) (c, d) = a == c && b == d

abbrev pub pair_of : DeviceRow → Pair
pair_of r = (r.device, r.inbound)

-- The distinct pairs of some rows.
pub pairs_of : List DeviceRow → List Pair
pairs_of [] = []
pairs_of (r ∷ rs) =
    let rest = pairs_of rs in if any (same_pair (pair_of r)) rest then rest else pair_of r ∷ rest

-- `(row["epoch"], row["active_connections"]) > (current["epoch"], ...)`.
abbrev pub is_later : DeviceRow → DeviceRow → Bool
is_later r c = ltb c.epoch r.epoch || (c.epoch == r.epoch && ltb c.active r.active)

-- `latest.get(pair)`: the latest row of the pair, on a tie the one with more connections.
latest_loop : Pair → Option DeviceRow → List DeviceRow → Option DeviceRow
latest_loop p best [] = best
latest_loop p none (r ∷ rs) = latest_loop p (if same_pair (pair_of r) p then some r else none) rs
latest_loop p (some c) (r ∷ rs) =
    latest_loop p (if same_pair (pair_of r) p && is_later r c then some r else some c) rs

abbrev pub answers_zero : Option DeviceRow → Bool
answers_zero none = false
answers_zero (some r) = r.active == 0

-- `_device_stats(rows, pairs_known)["all_quiet"]`.
pub all_quiet : List Pair → List DeviceRow → Bool
unfolding latest_loop pairs_of
all_quiet known rows =
    let seen = pairs_of rows in
    leb 2 (length seen)
    && all (λ p. any (same_pair p) seen) known
    && all (λ p. answers_zero (latest_loop p none rows)) seen

pub record SlotTally : Type 0 where
  pub ok_count : ℕ
  pub network_count : ℕ
  pub unusable_count : ℕ

abbrev pub is_ok : ProbeResult → Bool
is_ok probe_ok = true
is_ok _ = false

abbrev pub is_network : ProbeResult → Bool
is_network probe_network = true
is_network _ = false

abbrev pub is_unusable : ProbeResult → Bool
is_unusable probe_unusable = true
is_unusable _ = false

-- `_probe_stats`, one slot.
pub tally : Slot → List ProbeRow → SlotTally
tally slot rows = record {
  ok_count = length (filter (λ (r : ProbeRow). is_ok (r.result slot)) rows);
  network_count = length (filter (λ (r : ProbeRow). is_network (r.result slot)) rows);
  unusable_count = length (filter (λ (r : ProbeRow). is_unusable (r.result slot)) rows);
}

-- The key that journal rows are counted under.
pub record Key : Type 0 where
  pub key_cls : Class
  pub key_proto : Proto
  pub key_dcls : Dcls
  pub key_port : ℕ

abbrev pub same_key : Key → Key → Bool
same_key a b =
    class_index a.key_cls == class_index b.key_cls
    && (proto_index a.key_proto == proto_index b.key_proto
        && (dcls_index a.key_dcls == dcls_index b.key_dcls && a.key_port == b.key_port))

abbrev pub key_of : JournalRow → Key
key_of r = record { key_cls = r.cls; key_proto = r.proto; key_dcls = r.dcls; key_port = r.port }

-- `_journal_stats(rows)["keys"].get(key, 0)`.
pub key_count : Key → List JournalRow → ℕ
key_count k rows =
    total (map (λ (r : JournalRow). r.n) (filter (λ (r : JournalRow). same_key (key_of r) k) rows))

insert : ℕ → List ℕ → List ℕ
insert n [] = n ∷ []
insert n (m ∷ ms) = if leb n m then n ∷ m ∷ ms else m ∷ insert n ms

sort : List ℕ → List ℕ
unfolding insert
sort [] = []
sort (n ∷ ns) = insert n (sort ns)

at : ℕ → List ℕ → ℕ
at i [] = 0
at zero (n ∷ ns) = n
at (suc i) (n ∷ ns) = at i ns

-- Twice `_median`.
pub median_twice : List ℕ → ℕ
unfolding sort at
median_twice [] = 0
median_twice (n ∷ ns) =
    let ordered = sort (n ∷ ns) in
    let mid = length (n ∷ ns) / 2 in
    if length (n ∷ ns) % 2 == 0 then at (mid - 1) ordered + at mid ordered else 2 * at mid ordered

-- Twice the burst threshold, `max(5, 3.0 * median)`.
pub threshold_twice : List ℕ → ℕ
unfolding median_twice
threshold_twice history = max 10 (3 * median_twice history)

-- The marked indices of `_probe_failures` for one slot: the runs of at least two faults.
flush : List ℕ → List ℕ
flush run = if leb 2 (length run) then run else []

mark_runs : (ℕ → Bool) → List ℕ → List ℕ → List ℕ
unfolding flush
mark_runs fault run [] = flush run
mark_runs fault run (i ∷ is) = elim (fault i) [
  | true ↦ mark_runs fault (run ++ i ∷ []) is
  | false ↦ flush run ++ mark_runs fault [] is
]

pub probe_marks : (ℕ → Bool) → ℕ → List ℕ
unfolding mark_runs
probe_marks fault buckets = mark_runs fault [] (range_from 0 buckets)

-- `stats["network"] and not stats["ok"]`.
abbrev pub is_fault : SlotTally → Bool
is_fault t = not (t.network_count == 0) && t.ok_count == 0

-- All the answers of a slot were good ones, and there was one.
abbrev pub is_healthy : SlotTally → Bool
is_healthy t = not (t.ok_count == 0) && t.network_count == 0 && t.unusable_count == 0

-- `_generic_tcp_healthy`: two of the buckets have all generic slots healthy.
pub generic_tcp_healthy : (ℕ → List ProbeRow) → List ℕ → Bool
unfolding tally
generic_tcp_healthy probes indices = leb 2 (
    length (
      filter (λ (i : ℕ). all (λ (slot : Slot). is_healthy (tally slot (probes i))) generic_slots)
        indices))

-- `_api_healthy`.
pub api_healthy : (ℕ → SampleStats) → List ℕ → Bool
api_healthy samples [] = false
api_healthy samples (i ∷ is) =
    all
      (λ (j : ℕ).
        not ((samples j).rows == 0) && (samples j).stale == 0 && (samples j).collector_stale == 0)
      (i ∷ is)

pub data JournalView : Type 0 where
  view_complete view_incomplete view_absent : JournalView

-- `_journal_view_state`; every audit row is a gap or a rejection.
pub journal_view : ReaderStatus → List AuditRow → JournalView
journal_view status (a ∷ as_) = view_incomplete
journal_view reader_fresh [] = view_complete
journal_view reader_stale [] = view_incomplete
journal_view reader_invalid [] = view_incomplete
journal_view reader_unreadable [] = view_incomplete
journal_view reader_disabled [] = view_absent
journal_view reader_absent [] = view_absent
