-- ===== src/Incident/Store.antt =====
-- monitor-v2/web/incident_history.py: the tables incident_windows and incident_runtime_state with their
-- CHECKs, and the transactions on them. An epoch argument is none where `_incident_epoch` refuses it,
-- a bitset argument is none where it is no int. SQLite is outside: `io` says which statements of a
-- transaction succeed and whether its commit does, and `fresh` is the rowid that it gives to a new row. A
-- statement that succeeds has written its table, and `roll_back` undoes it; a rollback that itself fails,
-- which the code passes over, is left out.
use install_singboxhysteria.Incident.Bundle.{max_buckets}
use install_singboxhysteria.Common.{
  ℕ, [], ◌∷◌, none, some, true, false, Bool, Option, List, ◌+◌, leb, ◌&&◌, if◌then◌else◌, not,
  length, all, ◌||◌, ◌==◌,
}
use install_singboxhysteria.Incident.Verdict.{Category, is_emittable}

pub data Closure : Type 0 where
  clean_buckets window_limit : Closure

pub record Row : Type 0 where
  pub id : ℕ
  pub is_open : Bool
  pub category : Category
  pub analysis_start : ℕ
  pub first_signal : ℕ
  pub last_signal : ℕ
  pub classified_end : ℕ
  pub closed_at : Option ℕ
  pub closure : Option Closure
  pub buckets : ℕ
  pub evidence_bits : ℕ
  pub unknown_bits : ℕ
  pub created : ℕ
  pub updated : ℕ

-- The row of incident_runtime_state; an activation floor of 0 is none.
pub record Runtime : Type 0 where
  pub activation_floor : ℕ
  pub evaluated_end : ℕ
  pub fresh_since : Option ℕ
  pub open_id : Option ℕ
  pub discovery_floor : Option ℕ
  pub rearm_required : Bool

pub record Store : Type 0 where
  pub enabled : Bool
  pub rows : List Row
  pub runtime : Option Runtime
  pub persisted_total : ℕ
  pub rejected_total : ℕ
  pub failure_count : ℕ
  pub is_degraded : Bool

abbrev pub evidence_bits_max : ℕ
evidence_bits_max = 35184372088831

abbrev pub unknown_bits_max : ℕ
unknown_bits_max = 268435455

-- The CHECK on a state and its closure.
abbrev pub closure_ok : Bool → Option ℕ → Option Closure → ℕ → Bool
closure_ok true none none signal = true
closure_ok false (some at) (some why) signal = leb signal at
closure_ok _ _ _ signal = false

-- The CHECKs of incident_windows.
unfoldable pub row_ok : Row → Bool
row_ok r =
    is_emittable r.category
    && (leb r.analysis_start r.first_signal
        && (leb r.first_signal r.last_signal
            && (leb r.first_signal r.classified_end
                && (closure_ok r.is_open r.closed_at r.closure r.last_signal
                    && (leb 1 r.buckets
                        && (leb r.buckets max_buckets
                            && (leb r.evidence_bits evidence_bits_max
                                && (leb r.unknown_bits unknown_bits_max
                                    && leb r.created r.updated))))))))

abbrev pub is_none {ℓ} : {A : Type ℓ} → Option A → Bool
is_none none = true
is_none (some a) = false

abbrev pub at_least : ℕ → Option ℕ → Bool
at_least n none = true
at_least n (some m) = leb n m

-- The CHECKs of incident_runtime_state.
unfoldable pub runtime_ok : Runtime → Bool
runtime_ok s =
    at_least s.activation_floor s.discovery_floor
    && (at_least 1 s.open_id
        && ((not s.rearm_required || (is_none s.open_id && is_none s.discovery_floor))
            && (s.activation_floor == 0 || s.rearm_required || not (is_none s.discovery_floor))))

-- The ids of the open rows.
unfoldable pub open_ids : List Row → List ℕ
open_ids [] = []
open_ids (r ∷ rs) = let rest = open_ids rs in if r.is_open then r.id ∷ rest else rest

-- ux_incident_windows_one_open.
abbrev pub one_open : List Row → Bool
one_open rows = leb (length (open_ids rows)) 1

-- The row that `_create_incident_state_row` inserts.
unfoldable pub born_inert : Runtime
born_inert = record {
  activation_floor = 0;
  evaluated_end = 0;
  fresh_since = none;
  open_id = none;
  discovery_floor = none;
  rearm_required = false;
}

-- `_record_incident_failure`, with the rejection counter or without.
unfoldable pub fail : Store → Store
fail st = record st { failure_count = st.failure_count + 1; is_degraded = true }

unfoldable pub refuse : Store → Store
refuse st = record st {
  rejected_total = st.rejected_total + 1;
  failure_count = st.failure_count + 1;
  is_degraded = true;
}

-- What SQLite answers in one transaction: to its reads, to a statement on each table, to its commit.
pub record Io : Type 0 where
  pub reads : Bool
  pub writes_rows : Bool
  pub writes_runtime : Bool
  pub commits : Bool

abbrev pub all_runtime : Option Runtime → Bool
all_runtime none = true
all_runtime (some s) = runtime_ok s

-- Whether the statement on a table succeeds: one that would violate a CHECK or the unique index does not.
unfoldable pub rows_succeed : Io → List Row → Bool
rows_succeed io rows = io.writes_rows && (all row_ok rows && one_open rows)

unfoldable pub runtime_succeeds : Io → Option Runtime → Bool
runtime_succeeds io s = io.writes_runtime && all_runtime s

-- The statement on incident_windows.
unfoldable pub write_rows : Io → List Row → Store → Bool × Store
unfolding rows_succeed
write_rows io rows st =
    if rows_succeed io rows then (true, record st { rows = rows }) else (false, st)

-- The statement on incident_runtime_state.
unfoldable pub write_runtime : Io → Option Runtime → Store → Bool × Store
unfolding runtime_succeeds
write_runtime io s st =
    if runtime_succeeds io s then (true, record st { runtime = s }) else (false, st)

-- `_rollback_quiet`: the tables as the transaction found them.
unfoldable pub roll_back : Store → Store → Store
roll_back saved st = record st { rows = saved.rows; runtime = saved.runtime }

-- The counters behind a commit.
unfoldable pub counted : Store → Store
counted st = record st { persisted_total = st.persisted_total + 1; is_degraded = false }

-- After the last statement: the commit, or the handler of its exception.
unfoldable pub finish : Io → (Store → Store) → Store → Bool × Store → Bool × Store
unfolding roll_back fail
finish io count saved (false, st) = (false, fail (roll_back saved st))
finish io count saved (true, st) =
    if io.commits then (true, count st) else (false, fail (roll_back saved st))

-- After the statement on the rows: a row count that is not 1 is rolled back and refused.
unfoldable pub after_rows :
    Io → (Store → Store) → Bool → Option Runtime → Store → Bool × Store → Bool × Store
unfolding finish roll_back fail refuse write_runtime
after_rows io count is_one s saved (false, st) = (false, fail (roll_back saved st))
after_rows io count false s saved (true, st) = (false, refuse (roll_back saved st))
after_rows io count true s saved (true, st) = finish io count saved (write_runtime io s st)

-- A transaction on both tables; one that writes a single table leaves the other as it is.
unfoldable pub commit : Io → List Row → Option Runtime → Store → Bool × Store
unfolding after_rows write_rows counted
commit io rows s st = after_rows io counted true s st (write_rows io rows st)

-- Whether every statement and the commit succeed.
unfoldable pub accepts : Io → List Row → Option Runtime → Bool
unfolding rows_succeed runtime_succeeds
accepts io rows s = rows_succeed io rows && (runtime_succeeds io s && io.commits)

-- The store behind a transaction that succeeds.
unfoldable pub landed : List Row → Option Runtime → Store → Store
landed rows s st = record st {
  rows = rows;
  runtime = s;
  persisted_total = st.persisted_total + 1;
  is_degraded = false;
}

-- What a window write brings, validated.
pub record Values : Type 0 where
  pub category : Category
  pub last_signal : ℕ
  pub classified_end : ℕ
  pub buckets : ℕ
  pub evidence : ℕ
  pub unknown : ℕ

-- What a window write is asked with.
pub record Request : Type 0 where
  pub category : Category
  pub last_signal : Option ℕ
  pub classified_end : Option ℕ
  pub buckets : ℕ
  pub evidence_bits : Option ℕ
  pub unknown_bits : Option ℕ

-- `_encode_incident_bits`.
abbrev pub encode_incident_bits : Option ℕ → ℕ → Option ℕ
encode_incident_bits none maximum = none
encode_incident_bits (some n) maximum = if leb n maximum then some n else none

unfoldable pub values_at : Request → ℕ → ℕ → Option ℕ → Option ℕ → Option Values
values_at q signal end_ (some e) (some u) =
    if is_emittable q.category
      && (leb signal end_ && (leb 1 q.buckets && leb q.buckets max_buckets))
    then some (record {
      category = q.category;
      last_signal = signal;
      classified_end = end_;
      buckets = q.buckets;
      evidence = e;
      unknown = u;
    })
    else none
values_at q signal end_ _ _ = none

-- `_incident_values_locked`.
unfoldable pub values_of : Request → Option Values
unfolding values_at
values_of q = elim q.last_signal [
  | none ↦ none
  | some signal ↦ elim q.classified_end [
    | none ↦ none
    | some end_ ↦
        values_at q signal end_ (encode_incident_bits q.evidence_bits evidence_bits_max)
          (encode_incident_bits q.unknown_bits unknown_bits_max)
  ]
]
