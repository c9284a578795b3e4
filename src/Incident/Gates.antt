-- ===== src/Incident/Gates.antt =====
-- monitor-v2/web/incident_runtime.py: what a cycle reads before it evaluates, the snapshot, the gates of
-- discovery, the last complete bucket and the continuity of the reader, and its call of the classifier.
use install_singboxhysteria.Incident.Stage.{
  evidence_read_failed, runtime_state_corrupt, heartbeat_fresh, heartbeat_other, heartbeat_error,
  Env, ok, abort, Stage, pure, raise,
}
use install_singboxhysteria.Incident.Detect.{detect}
use install_singboxhysteria.Incident.Bundle.{Bundle, bucket_span}
use install_singboxhysteria.Incident.Verdict.{Detection}
use install_singboxhysteria.Common.{
  ℕ, [], ◌∷◌, none, some, true, false, Bool, Option, List, ◌/◌, if◌then◌else◌, ◌+◌, ◌==◌, ◌&&◌, ltb,
  leb, ◌-◌, ◌*◌, not,
}
use install_singboxhysteria.Incident.Store.{Row, Runtime, Store, fail}

abbrev pub discovery_buckets : ℕ
discovery_buckets = 5

abbrev pub close_clean_buckets : ℕ
close_clean_buckets = 3

abbrev pub bucket_grace : ℕ
bucket_grace = 15000

-- The row that the pointer names, whatever its state.
unfoldable pub row_of : ℕ → List Row → Option Row
row_of id [] = none
row_of id (r ∷ rs) = if r.id == id then some r else row_of id rs

abbrev pub pointed : Option ℕ → List Row → Option Row
pointed none rows = none
pointed (some id) rows = row_of id rows

abbrev pub if_readable : Bool → Option Runtime → Option Runtime
if_readable true s = s
if_readable false s = none

-- A read that raises is counted as a failure of the store.
unfoldable pub failed_read : Env → Store → Store
unfolding fail
failed_read env st = if st.enabled && not env.snapshot_ok then fail st else st

abbrev pub snapshot_of : Env → Option Runtime → Stage (Runtime × Option Row)
snapshot_of env none w = (abort runtime_state_corrupt, record w { store = failed_read env w.store })
snapshot_of env (some s) w = (ok (s, pointed s.open_id w.store.rows), w)

-- `incident_runtime_snapshot` with `_read_snapshot`: without a runtime row the state is corrupt.
unfoldable pub read_snapshot : Env → Stage (Runtime × Option Row)
unfolding row_of failed_read
read_snapshot env w =
    snapshot_of env (if_readable (env.snapshot_ok && w.store.enabled) w.store.runtime) w

-- `_warming`.
unfoldable pub warming : Option ℕ → Option ℕ → Bool
warming (some gate) (some last_end) = ltb last_end (gate + discovery_buckets * bucket_span)
warming _ _ = true

-- `_last_complete_end`.
unfoldable pub last_complete_end : ℕ → ℕ → Option ℕ
last_complete_end now floor =
    if ltb now (floor + bucket_grace + bucket_span)
    then none
    else some (floor + bucket_span * ((now - bucket_grace - floor) / bucket_span))

-- `_derive_rfs`.
unfoldable pub derive_rfs : Env → Option ℕ → Stage (Option ℕ)
derive_rfs env persisted w = elim env.heartbeat [
  | heartbeat_error ↦ (abort evidence_read_failed, w)
  | heartbeat_other ↦ (ok none, w)
  | heartbeat_fresh ↦
      (ok (elim persisted [ none ↦ some env.now_fresh | some since ↦ some since ]), w)
]

-- `_discovery_gate`: none is the re-arm gate.
unfoldable pub discovery_gate : Runtime → Stage (Option ℕ)
discovery_gate s w =
    let w' = record w { scanner = record w.scanner { rearm_required = s.rearm_required } } in
    if s.rearm_required then (ok none, w') else elim s.discovery_floor [
      | none ↦ (abort runtime_state_corrupt, w')
      | some floor ↦ (
        ok (some floor),
        record w' { scanner = record w'.scanner { discovery_floor = some floor } },
      )
    ]

-- `rfs is not None and rfs <= window_start`.
abbrev pub is_proven : Option ℕ → ℕ → Bool
is_proven none start = false
is_proven (some since) start = leb since start

unfoldable pub judge : Option Bundle → Stage Detection
judge none = raise evidence_read_failed
judge (some b) = pure (detect b)

-- `_detect`.
unfoldable pub run_detect : Env → ℕ → ℕ → Option ℕ → Stage Detection
unfolding judge
run_detect env start end_ rfs = judge (env.bundle start end_ (is_proven rfs start))
