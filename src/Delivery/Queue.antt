-- ===== src/Delivery/Queue.antt =====
-- monitor-v2/remote_probe/spool.py: the queue that delivery drains: `pending`, `note_attempt`,
-- `resolve` and the part of the state that they use. The records are those that `_scan_records` reads
-- back, in order of their ids, with the id of the first unresolved corrupt record (0 for none).
pub mod Laws
use install_singboxhysteria.Common.{
  ℕ, [], ◌∷◌, none, some, true, false, zero, suc, inl, inr, refl, ◌≡◌, arith, List, Bool, Option,
  if◌then◌else◌, not, drop, ◌+◌, ◌==◌, length, leb, ◌&&◌, ◌-◌, ◌++◌, ltb,
}
use install_singboxhysteria.Delivery.Response.{Token}

abbrev pub max_tracked_retries : ℕ
max_tracked_retries = 4096

abbrev pub quarantine_max_entries : ℕ
quarantine_max_entries = 512

pub record Record : Type 0 where
  pub record_id : ℕ
  pub run : List ℕ
  pub seq : ℕ
  pub body : List ℕ

pub record Queue : Type 0 where
  pub records : List Record
  pub blocked_id : ℕ
  pub resolved_through : ℕ
  pub retry_attempts : List (ℕ × ℕ)
  pub acknowledged_total : ℕ
  pub quarantined_total : ℕ
  pub quarantine : List (Token × ℕ)
  pub state_save_failures : ℕ

-- The loop of `pending`: stop at the block, pass over what is resolved.
unfoldable pub deliverable : ℕ → ℕ → List Record → List Record
deliverable blocked resolved [] = []
deliverable blocked resolved (r ∷ rs) =
    let rest = deliverable blocked resolved rs in
    if not (blocked == 0) && leb blocked r.record_id
    then []
    else if leb r.record_id resolved
    then rest
    else r ∷ rest

unfoldable pub refuse_empty : Bool → List Record → Option (List Record)
refuse_empty true [] = none
refuse_empty _ rs = some rs

-- `none` is the SpoolError of a block that is the head of the queue.
unfoldable pub pending : Queue → Option (List Record)
unfolding deliverable refuse_empty
pending q =
    refuse_empty (not (q.blocked_id == 0) && ltb q.resolved_through q.blocked_id)
      (deliverable q.blocked_id q.resolved_through q.records)

unfoldable pub attempts_of : ℕ → List (ℕ × ℕ) → ℕ
attempts_of id [] = 0
attempts_of id ((i, n) ∷ table) = if i == id then n else attempts_of id table

-- A key keeps its place in the table, a new one is added at its end.
unfoldable pub set_attempts : ℕ → ℕ → List (ℕ × ℕ) → List (ℕ × ℕ)
set_attempts id v [] = (id, v) ∷ []
set_attempts id v ((i, n) ∷ table) =
    if i == id then (id, v) ∷ table else (i, n) ∷ set_attempts id v table

drop_attempts : ℕ → List (ℕ × ℕ) → List (ℕ × ℕ)
drop_attempts id [] = []
drop_attempts id ((i, n) ∷ table) = if i == id then table else (i, n) ∷ drop_attempts id table

-- The last `n` of the list, `l[-n:]`.
keep_last {ℓ} : {A : Type ℓ} → ℕ → List A → List A
keep_last n l = drop (length l - n) l

-- `note_attempt`, where `saved` says whether the state could be saved: a failure rolls back.
unfoldable pub note_attempt : Bool → ℕ → Queue → Queue × Option ℕ
unfolding attempts_of set_attempts keep_last
note_attempt saved id q =
    let value = attempts_of id q.retry_attempts + 1 in
    if saved
    then (
      record q {
        retry_attempts = keep_last max_tracked_retries (set_attempts id value q.retry_attempts);
      },
      some value,
    )
    else (record q { state_save_failures = q.state_save_failures + 1 }, none)

-- `resolve(record_id, quarantine_token)`: nothing happens to what is already resolved. The save is
-- soft: when it fails the state in memory stays.
unfoldable pub resolve : ℕ → Option Token → Queue → Queue
unfolding drop_attempts keep_last
resolve id token q =
    let t = record q {
      resolved_through = id;
      retry_attempts = drop_attempts id q.retry_attempts;
    } in
    if leb id q.resolved_through then q else elim token [
      | none ↦ record t { acknowledged_total = t.acknowledged_total + 1 }
      | some k ↦ record t {
        quarantined_total = t.quarantined_total + 1;
        quarantine = keep_last quarantine_max_entries (t.quarantine ++ (k, id) ∷ []);
      }
    ]
