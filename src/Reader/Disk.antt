-- ===== src/Reader/Disk.antt =====
-- monitor-v2/journal_reader/reader.py: what the reader writes, as the sequence of its durable writes.
-- Every write is one atomic replacement, file creation or unlink (tmp file, fsync, rename, fsync of
-- the directory; but see `retention_plan`), so a crash or a failed write leaves the effect of a prefix of the sequence.
-- Scratch files are removed before anything is read, and the heartbeat is never read back.
pub mod Shapes
pub mod Recovery
pub mod Restart
pub mod Resets
pub mod Protocol
pub mod Atomic
use install_singboxhysteria.Reader.Retention.{evicted, Entry}
use install_singboxhysteria.Reader.State.{
  Committed, EvFile, make_pending, Pending, step4_committed, Action, Source, validate_committed,
  validate_pending, make_committed, evaluate_recovery, cold_start, fail_closed, first_activation,
  finish_commit, repoll, start, source_gap,
}
use install_singboxhysteria.Common.{
  ℕ, [], ◌∷◌, none, some, true, false, zero, suc, inl, inr, refl, ◌≡◌, arith, List, if◌then◌else◌,
  map, Bool, ◌+◌, ◌==◌, length, Option,
}

-- A state file: absent, not loadable, or holding an object.
pub data Stored (A : Type 0) : Type 0 where
  absent unreadable : Stored A
  stored : A → Stored A

pub record Disk : Type 0 where
  pub committed : Stored Committed
  pub pending : Stored Pending
  pub files : List EvFile

pub data Write : Type 0 where
  set_committed : Committed → Write
  set_pending : Pending → Write
  unlink_pending : Write
  put_file : EvFile → Write
  unlink_file : ℕ → Write

pub remove_file : ℕ → List EvFile → List EvFile
remove_file n [] = []
remove_file n (f ∷ fs) = let rest = remove_file n fs in if f.seq == n then rest else f ∷ rest

-- One durable write.
unfoldable pub apply : Write → Disk → Disk
unfolding remove_file
apply (set_committed c) d = record d { committed = stored c }
apply (set_pending p) d = record d { pending = stored p }
apply unlink_pending d = record d { pending = absent }
apply (put_file f) d = record d { files = f ∷ remove_file f.seq d.files }
apply (unlink_file n) d = record d { files = remove_file n d.files }

unfoldable pub execute : List Write → Disk → Disk
unfolding apply
execute [] d = d
execute (w ∷ ws) d = execute ws (apply w d)

-- `(seq, st_size)`.
entry_of : EvFile → Entry
entry_of f = record { seq = f.seq; size = length f.body }

-- `_enforce_retention` on the files that are there. Each unlink counts as durable at once; the code syncs the
-- directory once, behind the last of them, so that a crash before it may also bring evicted files back, which
-- is not modelled.
pub retention_plan : List EvFile → List Write
unfolding evicted entry_of
retention_plan files = map (λ (e : Entry). unlink_file e.seq) (evicted (map entry_of files))

module _ (since_form : List ℕ → Bool) where
  -- `load_committed`: absent, or an object that validates; anything else is not ok.
  pub load_committed : Stored Committed → Option (Option Committed)
  load_committed absent = some none
  load_committed unreadable = none
  load_committed (stored c) = if validate_committed since_form c then some (some c) else none

  pub load_pending : Stored Pending → Option (Option Pending)
  load_pending absent = some none
  load_pending unreadable = none
  load_pending (stored p) = if validate_pending since_form p then some (some p) else none

  -- What `startup` does for each action; `none` is the fail-stop.
  act : Action → Option Pending → Source → List EvFile → Option (List Write)
  act fail_closed p anchor files = none
  act first_activation p anchor files =
      some (set_committed (make_committed 0 1 cold_start anchor) ∷ retention_plan files)
  act finish_commit none anchor files = none
  act finish_commit (some p) anchor files =
      some (set_committed (step4_committed p) ∷ unlink_pending ∷ retention_plan files)
  act repoll none anchor files = some (retention_plan files)
  act repoll (some p) anchor files = some (unlink_pending ∷ retention_plan files)
  act start p anchor files = some (retention_plan files)

  recover :
      Option (Option Committed)
      → Option (Option Pending)
      → Source
      → List EvFile
      → Option (List Write)
  unfolding act
  recover none p anchor files = none
  recover (some c) none anchor files = none
  recover (some c) (some p) anchor files = act (evaluate_recovery c p files).1 p anchor files

  -- `startup`: the writes of the recovery, then of retention.
  unfoldable pub startup : Disk → Source → Option (List Write)
  unfolding recover load_committed load_pending retention_plan
  startup d anchor = recover (load_committed d.committed) (load_pending d.pending) anchor d.files

  -- What `reset_from_now` does for each action: a pending that nothing rests on is dropped first.
  reset_act : Action → Committed → Option Pending → Source → Option (List Write)
  unfolding make_committed
  reset_act repoll c (some p) anchor =
      some
        (unlink_pending ∷ set_committed (make_committed c.seq (c.epoch + 1) source_gap anchor) ∷ [])
  reset_act start c none anchor =
      some (set_committed (make_committed c.seq (c.epoch + 1) source_gap anchor) ∷ [])
  reset_act _ c p anchor = none

  reset_at :
      Option (Option Committed)
      → Option (Option Pending)
      → Source
      → List EvFile
      → Option (List Write)
  unfolding reset_act
  reset_at (some (some c)) (some p) anchor files =
      reset_act (evaluate_recovery (some c) p files).1 c p anchor
  reset_at _ _ anchor files = none

  -- `reset_from_now`; `none` is the refusal.
  unfoldable pub reset_from_now : Disk → Source → Option (List Write)
  unfolding reset_at load_committed load_pending
  reset_from_now d anchor =
      reset_at (load_committed d.committed) (load_pending d.pending) anchor d.files

-- `_commit_batch`: the writes that settle one batch, up to `end_cursor`. `body` is the text of
-- `exchange_body`, its header line included.
unfoldable pub batch_pending : List ℕ → Committed → List ℕ → Pending
unfolding make_pending
batch_pending run c end_cursor = make_pending run (c.seq + 1) c.epoch c.boundary end_cursor

pub batch_file : List ℕ → Committed → List ℕ → EvFile
batch_file run c body = record { seq = c.seq + 1; header = some (run, c.seq + 1); body = body }

unfoldable pub commit_batch : List ℕ → Committed → List ℕ → List ℕ → List EvFile → List Write
unfolding batch_pending batch_file retention_plan
commit_batch run c end_cursor body files =
    set_pending (batch_pending run c end_cursor)
    ∷ put_file (batch_file run c body)
    ∷ set_committed (step4_committed (batch_pending run c end_cursor))
    ∷ unlink_pending
    ∷ retention_plan (batch_file run c body ∷ remove_file (c.seq + 1) files)
