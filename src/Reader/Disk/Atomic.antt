-- ===== src/Reader/Disk/Atomic.antt =====
-- A commit that is cut off anywhere is, after a restart, either as if it had not been made or as if it
-- had been made whole.
use install_singboxhysteria.Reader.Disk.Shapes.{UpTo-remove_file, ValidCommitted, promised, done}
use install_singboxhysteria.Reader.State.Table.{UpTo, UpTo-weaken, row_abandoned, row_stale}
use install_singboxhysteria.Reader.Disk.Recovery.{unlink-settled, step4-Valid, seq-step4}
use install_singboxhysteria.Reader.Disk.Restart.{
  Settled, EndsWell, restart-Settled, restart-drop, restart-finish,
}
use install_singboxhysteria.Reader.Retention.{Entry, evicted}
use install_singboxhysteria.Reader.State.{
  Committed, Source, validate_pending, step4_committed, Pending, EvFile,
}
use install_singboxhysteria.Reader.Disk.{
  execute, Entry, Disk, Source, commit_batch, validate_pending, unlink_file, batch_pending, apply,
  step4_committed, Pending, EvFile, batch_file, remove_file, set_pending, stored, absent,
  retention_plan, evicted, entry_of,
}
use install_singboxhysteria.Common.{
  ℕ, [], ◌∷◌, true, zero, suc, refl, ◌≡◌, arith, List, Bool, take, map, ◌<◌, ◌+◌, ◌≤◌,
}

module _ (since_form : List ℕ → Bool) where
  prefix_unlinks :
      (k : ℕ) (es : List Entry) (d : Disk) (c : Committed)
      → Settled since_form c d
      → Settled since_form c (execute (take k (map (λ (e : Entry). unlink_file e.seq) es)) d)
  unfolding execute
  prefix_unlinks zero es d c s = s
  prefix_unlinks (suc k) [] d c s = s
  prefix_unlinks (suc k) (x ∷ xs) d c (v, e, g, h) =
      let (e', g', h') = unlink-settled since_form x.seq d c e g h in
      prefix_unlinks k xs (apply (unlink_file x.seq) d) c (v, e', g', h')

  -- The disk after the first `k` writes of a commit.
  abbrev pub cut_off : ℕ → List ℕ → Committed → List ℕ → List ℕ → Disk → Disk
  cut_off k run c end_cursor body d =
      execute (take k (commit_batch run c end_cursor body d.files)) d

  -- For a commit from a settled disk, with a pending object that validates, cut off after any number of
  -- writes: before the second write nothing of the batch is visible, and a restart ends at the committed
  -- object from before; from the second write on, a restart ends with the batch settled.
  pub commit_atomic :
      (run : List ℕ) (c : Committed) (end_cursor body : List ℕ) (d : Disk) (anchor : Source)
      → Settled since_form c d
      → validate_pending since_form (batch_pending run c end_cursor) ≡ true
      → ((k : ℕ)
          → k < 2
          → ((cut_off k run c end_cursor body d).files ≡ d.files)
            × EndsWell since_form (cut_off k run c end_cursor body d) anchor c)
        × ((k : ℕ)
            → EndsWell since_form
                (cut_off (suc (suc k)) run c end_cursor body d)
                anchor
                (step4_committed (batch_pending run c end_cursor)))
  unfolding execute apply commit_batch
  commit_atomic run c end_cursor body d anchor (v, e, g, h) w = (before, after)
    where
      p : Pending
      p = batch_pending run c end_cursor

      f : EvFile
      f = batch_file run c body

      rest : List EvFile
      rest = remove_file (c.seq + 1) d.files

      kept : UpTo c.seq rest
      kept = UpTo-remove_file c.seq (c.seq + 1) d.files h

      upto : UpTo (step4_committed p).seq (f ∷ rest)
      upto =
          unfold step4_committed batch_pending batch_file in
          (omega arith, UpTo-weaken c.seq (c.seq + 1) rest (omega arith) kept)

      valid : ValidCommitted since_form (step4_committed p)
      valid = step4-Valid since_form p w

      before :
          (k : ℕ)
          → k < 2
          → ((cut_off k run c end_cursor body d).files ≡ d.files)
            × EndsWell since_form (cut_off k run c end_cursor body d) anchor c
      before zero q = (refl, restart-Settled since_form d anchor c (v, e, g, h))
      before (suc zero) q =
          let n : p.seq ≡ c.seq + 1 = unfold batch_pending in refl in
          (
            refl,
            restart-drop since_form (apply (set_pending p) d) anchor c p 3
                (promised c p v w e refl n h) v w e refl h (row_abandoned c p d.files n h),
          )
      before (suc (suc k)) q = absurd (omega arith)

      after :
          (k : ℕ)
          → EndsWell since_form
              (cut_off (suc (suc k)) run c end_cursor body d)
              anchor
              (step4_committed (batch_pending run c end_cursor))
      after zero =
          restart-finish since_form
            (record { committed = d.committed; pending = stored p; files = f ∷ rest }) anchor c p f
            rest v w e refl (unfold batch_pending in refl) refl (unfold batch_file in refl)
            (unfold batch_file batch_pending in refl) kept
      after (suc zero) =
          let n : p.seq ≤ (step4_committed p).seq = rw (seq-step4 since_form p) (omega arith) in
          restart-drop since_form
            (record {
              committed = stored (step4_committed p);
              pending = stored p;
              files = f ∷ rest;
            })
            anchor (step4_committed p) p 4 (done (step4_committed p) p valid w refl refl n upto)
            valid w refl refl upto (row_stale (step4_committed p) p (f ∷ rest) n)
      after (suc (suc k)) =
          let d4 : Disk = record {
            committed = stored (step4_committed p);
            pending = absent;
            files = f ∷ rest;
          } in
          restart-Settled since_form (execute (take k (retention_plan (f ∷ rest))) d4) anchor
            (step4_committed p)
            (unfold retention_plan in
              prefix_unlinks k (evicted (map entry_of (f ∷ rest))) d4 (step4_committed p)
                (valid, refl, refl, upto))
