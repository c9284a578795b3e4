-- ===== src/Reader/Disk/Recovery.antt =====
-- Crash recovery: every disk that the protocol can leave is recovered, and a batch is committed
-- exactly when its file is durable.
use install_singboxhysteria.Reader.State.Table.{UpTo, UpTo-weaken}
use install_singboxhysteria.Reader.Disk.Shapes.{
  ValidCommitted, Along, Shape, settled, UpTo-remove_file, promised, written, done,
}
use install_singboxhysteria.Reader.State.{
  step4_committed, validate_pending, EvFile, Pending, validate_committed, Committed,
  validate_source, Source, cursor_source, since_source,
}
use install_singboxhysteria.Reader.Retention.{Entry, evicted}
use install_singboxhysteria.Reader.Disk.{
  apply, retention_plan, commit_batch, Disk, EvFile, validate_committed, Pending, Committed, stored,
  absent, batch_pending, unlink_file, evicted, entry_of, Source, batch_file, remove_file,
}
use install_singboxhysteria.Common.{ℕ, [], ◌∷◌, true, false, refl, ◌≡◌, arith, List, Bool, map, ◌+◌}

module _ (since_form : List ℕ → Bool) where
  pub unlink-settled :
      (n : ℕ) (d : Disk) (c : Committed)
      → d.committed ≡ stored c
      → d.pending ≡ absent
      → UpTo c.seq d.files
      → ((apply (unlink_file n) d).committed ≡ stored c)
        × ((apply (unlink_file n) d).pending ≡ absent)
        × UpTo c.seq (apply (unlink_file n) d).files
  unfolding apply
  unlink-settled n d c e g h = (e, g, UpTo-remove_file c.seq n d.files h)

  -- Retention keeps a settled disk settled, at every step.
  unlinks-Along :
      (es : List Entry) (d : Disk) (c : Committed)
      → ValidCommitted since_form c
      → d.committed ≡ stored c
      → d.pending ≡ absent
      → UpTo c.seq d.files
      → Along (Shape since_form) (map (λ (e : Entry). unlink_file e.seq) es) d
  unlinks-Along [] d c v e g h = settled c v e g h
  unlinks-Along (x ∷ xs) d c v e g h =
      let (e', g', h') = unlink-settled x.seq d c e g h in
      (settled c v e g h, unlinks-Along xs (apply (unlink_file x.seq) d) c v e' g' h')

  pub retention-Along :
      (files : List EvFile) (d : Disk) (c : Committed)
      → ValidCommitted since_form c
      → d.committed ≡ stored c
      → d.pending ≡ absent
      → UpTo c.seq d.files
      → Along (Shape since_form) (retention_plan files) d
  unfolding retention_plan
  retention-Along files = unlinks-Along (evicted (map entry_of files))

  cursor_only :
      (s : Source)
      → validate_source since_form true s ≡ true
      → validate_source since_form false s ≡ true
  unfolding validate_source
  cursor_only (cursor_source value) h = h
  cursor_only (since_source value) h = cc

  pub step4-Valid :
      (p : Pending)
      → validate_pending since_form p ≡ true
      → validate_committed since_form (step4_committed p) ≡ true
  unfolding validate_pending validate_committed step4_committed
  step4-Valid p h = ground (arith, h, cursor_only p.source_end)

  pub seq-step4 : (p : Pending) → (step4_committed p).seq ≡ p.seq
  unfolding step4_committed
  seq-step4 p = refl

  -- Every prefix of the writes of one commit leaves a disk of a known shape.
  pub commit_batch-Along :
      (run : List ℕ) (c : Committed) (end_cursor body : List ℕ) (d : Disk)
      → ValidCommitted since_form c
      → validate_pending since_form (batch_pending run c end_cursor) ≡ true
      → d.committed ≡ stored c
      → d.pending ≡ absent
      → UpTo c.seq d.files
      → Along (Shape since_form) (commit_batch run c end_cursor body d.files) d
  unfolding commit_batch apply
  commit_batch-Along run c end_cursor body d v w e g h =
      let p = batch_pending run c end_cursor in
      let kept = UpTo-remove_file c.seq (c.seq + 1) d.files h in
      let upto : UpTo (step4_committed p).seq
          (batch_file run c body ∷ remove_file (c.seq + 1) d.files) =
        unfold step4_committed batch_pending batch_file in
        (
          omega arith,
          UpTo-weaken c.seq (c.seq + 1) (remove_file (c.seq + 1) d.files) (omega arith) kept,
        ) in
      (
        settled c v e g h,
        (
          promised c p v w e refl (unfold batch_pending in refl) h,
          (
            written c p (batch_file run c body) (remove_file (c.seq + 1) d.files) v w e refl
                (unfold batch_pending in refl) (unfold batch_file in refl)
                (unfold batch_file in refl) (unfold batch_file batch_pending in refl) kept,
            (
              done (step4_committed p) p (step4-Valid p w) w refl refl
                  (rw (seq-step4 p) (omega arith)) upto,
              retention-Along (batch_file run c body ∷ remove_file (c.seq + 1) d.files)
                  (record {
                    committed = stored (step4_committed p);
                    pending = absent;
                    files = batch_file run c body ∷ remove_file (c.seq + 1) d.files;
                  })
                  (step4_committed p) (step4-Valid p w) refl refl upto,
            ),
          ),
        ),
      )
