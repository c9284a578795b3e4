-- ===== src/Reader/Disk/Protocol.antt =====
-- The protocol as a whole: no crash leaves a disk that a restart refuses, and a batch is committed
-- exactly when its file became durable.
use install_singboxhysteria.Reader.State.Table.{row_abandoned, row_stale}
use install_singboxhysteria.Reader.Disk.Resets.{reset-Along}
use install_singboxhysteria.Reader.Disk.Recovery.{commit_batch-Along}
use install_singboxhysteria.Reader.Disk.Restart.{
  EndsWell, Settled, restart-fresh, restart-Settled, restart-drop, restart-finish,
}
use install_singboxhysteria.Reader.Disk.Shapes.{
  Shape, fresh, Along-execute, settled, promised, written, done,
}
use install_singboxhysteria.Reader.State.{
  Source, validate_source, Committed, make_committed, cold_start, validate_pending, step4_committed,
}
use install_singboxhysteria.Reader.Disk.{
  Disk, Source, absent, Write, Committed, startup, execute, make_committed, cold_start,
  validate_pending, commit_batch, batch_pending, reset_from_now, step4_committed,
}
use install_singboxhysteria.Common.{ℕ, [], some, true, false, ◌≡◌, List, Bool, subst, take}

module _ (since_form : List ℕ → Bool) where
  restart-Shape :
      (d : Disk) (anchor : Source)
      → validate_source since_form false anchor ≡ true
      → Shape since_form d
      → (c : Committed) × EndsWell since_form d anchor c
  restart-Shape d anchor v (fresh e g h) =
      (make_committed 0 1 cold_start anchor, restart-fresh since_form d anchor v e g h)
  restart-Shape d anchor v (settled c w e g h) =
      (c, restart-Settled since_form d anchor c (w, e, g, h))
  restart-Shape d anchor v (promised c p w x e g n h) = (
    c,
    restart-drop since_form d anchor c p 3 (promised c p w x e g n h) w x e g h
        (row_abandoned c p d.files n h),
  )
  restart-Shape d anchor v (written c p f fs w x e g n hf k m h) =
      (step4_committed p, restart-finish since_form d anchor c p f fs w x e g n hf k m h)
  restart-Shape d anchor v (done c p w x e g n h) = (
    c,
    restart-drop since_form d anchor c p 4 (done c p w x e g n h) w x e g h
        (row_stale c p d.files n),
  )

  -- The disks that restarts, commits and resets can leave, each cut off after any of its writes. A
  -- commit is made by a process whose own restart and commits ended, from a settled disk.
  pub data Reached : Disk → Type 0 where
    blank : (d : Disk) → d.committed ≡ absent → d.pending ≡ absent → d.files ≡ [] → Reached d
    restarted :
        {d : Disk} (anchor : Source) (plan : List Write) (k : ℕ) (d' : Disk)
        → Reached d
        → validate_source since_form false anchor ≡ true
        → startup since_form d anchor ≡ some plan
        → execute (take k plan) d ≡ d'
        → Reached d'
    commits :
        {d : Disk} (run : List ℕ) (c : Committed) (end_cursor body : List ℕ) (k : ℕ) (d' : Disk)
        → Reached d
        → Settled since_form c d
        → validate_pending since_form (batch_pending run c end_cursor) ≡ true
        → execute (take k (commit_batch run c end_cursor body d.files)) d ≡ d'
        → Reached d'
    resets :
        {d : Disk} (anchor : Source) (plan : List Write) (k : ℕ) (d' : Disk)
        → Reached d
        → validate_source since_form false anchor ≡ true
        → reset_from_now since_form d anchor ≡ some plan
        → execute (take k plan) d ≡ d'
        → Reached d'

  Reached-Shape : {d : Disk} → Reached d → Shape since_form d
  Reached-Shape (blank d e g h) = fresh e g h
  Reached-Shape (restarted {d = d} anchor plan k d' r v s e) =
      let (c, t) = restart-Shape d anchor v (Reached-Shape r) in
      let same : t.plan ≡ plan = cc (t.goes_on, s) in
      subst (Shape since_form) e (
        subst (λ (ws : List Write). Shape since_form (execute (take k ws) d)) same
          (Along-execute (Shape since_form) k t.plan d t.along))
  Reached-Shape (commits {d = d} run c end_cursor body k d' r (v, e, g, h) w q) =
      subst (Shape since_form) q (
        Along-execute (Shape since_form) k (commit_batch run c end_cursor body d.files) d
          (commit_batch-Along since_form run c end_cursor body d v w e g h))
  Reached-Shape (resets {d = d} anchor plan k d' r v s e) = subst (Shape since_form) e (
      Along-execute (Shape since_form) k plan d
        (reset-Along since_form d anchor plan v (Reached-Shape r) s))

  -- However often and wherever the reader was cut off before, a restart with a valid anchor goes on,
  -- and if it is not cut off it ends with a valid committed object, nothing pending and no file above
  -- the committed seq.
  pub restart_always_recovers :
      (d : Disk) (anchor : Source)
      → Reached d
      → validate_source since_form false anchor ≡ true
      → (c : Committed) × EndsWell since_form d anchor c
  restart_always_recovers d anchor r v = restart-Shape d anchor v (Reached-Shape r)
