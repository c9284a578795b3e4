-- ===== src/Reader/Disk/Resets.antt =====
-- `reset_from_now`: the operator's epoch transition keeps the disk in a known shape.
use install_singboxhysteria.Reader.State.Table.{row_start, row_abandoned, row_stale, row_durable}
use install_singboxhysteria.Reader.Disk.Shapes.{
  Along, Shape, ValidCommitted, ValidPending, settled, fresh, promised, done, written,
}
use install_singboxhysteria.Reader.Disk.Restart.{Settled, loads_committed, loads_pending}
use install_singboxhysteria.Reader.State.{
  validate_committed, Committed, make_committed, Source, validate_source, Pending, source_gap,
  EvFile, evaluate_recovery, repoll, finish_commit,
}
use install_singboxhysteria.Reader.Disk.{
  Disk, apply, reset_from_now, Source, make_committed, Stored, Pending, Write, EvFile, source_gap,
  set_committed, reset_at, stored, load_committed, absent, evaluate_recovery, load_pending, repoll,
  unlink_pending, reset_act, finish_commit,
}
use install_singboxhysteria.Common.{
  ℕ, [], ◌∷◌, none, some, true, false, refl, ◌≡◌, arith, List, Bool, ◌+◌, ◌∙◌, subst, sym,
}

plan_eq : {xs ys : List Write} → some xs ≡ some ys → xs ≡ ys
plan_eq h = cc

module _ (since_form : List ℕ → Bool) where
  reset-eq :
      (d : Disk) (anchor : Source) (c : Stored Committed) (p : Stored Pending) (files : List EvFile)
      → d.committed ≡ c
      → d.pending ≡ p
      → d.files ≡ files
      → reset_from_now since_form d anchor
        ≡ reset_at since_form (load_committed since_form c) (load_pending since_form p) anchor files
  unfolding reset_from_now
  reset-eq d anchor c p files e g h = cc

  -- The committed object of a reset: the next epoch, marked as a gap, at the seq as it was.
  unfoldable pub reset_committed : Committed → Source → Committed
  reset_committed c anchor = make_committed c.seq (c.epoch + 1) source_gap anchor

  reset_committed-Valid :
      (c : Committed) (anchor : Source)
      → validate_source since_form false anchor ≡ true
      → ValidCommitted since_form (reset_committed c anchor)
  unfolding reset_committed validate_committed make_committed
  reset_committed-Valid c anchor v = rw v (ground arith)

  reset-Settled :
      (d : Disk) (anchor : Source) (c : Committed)
      → Settled since_form c d
      → reset_from_now since_form d anchor ≡ some (set_committed (reset_committed c anchor) ∷ [])
  unfolding reset_committed
  reset-Settled d anchor c (v, e, g, h) =
      reset-eq d anchor (stored c) absent d.files e g refl
      ∙ rw (loads_committed since_form c v)
          (unfold load_pending reset_at reset_act in rw (row_start c d.files h))

  reset-drop :
      (d : Disk) (anchor : Source) (c : Committed) (p : Pending) (row : ℕ)
      → ValidCommitted since_form c
      → ValidPending since_form p
      → d.committed ≡ stored c
      → d.pending ≡ stored p
      → evaluate_recovery (some c) (some p) d.files ≡ (row, repoll)
      → reset_from_now since_form d anchor
        ≡ some (unlink_pending ∷ set_committed (reset_committed c anchor) ∷ [])
  unfolding reset_committed
  reset-drop d anchor c p row v w e g r =
      reset-eq d anchor (stored c) (stored p) d.files e g refl
      ∙ rw (loads_committed since_form c v, loads_pending since_form p w)
          (unfold reset_at reset_act in rw r)

  reset-fresh :
      (d : Disk) (anchor : Source)
      → d.committed ≡ absent
      → d.pending ≡ absent
      → d.files ≡ []
      → reset_from_now since_form d anchor ≡ none
  reset-fresh d anchor e g h =
      reset-eq d anchor absent absent [] e g h
      ∙ (unfold load_committed load_pending reset_at in refl)

  reset-durable :
      (d : Disk) (anchor : Source) (c : Committed) (p : Pending) (f : EvFile) (fs : List EvFile)
      → ValidCommitted since_form c
      → ValidPending since_form p
      → d.committed ≡ stored c
      → d.pending ≡ stored p
      → d.files ≡ f ∷ fs
      → evaluate_recovery (some c) (some p) (f ∷ fs) ≡ (2, finish_commit)
      → reset_from_now since_form d anchor ≡ none
  reset-durable d anchor c p f fs v w e g hf r =
      reset-eq d anchor (stored c) (stored p) (f ∷ fs) e g hf
      ∙ rw (loads_committed since_form c v, loads_pending since_form p w)
          (unfold reset_at reset_act in rw r)

  Settled-Along :
      (d : Disk) (anchor : Source) (c : Committed)
      → validate_source since_form false anchor ≡ true
      → Settled since_form c d
      → Along (Shape since_form) (set_committed (reset_committed c anchor) ∷ []) d
  unfolding apply
  Settled-Along d anchor c a (v, e, g, h) = (
    settled c v e g h,
    settled (reset_committed c anchor) (reset_committed-Valid c anchor a) refl g
        (unfold reset_committed make_committed in h),
  )

  -- A reset that is not refused leaves a known shape after each of its writes.
  pub reset-Along :
      (d : Disk) (anchor : Source) (plan : List Write)
      → validate_source since_form false anchor ≡ true
      → Shape since_form d
      → reset_from_now since_form d anchor ≡ some plan
      → Along (Shape since_form) plan d
  reset-Along d anchor plan a (fresh e g h) s = cc (reset-fresh d anchor e g h, s)
  reset-Along d anchor plan a (settled c v e g h) s =
      subst (λ (ws : List Write). Along (Shape since_form) ws d)
        (plan_eq (sym (reset-Settled d anchor c (v, e, g, h)) ∙ s))
        (Settled-Along d anchor c a (v, e, g, h))
  reset-Along d anchor plan a (promised c p v w e g n h) s =
      subst (λ (ws : List Write). Along (Shape since_form) ws d)
        (plan_eq (sym (reset-drop d anchor c p 3 v w e g (row_abandoned c p d.files n h)) ∙ s))
        (
          promised c p v w e g n h,
          Settled-Along (apply unlink_pending d) anchor c a
              (v, unfold apply in e, unfold apply in refl, unfold apply in h),
        )
  reset-Along d anchor plan a (done c p v w e g n h) s =
      subst (λ (ws : List Write). Along (Shape since_form) ws d)
        (plan_eq (sym (reset-drop d anchor c p 4 v w e g (row_stale c p d.files n)) ∙ s))
        (
          done c p v w e g n h,
          Settled-Along (apply unlink_pending d) anchor c a
              (v, unfold apply in e, unfold apply in refl, unfold apply in h),
        )
  reset-Along d anchor plan a (written c p f fs v w e g n hf k m h) s =
      cc (reset-durable d anchor c p f fs v w e g hf (row_durable c p f fs n k m h), s)
