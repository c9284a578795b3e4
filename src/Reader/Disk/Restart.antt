-- ===== src/Reader/Disk/Restart.antt =====
-- A restart of a disk in any shape that the protocol leaves: it goes on, and ends settled.
use install_singboxhysteria.Reader.Disk.Recovery.{
  unlink-settled, retention-Along, step4-Valid, seq-step4,
}
use install_singboxhysteria.Reader.State.Table.{UpTo, row_start, UpTo-weaken, row_durable}
use install_singboxhysteria.Reader.Retention.{Entry, evicted}
use install_singboxhysteria.Reader.Disk.Shapes.{
  ValidCommitted, ValidPending, Along, Shape, fresh, written, done,
}
use install_singboxhysteria.Reader.State.{
  Committed, EvFile, Source, Pending, make_committed, evaluate_recovery, validate_source, repoll,
  step4_committed, cold_start, validate_committed,
}
use install_singboxhysteria.Reader.Disk.{
  Disk, execute, retention_plan, load_committed, load_pending, startup, Source, Pending, Entry,
  EvFile, stored, Write, Stored, evicted, absent, recover, unlink_file, entry_of, apply, act,
  make_committed, evaluate_recovery, repoll, step4_committed, cold_start, unlink_pending,
  validate_committed, set_committed,
}
use install_singboxhysteria.Common.{
  ℕ, [], ◌∷◌, some, true, false, refl, ◌≡◌, arith, List, Bool, map, ◌∙◌, ◌+◌,
}

module _ (since_form : List ℕ → Bool) where
  -- The committed object validates, nothing is pending, and no file is above the committed seq.
  abbrev pub Settled : Committed → Disk → Type 0
  Settled c d =
      ValidCommitted since_form c
      × (d.committed ≡ stored c)
      × (d.pending ≡ absent)
      × UpTo c.seq d.files

  -- The plan of a restart, each disk on its way, and the object that is committed in the end.
  pub record EndsWell (d : Disk) (anchor : Source) (c : Committed) : Type 0 where
    pub plan : List Write
    pub goes_on : startup since_form d anchor ≡ some plan
    pub along : Along (Shape since_form) plan d
    pub ends : Settled c (execute plan d)

  startup-eq :
      (d : Disk) (anchor : Source) (c : Stored Committed) (p : Stored Pending) (files : List EvFile)
      → d.committed ≡ c
      → d.pending ≡ p
      → d.files ≡ files
      → startup since_form d anchor
        ≡ recover since_form (load_committed since_form c) (load_pending since_form p) anchor files
  unfolding startup
  startup-eq d anchor c p files e g h = cc

  pub loads_committed :
      (c : Committed)
      → ValidCommitted since_form c
      → load_committed since_form (stored c) ≡ some (some c)
  unfolding load_committed
  loads_committed c v = rw v

  pub loads_pending :
      (p : Pending) → ValidPending since_form p → load_pending since_form (stored p) ≡ some (some p)
  unfolding load_pending
  loads_pending p v = rw v

  pub execute-unlinks :
      (es : List Entry) (d : Disk) (c : Committed)
      → Settled c d
      → Settled c (execute (map (λ (e : Entry). unlink_file e.seq) es) d)
  unfolding execute
  execute-unlinks [] d c s = s
  execute-unlinks (x ∷ xs) d c (v, e, g, h) =
      let (e', g', h') = unlink-settled since_form x.seq d c e g h in
      execute-unlinks xs (apply (unlink_file x.seq) d) c (v, e', g', h')

  execute-retention :
      (files : List EvFile) (d : Disk) (c : Committed)
      → Settled c d
      → Settled c (execute (retention_plan files) d)
  unfolding retention_plan
  execute-retention files = execute-unlinks (evicted (map entry_of files))

  pub restart-Settled :
      (d : Disk) (anchor : Source) (c : Committed) → Settled c d → EndsWell d anchor c
  restart-Settled d anchor c (v, e, g, h) = record {
    plan = retention_plan d.files;
    goes_on =
        startup-eq d anchor (stored c) absent d.files e g refl
        ∙ rw (loads_committed c v) (unfold load_pending recover act in rw (row_start c d.files h));
    along = retention-Along since_form d.files d c v e g h;
    ends = execute-retention d.files d c (v, e, g, h);
  }

  pub restart-fresh :
      (d : Disk) (anchor : Source)
      → validate_source since_form false anchor ≡ true
      → d.committed ≡ absent
      → d.pending ≡ absent
      → d.files ≡ []
      → EndsWell d anchor (make_committed 0 1 cold_start anchor)
  unfolding make_committed
  restart-fresh d anchor v e g h =
      let c = make_committed 0 1 cold_start anchor in
      let valid : ValidCommitted since_form c = unfold validate_committed in v in
      let upto : UpTo 0 d.files = rw h tt in
      let d' = apply (set_committed c) d in
      record {
        plan = set_committed c ∷ retention_plan [];
        goes_on =
            startup-eq d anchor absent absent [] e g h
            ∙ (unfold load_committed load_pending recover act evaluate_recovery in refl);
        along = (
          fresh e g h,
          retention-Along since_form [] d' c valid (unfold apply in refl) (unfold apply in g)
              (unfold apply in upto),
        );
        ends =
            unfold execute in
            execute-retention [] d' c
              (valid, unfold apply in refl, unfold apply in g, unfold apply in upto);
      }

  -- A pending whose file is not there, or whose batch is already committed, is dropped.
  pub restart-drop :
      (d : Disk) (anchor : Source) (c : Committed) (p : Pending) (row : ℕ)
      → Shape since_form d
      → ValidCommitted since_form c
      → ValidPending since_form p
      → d.committed ≡ stored c
      → d.pending ≡ stored p
      → UpTo c.seq d.files
      → evaluate_recovery (some c) (some p) d.files ≡ (row, repoll)
      → EndsWell d anchor c
  restart-drop d anchor c p row s v w e g h r =
      let d' = apply unlink_pending d in
      record {
        plan = unlink_pending ∷ retention_plan d.files;
        goes_on =
            startup-eq d anchor (stored c) (stored p) d.files e g refl
            ∙ rw (loads_committed c v, loads_pending p w) (unfold recover act in rw r);
        along = (
          s,
          retention-Along since_form d.files d' c v (unfold apply in e) (unfold apply in refl)
              (unfold apply in h),
        );
        ends =
            unfold execute in
            execute-retention d.files d' c
              (v, unfold apply in e, unfold apply in refl, unfold apply in h);
      }

  pub restart-finish :
      (d : Disk) (anchor : Source) (c : Committed) (p : Pending) (f : EvFile) (fs : List EvFile)
      → ValidCommitted since_form c
      → ValidPending since_form p
      → d.committed ≡ stored c
      → d.pending ≡ stored p
      → p.seq ≡ c.seq + 1
      → d.files ≡ f ∷ fs
      → f.seq ≡ c.seq + 1
      → f.header ≡ some (p.run, c.seq + 1)
      → UpTo c.seq fs
      → EndsWell d anchor (step4_committed p)
  restart-finish d anchor c p f fs v w e g n hf k m h =
      let c' = step4_committed p in
      let v' = step4-Valid since_form p w in
      let upto : UpTo c'.seq d.files =
        rw hf
          (unfold step4_committed in (omega arith, UpTo-weaken c.seq p.seq fs (omega arith) h)) in
      let d1 = apply (set_committed c') d in
      let d2 = apply unlink_pending d1 in
      record {
        plan = set_committed c' ∷ unlink_pending ∷ retention_plan (f ∷ fs);
        goes_on =
            startup-eq d anchor (stored c) (stored p) (f ∷ fs) e g hf
            ∙ rw (loads_committed c v, loads_pending p w)
                (unfold recover act in rw (row_durable c p f fs n k m h));
        along = (
          written c p f fs v w e g n hf k m h,
          (
            done c' p v' w (unfold apply in refl) (unfold apply in g)
                (rw (seq-step4 since_form p) (omega arith)) (unfold apply in upto),
            retention-Along since_form (f ∷ fs) d2 c' v' (unfold apply in refl)
                (unfold apply in refl) (unfold apply in upto),
          ),
        );
        ends =
            unfold execute in
            execute-retention (f ∷ fs) d2 c'
              (v', unfold apply in refl, unfold apply in refl, unfold apply in upto);
      }
