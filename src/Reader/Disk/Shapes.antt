-- ===== src/Reader/Disk/Shapes.antt =====
-- The shapes of a disk that the protocol can leave, and what each write does to them.
use install_singboxhysteria.Reader.State.Table.{UpTo}
use install_singboxhysteria.Reader.State.{
  EvFile, Pending, Committed, validate_pending, validate_committed,
}
use install_singboxhysteria.Reader.Disk.{
  Disk, remove_file, execute, EvFile, Write, Committed, Pending, absent, apply, validate_committed,
  validate_pending, stored,
}
use install_singboxhysteria.Common.{
  ℕ, [], ◌∷◌, some, true, zero, suc, ◌≡◌, arith, List, Bool, ◌≤◌, take, ◌+◌,
}

module _ (since_form : List ℕ → Bool) where
  abbrev pub ValidCommitted : Committed → Type 0
  ValidCommitted c = validate_committed since_form c ≡ true

  abbrev pub ValidPending : Pending → Type 0
  ValidPending p = validate_pending since_form p ≡ true

  -- Nothing there yet; a settled batch; a promised one with no file; one whose file is durable; and
  -- one that is committed while its pending is still there.
  pub data Shape (d : Disk) : Type 0 where
    fresh : d.committed ≡ absent → d.pending ≡ absent → d.files ≡ [] → Shape d
    settled :
        (c : Committed)
        → ValidCommitted c
        → d.committed ≡ stored c
        → d.pending ≡ absent
        → UpTo c.seq d.files
        → Shape d
    promised :
        (c : Committed) (p : Pending)
        → ValidCommitted c
        → ValidPending p
        → d.committed ≡ stored c
        → d.pending ≡ stored p
        → p.seq ≡ c.seq + 1
        → UpTo c.seq d.files
        → Shape d
    written :
        (c : Committed) (p : Pending) (f : EvFile) (fs : List EvFile)
        → ValidCommitted c
        → ValidPending p
        → d.committed ≡ stored c
        → d.pending ≡ stored p
        → p.seq ≡ c.seq + 1
        → d.files ≡ f ∷ fs
        → f.seq ≡ c.seq + 1
        → f.header ≡ some (p.run, c.seq + 1)
        → UpTo c.seq fs
        → Shape d
    done :
        (c : Committed) (p : Pending)
        → ValidCommitted c
        → ValidPending p
        → d.committed ≡ stored c
        → d.pending ≡ stored p
        → p.seq ≤ c.seq
        → UpTo c.seq d.files
        → Shape d

pub UpTo-remove_file : (n m : ℕ) (fs : List EvFile) → UpTo n fs → UpTo n (remove_file m fs)
unfolding remove_file
UpTo-remove_file n m [] h = tt
UpTo-remove_file n m (f ∷ fs) h = ground (arith, UpTo-remove_file n m fs h.1)

-- The property holds of the disk before, between and after the writes.
abbrev pub Along : (Disk → Type 0) → List Write → Disk → Type 0
Along P [] d = P d
Along P (w ∷ ws) d = P d × Along P ws (apply w d)

pub Along-execute :
    (P : Disk → Type 0) (k : ℕ) (ws : List Write) (d : Disk)
    → Along P ws d
    → P (execute (take k ws) d)
unfolding execute
Along-execute P zero [] d h = h
Along-execute P zero (w ∷ ws) d h = h.0
Along-execute P (suc k) [] d h = h
Along-execute P (suc k) (w ∷ ws) d h = Along-execute P k ws (apply w d) h.1
