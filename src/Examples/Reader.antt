-- ===== src/Examples/Reader.antt =====
-- The reader's disk on small inputs.
use install_singboxhysteria.Reader.Cursor.{validate_cursor}
use install_singboxhysteria.Reader.State.Table.{UpTo, recovery_table_sound}
use install_singboxhysteria.Reader.Disk.Protocol.{restart_always_recovers, blank}
use install_singboxhysteria.Reader.Retention.Bounds.{Retains, retention_bounds}
use install_singboxhysteria.Reader.Disk.{Disk, absent, stored, batch_pending}
use install_singboxhysteria.Reader.Disk.Restart.{EndsWell}
use install_singboxhysteria.Reader.Disk.Atomic.{cut_off, commit_atomic}
use install_singboxhysteria.Reader.Retention.{Entry}
use install_singboxhysteria.Common.{
  ℕ, [], ◌∷◌, none, some, true, refl, ◌≡◌, arith, List, Bool, Option,
}
use install_singboxhysteria.Reader.State.{
  Committed, Source, make_committed, evaluate_recovery, since_source, cold_start, Pending,
  validate_source, validate_committed, validate_pending, make_pending,
}

abbrev any_since : List ℕ → Bool
any_since s = true

abbrev anchor_now : Source
anchor_now = since_source (65 ∷ [])

abbrev at_zero : Committed
at_zero = make_committed 0 1 cold_start anchor_now

abbrev zero_run : List ℕ
zero_run =
    48 ∷ 48 ∷ 48 ∷ 48 ∷ 48 ∷ 48 ∷ 48 ∷ 48 ∷ 48 ∷ 48 ∷ 48 ∷ 48 ∷ 48 ∷ 48 ∷ 48 ∷ 48 ∷ 48 ∷ 48 ∷ 48
    ∷ 48 ∷ 48 ∷ 48 ∷ 48 ∷ 48 ∷ 48 ∷ 48 ∷ 48 ∷ 48 ∷ 48 ∷ 48 ∷ 48 ∷ 48 ∷ []

abbrev blank_disk : Disk
blank_disk = record { committed = absent; pending = absent; files = [] }

abbrev first_disk : Disk
first_disk = record { committed = stored at_zero; pending = absent; files = [] }

abbrev no_pending : Option Pending
no_pending = none

recovery_table_sound_example :
    (d : Committed) × (some at_zero ≡ some d) × (no_pending ≡ none) × UpTo d.seq []
recovery_table_sound_example =
    (recovery_table_sound (some at_zero) no_pending []).0 (unfold evaluate_recovery in refl)

abbrev few : List Entry
few = record { seq = 2; size = 9 } ∷ record { seq = 1; size = 5 } ∷ []

retention_bounds_example : Retains few
retention_bounds_example = retention_bounds few

restart_always_recovers_example : (c : Committed) × EndsWell any_since blank_disk anchor_now c
restart_always_recovers_example =
    restart_always_recovers any_since blank_disk anchor_now (blank blank_disk refl refl refl)
      (unfold validate_source in refl)

commit_atomic_example :
    (cut_off any_since 1 zero_run at_zero (120 ∷ []) (1 ∷ []) first_disk).files ≡ []
unfolding validate_cursor
commit_atomic_example =
    ((commit_atomic any_since zero_run at_zero (120 ∷ []) (1 ∷ []) first_disk anchor_now
        (unfold validate_committed make_committed validate_source in refl, refl, refl, tt)
        (unfold validate_pending batch_pending make_committed make_pending in refl)).0
      1 (omega arith)).0
