-- ===== src/Reader/State.antt =====
-- monitor-v2/journal_reader/state.py: `committed`, `pending` and the recovery table.
-- A loaded object has its fields; what is not such an object is `unreadable`. Whether a text is a
-- date of the fixed local form is `since_form`: `re` and `datetime.strptime` decide it.
pub mod Table
use install_singboxhysteria.Reader.Cursor.{validate_cursor}
use install_singboxhysteria.Common.{
  ℕ, [], ◌∷◌, none, some, true, false, zero, suc, inl, inr, refl, ◌≡◌, arith, List, Bool, Option,
  leb, length, ◌&&◌, ◌==◌, if◌then◌else◌, any, ◌||◌, all, ltb, ◌+◌, not,
}

pub data Boundary : Type 0 where
  no_boundary cold_start source_gap : Boundary

pub data Source : Type 0 where
  cursor_source since_source : List ℕ → Source

pub record Committed : Type 0 where
  pub seq : ℕ
  pub epoch : ℕ
  pub boundary : Boundary
  pub source : Source

pub record Pending : Type 0 where
  pub run : List ℕ
  pub seq : ℕ
  pub epoch : ℕ
  pub boundary : Boundary
  pub source_end : Source

-- [0-9a-f]
hex_digit : ℕ → Bool
hex_digit c = (leb b'0' c && leb c b'9') || (leb b'a' c && leb c b'f')

-- RUN_RE: 32 hexadecimal digits.
pub run_form : List ℕ → Bool
unfolding hex_digit
run_form run = length run == 32 && all hex_digit run

module _ (since_form : List ℕ → Bool) where
  -- `validate_source(source, cursor_mode_only)`
  unfoldable pub validate_source : Bool → Source → Bool
  validate_source cursor_only (cursor_source value) = validate_cursor value
  validate_source true (since_source value) = false
  validate_source false (since_source value) = since_form value

  unfoldable pub validate_committed : Committed → Bool
  unfolding validate_source
  validate_committed c = leb 1 c.epoch && validate_source false c.source

  unfoldable pub validate_pending : Pending → Bool
  unfolding validate_source run_form
  validate_pending p =
      run_form p.run && (leb 1 p.seq && (leb 1 p.epoch && validate_source true p.source_end))

unfoldable pub make_committed : ℕ → ℕ → Boundary → Source → Committed
make_committed seq epoch boundary source = record {
  seq = seq;
  epoch = epoch;
  boundary = boundary;
  source = source;
}

unfoldable pub make_pending : List ℕ → ℕ → ℕ → Boundary → List ℕ → Pending
make_pending run seq epoch boundary end_cursor = record {
  run = run;
  seq = seq;
  epoch = epoch;
  boundary = boundary;
  source_end = cursor_source end_cursor;
}

-- The settled batch: boundary cleared, the source taken from `source_end`.
unfoldable pub step4_committed : Pending → Committed
unfolding make_committed
step4_committed p = make_committed p.seq p.epoch no_boundary p.source_end

-- An exchange file ev-<seq>.jsonl: all the bytes that it holds, and the run and the seq that its first line,
-- the header, gives, `none` where the header does not validate.
pub record EvFile : Type 0 where
  pub seq : ℕ
  pub header : Option (List ℕ × ℕ)
  pub body : List ℕ

same_text : List ℕ → List ℕ → Bool
same_text [] [] = true
same_text (a ∷ s) (b ∷ t) = a == b && same_text s t
same_text _ _ = false

header_is : Option (List ℕ × ℕ) → List ℕ → ℕ → Bool
unfolding same_text
header_is none run seq = false
header_is (some (r, n)) run seq = n == seq && same_text r run

-- `header_matches(out_dir, seq, run, expect_seq)`
unfoldable pub header_matches : List EvFile → ℕ → List ℕ → ℕ → Bool
unfolding header_is
header_matches [] seq run expected = false
header_matches (f ∷ fs) seq run expected =
    if f.seq == seq then header_is f.header run expected else header_matches fs seq run expected

pub data Action : Type 0 where
  start finish_commit repoll fail_closed first_activation : Action

abbrev pub durable : ℕ → List EvFile → Bool
durable n files = any (λ (f : EvFile). f.seq == n) files

abbrev pub beyond : ℕ → List EvFile → Bool
beyond n files = any (λ (f : EvFile). ltb n f.seq) files

-- With no `committed`: only a first activation, with nothing else there, may go on.
no_committed : Option Pending → List EvFile → ℕ × Action
no_committed none [] = (7, first_activation)
no_committed _ _ = (8, fail_closed)

no_pending : ℕ → List EvFile → ℕ × Action
no_pending cs files =
    if durable (cs + 1) files
    then (6, fail_closed)
    else if beyond (cs + 1) files
    then (8, fail_closed)
    else (1, start)

with_pending : ℕ → Pending → List EvFile → ℕ × Action
with_pending cs p files =
    if leb p.seq cs
    then (4, repoll)
    else if ltb (cs + 1) p.seq
    then (5, fail_closed)
    else if beyond (cs + 1) files
    then (8, fail_closed)
    else if not (durable (cs + 1) files)
    then (3, repoll)
    else if header_matches files (cs + 1) p.run p.seq
    then (2, finish_commit)
    else (6, fail_closed)

-- The table of recovery: the row and the action.
unfoldable pub evaluate_recovery : Option Committed → Option Pending → List EvFile → ℕ × Action
unfolding no_committed no_pending with_pending
evaluate_recovery none p files = no_committed p files
evaluate_recovery (some c) none files = no_pending c.seq files
evaluate_recovery (some c) (some p) files = with_pending c.seq p files
