-- ===== src/Reader/State/Table.antt =====
-- The recovery table, row by row, and what each action that goes on rests on.
use install_singboxhysteria.Reader.State.{
  same_text, header_is, header_matches, evaluate_recovery, EvFile, Committed, durable, start,
  Pending, beyond, repoll, finish_commit, first_activation,
}
use install_singboxhysteria.Common.{
  ℕ, [], ◌∷◌, none, some, true, false, inl, inr, refl, ◌≡◌, arith, List, Option, ◌≤◌, ◌⊎◌,
  Bool-cases, ◌≢◌, ◌+◌, ◌==◌, subst,
}

-- No file is above `n`.
abbrev pub UpTo : ℕ → List EvFile → Type 0
UpTo n [] = Unit {0}
UpTo n (f ∷ fs) = (f.seq ≤ n) × UpTo n fs

pub UpTo-weaken : (m n : ℕ) (fs : List EvFile) → m ≤ n → UpTo m fs → UpTo n fs
UpTo-weaken m n [] h k = tt
UpTo-weaken m n (f ∷ fs) h k = (omega arith, UpTo-weaken m n fs h k.1)

pub UpTo-durable : (n : ℕ) (fs : List EvFile) → UpTo n fs → durable (n + 1) fs ≡ false
UpTo-durable n [] h = refl
UpTo-durable n (f ∷ fs) h = ground (arith, UpTo-durable n fs h.1)

pub UpTo-beyond : (m n : ℕ) (fs : List EvFile) → m ≤ n → UpTo m fs → beyond n fs ≡ false
UpTo-beyond m n [] h k = refl
UpTo-beyond m n (f ∷ fs) h k = ground (arith, UpTo-beyond m n fs h k.1)

same_text_refl : (s : List ℕ) → same_text s s ≡ true
unfolding same_text
same_text_refl [] = refl
same_text_refl (a ∷ s) = ground (arith, same_text_refl s)

-- The rows that a crash of the protocol can lead to.
pub row_start :
    (c : Committed) (files : List EvFile)
    → UpTo c.seq files
    → evaluate_recovery (some c) none files ≡ (1, start)
unfolding evaluate_recovery
row_start c files h =
    rw (UpTo-durable c.seq files h, UpTo-beyond c.seq (c.seq + 1) files (omega arith) h)

pub row_abandoned :
    (c : Committed) (p : Pending) (files : List EvFile)
    → p.seq ≡ c.seq + 1
    → UpTo c.seq files
    → evaluate_recovery (some c) (some p) files ≡ (3, repoll)
unfolding evaluate_recovery
row_abandoned c p files e h =
    ground (arith, UpTo-durable c.seq files h, UpTo-beyond c.seq (c.seq + 1) files (omega arith) h)

pub row_stale :
    (c : Committed) (p : Pending) (files : List EvFile)
    → p.seq ≤ c.seq
    → evaluate_recovery (some c) (some p) files ≡ (4, repoll)
unfolding evaluate_recovery
row_stale c p files h = ground arith

pub row_durable :
    (c : Committed) (p : Pending) (f : EvFile) (fs : List EvFile)
    → p.seq ≡ c.seq + 1
    → f.seq ≡ c.seq + 1
    → f.header ≡ some (p.run, c.seq + 1)
    → UpTo c.seq fs
    → evaluate_recovery (some c) (some p) (f ∷ fs) ≡ (2, finish_commit)
unfolding evaluate_recovery header_matches
row_durable c p f fs e g k h =
    ground (arith, same_text_refl p.run, UpTo-beyond c.seq (c.seq + 1) fs (omega arith) h)

not_durable-UpTo :
    (n : ℕ) (files : List EvFile)
    → durable (n + 1) files ≡ false
    → beyond (n + 1) files ≡ false
    → UpTo n files
not_durable-UpTo n [] h k = tt
not_durable-UpTo n (f ∷ fs) h k =
    (ground (arith, h, k), not_durable-UpTo n fs (ground (arith, h)) (ground (arith, k)))

same_text-eq : (s t : List ℕ) → same_text s t ≡ true → s ≡ t
unfolding same_text
same_text-eq [] [] h = refl
same_text-eq [] (b ∷ t) h = cc
same_text-eq (a ∷ s) [] h = cc
same_text-eq (a ∷ s) (b ∷ t) h = ground (arith, h, same_text-eq s t)

-- A durable file of the seq carries exactly this run and this seq in its header.
abbrev pub HasHeader : List EvFile → ℕ → List ℕ → Type 0
HasHeader [] n run = ⊥
HasHeader (f ∷ fs) n run =
    ((f.seq ≡ n) × (f.header ≡ some (run, n))) ⊎ ((f.seq ≢ n) × HasHeader fs n run)

header_is-eq :
    (h : Option (List ℕ × ℕ)) (run : List ℕ) (n : ℕ) → header_is h run n ≡ true → h ≡ some (run, n)
unfolding header_is
header_is-eq none run n h = cc
header_is-eq (some (r, m)) run n h = ground (arith, h, same_text-eq r run)

header_matches-HasHeader :
    (files : List EvFile) (n : ℕ) (run : List ℕ)
    → header_matches files n run n ≡ true
    → HasHeader files n run
unfolding header_matches
header_matches-HasHeader [] n run h = cc
header_matches-HasHeader (f ∷ fs) n run h = elim (Bool-cases (f.seq == n)) [
  | inl e ↦ inl (ground (arith, e), header_is-eq f.header run n (rw e at h))
  | inr e ↦ inr ((λ q. ground (arith, e, q)), header_matches-HasHeader fs n run (rw e at h))
]

-- Whatever is found on the disk: a normal start means that nothing is pending and no durable file is
-- above the committed seq; a commit is finished only for the batch right after the committed one,
-- whose durable file names the pending's own run and seq, with no file above it; and a first
-- activation finds nothing at all.
pub recovery_table_sound :
    (c : Option Committed) (p : Option Pending) (files : List EvFile)
    → ((evaluate_recovery c p files).1 ≡ start
        → (d : Committed) × (c ≡ some d) × (p ≡ none) × UpTo d.seq files)
      × ((evaluate_recovery c p files).1 ≡ finish_commit
          → (d : Committed) × (q : Pending) × (c ≡ some d)
            × (p ≡ some q)
            × (q.seq ≡ d.seq + 1)
            × HasHeader files (d.seq + 1) q.run
            × (beyond (d.seq + 1) files ≡ false))
      × ((evaluate_recovery c p files).1 ≡ first_activation
          → (c ≡ none) × (p ≡ none) × (files ≡ []))
unfolding evaluate_recovery
recovery_table_sound none none [] = (λ h. cc, λ h. cc, λ h. (refl, refl, refl))
recovery_table_sound none none (f ∷ fs) = (λ h. cc, λ h. cc, λ h. cc)
recovery_table_sound none (some p) files = (λ h. cc, λ h. cc, λ h. cc)
recovery_table_sound (some c) none files = (
  λ h. (c, refl, refl, not_durable-UpTo c.seq files (ground (arith, h)) (ground (arith, h))),
  λ h. ground (arith, h),
  λ h. ground (arith, h),
)
recovery_table_sound (some c) (some p) files =
    (λ h. ground (arith, h), λ h. finish h, λ h. ground (arith, h))
  where
    finish :
        (evaluate_recovery (some c) (some p) files).1 ≡ finish_commit
        → (d : Committed) × (q : Pending) × (some c ≡ some d)
          × (some p ≡ some q)
          × (q.seq ≡ d.seq + 1)
          × HasHeader files (d.seq + 1) q.run
          × (beyond (d.seq + 1) files ≡ false)
    finish h =
        let e : p.seq ≡ c.seq + 1 = ground (arith, h) in
        let m : header_matches files (c.seq + 1) p.run p.seq ≡ true = ground (arith, h) in
        (
          c,
          p,
          refl,
          refl,
          e,
          header_matches-HasHeader files (c.seq + 1) p.run
              (subst (λ (n : ℕ). header_matches files (c.seq + 1) p.run n ≡ true) e m),
          ground (arith, h),
        )
