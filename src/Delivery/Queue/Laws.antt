-- ===== src/Delivery/Queue/Laws.antt =====
-- The queue in order: resolving its head leaves its tail.
use install_singboxhysteria.Delivery.Queue.{deliverable, Record}
use install_singboxhysteria.Common.{
  ℕ, [], ◌∷◌, true, inl, inr, refl, ◌≡◌, arith, List, ◌<◌, ◌≤◌, Bool-cases, not, ◌==◌, ◌&&◌, leb,
  subst, ◌∙◌,
}

-- Every record of the list has an id above `n`, and the ids grow.
abbrev pub Above : ℕ → List Record → Type 0
Above n [] = Unit {0}
Above n (r ∷ rs) = (n < r.record_id) × Above n rs

abbrev pub Ascending : List Record → Type 0
Ascending [] = Unit {0}
Ascending (r ∷ rs) = Above r.record_id rs × Ascending rs

deliverable-same :
    (b m n : ℕ) (rs : List Record)
    → Above m rs
    → Above n rs
    → deliverable b m rs ≡ deliverable b n rs
unfolding deliverable
deliverable-same b m n [] h k = refl
deliverable-same b m n (r ∷ rs) h k = ground (arith, deliverable-same b m n rs h.1 k.1)

pub deliverable-above :
    (b n : ℕ) (rs : List Record) (x : Record) (xs : List Record)
    → deliverable b n rs ≡ x ∷ xs
    → n < x.record_id
unfolding deliverable
deliverable-above b n [] x xs h = cc
deliverable-above b n (r ∷ rs) x xs h = ground (arith, h, deliverable-above b n rs x xs)

Above-weaken : (m n : ℕ) (rs : List Record) → m ≤ n → Above n rs → Above m rs
Above-weaken m n [] h k = tt
Above-weaken m n (r ∷ rs) h k = (omega arith, Above-weaken m n rs h k.1)

-- With the head of the queue resolved, the queue is its tail.
pub deliverable-resolved :
    (b n : ℕ) (rs : List Record) (x : Record) (xs : List Record)
    → Ascending rs
    → deliverable b n rs ≡ x ∷ xs
    → deliverable b x.record_id rs ≡ xs
unfolding deliverable
deliverable-resolved b n [] x xs a h = cc
deliverable-resolved b n (r ∷ rs) x xs a h = elim (Bool-cases (not (b == 0) && leb b r.record_id)) [
  | inl block ↦ cc (rw block at h)
  | inr open_ ↦ elim (Bool-cases (leb r.record_id n)) [
    | inl old ↦
        let rest : deliverable b n rs ≡ x ∷ xs = rw (open_, old) at h in
        let above = deliverable-above b n rs x xs rest in
        let skip : leb r.record_id x.record_id ≡ true = ground (arith, above) in
        rw (open_, skip) (deliverable-resolved b n rs x xs a.1 rest)
    | inr fresh ↦
        let parts : (r ∷ deliverable b n rs) ≡ x ∷ xs = rw (open_, fresh) at h in
        let same : r ≡ x = cc in
        let tail : deliverable b n rs ≡ xs = cc in
        let mine : leb r.record_id x.record_id ≡ true = ground (arith, same) in
        let later : n < r.record_id = ground (arith, fresh) in
        let up : Above n rs = Above-weaken n r.record_id rs (omega arith) a.0 in
        rw (open_, mine)
          (deliverable-same b x.record_id n rs (subst (λ y. Above y.record_id rs) same a.0) up
            ∙ tail)
  ]
]
