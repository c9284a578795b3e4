-- ===== src/Reader/Retention/Bounds.antt =====
-- After retention both bounds hold, the oldest files went first, and no more than necessary.
use install_singboxhysteria.Reader.Retention.{
  total_size, insert_entry, sort_entries, Entry, evict_loop, over_bound, retention_max_files,
  retention_max_bytes, evicted, retained,
}
use install_singboxhysteria.Common.{
  ℕ, [], ◌∷◌, suc, inl, inr, refl, ◌≡◌, arith, List, length, ◌≤◌, Bool-cases, take, ◌+◌, leb, drop,
  leb→le, ◌-◌, ap, true, zero, ◌<◌, subst, ◌⊎◌, sym,
}

total_size-insert_entry :
    (e : Entry) (es : List Entry) → total_size (insert_entry e es) ≡ e.size + total_size es
unfolding total_size insert_entry
total_size-insert_entry e [] = refl
total_size-insert_entry e (d ∷ ds) = ground (arith, total_size-insert_entry e ds)

total_size-sort_entries : (es : List Entry) → total_size (sort_entries es) ≡ total_size es
unfolding total_size sort_entries
total_size-sort_entries [] = refl
total_size-sort_entries (e ∷ es) =
    omega (arith, total_size-insert_entry e (sort_entries es), total_size-sort_entries es)

length-insert_entry : (e : Entry) (es : List Entry) → length (insert_entry e es) ≡ suc (length es)
unfolding insert_entry
length-insert_entry e [] = refl
length-insert_entry e (d ∷ ds) = ground (arith, length-insert_entry e ds)

-- Every entry of the list is at least as new as `n`.
abbrev pub AllFrom : ℕ → List Entry → Type 0
AllFrom n [] = Unit {0}
AllFrom n (e ∷ es) = (n ≤ e.seq) × AllFrom n es

abbrev pub Sorted : List Entry → Type 0
Sorted [] = Unit {0}
Sorted (e ∷ es) = AllFrom e.seq es × Sorted es

AllFrom-weaken : (m n : ℕ) (es : List Entry) → m ≤ n → AllFrom n es → AllFrom m es
AllFrom-weaken m n [] h k = tt
AllFrom-weaken m n (e ∷ es) h k = (omega arith, AllFrom-weaken m n es h k.1)

insert_entry-AllFrom :
    (n : ℕ) (e : Entry) (es : List Entry) → n ≤ e.seq → AllFrom n es → AllFrom n (insert_entry e es)
unfolding insert_entry
insert_entry-AllFrom n e [] h k = (h, tt)
insert_entry-AllFrom n e (d ∷ ds) h k = ground (arith, insert_entry-AllFrom n e ds h k.1)

insert_entry-Sorted : (e : Entry) (es : List Entry) → Sorted es → Sorted (insert_entry e es)
unfolding insert_entry
insert_entry-Sorted e [] h = (tt, tt)
insert_entry-Sorted e (d ∷ ds) h = elim (Bool-cases (leb e.seq d.seq)) [
  | inl le ↦
      rw le ((leb→le e.seq d.seq le, AllFrom-weaken e.seq d.seq ds (leb→le e.seq d.seq le) h.0), h)
  | inr gt ↦
      rw gt (insert_entry-AllFrom d.seq e ds (ground arith) h.0, insert_entry-Sorted e ds h.1)
]

sort_entries-Sorted : (es : List Entry) → Sorted (sort_entries es)
unfolding sort_entries
sort_entries-Sorted [] = tt
sort_entries-Sorted (e ∷ es) = insert_entry-Sorted e (sort_entries es) (sort_entries-Sorted es)

-- What the loop promises of the entries `es` and of those that it evicts.
pub record Outcome (es out : List Entry) : Type 0 where
  pub oldest_first : out ≡ take (length out) es
  pub few : length (drop (length out) es) ≤ retention_max_files
  pub small : total_size (drop (length out) es) ≤ retention_max_bytes

evict_loop-Outcome :
    (es : List Entry) (total : ℕ) → total ≡ total_size es → Outcome es (evict_loop es total)
unfolding total_size evict_loop
evict_loop-Outcome [] total e = record {
  oldest_first = refl;
  few = omega arith;
  small = omega arith;
}
evict_loop-Outcome (e ∷ es) total h = elim (Bool-cases (over_bound (e ∷ es) total)) [
  | inl over ↦
      let o = evict_loop-Outcome es (total - e.size) (omega arith) in
      rw over (record {
        oldest_first = ap (λ (l : List Entry). e ∷ l) o.oldest_first;
        few = o.few;
        small = o.small;
      })
  | inr fits ↦ rw fits (
      unfold over_bound in record { oldest_first = refl; few = ground arith; small = ground arith })
]

evict_loop-needed :
    (es : List Entry) (total j : ℕ)
    → total ≡ total_size es
    → j < length (evict_loop es total)
    → over_bound (drop j es) (total_size (drop j es)) ≡ true
unfolding total_size evict_loop
evict_loop-needed [] total j e h = absurd (omega arith)
evict_loop-needed (e ∷ es) total zero t h = elim (Bool-cases (over_bound (e ∷ es) total)) [
  | inl over ↦ subst (λ (n : ℕ). over_bound (e ∷ es) n ≡ true) t over
  | inr fits ↦ absurd (omega (arith, rw fits at h))
]
evict_loop-needed (e ∷ es) total (suc j) t h = elim (Bool-cases (over_bound (e ∷ es) total)) [
  | inl over ↦ evict_loop-needed es (total - e.size) j (omega arith) (omega (arith, rw over at h))
  | inr fits ↦ absurd (omega (arith, rw fits at h))
]

-- What retention promises of the entries that it finds: the kept ones hold both bounds, the evicted
-- ones are the first of the entries in the order of their seqs, and as long as fewer had been evicted
-- a bound was still exceeded.
pub record Retains (es : List Entry) : Type 0 where
  pub in_order : Sorted (sort_entries es)
  pub oldest_first : evicted es ≡ take (length (evicted es)) (sort_entries es)
  pub few : length (retained es) ≤ retention_max_files
  pub small : total_size (retained es) ≤ retention_max_bytes
  pub needed :
      (j : ℕ)
      → j < length (evicted es)
      → (retention_max_files < length (drop j (sort_entries es)))
        ⊎ (retention_max_bytes < total_size (drop j (sort_entries es)))

-- Retention holds both bounds, evicts from the lowest seq on, and evicts no more than it must.
pub retention_bounds : (es : List Entry) → Retains es
unfolding evicted retained
retention_bounds es =
    let same = sym (total_size-sort_entries es) in
    let o = evict_loop-Outcome (sort_entries es) (total_size es) same in
    record {
      in_order = sort_entries-Sorted es;
      oldest_first = o.oldest_first;
      few = o.few;
      small = o.small;
      needed = λ j h.
          unfold over_bound in
          ground (arith, evict_loop-needed (sort_entries es) (total_size es) j same h);
    }
