-- ===== src/Reader/Retention.antt =====
-- monitor-v2/journal_reader/reader.py: `_enforce_retention`, the hard bound on the exchange files.
-- An entry is the seq and the size of a durable exchange file.
pub mod Bounds
use install_singboxhysteria.Common.{
  ℕ, [], ◌∷◌, none, some, true, false, zero, suc, inl, inr, refl, ◌≡◌, arith, ◌*◌, List, ◌+◌,
  if◌then◌else◌, Bool, ◌-◌, drop, leb, ltb, length, ◌||◌,
}

abbrev pub retention_max_files : ℕ
retention_max_files = 720

abbrev pub retention_max_bytes : ℕ
retention_max_bytes = 8 * 1024 * 1024

pub record Entry : Type 0 where
  pub seq : ℕ
  pub size : ℕ

unfoldable pub total_size : List Entry → ℕ
total_size [] = 0
total_size (e ∷ es) = e.size + total_size es

-- `entries.sort()`: by seq, which is first in the pair; a file name has one seq.
insert_entry : Entry → List Entry → List Entry
insert_entry e [] = e ∷ []
insert_entry e (d ∷ ds) = if leb e.seq d.seq then e ∷ d ∷ ds else d ∷ insert_entry e ds

unfoldable pub sort_entries : List Entry → List Entry
unfolding insert_entry
sort_entries [] = []
sort_entries (e ∷ es) = insert_entry e (sort_entries es)

over_bound : List Entry → ℕ → Bool
over_bound es total = ltb retention_max_files (length es) || ltb retention_max_bytes total

-- The loop: while over a bound, the lowest seq goes and its size comes off the total.
evict_loop : List Entry → ℕ → List Entry
unfolding over_bound
evict_loop [] total = []
evict_loop (e ∷ es) total =
    let rest = evict_loop es (total - e.size) in if over_bound (e ∷ es) total then e ∷ rest else []

-- The entries that are unlinked, in order.
unfoldable pub evicted : List Entry → List Entry
unfolding sort_entries evict_loop total_size
evicted es = evict_loop (sort_entries es) (total_size es)

-- The entries that stay.
unfoldable pub retained : List Entry → List Entry
unfolding evicted
retained es = drop (length (evicted es)) (sort_entries es)
