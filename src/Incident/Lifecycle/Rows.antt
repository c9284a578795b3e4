-- ===== src/Incident/Lifecycle/Rows.antt =====
-- The open rows before and after a statement.
use install_singboxhysteria.Incident.Store.{Row, open_ids, open_ids}
use install_singboxhysteria.Incident.Transactions.{update_rows, row_count}
use install_singboxhysteria.Common.{
  ℕ, [], ◌∷◌, List, false, filter, ◌==◌, ◌≡◌, refl, arith, not, length,
}

pub open_ids-keep :
    (f : Row → Row) (id : ℕ) (rows : List Row)
    → ((r : Row) → (f r).is_open ≡ r.is_open)
    → ((r : Row) → (f r).id ≡ r.id)
    → open_ids (update_rows f id rows) ≡ open_ids rows
unfolding open_ids update_rows
open_ids-keep f id [] o i = refl
open_ids-keep f id (r ∷ rows) o i =
    let rest = open_ids-keep f id rows o i in ground (arith, rest, o r, i r)

pub open_ids-drop :
    (f : Row → Row) (id : ℕ) (rows : List Row)
    → ((r : Row) → (f r).is_open ≡ false)
    → open_ids (update_rows f id rows) ≡ filter (λ n. not (n == id)) (open_ids rows)
unfolding open_ids update_rows
open_ids-drop f id [] o = refl
open_ids-drop f id (r ∷ rows) o = let rest = open_ids-drop f id rows o in ground (arith, rest, o r)

pub row_count-open_ids :
    (id : ℕ) (rows : List Row) → row_count id rows ≡ length (filter (λ n. n == id) (open_ids rows))
unfolding open_ids
row_count-open_ids id [] = refl
row_count-open_ids id (r ∷ rows) = let rest = row_count-open_ids id rows in ground (arith, rest)
