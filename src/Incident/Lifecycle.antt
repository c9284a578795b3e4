-- ===== src/Incident/Lifecycle.antt =====
-- The abstract view of the incident store: one window at a time, between an activation and a gate.
-- The store and the scanner of monitor-v2/web are shown to follow it.
pub mod Rows
pub mod Moves
pub mod Ends
pub mod Calls
pub mod History
use install_singboxhysteria.Incident.Store.{Runtime, Store, open_ids, runtime_ok, is_none}
use install_singboxhysteria.Common.{
  ℕ, [], ◌∷◌, none, some, true, List, Option, leb, if◌then◌else◌, ◌==◌, ◌≡◌, false, zero, suc, inl,
  inr, refl, arith, Bool, ltb, ◌||◌,
}

-- Where the runtime stands: never activated; activated, and looking for an incident from a gate on; an
-- incident open; waiting for the operator to re-arm.
pub data Life : Type 0 where
  inert : Life
  watching : (floor gate : ℕ) → Life
  opened : (floor id : ℕ) → Life
  gated : (floor : ℕ) → Life

-- The only moves.
pub data Step : Life → Life → Type 0 where
  arms : (floor : ℕ) → Step inert (watching floor floor)
  opens : (floor gate id : ℕ) → Step (watching floor gate) (opened floor id)
  closes :
      (floor id gate : ℕ) → leb floor gate ≡ true → Step (opened floor id) (watching floor gate)
  gates : (floor id : ℕ) → Step (opened floor id) (gated floor)
  rearms : (floor gate : ℕ) → leb floor gate ≡ true → Step (gated floor) (watching floor gate)

pub data AtMostOne : Life → Life → Type 0 where
  stays : {l : Life} → AtMostOne l l
  moves : {l m : Life} → Step l m → AtMostOne l m

abbrev pub armed_at : ℕ → Option ℕ → Option ℕ → Life
armed_at floor (some id) gate = opened floor id
armed_at floor none (some gate) = watching floor gate
armed_at floor none none = gated floor

-- An activation floor, an open window and a discovery gate.
abbrev pub life_at : ℕ → Option ℕ → Option ℕ → Life
life_at zero open_id gate = inert
life_at (suc n) open_id gate = armed_at (suc n) open_id gate

abbrev pub life_of : Option Runtime → Life
life_of none = inert
life_of (some s) = life_at s.activation_floor s.open_id s.discovery_floor

unfoldable pub life : Store → Life
life st = life_of st.runtime

abbrev pub pointer : Option ℕ → List ℕ
pointer none = []
pointer (some id) = id ∷ []

-- A window is open only after an activation.
abbrev pub is_armed_or_free : Runtime → Bool
is_armed_or_free s = ltb 0 s.activation_floor || is_none s.open_id

-- The runtime row passes its CHECKs, points at the one open window, if any, and points at none before
-- the activation.
pub record IsConsistent (st : Store) : Type 0 where
  pub checked : (s : Runtime) → st.runtime ≡ some s → runtime_ok s ≡ true
  pub points : (s : Runtime) → st.runtime ≡ some s → open_ids st.rows ≡ pointer s.open_id
  pub armed : (s : Runtime) → st.runtime ≡ some s → is_armed_or_free s ≡ true

abbrev pub Armed : Store → Type 0
Armed st = (s : Runtime) → st.runtime ≡ some s → ltb 0 s.activation_floor ≡ true

-- From a consistent store to a consistent one, by at most one move.
abbrev pub Follows : Store → Store → Type 0
Follows a b = IsConsistent a → IsConsistent b × AtMostOne (life a) (life b)

-- To a consistent store where the lifecycle stands the same.
abbrev pub Rests : Store → Store → Type 0
Rests a b = IsConsistent a → IsConsistent b × (life b ≡ life a)
