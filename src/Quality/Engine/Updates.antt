-- ===== src/Quality/Engine/Updates.antt =====
-- `Engine.update`: what it accepts, what every accepted update keeps, and what missing evidence does.
use install_singboxhysteria.Quality.NodePath.{new_path, observe}
use install_singboxhysteria.Quality.NodePath.Invariant.{Inv, new_path-Inv, observe-Inv}
use install_singboxhysteria.Quality.Policy.{Number, Policy, refused, unit, Confirmation}
use install_singboxhysteria.Quality.Engine.{
  Engine, update, new_engine, Entry, Node, update_entry, Number, Policy, new_path, Observation,
  reported, finite, typed_or_none, unit, Confirmation, observe, typed, missing, other, clock_valid,
}
use install_singboxhysteria.Common.{
  ℕ, [], ◌∷◌, none, some, refl, ◌≡◌, arith, List, map, Option, ◌≤◌, ◌↔◌, subst, sym, ◌^◌, ◌*◌,
  false, inl, inr, Bool, ◌<◌, ◌⊎◌, ap, Bool-cases, ◌∙◌, if◌then◌else◌,
}

-- Every path of the engine satisfies the invariant of a path.
abbrev pub AllInv : List Entry → Type 0
AllInv [] = Unit {0}
AllInv (e ∷ es) = Inv e.policy e.path × AllInv es

abbrev names : List Entry → List Node
names es = map (λ (e : Entry). e.node) es

new_entries : List (Node × Policy) → List Entry
new_entries ps =
    map (λ (e : Node × Policy). record { node = e.0; policy = e.1; path = new_path }) ps

new_entries-AllInv : (ps : List (Node × Policy)) → AllInv (new_entries ps)
unfolding new_entries
new_entries-AllInv [] = tt
new_entries-AllInv ((n, p) ∷ ps) = (new_path-Inv p, new_entries-AllInv ps)

update_entry-AllInv :
    (now : ℕ) (obs : Node → Option Observation) (es : List Entry)
    → AllInv es
    → AllInv (map (update_entry now obs) es)
unfolding update_entry
update_entry-AllInv now obs [] h = tt
update_entry-AllInv now obs (e ∷ es) h =
    let o = reported (obs e.node) in
    (
      observe-Inv e.path now (typed_or_none o.alive) (typed_or_none o.confirmation) e.policy h.0,
      update_entry-AllInv now obs es h.1,
    )

-- An engine that some sequence of accepted updates reaches.
pub data Reached : Engine → Type 0 where
  started : (ps : List (Node × Policy)) (g : Engine) → new_engine ps ≡ some g → Reached g
  updated :
      {g : Engine} (now : Number) (obs : Node → Option Observation) (g' : Engine)
      → Reached g
      → update now obs g ≡ some g'
      → Reached g'

new_engine-entries :
    (ps : List (Node × Policy)) (g : Engine) → new_engine ps ≡ some g → g.entries ≡ new_entries ps
unfolding new_engine new_entries
new_engine-entries ps g h = ground arith

-- The clock of an engine never runs back.
abbrev pub NotBefore : Option ℕ → ℕ → Type 0
NotBefore none now = Unit {0}
NotBefore (some last) now = last ≤ now

update_accepts :
    (now : ℕ) (obs : Node → Option Observation) (g g' : Engine)
    → (update (finite now) obs g ≡ some g') ↔ (
        (now ≤ 10 ^ 15 * unit)
        × NotBefore g.last_time now
        × (g' ≡ record { entries = map (update_entry now obs) g.entries; last_time = some now }))
unfolding update
update_accepts now obs g g' = (accepts g.last_time refl, only g.last_time refl)
  where
    accepts :
        (last : Option ℕ)
        → g.last_time ≡ last
        → update (finite now) obs g ≡ some g'
        → (now ≤ 10 ^ 15 * unit)
          × NotBefore last now
          × (g' ≡ record { entries = map (update_entry now obs) g.entries; last_time = some now })
    accepts none e h = ground (arith, e, h)
    accepts (some last) e h = ground (arith, e, h)

    only :
        (last : Option ℕ)
        → g.last_time ≡ last
        → (now ≤ 10 ^ 15 * unit)
          × NotBefore last now
          × (g' ≡ record { entries = map (update_entry now obs) g.entries; last_time = some now })
        → update (finite now) obs g ≡ some g'
    only none e h = ground (arith, e, h)
    only (some last) e h = ground (arith, e, h)

-- What an observation reports of a node; a value of another type counts as none, as does no observation.
abbrev pub alive_of : Option Observation → Option Bool
alive_of none = none
alive_of (some o) = elim o.alive [ typed b ↦ some b | missing ↦ none | other ↦ none ]

abbrev pub confirmation_of : Option Observation → Option Confirmation
confirmation_of none = none
confirmation_of (some o) = elim o.confirmation [ typed c ↦ some c | missing ↦ none | other ↦ none ]

-- The entries after an update: in the same order, each with its node and policy, and with its path after one
-- observation of what was reported of its own node.
pub data Fed (now : ℕ) (obs : Node → Option Observation) : List Entry → List Entry → Type 0 where
  fed_none : Fed now obs [] []
  fed_one :
      {e f : Entry} {es fs : List Entry}
      → f.node ≡ e.node
      → f.policy ≡ e.policy
      → f.path ≡ observe e.path now (alive_of (obs e.node)) (confirmation_of (obs e.node)) e.policy
      → Fed now obs es fs
      → Fed now obs (e ∷ es) (f ∷ fs)

update_entry-path :
    (now : ℕ) (obs : Node → Option Observation) (e : Entry) (o : Option Observation)
    → obs e.node ≡ o
    → (update_entry now obs e).path ≡ observe e.path now (alive_of o) (confirmation_of o) e.policy
unfolding update_entry
update_entry-path now obs e o h =
    ap
      (λ (x : Option Observation).
        observe e.path now (typed_or_none (reported x).alive)
          (typed_or_none (reported x).confirmation) e.policy)
      h
    ∙ same_report o
  where
    same_report :
        (o : Option Observation)
        → observe e.path now
            (typed_or_none (reported o).alive)
            (typed_or_none (reported o).confirmation)
            e.policy
          ≡ observe e.path now (alive_of o) (confirmation_of o) e.policy
    same_report none = refl
    same_report (some o) = refl

entries-Fed :
    (now : ℕ) (obs : Node → Option Observation) (es : List Entry)
    → Fed now obs es (map (update_entry now obs) es)
unfolding update_entry
entries-Fed now obs [] = fed_none
entries-Fed now obs (e ∷ es) =
    fed_one refl refl (update_entry-path now obs e (obs e.node) refl) (entries-Fed now obs es)

-- The clock value that an update is refused for.
abbrev pub Refused : Number → Option ℕ → Type 0
Refused refused last = Unit {0}
Refused (finite now) none = 10 ^ 15 * unit < now
Refused (finite now) (some last) = (10 ^ 15 * unit < now) ⊎ (now < last)

clock_valid-Refused :
    (now : ℕ) (last : Option ℕ) → clock_valid (finite now) last ≡ false → Refused (finite now) last
unfolding clock_valid
clock_valid-Refused now none h = ground (arith, h)
clock_valid-Refused now (some last) h = ground (arith, h)

abbrev pub RefusedOrFed : Number → (Node → Option Observation) → Engine → Type 0
RefusedOrFed now obs g =
    (Refused now g.last_time × (update now obs g ≡ none))
    ⊎ ((n : ℕ) × ((g' : Engine) × ((now ≡ finite n)
            × ((update now obs g ≡ some g')
                × ((g'.last_time ≡ some n) × Fed n obs g.entries g'.entries)))))

-- An update whose clock is no number in range, or is before the last one, is refused. Any other is accepted: it
-- moves the clock, keeps the entries in their order with their nodes and policies, and gives each path exactly
-- one observation, of what was reported of its own node.
pub update_feeds :
    (now : Number) (obs : Node → Option Observation) (g : Engine) → RefusedOrFed now obs g
unfolding update
update_feeds refused obs g = inl (tt, refl)
update_feeds (finite now) obs g =
    let fed : Engine = record {
      entries = map (update_entry now obs) g.entries;
      last_time = some now;
    } in
    elim (Bool-cases (clock_valid (finite now) g.last_time)) [
      | inl v ↦ inr (
        now,
        (
          fed,
          (refl, (ap (λ b. if b then some fed else none) v, (refl, entries-Fed now obs g.entries))),
        ),
      )
      | inr v ↦
          inl (clock_valid-Refused now g.last_time v, ap (λ b. if b then some fed else none) v)
    ]

update_refused : (obs : Node → Option Observation) (g : Engine) → update refused obs g ≡ none
unfolding update
update_refused obs g = refl

update-AllInv :
    (now : Number) (obs : Node → Option Observation) (g g' : Engine)
    → update now obs g ≡ some g'
    → AllInv g.entries
    → AllInv g'.entries
update-AllInv refused obs g g' h k = cc (update_refused obs g)
update-AllInv (finite now) obs g g' h k =
    subst (λ (x : Engine). AllInv x.entries) (sym ((update_accepts now obs g g').0 h).2)
      (update_entry-AllInv now obs g.entries k)

-- Whatever is observed, every path of a running engine satisfies the invariant.
pub Reached-AllInv : {g : Engine} → Reached g → AllInv g.entries
Reached-AllInv (started ps g h) =
    subst AllInv (sym (new_engine-entries ps g h)) (new_entries-AllInv ps)
Reached-AllInv (updated {g = g} now obs g' r h) = update-AllInv now obs g g' h (Reached-AllInv r)
