-- ===== src/Quality/Engine.antt =====
-- tools/quality_failover/policy.py: `Engine`, the paths of all nodes and the choice of a target.
-- `Engine.paths` is in the order of `NODES`: a list of named paths, each with its policy.
pub mod Target
pub mod Updates
use install_singboxhysteria.Common.{
  ℕ, ◌*◌, ◌^◌, Bool, true, false, not, ◌&&◌, ◌||◌, Option, none, some, List, [], ◌∷◌, map, ltb, leb,
  if◌then◌else◌, zero, suc, inl, inr, refl, ◌≡◌, arith,
}
use install_singboxhysteria.Quality.Policy.{
  Policy, Confirmation, unit, Number, finite, refused, in_range,
}
use install_singboxhysteria.Quality.NodePath.{
  NodePath, State, unknown, up, degraded, down, observe, usable, new_path, Reason,
}

-- NODES, in order of priority.
pub data Node : Type 0 where
  reality hysteria2 backup_reality backup_hysteria2 : Node

unfoldable pub same_node : Node → Node → Bool
same_node reality reality = true
same_node hysteria2 hysteria2 = true
same_node backup_reality backup_reality = true
same_node backup_hysteria2 backup_hysteria2 = true
same_node _ _ = false

pub record Entry : Type 0 where
  pub node : Node
  pub policy : Policy
  pub path : NodePath

pub record Engine : Type 0 where
  pub entries : List Entry
  pub last_time : Option ℕ

abbrev two_nodes : List Node
two_nodes = reality ∷ hysteria2 ∷ []

abbrev four_nodes : List Node
four_nodes = reality ∷ hysteria2 ∷ backup_reality ∷ backup_hysteria2 ∷ []

unfoldable pub same_nodes : List Node → List Node → Bool
unfolding same_node
same_nodes [] [] = true
same_nodes (a ∷ as_) (b ∷ bs) = same_node a b && same_nodes as_ bs
same_nodes _ _ = false

-- `Engine(policies)`: the names must be the first two nodes or all four, in order.
unfoldable pub new_engine : List (Node × Policy) → Option Engine
unfolding same_nodes same_node
new_engine policies =
    let names = map (λ (e : Node × Policy). e.0) policies in
    if same_nodes names two_nodes || same_nodes names four_nodes
    then some (record {
      entries =
          map (λ (e : Node × Policy). record { node = e.0; policy = e.1; path = new_path })
            policies;
      last_time = none;
    })
    else none

-- A dynamic value that the code tests by its type.
pub data Dynamic (A : Type 0) : Type 0 where
  missing other : Dynamic A
  typed : A → Dynamic A

typed_or_none : {A : Type 0} → Dynamic A → Option A
typed_or_none (typed a) = some a
typed_or_none missing = none
typed_or_none other = none

pub record Observation : Type 0 where
  pub alive : Dynamic Bool
  pub confirmation : Dynamic Confirmation

-- `observations.get(name, (None, None))`
reported : Option Observation → Observation
reported (some o) = o
reported none = record { alive = missing; confirmation = missing }

pub update_entry : ℕ → (Node → Option Observation) → Entry → Entry
unfolding reported typed_or_none
update_entry now observations e =
    let o = reported (observations e.node) in
    record e {
      path = observe e.path now (typed_or_none o.alive) (typed_or_none o.confirmation) e.policy;
    }

-- `number(now, 0, 1e15) and not now < last_time`; `none` is the ValueError.
clock_valid : Number → Option ℕ → Bool
unfolding in_range
clock_valid refused last = false
clock_valid (finite now) none = in_range (finite now) 0 (10 ^ 15 * unit)
clock_valid (finite now) (some last) =
    in_range (finite now) 0 (10 ^ 15 * unit) && not (ltb now last)

update_at : Number → (Node → Option Observation) → Engine → Option Engine
update_at refused observations g = none
update_at (finite now) observations g =
    if clock_valid (finite now) g.last_time
    then some
        (record { entries = map (update_entry now observations) g.entries; last_time = some now })
    else none

unfoldable pub update : Number → (Node → Option Observation) → Engine → Option Engine
unfolding update_at update_entry clock_valid
update now observations g = update_at now observations g

unfoldable pub find_entry : Node → List Entry → Option Entry
unfolding same_node
find_entry n [] = none
find_entry n (e ∷ es) = if same_node e.node n then some e else find_entry n es

abbrev pub failed : State → Bool
failed degraded = true
failed down = true
failed _ = false

-- `[name for name, item in self.paths.items() if item.usable(now, ...)]`, and its first.
unfoldable pub first_usable : ℕ → List Entry → Option Node
first_usable now [] = none
first_usable now (e ∷ es) = if usable e.path now e.policy then some e.node else first_usable now es

other_than : Node → Option Node → Option Node
unfolding same_node
other_than current none = none
other_than current (some best) = if same_node best current then none else some best

choose : ℕ → Node → List Entry → Option Entry → Option Node
unfolding other_than
choose now current es none = none
choose now current es (some e) =
    if failed e.path.state then other_than current (first_usable now es) else none

-- `target(now, current)`: the node to switch to, if any.
unfoldable pub target : ℕ → Node → Engine → Option Node
unfolding choose find_entry
target now current g = choose now current g.entries (find_entry current g.entries)
