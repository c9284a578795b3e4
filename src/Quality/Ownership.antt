-- ===== src/Quality/Ownership.antt =====
-- tools/quality_failover/policy.py: `Ownership`, which lets the client control only its own group.
-- `proxies` is the controller's JSON; a field is read as the values that the code tells apart.
pub mod Control
use install_singboxhysteria.Quality.Engine.{
  same_node, Node, Dynamic, typed, missing, other, same_nodes,
}
use install_singboxhysteria.Common.{
  ℕ, [], ◌∷◌, none, some, true, false, zero, suc, inl, inr, refl, ◌≡◌, arith, Option, List, Bool,
  if◌then◌else◌, ◌&&◌, ◌||◌, not,
}

-- The members of the group: AUTO and the nodes.
pub data Member : Type 0 where
  auto : Member
  only : Node → Member

pub data Kind : Type 0 where
  fallback_kind selector_kind other_kind : Kind

-- "fixed": the empty text, a node's name, another text, or no text at all.
pub data Fixed : Type 0 where
  cleared foreign_text not_text : Fixed
  fixed_to : Node → Fixed

-- "now": GROUP, a node's name, or any other value.
pub data Now : Type 0 where
  quality_group other_now : Now
  now_node : Node → Now

pub record Group : Type 0 where
  pub kind : Kind
  pub members : Option (List Node)  -- "all", `none` for any other value
  pub hidden : Bool  -- "hidden" is True
  pub fixed : Fixed
  pub selected : Now

pub record Proxies : Type 0 where
  pub outer : Dynamic Group
  pub group : Dynamic Group
  pub fallback : Dynamic Group
  pub alive : Node → Option Bool  -- "alive" of the node's dict, `none` for any other value

pub record Ownership : Type 0 where
  pub nodes : List Node
  pub expected : Member
  pub suspended : Bool

unfoldable pub new_ownership : List Node → Ownership
new_ownership nodes = record { nodes = nodes; expected = auto; suspended = false }

-- `{}`: every `get` is None.
abbrev pub no_group : Group
no_group = record {
  kind = other_kind;
  members = none;
  hidden = false;
  fixed = not_text;
  selected = other_now;
}

-- `proxies.get(NAME, {})`; `none` where the value is no dict.
pub dict_or_empty : Dynamic Group → Option Group
dict_or_empty missing = some no_group
dict_or_empty other = none
dict_or_empty (typed g) = some g

is_fallback : Kind → Bool
is_fallback fallback_kind = true
is_fallback _ = false

is_selector : Kind → Bool
is_selector selector_kind = true
is_selector _ = false

is_cleared : Fixed → Bool
is_cleared cleared = true
is_cleared _ = false

is_text : Fixed → Bool
is_text not_text = false
is_text _ = true

is_quality_group : Now → Bool
is_quality_group quality_group = true
is_quality_group _ = false

-- `group["fixed"] == expected_fixed`
pub fixed_as : Member → Fixed → Bool
unfolding same_node
fixed_as auto cleared = true
fixed_as (only n) (fixed_to m) = same_node m n
fixed_as _ _ = false

pub lists_members : List Node → Option (List Node) → Bool
unfolding same_nodes
lists_members nodes none = false
lists_members nodes (some all) = same_nodes all nodes

-- A native fallback may have cleared our fixed member, with evidence that the member is down.
expected_now : Proxies → Group → Member → Member
unfolding is_cleared
expected_now x g auto = auto
expected_now x g (only n) =
    if is_cleared g.fixed && (elim (x.alive n) [ some b ↦ not b | none ↦ false ])
    then auto
    else only n

-- The group has the expected shape and selection, and the fallback is intact.
pub shape_kept : Ownership → Group → Group → Bool
unfolding is_fallback is_text fixed_as lists_members
shape_kept s g f =
    is_fallback g.kind
    && (lists_members s.nodes g.members
        && (g.hidden
            && (fixed_as s.expected g.fixed
                && (is_fallback f.kind && (lists_members s.nodes f.members && is_text f.fixed)))))

outer_selects : Group → Group → Bool
unfolding is_selector is_quality_group is_cleared
outer_selects o f = is_selector o.kind && (is_quality_group o.selected && is_cleared f.fixed)

-- A broken shape suspends; a suspended ownership permits nothing.
settle : Ownership → Bool → Bool → Bool → Ownership × Bool
settle t shape require_outer outer =
    let u = record t { suspended = t.suspended || not shape } in
    (u, not u.suspended && (not require_outer || outer))

permitted_at : Ownership → Proxies → Bool → Group → Group → Group → Ownership × Bool
unfolding settle
permitted_at s x require_outer o g f =
    let t = record s { expected = expected_now x g s.expected } in
    settle t (shape_kept t g f) require_outer (outer_selects o f)

permitted_dicts :
    Ownership → Proxies → Bool → Option Group → Option Group → Option Group → Ownership × Bool
unfolding permitted_at
permitted_dicts s x require_outer (some o) (some g) (some f) = permitted_at s x require_outer o g f
permitted_dicts s x require_outer _ _ _ = (record s { suspended = true }, false)

-- `permitted(proxies, require_outer)`
unfoldable pub permitted : Ownership → Proxies → Bool → Ownership × Bool
unfolding permitted_dicts dict_or_empty expected_now outer_selects shape_kept
permitted s x require_outer =
    permitted_dicts s x require_outer (dict_or_empty x.outer) (dict_or_empty x.group)
      (dict_or_empty x.fallback)

mem_node : Node → List Node → Bool
unfolding same_node
mem_node n [] = false
mem_node n (m ∷ ms) = same_node m n || mem_node n ms

is_member : Member → List Node → Bool
unfolding mem_node
is_member auto nodes = true
is_member (only n) nodes = mem_node n nodes

-- `committed(selected)`; `none` is the ValueError.
unfoldable pub committed : Ownership → Member → Option Ownership
unfolding is_member
committed s selected =
    if is_member selected s.nodes then some (record s { expected = selected }) else none

-- `effective(proxies)`: the node that the group uses, as far as the code can tell.
unfoldable pub effective : Ownership → Proxies → Now
effective s x = elim s.expected [
  | auto ↦ elim x.group [ typed g ↦ g.selected | _ ↦ other_now ]
  | only n ↦ now_node n
]
