-- ===== src/Quality/Engine/Target.antt =====
-- `Engine.target`: when a switch is authorised, and to which node; and what `update` keeps.
use install_singboxhysteria.Common.{
  ◌≡◌, true, some, ◌↔◌, ◌⊎◌, Bool-cases, inl, arith, false, inr, ◌≢◌, [], ◌∷◌, none, refl,
}
use install_singboxhysteria.Quality.Engine.{
  Engine, same_node, ℕ, first_usable, choose, target, Node, List, Entry, ◌∷◌, find_entry, Option,
  usable, failed,
}

pub same_node_iff : (a b : Node) → (same_node a b ≡ true) ↔ (a ≡ b)
unfolding same_node
same_node_iff a b = ground arith

-- `best` is the first node, in priority order, whose path is usable.
abbrev pub IsFirst : ℕ → Node → List Entry → Type 0
IsFirst now best [] = ⊥
IsFirst now best (e ∷ es) =
    ((usable e.path now e.policy ≡ true) × (e.node ≡ best))
    ⊎ ((usable e.path now e.policy ≡ false) × IsFirst now best es)

first_usable-IsFirst :
    (now : ℕ) (best : Node) (es : List Entry)
    → first_usable now es ≡ some best
    → IsFirst now best es
unfolding first_usable
first_usable-IsFirst now best [] h = cc
first_usable-IsFirst now best (e ∷ es) h = elim (Bool-cases (usable e.path now e.policy)) [
  | inl u ↦ inl (u, ground (arith, h))
  | inr u ↦ inr (u, first_usable-IsFirst now best es (ground (arith, h)))
]

IsFirst-first_usable :
    (now : ℕ) (best : Node) (es : List Entry)
    → IsFirst now best es
    → first_usable now es ≡ some best
unfolding first_usable
IsFirst-first_usable now best [] h = absurd h
IsFirst-first_usable now best (e ∷ es) (inl (u, p)) = rw (u, p)
IsFirst-first_usable now best (e ∷ es) (inr (u, p)) = rw u (IsFirst-first_usable now best es p)

-- What `target` promises: the current node is known and has failed, and `best` is another node, the
-- first usable one.
pub record Switch (now : ℕ) (current best : Node) (g : Engine) : Type 0 where
  pub entry : Entry
  pub known : find_entry current g.entries ≡ some entry
  pub has_failed : failed entry.path.state ≡ true
  pub another : best ≢ current
  pub first : IsFirst now best g.entries

choose-some :
    (now : ℕ) (current best : Node) (es : List Entry) (o : Option Entry)
    → choose now current es o ≡ some best
    → (e : Entry) × (o ≡ some e)
      × (failed e.path.state ≡ true)
      × (first_usable now es ≡ some best)
      × (same_node best current ≡ false)
unfolding choose
choose-some now current best es none h = cc
choose-some now current best es (some e) h =
    (e, refl, ground (arith, h), ground (arith, h), ground (arith, h))

-- `target` names a node exactly when the current node is known and DEGRADED or DOWN, and the named
-- node is another one, the first of the usable nodes in priority order.
pub target_iff :
    (now : ℕ) (current best : Node) (g : Engine)
    → (target now current g ≡ some best) ↔ Switch now current best g
unfolding target
target_iff now current best g = (to, from)
  where
    to : target now current g ≡ some best → Switch now current best g
    to h =
        let (e, k, f, u, d) =
          choose-some now current best g.entries (find_entry current g.entries) h in
        record {
          entry = e;
          known = k;
          has_failed = f;
          another = λ p. cc ((same_node_iff best current).1 p, d);
          first = first_usable-IsFirst now best g.entries u;
        }

    from : Switch now current best g → target now current g ≡ some best
    from s = rw s.known (
        unfold choose in
        ground (
          arith,
          s.has_failed,
          IsFirst-first_usable now best g.entries s.first,
          λ (p : same_node best current ≡ true). s.another ((same_node_iff best current).0 p),
        ))
