-- ===== src/Examples/Owner.antt =====
-- The ownership of the selector group on small inputs.
use install_singboxhysteria.Quality.Ownership.Control.{
  acts, Act, Shape, check, suspension_is_final, permitted-Shape, commit, permitted-expected,
  OuterShape, MovedOff,
}
use install_singboxhysteria.Quality.Engine.{Node, typed, reality, hysteria2}
use install_singboxhysteria.Common.{[], ◌∷◌, none, some, true, false, refl, ◌≡◌, List, ◌⊎◌}
use install_singboxhysteria.Quality.Ownership.{
  Group, Ownership, fallback_kind, selector_kind, Proxies, permitted, auto, cleared, not_text,
  now_node, quality_group, only,
}

abbrev both : List Node
both = reality ∷ hysteria2 ∷ []

abbrev plain : Ownership
plain = record { nodes = both; expected = auto; suspended = false }

abbrev healthy_group : Group
healthy_group = record {
  kind = fallback_kind;
  members = some both;
  hidden = true;
  fixed = cleared;
  selected = now_node reality;
}

abbrev outer_group : Group
outer_group = record {
  kind = selector_kind;
  members = none;
  hidden = false;
  fixed = not_text;
  selected = quality_group;
}

abbrev healthy : Proxies
healthy = record {
  outer = typed outer_group;
  group = typed healthy_group;
  fallback = typed healthy_group;
  alive = λ n. some true;
}

permitted-Shape_example :
    (plain.suspended ≡ false)
    × ((permitted plain healthy true).0.suspended ≡ false)
    × Shape both (permitted plain healthy true).0.expected healthy
    × ((true ≡ false) ⊎ OuterShape healthy)
permitted-Shape_example = permitted-Shape plain healthy true (unfold permitted in refl)

permitted-expected_example :
    ((permitted plain healthy true).0.expected ≡ auto)
    ⊎ ((n : Node) × (auto ≡ only n)
        × ((permitted plain healthy true).0.expected ≡ auto)
        × MovedOff healthy n)
permitted-expected_example = permitted-expected plain healthy true

abbrev suspended_owner : Ownership
suspended_owner = record plain { suspended = true }

abbrev some_acts : List Act
some_acts = check healthy true ∷ commit auto ∷ []

suspension_is_final_example : (permitted (acts suspended_owner some_acts) healthy false).1 ≡ false
suspension_is_final_example = suspension_is_final suspended_owner some_acts healthy false refl
