-- ===== src/Quality/Ownership/Control.antt =====
-- `Ownership`: control is given only over the group in its expected shape, and is lost for good.
use install_singboxhysteria.Quality.Engine.Target.{same_node_iff}
use install_singboxhysteria.Quality.Engine.{same_nodes, Node, Dynamic, typed, missing, other}
use install_singboxhysteria.Quality.Ownership.{
  Member, dict_or_empty, fixed_as, shape_kept, lists_members, Fixed, Ownership, cleared, only,
  Group, Proxies, fixed_to, fallback_kind, other_kind, auto, foreign_text, not_text, permitted_at,
  permitted_dicts, permitted, committed, outer_selects, expected_now, selector_kind, is_text,
  quality_group,
}
use install_singboxhysteria.Common.{
  [], ◌∷◌, none, some, true, refl, ◌≡◌, arith, List, Option, ap, ◌≢◌, false, inl, inr, Bool, subst,
  ◌⊎◌, sym, Bool-cases,
}

same_nodes-eq : (xs ys : List Node) → same_nodes xs ys ≡ true → xs ≡ ys
unfolding same_nodes
same_nodes-eq [] [] h = refl
same_nodes-eq [] (y ∷ ys) h = cc
same_nodes-eq (x ∷ xs) [] h = cc
same_nodes-eq (x ∷ xs) (y ∷ ys) h = ground (arith, h, same_node_iff x y, same_nodes-eq xs ys)

-- The value of "fixed" that names a member.
abbrev pub fixed_of : Member → Fixed
fixed_of auto = cleared
fixed_of (only n) = fixed_to n

fixed_as-eq : (m : Member) (f : Fixed) → fixed_as m f ≡ true → f ≡ fixed_of m
unfolding fixed_as
fixed_as-eq auto cleared h = refl
fixed_as-eq (only n) (fixed_to m) h = ground (arith, h, same_node_iff m n)
fixed_as-eq auto foreign_text h = cc
fixed_as-eq auto not_text h = cc
fixed_as-eq auto (fixed_to m) h = cc
fixed_as-eq (only n) cleared h = cc
fixed_as-eq (only n) foreign_text h = cc
fixed_as-eq (only n) not_text h = cc

lists_members-eq :
    (nodes : List Node) (all : Option (List Node))
    → lists_members nodes all ≡ true
    → all ≡ some nodes
unfolding lists_members
lists_members-eq nodes none h = cc
lists_members-eq nodes (some all) h = ap some (same_nodes-eq all nodes h)

dict_or_empty-typed :
    (d : Dynamic Group) (g : Group) → dict_or_empty d ≡ some g → (g.kind ≢ other_kind) → d ≡ typed g
unfolding dict_or_empty
dict_or_empty-typed missing g h k = absurd (k (ground (arith, h)))
dict_or_empty-typed other g h k = cc
dict_or_empty-typed (typed d) g h k = ground (arith, h)

-- What a permission rests on: `group` and `fallback` in the expected shape.
pub record Shape (nodes : List Node) (expected : Member) (x : Proxies) : Type 0 where
  pub group : Group
  pub fallback : Group
  pub group_read : x.group ≡ typed group
  pub fallback_read : x.fallback ≡ typed fallback
  pub group_kind : group.kind ≡ fallback_kind
  pub fallback_kind_kept : fallback.kind ≡ fallback_kind
  pub group_members : group.members ≡ some nodes
  pub fallback_members : fallback.members ≡ some nodes
  pub group_hidden : group.hidden ≡ true
  pub group_fixed : group.fixed ≡ fixed_of expected
  pub fallback_fixed : fallback.fixed ≢ not_text

-- What the outer selector adds, where it is asked for.
pub record OuterShape (x : Proxies) : Type 0 where
  pub outer : Group
  pub fallback : Group
  pub outer_read : x.outer ≡ typed outer
  pub fallback_read : x.fallback ≡ typed fallback
  pub outer_kind : outer.kind ≡ selector_kind
  pub outer_selected : outer.selected ≡ quality_group
  pub fallback_cleared : fallback.fixed ≡ cleared

text_is : (f : Fixed) → is_text f ≡ true → f ≢ not_text
unfolding is_text
text_is f h e = ground (arith, h, e)

outer_selects-OuterShape :
    (x : Proxies) (o f : Group)
    → dict_or_empty x.outer ≡ some o
    → dict_or_empty x.fallback ≡ some f
    → f.kind ≡ fallback_kind
    → outer_selects o f ≡ true
    → OuterShape x
unfolding outer_selects
outer_selects-OuterShape x o f ho hf kf h =
    let ko : o.kind ≡ selector_kind = ground (arith, h) in
    record {
      outer = o;
      fallback = f;
      outer_read = dict_or_empty-typed x.outer o ho (λ e. cc (ko, e));
      fallback_read = dict_or_empty-typed x.fallback f hf (λ e. cc (kf, e));
      outer_kind = ko;
      outer_selected = ground (arith, h);
      fallback_cleared = ground (arith, h);
    }

shape_kept-fallback :
    (s : Ownership) (g f : Group) → shape_kept s g f ≡ true → f.kind ≡ fallback_kind
unfolding shape_kept
shape_kept-fallback s g f h = ground (arith, h)

shape_kept-Shape :
    (s : Ownership) (x : Proxies) (g f : Group)
    → dict_or_empty x.group ≡ some g
    → dict_or_empty x.fallback ≡ some f
    → shape_kept s g f ≡ true
    → Shape s.nodes s.expected x
unfolding shape_kept
shape_kept-Shape s x g f hg hf h =
    let kg : g.kind ≡ fallback_kind = ground (arith, h) in
    let kf : f.kind ≡ fallback_kind = ground (arith, h) in
    record {
      group = g;
      fallback = f;
      group_read = dict_or_empty-typed x.group g hg (λ e. cc (kg, e));
      fallback_read = dict_or_empty-typed x.fallback f hf (λ e. cc (kf, e));
      group_kind = kg;
      fallback_kind_kept = kf;
      group_members = lists_members-eq s.nodes g.members (ground (arith, h));
      fallback_members = lists_members-eq s.nodes f.members (ground (arith, h));
      group_hidden = ground (arith, h);
      group_fixed = fixed_as-eq s.expected g.fixed (ground (arith, h));
      fallback_fixed = text_is f.fixed (ground (arith, h));
    }

permitted_at-true :
    (s : Ownership) (x : Proxies) (b : Bool) (o g f : Group)
    → (permitted_at s x b o g f).1 ≡ true
    → (s.suspended ≡ false)
      × ((permitted_at s x b o g f).0.suspended ≡ false)
      × ((permitted_at s x b o g f).0.nodes ≡ s.nodes)
      × (shape_kept (permitted_at s x b o g f).0 g f ≡ true)
      × (b ≡ true → outer_selects o f ≡ true)
unfolding permitted_at
permitted_at-true s x b o g f h = ground (arith, h)

permitted_dicts-true :
    (s : Ownership) (x : Proxies) (b : Bool) (mo mg mf : Option Group)
    → mo ≡ dict_or_empty x.outer
    → mg ≡ dict_or_empty x.group
    → mf ≡ dict_or_empty x.fallback
    → (permitted_dicts s x b mo mg mf).1 ≡ true
    → (s.suspended ≡ false)
      × ((permitted_dicts s x b mo mg mf).0.suspended ≡ false)
      × Shape s.nodes (permitted_dicts s x b mo mg mf).0.expected x
      × ((b ≡ false) ⊎ OuterShape x)
unfolding permitted_dicts
permitted_dicts-true s x b (some o) (some g) (some f) eo eg ef h =
    let facts = permitted_at-true s x b o g f h in
    (
      facts.0,
      facts.1,
      subst (λ (ns : List Node). Shape ns (permitted_at s x b o g f).0.expected x) facts.2
          (shape_kept-Shape (permitted_at s x b o g f).0 x g f (sym eg) (sym ef) facts.3),
      elim (Bool-cases b) [
        | inl asked ↦ inr (
            outer_selects-OuterShape x o f (sym eo) (sym ef)
              (shape_kept-fallback (permitted_at s x b o g f).0 g f facts.3) (facts.4 asked))
        | inr free ↦ inl free
      ],
    )
permitted_dicts-true s x b none mg mf eo eg ef h = cc
permitted_dicts-true s x b (some o) none mf eo eg ef h = cc
permitted_dicts-true s x b (some o) (some g) none eo eg ef h = cc

-- A permission means that control was never suspended, and that the dedicated group is read as the
-- hidden fallback over exactly the expected nodes, fixed to the expected member, with the original
-- fallback over the same nodes and its fixed value a text. Where the outer selector is asked for, it is read
-- as a selector that selects the dedicated group, and the original fallback is not fixed.
pub permitted-Shape :
    (s : Ownership) (x : Proxies) (b : Bool)
    → (permitted s x b).1 ≡ true
    → (s.suspended ≡ false)
      × ((permitted s x b).0.suspended ≡ false)
      × Shape s.nodes (permitted s x b).0.expected x
      × ((b ≡ false) ⊎ OuterShape x)
unfolding permitted
permitted-Shape s x b h =
    permitted_dicts-true s x b (dict_or_empty x.outer) (dict_or_empty x.group)
      (dict_or_empty x.fallback) refl refl refl h

-- The evidence for a move of the expected member back to AUTO: the group is read with nothing fixed, and the
-- node is reported down.
abbrev pub MovedOff : Proxies → Node → Type 0
MovedOff x n =
    ((g : Group) × ((x.group ≡ typed g) × (g.fixed ≡ cleared))) × (x.alive n ≡ some false)

cleared-typed :
    (d : Dynamic Group) (g : Group) → dict_or_empty d ≡ some g → g.fixed ≡ cleared → d ≡ typed g
unfolding dict_or_empty
cleared-typed missing g h k = absurd (ground (arith, h, k))
cleared-typed other g h k = cc
cleared-typed (typed d) g h k = ground (arith, h)

expected_now-only :
    (x : Proxies) (g : Group) (n : Node)
    → (expected_now x g (only n) ≡ only n)
      ⊎ ((expected_now x g (only n) ≡ auto) × (g.fixed ≡ cleared) × (x.alive n ≡ some false))
unfolding expected_now
expected_now-only x g n = ground arith

expected_now-auto : (x : Proxies) (g : Group) → expected_now x g auto ≡ auto
unfolding expected_now
expected_now-auto x g = refl

expected_now-moves :
    (x : Proxies) (g : Group) (m : Member)
    → dict_or_empty x.group ≡ some g
    → (expected_now x g m ≡ m)
      ⊎ ((n : Node) × (m ≡ only n) × (expected_now x g m ≡ auto) × MovedOff x n)
expected_now-moves x g auto d = inl (expected_now-auto x g)
expected_now-moves x g (only n) d = elim (expected_now-only x g n) [
  | inl e ↦ inl e
  | inr (e, k, a) ↦ inr (n, refl, e, ((g, (cleared-typed x.group g d k, k)), a))
]

permitted_dicts-expected :
    (s : Ownership) (x : Proxies) (b : Bool) (mo mg mf : Option Group)
    → mg ≡ dict_or_empty x.group
    → ((permitted_dicts s x b mo mg mf).0.expected ≡ s.expected)
      ⊎ ((n : Node) × (s.expected ≡ only n)
          × ((permitted_dicts s x b mo mg mf).0.expected ≡ auto)
          × MovedOff x n)
unfolding permitted_dicts permitted_at
permitted_dicts-expected s x b none mg mf d = inl refl
permitted_dicts-expected s x b (some o) none mf d = inl refl
permitted_dicts-expected s x b (some o) (some g) none d = inl refl
permitted_dicts-expected s x b (some o) (some g) (some f) d =
    expected_now-moves x g s.expected (sym d)

-- A check moves the expected member only from a node back to AUTO, and only where the dedicated group is read
-- with nothing fixed and the node is reported down.
pub permitted-expected :
    (s : Ownership) (x : Proxies) (b : Bool)
    → ((permitted s x b).0.expected ≡ s.expected)
      ⊎ ((n : Node) × (s.expected ≡ only n) × ((permitted s x b).0.expected ≡ auto) × MovedOff x n)
unfolding permitted
permitted-expected s x b =
    permitted_dicts-expected s x b (dict_or_empty x.outer) (dict_or_empty x.group)
      (dict_or_empty x.fallback) refl

-- A sequence of checks and commits of one process.
pub data Act : Type 0 where
  check : Proxies → Bool → Act
  commit : Member → Act

-- A refused commit raises and changes nothing.
act : Ownership → Act → Ownership
act s (check x b) = (permitted s x b).0
act s (commit m) = elim (committed s m) [ none ↦ s | some t ↦ t ]

pub acts : Ownership → List Act → Ownership
unfolding act
acts s [] = s
acts s (a ∷ as_) = acts (act s a) as_

permitted_dicts-suspended :
    (s : Ownership) (x : Proxies) (b : Bool) (mo mg mf : Option Group)
    → s.suspended ≡ true
    → ((permitted_dicts s x b mo mg mf).0.suspended ≡ true)
      × ((permitted_dicts s x b mo mg mf).1 ≡ false)
unfolding permitted_dicts permitted_at
permitted_dicts-suspended s x b none mg mf h = ground arith
permitted_dicts-suspended s x b (some o) none mf h = ground arith
permitted_dicts-suspended s x b (some o) (some g) none h = ground arith
permitted_dicts-suspended s x b (some o) (some g) (some f) h = ground arith

permitted-suspended :
    (s : Ownership) (x : Proxies) (b : Bool)
    → s.suspended ≡ true
    → ((permitted s x b).0.suspended ≡ true) × ((permitted s x b).1 ≡ false)
unfolding permitted
permitted-suspended s x b h =
    permitted_dicts-suspended s x b (dict_or_empty x.outer) (dict_or_empty x.group)
      (dict_or_empty x.fallback) h

act-suspended : (s : Ownership) (a : Act) → s.suspended ≡ true → (act s a).suspended ≡ true
unfolding act committed
act-suspended s (check x b) h = (permitted-suspended s x b h).0
act-suspended s (commit m) h = ground arith

acts-suspended :
    (s : Ownership) (as_ : List Act) → s.suspended ≡ true → (acts s as_).suspended ≡ true
unfolding acts
acts-suspended s [] h = h
acts-suspended s (a ∷ as_) h = acts-suspended (act s a) as_ (act-suspended s a h)

-- Once control is suspended, no sequence of checks and commits brings a permission back.
pub suspension_is_final :
    (s : Ownership) (as_ : List Act) (x : Proxies) (b : Bool)
    → s.suspended ≡ true
    → (permitted (acts s as_) x b).1 ≡ false
suspension_is_final s as_ x b h = (permitted-suspended (acts s as_) x b (acts-suspended s as_ h)).1
