-- ===== src/Collector/Once.antt =====
-- No connection is active and finalized at once, and none is finalized twice.
use install_singboxhysteria.Collector.Events.{set_active, close_active}
use install_singboxhysteria.Collector.Tracker.{
  Tracker, Conn, record_banked, finalize, Banked, bank, drop_banked,
}
use install_singboxhysteria.Common.{
  ℕ, [], ◌∷◌, none, some, true, false, zero, suc, inl, inr, ◌≡◌, arith, List, is_some, ◌==◌, drop,
  ◌++◌, Bool-cases, ◌∙◌, sym, ap, eqb→eq,
}
use install_singboxhysteria.Dict.{
  find, put, remove, find-put_other, find-remove_other, find-remove, find-put, remove-none,
}

-- An active id stands in no other table, and its connection carries it.
pub record Separate (t : Tracker) : Type 0 where
  pub not_banked : (i : ℕ) → is_some (find i t.active) ≡ true → find i t.banked_ids ≡ none
  pub not_recent : (i : ℕ) → is_some (find i t.active) ≡ true → find i t.recent ≡ none
  pub own_id : (i : ℕ) (c : Conn) → find i t.active ≡ some c → c.id ≡ i

find-append_other {ℓ} :
    {A : Type ℓ} (j k : ℕ) (a : A) (d : List (ℕ × A))
    → (j == k) ≡ false
    → find j (d ++ (k, a) ∷ []) ≡ find j d
unfolding find
find-append_other j k a [] h = ground arith
find-append_other j k a ((i, b) ∷ d) h = ground (arith, find-append_other j k a d h)

find-drop-none {ℓ} :
    {A : Type ℓ} (n k : ℕ) (d : List (ℕ × A)) → find k d ≡ none → find k (drop n d) ≡ none
unfolding find
find-drop-none zero k d h = h
find-drop-none (suc n) k [] h = h
find-drop-none (suc n) k ((i, a) ∷ d) h = find-drop-none n k d (ground (arith, h))

find-remove_kept :
    (i id : ℕ) (d : List (ℕ × Conn))
    → is_some (find i (remove id d)) ≡ true
    → find i (remove id d) ≡ find i d
find-remove_kept i id d h = elim (Bool-cases (i == id)) [
  | inl e ↦
      let same = eqb→eq i id e in
      let gone : is_some (find i (remove id d)) ≡ false =
        ap is_some (ap (λ x. find x (remove id d)) same ∙ find-remove id d) in
      cc
  | inr n ↦ find-remove_other i id d n
]

-- A step that leaves the three tables as they are.
pub Separate-same :
    (t t' : Tracker)
    → t'.active ≡ t.active
    → t'.recent ≡ t.recent
    → t'.banked_ids ≡ t.banked_ids
    → Separate t
    → Separate t'
Separate-same t t' ea er eb s = record {
  not_banked = λ i h. rw eb (s.not_banked i (rw ea at h));
  not_recent = λ i h. rw er (s.not_recent i (rw ea at h));
  own_id = λ i c h. s.own_id i c (rw ea at h);
}

pub record_banked-none :
    (i id : ℕ) (b : Banked) (t : Tracker)
    → (i == id) ≡ false
    → find i t.banked_ids ≡ none
    → find i (record_banked id b t).banked_ids ≡ none
unfolding record_banked
record_banked-none i id b t h k = find-drop-none _ i _ (
    find-append_other i id b (remove id t.banked_ids) h ∙ find-remove_other i id t.banked_ids h ∙ k)

pub not_same :
    (i id : ℕ) (d : List (ℕ × Conn))
    → is_some (find i d) ≡ true
    → find id d ≡ none
    → (i == id) ≡ false
not_same i id d h k = elim (Bool-cases (i == id)) [
  | inl e ↦
      let same = eqb→eq i id e in
      let gone : is_some (find i d) ≡ false = ap is_some (ap (λ x. find x d) same ∙ k) in cc
  | inr n ↦ n
]

pub finalize-Separate :
    (c : Conn) (now closed_at : ℕ) (t : Tracker)
    → find c.id t.active ≡ none
    → Separate t
    → Separate (finalize c now closed_at t)
unfolding finalize bank
finalize-Separate c now closed_at t n s = record {
  not_banked = λ i h.
      record_banked-none i c.id _ (bank c.owner c.uplink c.downlink t)
        (not_same i c.id t.active h n) (s.not_banked i h);
  not_recent =
      λ i h. find-put_other i c.id _ t.recent (not_same i c.id t.active h n) ∙ s.not_recent i h;
  own_id = s.own_id;
}

pub remove-Separate :
    (id : ℕ) (t : Tracker) → Separate t → Separate (record t { active = remove id t.active })
remove-Separate id t s = record {
  not_banked = λ i h. s.not_banked i (rw (find-remove_kept i id t.active h) at h);
  not_recent = λ i h. s.not_recent i (rw (find-remove_kept i id t.active h) at h);
  own_id = λ i c h. s.own_id i c (sym (find-remove_kept i id t.active (ap is_some h)) ∙ h);
}

pub set_active-Separate :
    (id : ℕ) (c : Conn) (t : Tracker)
    → c.id ≡ id
    → find id t.banked_ids ≡ none
    → find id t.recent ≡ none
    → Separate t
    → Separate (set_active id c t)
unfolding set_active
set_active-Separate id c t own nb nr s = record {
  not_banked = λ i h. elim (Bool-cases (i == id)) [
    | inl e ↦ ap (λ x. find x t.banked_ids) (eqb→eq i id e) ∙ nb
    | inr n ↦ s.not_banked i (rw (find-put_other i id c t.active n) at h)
  ];
  not_recent = λ i h. elim (Bool-cases (i == id)) [
    | inl e ↦ ap (λ x. find x t.recent) (eqb→eq i id e) ∙ nr
    | inr n ↦ s.not_recent i (rw (find-put_other i id c t.active n) at h)
  ];
  own_id = λ i x h. elim (Bool-cases (i == id)) [
    | inl e ↦
        let same = eqb→eq i id e in
        let found : some c ≡ some x =
          sym (find-put id c t.active) ∙ ap (λ y. find y (put id c t.active)) (sym same) ∙ h in
        let this : c ≡ x = cc in ap (λ (y : Conn). y.id) (sym this) ∙ own ∙ sym same
    | inr n ↦ s.own_id i x (rw (find-put_other i id c t.active n) at h)
  ];
}

pub close_active-Separate :
    (id : ℕ) (c : Conn) (now closed_at : ℕ) (t : Tracker)
    → c.id ≡ id
    → Separate t
    → Separate (close_active id c now closed_at t)
unfolding close_active
close_active-Separate id c now closed_at t own s =
    finalize-Separate c now closed_at _
      (ap (λ x. find x (remove id t.active)) own ∙ find-remove id t.active) (remove-Separate id t s)

-- Tables with entries removed.
pub Separate-drop :
    (id : ℕ) (t : Tracker)
    → Separate t
    → Separate (drop_banked id (record t { recent = remove id t.recent }))
unfolding drop_banked
Separate-drop id t s = record {
  not_banked = λ i h. remove-none i id t.banked_ids (s.not_banked i h);
  not_recent = λ i h. remove-none i id t.recent (s.not_recent i h);
  own_id = s.own_id;
}
