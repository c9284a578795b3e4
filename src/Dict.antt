-- ===== src/Dict.antt =====
-- A Python dictionary with numbers for its keys: a list in the order of insertion.
use install_singboxhysteria.Common.{
  ℕ, [], ◌∷◌, none, some, false, refl, ◌≡◌, arith, List, Option, if◌then◌else◌, ◌==◌,
}

-- `d.get(k)`.
unfoldable pub find {ℓ} : {A : Type ℓ} → ℕ → List (ℕ × A) → Option A
find k [] = none
find k ((i, a) ∷ d) = if i == k then some a else find k d

-- `d[k] = a`: a key that is there keeps its place.
unfoldable pub put {ℓ} : {A : Type ℓ} → ℕ → A → List (ℕ × A) → List (ℕ × A)
put k a [] = (k, a) ∷ []
put k a ((i, b) ∷ d) = if i == k then (k, a) ∷ d else (i, b) ∷ put k a d

-- `d.pop(k, None)`.
unfoldable pub remove {ℓ} : {A : Type ℓ} → ℕ → List (ℕ × A) → List (ℕ × A)
remove k [] = []
remove k ((i, a) ∷ d) = if i == k then remove k d else (i, a) ∷ remove k d

pub find-remove {ℓ} : {A : Type ℓ} (k : ℕ) (d : List (ℕ × A)) → find k (remove k d) ≡ none
unfolding find remove
find-remove k [] = refl
find-remove k ((i, a) ∷ d) = ground (arith, find-remove k d)

pub find-remove_other {ℓ} :
    {A : Type ℓ} (j k : ℕ) (d : List (ℕ × A)) → (j == k) ≡ false → find j (remove k d) ≡ find j d
unfolding find remove
find-remove_other j k [] h = refl
find-remove_other j k ((i, a) ∷ d) h = ground (arith, h, find-remove_other j k d h)

pub find-put {ℓ} : {A : Type ℓ} (k : ℕ) (a : A) (d : List (ℕ × A)) → find k (put k a d) ≡ some a
unfolding find put
find-put k a [] = ground arith
find-put k a ((i, b) ∷ d) = ground (arith, find-put k a d)

pub find-put_other {ℓ} :
    {A : Type ℓ} (j k : ℕ) (a : A) (d : List (ℕ × A))
    → (j == k) ≡ false
    → find j (put k a d) ≡ find j d
unfolding find put
find-put_other j k a [] h = ground arith
find-put_other j k a ((i, b) ∷ d) h = ground (arith, h, find-put_other j k a d h)

pub remove-none {ℓ} :
    {A : Type ℓ} (j k : ℕ) (d : List (ℕ × A)) → find j d ≡ none → find j (remove k d) ≡ none
unfolding find remove
remove-none j k [] h = refl
remove-none j k ((i, a) ∷ d) h = ground (arith, h, remove-none j k d)
