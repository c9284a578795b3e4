-- ===== src/Incident/Scanner/Stages.antt =====
-- What a stage of a cycle does to the store, from what its parts do.
use install_singboxhysteria.Incident.Bundle.{Bundle}
use install_singboxhysteria.Incident.Anomaly.{is_empty}
use install_singboxhysteria.Incident.Verdict.{Detection}
use install_singboxhysteria.Incident.Stage.{
  World, Stage, Result, ok, abort, ◌>>=◌, pure, Env, ErrorCode, or_raise, classify_failed,
}
use install_singboxhysteria.Incident.Gates.{run_detect, is_proven, judge}
use install_singboxhysteria.Incident.Scanner.{Row, advance_last_signal, Detection, is_empty, Bundle}
use install_singboxhysteria.Incident.Store.{Store, Row}
use install_singboxhysteria.Common.{
  ◌≡◌, sym, subst, none, some, true, false, refl, Bool, ℕ, Option, if◌then◌else◌, max,
}

module _ {A B : Type 0} where
  -- A stage that leaves the store, and the rest, which works on the same store.
  pub then_stage :
      (P : Store → Type 0) (m : Stage A) (k : A → Stage B) (w : World)
      → (m w).1.store ≡ w.store
      → P w.store
      → ((a : A) (w' : World) → w'.store ≡ w.store → P (k a w').1.store)
      → P ((m >>= k) w).1.store
  then_stage P m k w e p f = go (m w) e
    where
      go :
          (o : Result A × World)
          → o.1.store ≡ w.store
          → P
              (elim o.0 as (λ r. Result B × World) [
                | ok a ↦ k a o.1
                | abort x ↦ (abort x, o.1)
              ]).1.store
      go (ok a, w') h = f a w' h
      go (abort x, w') h = subst P (sym h) p

  -- A stage that reaches the store, and a rest from wherever it left.
  pub stage_then :
      (P Q : Store → Type 0) (m : Stage A) (k : A → Stage B) (w : World)
      → P (m w).1.store
      → ((st : Store) → P st → Q st)
      → ((a : A) (w' : World) → P w'.store → Q (k a w').1.store)
      → Q ((m >>= k) w).1.store
  stage_then P Q m k w p i f = go (m w) p
    where
      go :
          (o : Result A × World)
          → P o.1.store
          → Q
              (elim o.0 as (λ r. Result B × World) [
                | ok a ↦ k a o.1
                | abort x ↦ (abort x, o.1)
              ]).1.store
      go (ok a, w') h = f a w' h
      go (abort x, w') h = i w'.store h

pub if_stage :
    {A : Type 0} (P : Store → Type 0) (b : Bool) (m n : Stage A) (w : World)
    → (b ≡ true → P (m w).1.store)
    → (b ≡ false → P (n w).1.store)
    → P ((if b then m else n) w).1.store
if_stage P true m n w f g = f refl
if_stage P false m n w f g = g refl

pub or_raise_store :
    {A : Type 0} (o : Option A) (e : ErrorCode) (w : World) → (or_raise o e w).1.store ≡ w.store
or_raise_store none e w = refl
or_raise_store (some a) e w = refl

judge_store : (o : Option Bundle) (w : World) → (judge o w).1.store ≡ w.store
unfolding judge
judge_store none w = refl
judge_store (some b) w = refl

pub run_detect_store :
    (env : Env) (start last_end : ℕ) (since : Option ℕ) (w : World)
    → (run_detect env start last_end since w).1.store ≡ w.store
unfolding run_detect
run_detect_store env start last_end since w =
    judge_store (env.bundle start last_end (is_proven since start)) w

pub advance_last_signal_store :
    (r : Row) (d : Detection) (w : World) → (advance_last_signal r d w).1.store ≡ w.store
unfolding advance_last_signal
advance_last_signal_store r d w =
    let raised : Stage ℕ =
      or_raise d.last_signal classify_failed >>= λ last. pure (max r.last_signal last) in
    if_stage (λ st. st ≡ w.store) (is_empty d.indices) (pure r.last_signal) raised w (λ e. refl)
      (λ e.
        then_stage (λ st. st ≡ w.store) (or_raise d.last_signal classify_failed)
          (λ last. pure (max r.last_signal last)) w (or_raise_store d.last_signal classify_failed w)
          refl (λ a w' h. h))
