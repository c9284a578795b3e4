-- ===== src/Incident/Scanner/Alarm.antt =====
-- What a window that the scanner opens rests on.
use install_singboxhysteria.Incident.Bits.{evidence_to_bits, unknown_to_bits}
use install_singboxhysteria.Incident.Verdict.{Detection, is_emittable, Classification}
use install_singboxhysteria.Incident.Stage.{
  World, Stage, Result, Env, ok, abort, ◌>>=◌, ◌>>◌, or_raise, pure, modify, ErrorCode,
  runtime_state_corrupt,
}
use install_singboxhysteria.Incident.Gates.{
  warming, run_detect, is_proven, discovery_buckets, judge,
}
use install_singboxhysteria.Incident.Scanner.{
  discovery_cycle, open_row, request_of, is_incident, point_at, Detection, Classification, alarm_of,
  evidence_to_bits,
}
use install_singboxhysteria.Incident.Scanner.Stages.{
  stage_then, if_stage, run_detect_store, or_raise_store,
}
use install_singboxhysteria.Incident.Writes.Transactions.{open_at_write}
use install_singboxhysteria.Incident.Detect.{detect}
use install_singboxhysteria.Incident.Bundle.{Bundle, bucket_span, min_baseline_buckets, max_buckets}
use install_singboxhysteria.Incident.Store.{
  Store, Row, Values, values_of, values_at, Request, landed, encode_incident_bits,
  evidence_bits_max, unknown_bits_max,
}
use install_singboxhysteria.Incident.Transactions.{new_row}
use install_singboxhysteria.Common.{
  ◌≡◌, refl, sym, ◌∙◌, subst, Option, some, none, ℕ, Bool, true, false, List, ◌⊎◌, inl, inr, ◌∷◌,
  leb, ◌+◌, ◌-◌, ◌*◌, arith, if◌then◌else◌, ◌&&◌, ap, not,
}

abbrev pub discovery_span : ℕ
discovery_span = discovery_buckets * bucket_span

-- The evidence for a row that was opened: on the five complete buckets up to `last_end`, all of which lie
-- after the gate, the classifier finds an incident, and the row holds its category and its signal.
pub record IsAlarm (env : Env) (gate last_end : ℕ) (r : Row) : Type 0 where
  pub proven : Bool
  pub bundle : Bundle
  pub asked : env.bundle (last_end - discovery_span) last_end proven ≡ some bundle
  pub warmed : leb (gate + discovery_span) last_end ≡ true
  pub alarmed : is_incident (detect bundle).classification.status ≡ true
  pub category : r.category ≡ (detect bundle).classification.category
  pub first_signal : (detect bundle).first_signal ≡ some r.first_signal
  pub last_signal : (detect bundle).last_signal ≡ some r.last_signal
  pub start : r.analysis_start ≡ r.first_signal - min_baseline_buckets * bucket_span
  pub classified_end : r.classified_end ≡ last_end
  pub buckets : r.buckets ≡ discovery_buckets
  pub is_open : r.is_open ≡ true

-- The rows as they were, or with one more on top, for an alarm.
abbrev pub OpensForAlarm : Env → ℕ → ℕ → List Row → List Row → Type 0
OpensForAlarm env gate last_end before after =
    (after ≡ before) ⊎ ((r : Row) × ((after ≡ r ∷ before) × IsAlarm env gate last_end r))

-- The values of a request are those it was made with.
if_some : {A : Type 0} (b : Bool) (x v : A) → (if b then some x else none) ≡ some v → x ≡ v
if_some true x v h = cc
if_some false x v h = cc

values_at-fields :
    (q : Request) (signal end_ : ℕ) (e u : Option ℕ) (v : Values)
    → values_at q signal end_ e u ≡ some v
    → (v.category ≡ q.category)
      × (v.last_signal ≡ signal)
      × (v.classified_end ≡ end_)
      × (v.buckets ≡ q.buckets)
unfolding values_at
values_at-fields q signal end_ none u v h = cc
values_at-fields q signal end_ (some e) none v h = cc
values_at-fields q signal end_ (some e) (some u) v h =
    let made : Values = record {
      category = q.category;
      last_signal = signal;
      classified_end = end_;
      buckets = q.buckets;
      evidence = e;
      unknown = u;
    } in
    let same : v ≡ made = sym (
      if_some
        (is_emittable q.category
          && (leb signal end_ && (leb 1 q.buckets && leb q.buckets max_buckets)))
        made v h) in
    (
      ap (λ (x : Values). x.category) same,
      ap (λ (x : Values). x.last_signal) same,
      ap (λ (x : Values). x.classified_end) same,
      ap (λ (x : Values). x.buckets) same,
    )

-- A stage that leaves the store, with what it answered.
pub answered_stage :
    {A B : Type 0} (P : Store → Type 0) (m : Stage A) (k : A → Stage B) (w : World)
    → (m w).1.store ≡ w.store
    → P w.store
    → ((a : A) (w' : World) → (m w).0 ≡ ok a → w'.store ≡ w.store → P (k a w').1.store)
    → P ((m >>= k) w).1.store
answered_stage {A} {B} P m k w e p f = go (m w) e (λ a h. h)
  where
    go :
        (o : Result A × World)
        → o.1.store ≡ w.store
        → ((a : A) → o.0 ≡ ok a → (m w).0 ≡ ok a)
        → P
            (elim o.0 as (λ r. Result B × World) [
              | ok a ↦ k a o.1
              | abort x ↦ (abort x, o.1)
            ]).1.store
    go (ok a, w') h i = f a w' (i a refl) h
    go (abort x, w') h i = subst P (sym h) p

or_raise_answer :
    {A : Type 0} (o : Option A) (x : ErrorCode) (w : World) (a : A)
    → (or_raise o x w).0 ≡ ok a
    → o ≡ some a
or_raise_answer none x w a h = cc
or_raise_answer (some b) x w a h = cc

ok_inj : {A : Type 0} {a b : A} → ok a ≡ ok b → a ≡ b
ok_inj h = cc

judge_answer :
    (o : Option Bundle) (w : World) (d : Detection)
    → (judge o w).0 ≡ ok d
    → (b : Bundle) × ((o ≡ some b) × (d ≡ detect b))
unfolding judge
judge_answer none w d h = cc
judge_answer (some b) w d h = (b, (refl, sym (ok_inj h)))

pub run_detect_answer :
    (env : Env) (start last_end : ℕ) (since : Option ℕ) (w : World) (d : Detection)
    → (run_detect env start last_end since w).0 ≡ ok d
    → (b : Bundle) × ((env.bundle start last_end (is_proven since start) ≡ some b) × (d ≡ detect b))
unfolding run_detect
run_detect_answer env start last_end since w d h =
    judge_answer (env.bundle start last_end (is_proven since start)) w d h

values_of-request :
    (c : Classification) (signal end_ count : ℕ) (v : Values)
    → values_of (request_of c signal end_ count) ≡ some v
    → (v.category ≡ c.category)
      × (v.last_signal ≡ signal)
      × (v.classified_end ≡ end_)
      × (v.buckets ≡ count)
unfolding values_of request_of
values_of-request c signal end_ count v h =
    values_at-fields (request_of c signal end_ count) signal end_
      (encode_incident_bits (some (evidence_to_bits c.evidence)) evidence_bits_max)
      (encode_incident_bits (some (unknown_to_bits c.unknowns)) unknown_bits_max) v h

-- The row that the store makes of a request.
opened_for :
    (env : Env) (gate last_end first last : ℕ) (proven : Bool) (b : Bundle) (w : World)
    → env.bundle (last_end - discovery_span) last_end proven ≡ some b
    → leb (gate + discovery_span) last_end ≡ true
    → is_incident (detect b).classification.status ≡ true
    → (detect b).first_signal ≡ some first
    → (detect b).last_signal ≡ some last
    → OpensForAlarm env gate last_end w.store.rows
        ((open_row env
              (first - min_baseline_buckets * bucket_span)
              first
              (request_of (detect b).classification last last_end discovery_buckets)
            >>= λ id. modify (point_at id) >> pure (some last_end))
          w).1.store.rows
unfolding open_row new_row landed
opened_for env gate last_end first last proven b w asked warmed alarmed f l =
    let start = first - min_baseline_buckets * bucket_span in
    let q = request_of (detect b).classification last last_end discovery_buckets in
    let P = λ (st : Store). OpensForAlarm env gate last_end w.store.rows st.rows in
    let R = λ (x : Store) (y : Store). OpensForAlarm env gate last_end x.rows y.rows in
    stage_then P P (open_row env start first q) (λ id. modify (point_at id) >> pure (some last_end))
      w
      (open_at_write R (λ x y r s. inl r) env.rowid env.write_ok start first q env.store_now w.store
        (λ v s e h a. inr (
          new_row (env.rowid w.store.rows) start first env.store_now v,
          (
            refl,
            let made =
                  values_of-request (detect b).classification last last_end discovery_buckets v e in
                record {
                  proven = proven;
                  bundle = b;
                  asked = asked;
                  warmed = warmed;
                  alarmed = alarmed;
                  category = made.0;
                  first_signal = f;
                  last_signal = l ∙ ap some (sym made.1);
                  start = refl;
                  classified_end = made.2;
                  buckets = made.3;
                  is_open = refl;
                },
          ),
        )))
      (λ st p. p) (λ id w' p. p)

found_then :
    (env : Env) (gate last_end : ℕ) (proven : Bool) (b : Bundle) (w : World)
    → env.bundle (last_end - discovery_span) last_end proven ≡ some b
    → leb (gate + discovery_span) last_end ≡ true
    → is_incident (detect b).classification.status ≡ true
    → OpensForAlarm env gate last_end w.store.rows (alarm_of env last_end (detect b) w).1.store.rows
unfolding alarm_of
found_then env gate last_end proven b w asked warmed alarmed =
    let before = w.store.rows in
    let P = λ (st : Store). OpensForAlarm env gate last_end before st.rows in
    let d = detect b in
    let opening : ℕ → ℕ → Stage (Option ℕ) = λ first last.
      open_row env (first - min_baseline_buckets * bucket_span) first
        (request_of d.classification last last_end discovery_buckets)
      >>= λ id. modify (point_at id) >> pure (some last_end) in
    let signalled : ℕ → Stage (Option ℕ) =
      λ first. or_raise d.last_signal runtime_state_corrupt >>= opening first in
    answered_stage P (or_raise d.first_signal runtime_state_corrupt) signalled w
      (or_raise_store d.first_signal runtime_state_corrupt w) (inl refl)
      (λ first w1 f h1.
        answered_stage P (or_raise d.last_signal runtime_state_corrupt) (opening first) w1
          (or_raise_store d.last_signal runtime_state_corrupt w1)
          (inl (ap (λ (x : Store). x.rows) h1))
          (λ last w2 l h2.
            subst (λ x. OpensForAlarm env gate last_end x (opening first last w2).1.store.rows)
              (ap (λ (x : Store). x.rows) (h2 ∙ h1))
              (opened_for env gate last_end first last proven b w2 asked warmed alarmed
                (or_raise_answer d.first_signal runtime_state_corrupt w first f)
                (or_raise_answer d.last_signal runtime_state_corrupt w1 last l))))

pub discovery_cycle_opens :
    (env : Env) (gate last_end : ℕ) (since : Option ℕ) (w : World)
    → OpensForAlarm env gate last_end w.store.rows
        (discovery_cycle env gate last_end since w).1.store.rows
unfolding discovery_cycle
discovery_cycle_opens env gate last_end since w =
    let start = last_end - discovery_span in
    let P = λ (st : Store). OpensForAlarm env gate last_end w.store.rows st.rows in
    let judged : Detection → Stage (Option ℕ) = λ d.
      if not (is_incident d.classification.status)
      then pure (some last_end)
      else alarm_of env last_end d in
    if_stage P (warming (some gate) (some last_end)) (pure none)
      (run_detect env start last_end since >>= judged) w (λ h. inl refl)
      (λ h.
        answered_stage P (run_detect env start last_end since) judged w
          (run_detect_store env start last_end since w) (inl refl)
          (λ d w1 e h1.
            let (b, (asked, same)) = run_detect_answer env start last_end since w d e in
            if_stage P (not (is_incident d.classification.status)) (pure (some last_end))
              (alarm_of env last_end d) w1 (λ q. inl (ap (λ (x : Store). x.rows) h1))
              (λ q.
                subst
                  (λ x. OpensForAlarm env gate last_end x (alarm_of env last_end d w1).1.store.rows)
                  (ap (λ (x : Store). x.rows) h1)
                  (subst
                    (λ x.
                      OpensForAlarm env gate last_end w1.store.rows
                        (alarm_of env last_end x w1).1.store.rows)
                    (sym same)
                    (found_then env gate last_end (is_proven since start) b w1 asked
                      (ground (arith, h))
                      (ground (
                        arith,
                        subst (λ (x : Detection). not (is_incident x.classification.status) ≡ false)
                            same q,
                      )))))))
