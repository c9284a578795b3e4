-- ===== src/Incident/Detect/Sound.antt =====
-- What an alarm rests on, and where it lies.
use install_singboxhysteria.Incident.Stats.{journal_view}
use install_singboxhysteria.Incident.Vocabulary.{un_baseline_evidence_absent}
use install_singboxhysteria.Incident.Accept.{refusals, echo_window}
use install_singboxhysteria.Incident.Verdict.{
  Detection, incident, Window, indeterminate, insufficient_evidence, Classification,
}
use install_singboxhysteria.Incident.Detect.Closed.{
  IsVerdict, IsClosed, IsVerdict-if, seal-quiet, verdict-IsVerdict, seal-status, seal-IsClosed,
}
use install_singboxhysteria.Incident.Bundle.{Bundle, min_baseline_buckets, bucket_span}
use install_singboxhysteria.Incident.Anomaly.{
  candidates_from, View, candidates, Candidate, view_of, is_empty, has_samples, is_anomalous,
  marks_of, seen_first, corroborates, unknown_first, unknown_if, is_usable,
}
use install_singboxhysteria.Common.{
  ℕ, [], ◌∷◌, none, some, true, false, zero, suc, inl, inr, refl, ◌≡◌, arith, List, ◌≤◌, ◌<◌, ◌+◌,
  Bool, ◌-◌, ◌≢◌, ◌/◌, range_from, any, ◌*◌, leb, not, ◌++◌, sym, ◌∙◌, subst, Bool-cases, ap,
  leb→le,
}
use install_singboxhysteria.Incident.Detect.{
  detect, last_of, Bundle, analyse, Detection, indices_of, Window, incident, refusals,
  indeterminate, insufficient_evidence, un_baseline_evidence_absent, journal_unknown, journal_view,
  Classification, with_signals,
}

-- Rising indices from `lo` on and below `hi`.
abbrev Rising : ℕ → ℕ → List ℕ → Type 0
Rising lo hi [] = Unit {0}
Rising lo hi (i ∷ is) = (lo ≤ i) × (i < hi) × Rising (suc i) hi is

Rising-weaken : (lo mid hi : ℕ) (is : List ℕ) → lo ≤ mid → Rising mid hi is → Rising lo hi is
Rising-weaken lo mid hi [] h r = tt
Rising-weaken lo mid hi (i ∷ is) h r = (omega (arith, r.0), r.1, r.2)

last_of-Rising :
    (lo hi i : ℕ) (is : List ℕ) → Rising lo hi (i ∷ is) → (i ≤ last_of i is) × (last_of i is < hi)
last_of-Rising lo hi i [] r = (omega arith, r.1)
last_of-Rising lo hi i (j ∷ js) r =
    let rest = last_of-Rising (suc i) hi j js r.2 in (omega (arith, rest.0, r.2.0), rest.1)

candidates_from-Rising :
    (v : View) (t : Bool) (n k hi : ℕ)
    → n + k ≤ hi
    → Rising n hi (indices_of (candidates_from v t (range_from n k)))
unfolding candidates_from
candidates_from-Rising v t n zero hi h = tt
candidates_from-Rising v t n (suc k) hi h =
    let rest = candidates_from-Rising v t (suc n) k hi (omega arith) in
    elim (is_anomalous (marks_of v t n))
      as (λ a. Rising n hi (
        indices_of (elim a [
          | true ↦
              record { index = n; marks = marks_of v t n }
              ∷ candidates_from v t (range_from (suc n) k)
          | false ↦ candidates_from v t (range_from (suc n) k)
        ]))) [
          | true ↦ (omega arith, omega arith, rest)
          | false ↦ Rising-weaken n (suc n) hi _ (omega arith) rest
        ]

candidates-Rising :
    (v : View) (t : Bool)
    → min_baseline_buckets ≤ v.buckets
    → Rising min_baseline_buckets v.buckets (indices_of (candidates v t))
unfolding candidates
candidates-Rising v t h =
    candidates_from-Rising v t min_baseline_buckets (v.buckets - min_baseline_buckets) v.buckets
      (omega (arith, h))

-- The number of buckets of a bundle's window, its views, and the anomalous buckets.
abbrev pub bucket_count : Bundle → ℕ
bucket_count b = (b.end_ - b.start) / bucket_span

abbrev pub found : Bundle → List Candidate
found b = let v = view_of b b.start (bucket_count b) in candidates v (has_samples v)

analyse-IsVerdict : (b : Bundle) → IsVerdict (found b) (analyse b b.start (bucket_count b))
unfolding analyse
analyse-IsVerdict b =
    let v = view_of b b.start (bucket_count b) in
    let w : Window = record {
      from = b.start;
      to = b.start + bucket_count b * bucket_span;
      count = bucket_count b;
    } in
    let seen = seen_first b v in
    let unknown = unknown_first b v in
    IsVerdict-if (leb (bucket_count b) min_baseline_buckets) (found b) _ _
      (seal-quiet (found b) indeterminate insufficient_evidence w seen
        (un_baseline_evidence_absent ∷ unknown) refl (λ e. cc))
      (λ h. verdict-IsVerdict b v w (found b) seen (
        (unknown_if (not (is_usable v)) un_baseline_evidence_absent
          ++ journal_unknown (journal_view b.reader b.audit_rows))
        ++ unknown))

analyse-short :
    (b : Bundle)
    → bucket_count b ≤ min_baseline_buckets
    → (analyse b b.start (bucket_count b)).0.status ≢ incident
unfolding analyse
analyse-short b h =
    let t : leb (bucket_count b) min_baseline_buckets ≡ true = ground (arith, h) in
    let w : Window = record {
      from = b.start;
      to = b.start + bucket_count b * bucket_span;
      count = bucket_count b;
    } in
    let v = view_of b b.start (bucket_count b) in
    rw (analyse, t)
      (λ e.
        let s =
          seal-status indeterminate insufficient_evidence w (seen_first b v)
            (un_baseline_evidence_absent ∷ unknown_first b v) refl in
        let no_way = sym s ∙ e in cc)

-- What an incident rests on.
pub record Alarm (b : Bundle) (d : Detection) : Type 0 where
  pub accepted : is_empty (refusals b) ≡ true
  pub at_all_anomalies : d.indices ≡ indices_of (found b)
  pub corroborated : any (λ (x : Candidate). corroborates x.marks) (found b) ≡ true
  pub first : ℕ
  pub last : ℕ
  pub first_is : d.first_signal ≡ some first
  pub last_is : d.last_signal ≡ some last
  pub after_baseline : b.start + min_baseline_buckets * bucket_span ≤ first
  pub not_empty : first + bucket_span ≤ last
  pub inside : last ≤ b.end_

pub record IsSound (b : Bundle) (d : Detection) : Type 0 where
  pub closed : IsClosed d.classification
  pub quiet :
      d.classification.status ≢ incident
      → (d.indices ≡ []) × (d.first_signal ≡ none) × (d.last_signal ≡ none)
  pub alarm : d.classification.status ≡ incident → Alarm b d

inside_end : (b : Bundle) (n : ℕ) → n < bucket_count b → b.start + (n + 1) * bucket_span ≤ b.end_
inside_end b n h = omega (arith, h)

nothing_found :
    (cs : List Candidate)
    → [] ≡ indices_of cs
    → any (λ (x : Candidate). corroborates x.marks) cs ≡ true
    → ⊥
nothing_found [] e k = cc
nothing_found (c ∷ cs) e k = cc

alarm_of :
    (b : Bundle) (c : Classification) (is : List ℕ)
    → is_empty (refusals b) ≡ true
    → is ≡ indices_of (found b)
    → any (λ (x : Candidate). corroborates x.marks) (found b) ≡ true
    → min_baseline_buckets ≤ bucket_count b
    → Alarm b (with_signals b.start (c, is))
unfolding view_of
alarm_of b c [] a e k n = absurd (nothing_found (found b) e k)
alarm_of b c (i ∷ is) a e k n =
    let v = view_of b b.start (bucket_count b) in
    let rising : Rising min_baseline_buckets (bucket_count b) (i ∷ is) =
      subst (Rising min_baseline_buckets (bucket_count b)) (sym e)
        (candidates-Rising v (has_samples v) n) in
    let ends = last_of-Rising min_baseline_buckets (bucket_count b) i is rising in
    record {
      accepted = a;
      at_all_anomalies = e;
      corroborated = k;
      first = b.start + i * bucket_span;
      last = b.start + (last_of i is + 1) * bucket_span;
      first_is = refl;
      last_is = refl;
      after_baseline = omega (arith, rising.0);
      not_empty = omega (arith, ends.0);
      inside = inside_end b (last_of i is) ends.1;
    }

enough_buckets :
    (b : Bundle)
    → (analyse b b.start (bucket_count b)).0.status ≡ incident
    → min_baseline_buckets ≤ bucket_count b
enough_buckets b e = elim (Bool-cases (leb min_baseline_buckets (bucket_count b))) [
  | inl h ↦ leb→le min_baseline_buckets (bucket_count b) h
  | inr h ↦ absurd (analyse-short b (ground (arith, h)) e)
]

quiet_of :
    (b : Bundle) (o : Classification × List ℕ)
    → o.1 ≡ []
    → ((with_signals b.start o).indices ≡ [])
      × ((with_signals b.start o).first_signal ≡ none)
      × ((with_signals b.start o).last_signal ≡ none)
quiet_of b (c, []) h = (refl, refl, refl)
quiet_of b (c, i ∷ is) h = cc

with_signals-class :
    (b : Bundle) (o : Classification × List ℕ) → (with_signals b.start o).classification ≡ o.0
with_signals-class b (c, []) = refl
with_signals-class b (c, i ∷ is) = refl

accepted-IsSound :
    (b : Bundle)
    → is_empty (refusals b) ≡ true
    → IsSound b (with_signals b.start (analyse b b.start (bucket_count b)))
accepted-IsSound b a =
    let o = analyse b b.start (bucket_count b) in
    let v = analyse-IsVerdict b in
    let same = with_signals-class b o in
    record {
      closed = rw same v.verdict_closed;
      quiet = λ n. elim v.incident_or_not [
        | inl yes_incident ↦
            absurd (n (ap (λ (k : Classification). k.status) same ∙ yes_incident.0))
        | inr no_incident_here ↦ quiet_of b o no_incident_here.1
      ];
      alarm = λ e. elim v.incident_or_not [
        | inl found_one ↦
            let long : min_baseline_buckets ≤ bucket_count b = enough_buckets b found_one.0 in
            alarm_of b o.0 o.1 a found_one.1 found_one.2 long
        | inr not_one ↦ absurd (not_one.0 (ap (λ (k : Classification). k.status) (sym same) ∙ e))
      ];
    }

-- Whatever the bundle: the classification is closed, with an emittable category or none as its status
-- asks, and an incident names that its root cause is unknown. Without an incident there are no indices
-- and no signal. An incident comes of accepted evidence alone, its indices are those of all anomalous
-- buckets, one of which shows journal, probe or process evidence, and its signal lies after the
-- baseline, is at least one bucket long and ends inside the window.
pub detect-IsSound : (b : Bundle) → IsSound b (detect b)
unfolding detect
detect-IsSound b = elim (Bool-cases (is_empty (refusals b))) [
  | inl a ↦ rw (detect, a) (accepted-IsSound b a)
  | inr r ↦
      let s =
        seal-status indeterminate insufficient_evidence (echo_window b) [] (refusals b) refl in
      rw (detect, r)
        (record {
          closed =
              seal-IsClosed indeterminate insufficient_evidence (echo_window b) [] (refusals b);
          quiet = λ n. (refl, refl, refl);
          alarm = λ e. let clash = sym s ∙ e in cc;
        })
]
