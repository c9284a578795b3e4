-- ===== src/Incident/Detect/Closed.antt =====
-- What every detection keeps, whatever the bundle.
use install_singboxhysteria.Incident.Verdict.Sound.{attribute_iff}
use install_singboxhysteria.Incident.Stats.{generic_tcp_healthy, journal_view, api_healthy}
use install_singboxhysteria.Incident.Bundle.{Bundle}
use install_singboxhysteria.Incident.Anomaly.{
  is_empty, Candidate, View, corroborates, flags_of, is_usable, clusters, collect_seen,
  collect_unknown,
}
use install_singboxhysteria.Incident.Vocabulary.{
  Unknown, unknown_index, Evidence, un_root_cause_not_established, unknown_order,
  un_multiple_anomaly_clusters,
}
use install_singboxhysteria.Incident.Verdict.{
  sorted_unknown, Classification, seal, is_paired, Status, Category, incident, Window, root_cause,
  no_incident, indeterminate, destination_specific, category_none, is_emittable, Context,
  vps_process_or_api, vps_outbound, reality_tcp_path, hysteria2_udp_path,
  common_inbound_client_office, insufficient_evidence, attribute,
}
use install_singboxhysteria.Common.{
  [], ◌∷◌, true, false, inl, inr, refl, ◌≡◌, arith, List, Bool, any, ◌==◌, Bool-cases, ◌&&◌, filter,
  ◌||◌, ◌++◌, ◌≢◌, ℕ, ◌⊎◌, not, sym, if◌then◌else◌, ◌∙◌, ltb, length, range_from,
}
use install_singboxhysteria.Incident.Detect.{
  Classification, seal, Unknown, incident, Window, Evidence, is_empty, verdict_cluster, verdict,
  Bundle, category_none, indices_of, generic_tcp_healthy, is_complete, journal_view, api_healthy,
  attribute, health_token, un_multiple_anomaly_clusters,
}

abbrev pub has_root_cause : List Unknown → Bool
has_root_cause us =
    any (λ (u : Unknown). unknown_index u == unknown_index un_root_cause_not_established) us

-- A classification whose status and category belong together, and that names the standing unknown of
-- an incident.
pub record IsClosed (c : Classification) : Type 0 where
  pub paired : is_paired c.status c.category ≡ true
  pub cause_unknown : c.status ≡ incident → has_root_cause c.unknowns ≡ true

any-filter {ℓ} :
    {A : Type ℓ} (p q : A → Bool) (l : List A)
    → any (λ x. p x && q x) l ≡ true
    → any p (filter q l) ≡ true
any-filter p q [] h = h
any-filter p q (x ∷ l) h =
    elim (q x)
        as (λ b.
          ((p x && b) || any (λ y. p y && q y) l) ≡ true
          → any p (elim b [ true ↦ x ∷ filter q l | false ↦ filter q l ]) ≡ true) [
            | true ↦ λ k. ground (arith, any-filter p q l, k)
            | false ↦ λ k. ground (arith, any-filter p q l, k)
          ]
      h

sorted_unknown-has_root_cause :
    (us : List Unknown)
    → has_root_cause (sorted_unknown (un_root_cause_not_established ∷ us)) ≡ true
unfolding sorted_unknown
sorted_unknown-has_root_cause us =
    any-filter (λ (u : Unknown). unknown_index u == unknown_index un_root_cause_not_established)
      (λ (t : Unknown).
        any (λ (u : Unknown). unknown_index u == unknown_index t)
          (un_root_cause_not_established ∷ us))
      unknown_order refl

root_cause-has_root_cause :
    (s : Status) (us : List Unknown)
    → s ≡ incident
    → has_root_cause (sorted_unknown (root_cause s ++ us)) ≡ true
root_cause-has_root_cause incident us h = sorted_unknown-has_root_cause us
root_cause-has_root_cause no_incident us h = cc
root_cause-has_root_cause indeterminate us h = cc

pub seal-IsClosed :
    (s : Status) (k : Category) (w : Window) (es : List Evidence) (us : List Unknown)
    → IsClosed (seal s k w es us)
unfolding seal
seal-IsClosed s k w es us = elim (Bool-cases (is_paired s k)) [
  | inl e ↦ rw (seal, e) (record { paired = e; cause_unknown = root_cause-has_root_cause s us })
  | inr e ↦ rw (seal, e) (record { paired = refl; cause_unknown = λ h. cc })
]

pub seal-status :
    (s : Status) (k : Category) (w : Window) (es : List Evidence) (us : List Unknown)
    → is_paired s k ≡ true
    → (seal s k w es us).status ≡ s
unfolding seal
seal-status s k w es us h = rw (seal, h) refl

emittable_lem :
    (k : Category) → k ≢ destination_specific → k ≢ category_none → is_emittable k ≡ true
emittable_lem vps_process_or_api a b = refl
emittable_lem vps_outbound a b = refl
emittable_lem reality_tcp_path a b = refl
emittable_lem hysteria2_udp_path a b = refl
emittable_lem common_inbound_client_office a b = refl
emittable_lem insufficient_evidence a b = refl
emittable_lem destination_specific a b = absurd (a refl)
emittable_lem category_none a b = absurd (b refl)

-- A verdict over candidates: either an incident at all of them, one of which corroborates, or none.
pub record IsVerdict (cs : List Candidate) (o : Classification × List ℕ) : Type 0 where
  pub verdict_closed : IsClosed o.0
  pub incident_or_not :
      ((o.0.status ≡ incident)
        × (o.1 ≡ indices_of cs)
        × (any (λ (x : Candidate). corroborates x.marks) cs ≡ true))
      ⊎ ((o.0.status ≢ incident) × (o.1 ≡ []))

verdict_cluster-status :
    (b : Bundle) (v : View) (w : Window) (cs : List Candidate) (es : List Evidence)
    (us : List Unknown)
    → (verdict_cluster b v w cs es us).status ≡ incident
unfolding verdict_cluster
verdict_cluster-status b v w cs es us =
    let healthy = generic_tcp_healthy v.probes (indices_of cs) in
    let c : Context = record {
      probe_seen = not (is_empty b.probe_rows);
      negatives_provable = is_complete (journal_view b.reader b.audit_rows) || healthy;
      generic_healthy = healthy;
      api_is_healthy = api_healthy v.samples (indices_of cs);
    } in
    let k = attribute_iff (flags_of cs) c in
    seal-status incident (attribute (flags_of cs) c).0 w _ _
      (emittable_lem (attribute (flags_of cs) c).0 k.5 k.6)

verdict_cluster-IsClosed :
    (b : Bundle) (v : View) (w : Window) (cs : List Candidate) (es : List Evidence)
    (us : List Unknown)
    → IsClosed (verdict_cluster b v w cs es us)
unfolding verdict_cluster
verdict_cluster-IsClosed b v w cs es us = seal-IsClosed incident _ w _ _

pub IsVerdict-if :
    (t : Bool) (cs : List Candidate) (o p : Classification × List ℕ)
    → IsVerdict cs o
    → (t ≡ false → IsVerdict cs p)
    → IsVerdict cs (if t then o else p)
IsVerdict-if true cs o p a b = a
IsVerdict-if false cs o p a b = b refl

pub seal-quiet :
    (cs : List Candidate) (s : Status) (k : Category) (w : Window) (es : List Evidence)
    (us : List Unknown)
    → is_paired s k ≡ true
    → s ≢ incident
    → IsVerdict cs (seal s k w es us, [])
seal-quiet cs s k w es us p n = record {
  verdict_closed = seal-IsClosed s k w es us;
  incident_or_not = inr (λ e. n (sym (seal-status s k w es us p) ∙ e), refl);
}

pub verdict-IsVerdict :
    (b : Bundle) (v : View) (w : Window) (cs : List Candidate) (es : List Evidence)
    (us : List Unknown)
    → IsVerdict cs (verdict b v w cs es us)
unfolding verdict
verdict-IsVerdict b v w [] es us =
    IsVerdict-if (is_usable v && (not (is_empty b.probe_rows) || not (is_empty b.journal_rows))) []
      _ _ (seal-quiet [] no_incident category_none w _ us refl (λ e. cc))
      (λ h. seal-quiet [] indeterminate insufficient_evidence w _ us refl (λ e. cc))
verdict-IsVerdict b v w (c ∷ cs) es us =
    let all_cs = c ∷ cs in
    let window_health = health_token (generic_tcp_healthy v.probes (range_from 0 v.buckets)) in
    let seen = collect_seen all_cs ++ (window_health ++ es) in
    let unknown = collect_unknown all_cs ++ us in
    let proof = any (λ (x : Candidate). corroborates x.marks) all_cs in
    IsVerdict-if (not proof) all_cs _ _
      (seal-quiet all_cs no_incident category_none w _ _ refl (λ e. cc))
      (λ h.
        IsVerdict-if (ltb 1 (length (clusters (indices_of all_cs)))) all_cs _ _
          (record {
            verdict_closed = seal-IsClosed incident insufficient_evidence w _ _;
            incident_or_not = inl (
              seal-status incident insufficient_evidence w seen
                  (un_multiple_anomaly_clusters ∷ unknown) refl,
              refl,
              ground (arith, h),
            );
          })
          (λ n. record {
            verdict_closed = verdict_cluster-IsClosed b v w all_cs es us;
            incident_or_not =
                inl (verdict_cluster-status b v w all_cs es us, refl, ground (arith, h));
          }))
