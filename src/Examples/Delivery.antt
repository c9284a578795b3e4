-- ===== src/Examples/Delivery.antt =====
-- Delivery on small inputs.
use install_singboxhysteria.Delivery.Drain.Limit.{deliver_pending_limited}
use install_singboxhysteria.Delivery.Response.Laws.{backoff_delay_bounds, classify_response_iff}
use install_singboxhysteria.Delivery.Drain.Accounting.{Settles, deliver_pending-Settles}
use install_singboxhysteria.Delivery.Response.{classify_response, backoff_delay, status, ack}
use install_singboxhysteria.Delivery.Queue.{Record, Queue, pending, deliverable, refuse_empty}
use install_singboxhysteria.Delivery.Drain.{Exchange, deliver_pending, answered, empty_summary}
use install_singboxhysteria.Common.{
  ℕ, [], ◌∷◌, none, true, refl, ◌≡◌, arith, List, ◌≤◌, Bool, ◌*◌, ◌↔◌, ◌<◌, some, ◌⊎◌,
}

abbrev any_body : List ℕ → Bool
any_body body = true

classify_response_iff_example :
    ((classify_response any_body (status 204) []).0 ≡ ack)
    ↔ ((s : ℕ) × ((status 204 ≡ status s) × ((200 ≤ s) × (s < 300) × (any_body [] ≡ true))))
classify_response_iff_example = (classify_response_iff any_body (status 204) []).0

backoff_delay_bounds_example :
    ((9 < 1024) × ((d : ℕ) × ((backoff_delay 9 none ≡ some d) × ((1000 ≤ d) × (d ≤ 60 * 2000)))))
    ⊎ ((1024 ≤ 9) × (backoff_delay 9 none ≡ none))
backoff_delay_bounds_example = backoff_delay_bounds 9 none

abbrev sample : ℕ → Record
sample n = record { record_id = n; run = []; seq = n; body = [] }

abbrev small_queue : Queue
small_queue = record {
  records = sample 4 ∷ sample 5 ∷ [];
  blocked_id = 0;
  resolved_through = 3;
  retry_attempts = [];
  acknowledged_total = 3;
  quarantined_total = 0;
  quarantine = [];
  state_save_failures = 0;
}

abbrev accepted : ℕ → Exchange
accepted n = record { saved = true; post = answered (status 200) [] }

deliver_pending-Settles_example :
    (k : ℕ) × let o = deliver_pending any_body accepted 3 none none small_queue in
      Settles k (sample 4 ∷ sample 5 ∷ []) small_queue empty_summary o.0 o.1
deliver_pending-Settles_example =
    deliver_pending-Settles any_body accepted 3 none none small_queue (sample 4 ∷ sample 5 ∷ [])
      ((omega arith, tt), (tt, tt)) (unfold pending deliverable refuse_empty in refl)

deliver_pending_limited_example :
    (deliver_pending any_body accepted 3 (some 1) none small_queue).1.attempts ≤ 1
deliver_pending_limited_example = deliver_pending_limited any_body accepted 3 1 none small_queue
