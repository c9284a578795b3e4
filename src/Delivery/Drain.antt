-- ===== src/Delivery/Drain.antt =====
-- monitor-v2/remote_probe/delivery.py: `deliver_pending`, one pass over the queue.
-- Signing, the clock and the network are outside: `exchange n` is what happens to the n-th attempt of
-- the pass, whether its reservation is saved and what the POST brings.
pub mod Accounting
pub mod Limit
use install_singboxhysteria.Delivery.Queue.{Queue, Record, resolve, note_attempt, pending}
use install_singboxhysteria.Common.{
  ℕ, [], ◌∷◌, none, some, true, false, zero, suc, inl, inr, refl, ◌≡◌, arith, Bool, Option, List,
  if◌then◌else◌, ◌+◌, leb, ◌&&◌, ltb,
}
use install_singboxhysteria.Delivery.Response.{
  Token, Status, Disposition, classify_response, unknown_response, backoff_delay, ack, permanent,
  retry,
}

pub data Post : Type 0 where
  transport_failure : Post
  answered : Status → List ℕ → Post

pub record Exchange : Type 0 where
  pub saved : Bool
  pub post : Post

pub data Stop : Type 0 where
  transport_error unknown_bounded retryable queue_blocked retry_state_not_durable : Stop

-- The dictionary of the pass. A `retry_after` of none is the OverflowError of `backoff_delay`, which leaves
-- the pass with the counters as they are then.
pub record Summary : Type 0 where
  pub acked : ℕ
  pub quarantined : ℕ
  pub retries : ℕ
  pub attempts : ℕ
  pub stopped : Option Stop
  pub retry_after : Option ℕ

pub empty_summary : Summary
empty_summary = record {
  acked = 0;
  quarantined = 0;
  retries = 0;
  attempts = 0;
  stopped = none;
  retry_after = some 0;
}

-- What one answer does to its record.
pub data Outcome : Type 0 where
  settle : Option Token → Outcome
  hold : Stop → Outcome

abbrev pub is_unknown : Option Token → Bool
is_unknown (some unknown_response) = true
is_unknown _ = false

unfoldable by_disposition : ℕ → ℕ → Disposition × Option Token → Outcome
by_disposition max_unknown attempt (ack, token) = settle none
by_disposition max_unknown attempt (permanent, token) =
    if is_unknown token && ltb attempt max_unknown then hold unknown_bounded else settle token
by_disposition max_unknown attempt (retry, token) = hold retryable

unfoldable settled : Option Token → Summary → Summary
settled none m = record m { acked = m.acked + 1 }
settled (some t) m = record m { quarantined = m.quarantined + 1 }

unfoldable held : Stop → ℕ → Option ℕ → Summary → Summary
held why attempt jitter m = record m {
  retries = m.retries + 1;
  stopped = some why;
  retry_after = backoff_delay attempt jitter;
}

-- `limit is not None and attempts >= limit`
limit_reached : Option ℕ → ℕ → Bool
limit_reached none n = false
limit_reached (some l) n = leb l n

unfoldable pub mark_blocked : Option (List Record) → Summary → Summary
mark_blocked none m = record m { stopped = some queue_blocked }
mark_blocked (some rs) m = m

-- After the loop, `spool_blocked`: the queue refuses.
unfoldable pub finish : Queue → Summary → Queue × Summary
unfolding mark_blocked
finish q m = (q, mark_blocked (pending q) m)

pub data Next : Type 0 where
  next stop : Queue → Summary → Next

unfoldable after_post : Option ℕ → ℕ → ℕ → Queue → Summary → Outcome → Next
unfolding settled held resolve
after_post jitter id attempt q m (settle token) = next (resolve id token q) (settled token m)
after_post jitter id attempt q m (hold why) = stop q (held why attempt jitter m)

module _ (success_body : List ℕ → Bool) where
  unfoldable outcome : ℕ → ℕ → Post → Outcome
  unfolding by_disposition classify_response
  outcome max_unknown attempt transport_failure = hold transport_error
  outcome max_unknown attempt (answered s body) =
      by_disposition max_unknown attempt (classify_response success_body s body)

  -- The body of the loop for a record whose attempt is reserved, or could not be.
  unfoldable after_reserve : ℕ → Option ℕ → ℕ → Post → Queue × Option ℕ → Summary → Next
  unfolding after_post outcome
  after_reserve max_unknown jitter id post (q, none) m =
      stop q
        (record m { stopped = some retry_state_not_durable; retry_after = backoff_delay 1 jitter })
  after_reserve max_unknown jitter id post (q, some attempt) m =
      after_post jitter id attempt q (record m { attempts = m.attempts + 1 })
        (outcome max_unknown attempt post)

  unfoldable deliver_one : ℕ → Option ℕ → Exchange → Record → Queue → Summary → Next
  unfolding after_reserve note_attempt
  deliver_one max_unknown jitter e r q m =
      after_reserve max_unknown jitter r.record_id e.post (note_attempt e.saved r.record_id q) m

  -- The loop over the records.
  unfoldable pub drain :
      (ℕ → Exchange) → ℕ → Option ℕ → Option ℕ → List Record → Queue → Summary → Queue × Summary
  unfolding finish deliver_one limit_reached
  drain exchange max_unknown limit jitter [] q m = finish q m
  drain exchange max_unknown limit jitter (r ∷ rs) q m = elim (limit_reached limit m.attempts) [
    | true ↦ finish q m
    | false ↦ elim (deliver_one max_unknown jitter (exchange m.attempts) r q m) [
      | next q' m' ↦ drain exchange max_unknown limit jitter rs q' m'
      | stop q' m' ↦ (q', m')
    ]
  ]

  unfoldable pub deliver_pending :
      (ℕ → Exchange) → ℕ → Option ℕ → Option ℕ → Queue → Queue × Summary
  unfolding drain empty_summary
  deliver_pending exchange max_unknown limit jitter q = elim (pending q) [
    | none ↦ (q, record empty_summary { stopped = some queue_blocked })
    | some rs ↦ drain exchange max_unknown limit jitter rs q empty_summary
  ]
