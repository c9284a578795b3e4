-- ===== src/Delivery/Drain/Limit.antt =====
-- The limit on the attempts of one pass of `deliver_pending`.
use install_singboxhysteria.Delivery.Drain.{
  mark_blocked, finish, Next, after_post, after_reserve, drain, deliver_pending, next, settled,
  note_attempt, Summary, deliver_one, empty_summary, stop, held, pending, limit_reached, Outcome,
  Record, settle, Post, Exchange, hold, outcome,
}
use install_singboxhysteria.Common.{
  ℕ, [], ◌∷◌, none, some, true, false, inl, inr, refl, ◌≡◌, arith, ◌≤◌, Option, List, Bool,
  Bool-cases, Option-cases, ◌+◌, leb,
}
use install_singboxhysteria.Delivery.Queue.{Queue, note_attempt, pending, Record, attempts_of}

-- A step of the pass makes at most one attempt.
abbrev Few : ℕ → Next → Type 0
Few n (next q m) = m.attempts ≤ n
Few n (stop q m) = m.attempts ≤ n

after_post-Few :
    (jitter : Option ℕ) (id attempt : ℕ) (q : Queue) (m : Summary) (o : Outcome)
    → Few m.attempts (after_post jitter id attempt q m o)
unfolding after_post settled held
after_post-Few jitter id attempt q m (settle none) = omega arith
after_post-Few jitter id attempt q m (settle (some t)) = omega arith
after_post-Few jitter id attempt q m (hold why) = omega arith

deliver_one-Few :
    (success : List ℕ → Bool) (max : ℕ) (jitter : Option ℕ) (saved : Bool) (p : Post) (r : Record)
    (q : Queue) (m : Summary)
    → Few
        (m.attempts + 1)
        (after_reserve success max jitter r.record_id p (note_attempt saved r.record_id q) m)
unfolding after_reserve note_attempt
deliver_one-Few success max jitter true p r q m =
    let attempt = attempts_of r.record_id q.retry_attempts + 1 in
    after_post-Few jitter r.record_id attempt (note_attempt true r.record_id q).0
      (record m { attempts = m.attempts + 1 }) (outcome success max attempt p)
deliver_one-Few success max jitter false p r q m = omega arith

after_limited :
    (l : ℕ) (n : Next) (continue : Queue → Summary → Queue × Summary)
    → Few l n
    → ((q : Queue) (m : Summary) → m.attempts ≤ l → (continue q m).1.attempts ≤ l)
    → (elim n as (λ (x : Next). Queue × Summary) [
      | next q' m' ↦ continue q' m'
      | stop q' m' ↦ (q', m')
    ]).1.attempts
      ≤ l
after_limited l (next q m) continue f ih = ih q m f
after_limited l (stop q m) continue f ih = f

Few-weaken : (j l : ℕ) (n : Next) → j ≤ l → Few j n → Few l n
Few-weaken j l (next q m) h f = omega (arith, f)
Few-weaken j l (stop q m) h f = omega (arith, f)

mark_blocked-attempts :
    (o : Option (List Record)) (m : Summary) → (mark_blocked o m).attempts ≡ m.attempts
unfolding mark_blocked
mark_blocked-attempts none m = refl
mark_blocked-attempts (some rs) m = refl

finish-attempts : (q : Queue) (m : Summary) → (finish q m).1.attempts ≡ m.attempts
unfolding finish
finish-attempts q m = mark_blocked-attempts (pending q) m

drain_limited :
    (success : List ℕ → Bool) (exchange : ℕ → Exchange) (max l : ℕ) (jitter : Option ℕ)
    (rs : List Record) (q : Queue) (m : Summary)
    → m.attempts ≤ l
    → (drain success exchange max (some l) jitter rs q m).1.attempts ≤ l
unfolding drain deliver_one limit_reached
drain_limited success exchange max l jitter [] q m h = rw (finish-attempts q m) h
drain_limited success exchange max l jitter (r ∷ rs) q m h =
    let e = exchange m.attempts in
    let one = deliver_one success max jitter e r q m in
    elim (Bool-cases (leb l m.attempts)) [
      | inl over ↦ rw (drain, over) (rw (finish-attempts q m) h)
      | inr under ↦
          rw (drain, under)
            (after_limited l one (λ q' m'. drain success exchange max (some l) jitter rs q' m')
              (Few-weaken (m.attempts + 1) l one (ground (arith, under))
                (deliver_one-Few success max jitter e.saved e.post r q m))
              (drain_limited success exchange max l jitter rs))
    ]

-- A pass with a limit makes at most that many attempts, whatever the queue and the answers are.
pub deliver_pending_limited :
    (success : List ℕ → Bool) (exchange : ℕ → Exchange) (max l : ℕ) (jitter : Option ℕ) (q : Queue)
    → (deliver_pending success exchange max (some l) jitter q).1.attempts ≤ l
unfolding deliver_pending empty_summary
deliver_pending_limited success exchange max l jitter q = elim (Option-cases (pending q)) [
  | inl h ↦ rw (deliver_pending, h) (omega arith)
  | inr h ↦
      rw (deliver_pending, h.1)
        (drain_limited success exchange max l jitter h.0 q empty_summary (omega arith))
]
