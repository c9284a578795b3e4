-- ===== src/Delivery/Drain/Accounting.antt =====
-- One pass of `deliver_pending` and what it accounts for: the records it settles are exactly the
-- first ones of the queue, each of them counted once.
use install_singboxhysteria.Delivery.Queue.Laws.{Ascending, deliverable-above, deliverable-resolved}
use install_singboxhysteria.Delivery.Drain.{
  Summary, Next, next, stop, after_post, settled, held, Outcome, settle, hold, deliver_one,
  after_reserve, note_attempt, Exchange, Post, finish, drain, outcome, limit_reached, pending,
  mark_blocked, deliver_pending, empty_summary, queue_blocked,
}
use install_singboxhysteria.Delivery.Response.{Token}
use install_singboxhysteria.Common.{
  ℕ, [], ◌∷◌, none, some, true, false, suc, refl, ◌≡◌, arith, List, ◌+◌, Option, ◌<◌, ◌-◌, drop,
  subst, sym, Bool, ◌∙◌,
}
use install_singboxhysteria.Delivery.Queue.{
  Queue, resolve, Record, deliverable, note_attempt, pending, refuse_empty,
}

-- From `(q, m)` to `(q', m')`, the first `count` of the records `rs` are settled.
pub record Settles (count : ℕ) (rs : List Record) (q : Queue) (m : Summary) (q' : Queue)
    (m' : Summary) : Type 0 where
  pub same_records : q'.records ≡ q.records
  pub same_block : q'.blocked_id ≡ q.blocked_id
  pub left : deliverable q'.blocked_id q'.resolved_through q'.records ≡ drop count rs
  pub settled_count : m'.acked + m'.quarantined ≡ m.acked + m.quarantined + count
  pub acks : q'.acknowledged_total + m.acked ≡ q.acknowledged_total + m'.acked
  pub quarantines : q'.quarantined_total + m.quarantined ≡ q.quarantined_total + m'.quarantined
  pub tries :
      m'.attempts + (m.acked + m.quarantined + m.retries)
      ≡ m.attempts + (m'.acked + m'.quarantined + m'.retries)

record Fresh (id : ℕ) (q t : Queue) (acks quarantines : ℕ) : Type 0 where
  now_at : t.resolved_through ≡ id
  recs : t.records ≡ q.records
  block : t.blocked_id ≡ q.blocked_id
  acked_now : t.acknowledged_total ≡ q.acknowledged_total + acks
  quarantined_now : t.quarantined_total ≡ q.quarantined_total + quarantines

abbrev one_ack : Option Token → ℕ
one_ack none = 1
one_ack (some t) = 0

resolve-Fresh :
    (id : ℕ) (token : Option Token) (q : Queue)
    → q.resolved_through < id
    → Fresh id q (resolve id token q) (one_ack token) (1 - one_ack token)
unfolding resolve
resolve-Fresh id none q h = record {
  now_at = ground arith;
  recs = ground arith;
  block = ground arith;
  acked_now = ground arith;
  quarantined_now = ground arith;
}
resolve-Fresh id (some t) q h = record {
  now_at = ground arith;
  recs = ground arith;
  block = ground arith;
  acked_now = ground arith;
  quarantined_now = ground arith;
}

abbrev Good : List Record → Queue → Summary → Next → Type 0
Good rs q m (next q' m') = Settles 1 rs q m q' m' × Ascending q'.records
Good rs q m (stop q' m') = Settles 0 rs q m q' m'

Settles-none :
    (rs : List Record) (q q' : Queue) (m m' : Summary)
    → deliverable q.blocked_id q.resolved_through q.records ≡ rs
    → q'.records ≡ q.records
    → q'.blocked_id ≡ q.blocked_id
    → q'.resolved_through ≡ q.resolved_through
    → q'.acknowledged_total ≡ q.acknowledged_total
    → q'.quarantined_total ≡ q.quarantined_total
    → m'.acked ≡ m.acked
    → m'.quarantined ≡ m.quarantined
    → m'.attempts + m.retries ≡ m.attempts + m'.retries
    → Settles 0 rs q m q' m'
Settles-none rs q q' m m' d e1 e2 e3 e4 e5 e6 e7 e8 = record {
  same_records = e1;
  same_block = e2;
  left = rw (e1, e2, e3) d;
  settled_count = omega arith;
  acks = omega arith;
  quarantines = omega arith;
  tries = omega arith;
}

settled-Settles :
    (token : Option Token) (r : Record) (rs : List Record) (q : Queue) (m : Summary)
    (t : List (ℕ × ℕ))
    → Ascending q.records
    → deliverable q.blocked_id q.resolved_through q.records ≡ r ∷ rs
    → Settles 1
        (r ∷ rs)
        q
        m
        (resolve r.record_id token (record q { retry_attempts = t }))
        (settled token (record m { attempts = m.attempts + 1 }))
unfolding settled
settled-Settles none r rs q m t a d =
    let above = deliverable-above q.blocked_id q.resolved_through q.records r rs d in
    let tail = deliverable-resolved q.blocked_id q.resolved_through q.records r rs a d in
    let f = resolve-Fresh r.record_id none (record q { retry_attempts = t }) above in
    record {
      same_records = f.recs;
      same_block = f.block;
      left = rw (f.recs, f.block, f.now_at) tail;
      settled_count = omega arith;
      acks = ground (arith, f.acked_now);
      quarantines = ground (arith, f.quarantined_now);
      tries = omega arith;
    }
settled-Settles (some token) r rs q m t a d =
    let above = deliverable-above q.blocked_id q.resolved_through q.records r rs d in
    let tail = deliverable-resolved q.blocked_id q.resolved_through q.records r rs a d in
    let f = resolve-Fresh r.record_id (some token) (record q { retry_attempts = t }) above in
    record {
      same_records = f.recs;
      same_block = f.block;
      left = rw (f.recs, f.block, f.now_at) tail;
      settled_count = omega arith;
      acks = ground (arith, f.acked_now);
      quarantines = ground (arith, f.quarantined_now);
      tries = omega arith;
    }

after_post-Good :
    (jitter : Option ℕ) (attempt : ℕ) (r : Record) (rs : List Record) (q : Queue) (m : Summary)
    (t : List (ℕ × ℕ)) (o : Outcome)
    → Ascending q.records
    → deliverable q.blocked_id q.resolved_through q.records ≡ r ∷ rs
    → Good (r ∷ rs) q m (
        after_post jitter r.record_id attempt
          (record q { retry_attempts = t })
          (record m { attempts = m.attempts + 1 })
          o)
unfolding after_post settled held
after_post-Good jitter attempt r rs q m t (settle token) a d =
    let above = deliverable-above q.blocked_id q.resolved_through q.records r rs d in
    (
      settled-Settles token r rs q m t a d,
      subst Ascending
          (sym (resolve-Fresh r.record_id token (record q { retry_attempts = t }) above).recs) a,
    )
after_post-Good jitter attempt r rs q m t (hold why) a d =
    Settles-none (r ∷ rs) q (record q { retry_attempts = t }) m
      (held why attempt jitter (record m { attempts = m.attempts + 1 })) d refl refl refl refl refl
      refl refl (omega arith)

reserved-Good :
    (success : List ℕ → Bool) (max : ℕ) (jitter : Option ℕ) (saved : Bool) (p : Post) (r : Record)
    (rs : List Record) (q : Queue) (m : Summary)
    → Ascending q.records
    → deliverable q.blocked_id q.resolved_through q.records ≡ r ∷ rs
    → Good
        (r ∷ rs)
        q
        m
        (after_reserve success max jitter r.record_id p (note_attempt saved r.record_id q) m)
unfolding after_reserve note_attempt
reserved-Good success max jitter true p r rs q m a d =
    after_post-Good jitter _ r rs q m _ (outcome success max _ p) a d
reserved-Good success max jitter false p r rs q m a d =
    Settles-none (r ∷ rs) q _ m _ d refl refl refl refl refl refl refl refl

-- One record settled, then `k` more.
Settles-suc :
    (k : ℕ) (r : Record) (rs : List Record) (q q1 q2 : Queue) (m m1 m2 : Summary)
    → Settles 1 (r ∷ rs) q m q1 m1
    → Settles k rs q1 m1 q2 m2
    → Settles (suc k) (r ∷ rs) q m q2 m2
Settles-suc k r rs q q1 q2 m m1 m2 s t = record {
  same_records = t.same_records ∙ s.same_records;
  same_block = t.same_block ∙ s.same_block;
  left = t.left;
  settled_count = omega (arith, s.settled_count, t.settled_count);
  acks = omega (arith, s.acks, t.acks);
  quarantines = omega (arith, s.quarantines, t.quarantines);
  tries = omega (arith, s.tries, t.tries);
}

mark_blocked-Settles :
    (o : Option (List Record)) (rs : List Record) (q : Queue) (m : Summary)
    → deliverable q.blocked_id q.resolved_through q.records ≡ rs
    → Settles 0 rs q m q (mark_blocked o m)
unfolding mark_blocked
mark_blocked-Settles none rs q m d =
    Settles-none rs q q m _ d refl refl refl refl refl refl refl refl
mark_blocked-Settles (some l) rs q m d =
    Settles-none rs q q m m d refl refl refl refl refl refl refl refl

finish-Settles :
    (rs : List Record) (q : Queue) (m : Summary)
    → deliverable q.blocked_id q.resolved_through q.records ≡ rs
    → Settles 0 rs q m (finish q m).0 (finish q m).1
unfolding finish
finish-Settles rs q m d = mark_blocked-Settles (pending q) rs q m d

abbrev Settled : List Record → Queue → Summary → Queue × Summary → Type 0
Settled rs q m (q', m') = (k : ℕ) × Settles k rs q m q' m'

after_step :
    (r : Record) (rs : List Record) (q : Queue) (m : Summary) (n : Next)
    (continue : Queue → Summary → Queue × Summary)
    → Good (r ∷ rs) q m n
    → ((p : Queue) (l : Summary)
        → Ascending p.records
        → deliverable p.blocked_id p.resolved_through p.records ≡ rs
        → Settled rs p l (continue p l))
    → Settled (r ∷ rs) q m (elim n [ next q' m' ↦ continue q' m' | stop q' m' ↦ (q', m') ])
after_step r rs q m (next q' m') continue g ih =
    let rest = ih q' m' g.1 g.0.left in
    (suc rest.0, Settles-suc rest.0 r rs q q' _ m m' _ g.0 rest.1)
after_step r rs q m (stop q' m') continue g ih = (0, g)

drain-Settled :
    (success : List ℕ → Bool) (exchange : ℕ → Exchange) (max : ℕ) (limit jitter : Option ℕ)
    (rs : List Record) (q : Queue) (m : Summary)
    → Ascending q.records
    → deliverable q.blocked_id q.resolved_through q.records ≡ rs
    → Settled rs q m (drain success exchange max limit jitter rs q m)
unfolding drain deliver_one
drain-Settled success exchange max limit jitter [] q m a d = (0, finish-Settles [] q m d)
drain-Settled success exchange max limit jitter (r ∷ rs) q m a d =
    let e = exchange m.attempts in
    let out = λ (n : Next). elim n as (λ (k : Next). Queue × Summary) [
      | next q' m' ↦ drain success exchange max limit jitter rs q' m'
      | stop q' m' ↦ (q', m')
    ] in
    elim (limit_reached limit m.attempts)
      as (λ b.
        Settled (r ∷ rs) q m
          (elim b [ true ↦ finish q m | false ↦ out (deliver_one success max jitter e r q m) ])) [
            | true ↦ (0, finish-Settles (r ∷ rs) q m d)
            | false ↦
                after_step r rs q m _ _
                  (reserved-Good success max jitter e.saved e.post r rs q m a d)
                  (drain-Settled success exchange max limit jitter rs)
          ]

refuse_empty-some : (b : Bool) (l rs : List Record) → refuse_empty b l ≡ some rs → l ≡ rs
unfolding refuse_empty
refuse_empty-some true [] rs h = cc
refuse_empty-some true (r ∷ l) rs h = cc
refuse_empty-some false l rs h = cc

pending_lem :
    (q : Queue) (rs : List Record)
    → pending q ≡ some rs
    → deliverable q.blocked_id q.resolved_through q.records ≡ rs
unfolding pending
pending_lem q rs h = refuse_empty-some _ _ rs h

-- With the records in the order of their ids, a pass over a queue that does not refuse settles exactly
-- its first `k` records for some `k`, and it leaves the records and the block as they are. Every settled
-- record is counted once, as acknowledged or as quarantined, both in the summary and in the totals of
-- the queue, and every attempt is counted as acknowledged, quarantined or retried.
pub deliver_pending-Settles :
    (success : List ℕ → Bool) (exchange : ℕ → Exchange) (max : ℕ) (limit jitter : Option ℕ)
    (q : Queue) (rs : List Record)
    → Ascending q.records
    → pending q ≡ some rs
    → (k : ℕ) × let o = deliver_pending success exchange max limit jitter q in
        Settles k rs q empty_summary o.0 o.1
unfolding deliver_pending
deliver_pending-Settles success exchange max limit jitter q rs a h =
    subst
      (λ (o : Option (List Record)). Settled rs q empty_summary (elim o [
        | none ↦ (q, record empty_summary { stopped = some queue_blocked })
        | some l ↦ drain success exchange max limit jitter l q empty_summary
      ]))
      (sym h)
      (drain-Settled success exchange max limit jitter rs q empty_summary a (pending_lem q rs h))
