-- ===== src/Incident/Lifecycle/Calls.antt =====
-- Every transaction of the incident runtime, on any arguments, follows the lifecycle.
use install_singboxhysteria.Incident.Lifecycle.{Follows, IsConsistent, Armed, AtMostOne, life}
use install_singboxhysteria.Incident.Writes.Transactions.{
  open_write, update_write, close_write, mark_write, activate_write, rearm_write,
}
use install_singboxhysteria.Incident.Lifecycle.Ends.{closed-Follows, armed-Follows, rearmed-Follows}
use install_singboxhysteria.Incident.Lifecycle.Moves.{
  Follows-same, opened-Follows, updated-Follows, marked-Rests, Rests-Follows,
}
use install_singboxhysteria.Incident.Store.{Io, Store, Row, Request, Closure, landed}
use install_singboxhysteria.Incident.Transactions.{
  incident_activate, incident_open_window, incident_update_window, incident_close_window,
  incident_runtime_mark, incident_rearm, next_boundary,
}
use install_singboxhysteria.Common.{ℕ, Option, List, some}

-- A transaction with its arguments.
pub data Call : Type 0 where
  activate : (floor : Option ℕ) → Call
  open_window : (start first : Option ℕ) (q : Request) (now : Option ℕ) → Call
  update_window : (id : ℕ) (q : Request) (now : Option ℕ) → Call
  close_window : (id : ℕ) (q : Request) (why : Closure) (now : Option ℕ) → Call
  runtime_mark : (end_ : Option ℕ) (since : Option (Option ℕ)) → Call
  rearm : (now : Option ℕ) → Call

abbrev pub apply : (List Row → ℕ) → Io → Call → Store → Store
apply fresh io (activate floor) st = (incident_activate io floor st).1
apply fresh io (open_window start first q now) st =
    (incident_open_window fresh io start first q now st).1
apply fresh io (update_window id q now) st = (incident_update_window io id q now st).1
apply fresh io (close_window id q why now) st = (incident_close_window io id q why now st).1
apply fresh io (runtime_mark end_ since) st = (incident_runtime_mark io end_ since st).1
apply fresh io (rearm now) st = (incident_rearm io now st).1

-- A window may be opened after the activation alone.
abbrev pub Allowed : Call → Store → Type 0
Allowed (open_window start first q now) st = Armed st
Allowed c st = Unit {0}

-- From a consistent store, a transaction on any arguments, whether SQLite succeeds or fails, leads to a
-- consistent store, and moves the lifecycle at most once, along one of its steps. Opening a window has the
-- condition that the runtime was activated.
pub apply-refines :
    (fresh : List Row → ℕ) (io : Io) (c : Call) (st : Store)
    → Allowed c st
    → IsConsistent st
    → IsConsistent (apply fresh io c st) × AtMostOne (life st) (life (apply fresh io c st))
apply-refines fresh io (activate floor) st a =
    activate_write Follows Follows-same io floor st (λ n s. armed-Follows io n s st)
apply-refines fresh io (open_window start first q now) st a =
    open_write Follows Follows-same fresh io start first q now st
      (λ r s o e. opened-Follows io r s st o e (a s e))
apply-refines fresh io (update_window id q now) st a =
    update_write Follows Follows-same io id q now st (λ v n c h. updated-Follows v n id st)
apply-refines fresh io (close_window id q why now) st a =
    close_write Follows Follows-same io id q why now st (λ v n. closed-Follows io v why n id st)
apply-refines fresh io (runtime_mark end_ since) st a =
    mark_write Follows Follows-same io end_ since st (λ n o s e h.
      Rests-Follows st (landed st.rows (some (record s { evaluated_end = n; fresh_since = o })) st)
        (marked-Rests io n o s st e h))
apply-refines fresh io (rearm now) st a =
    rearm_write Follows Follows-same io now st (λ n s. rearmed-Follows io (next_boundary n) s st)
