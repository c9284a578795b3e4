-- ===== src/Incident/Scanner/Refines.antt =====
-- A cycle of the scanner implements the lifecycle.
use install_singboxhysteria.Incident.Stage.{World, Env}
use install_singboxhysteria.Incident.Scanner.{run_once}
use install_singboxhysteria.Incident.Scanner.Writes.{StoreLaws}
use install_singboxhysteria.Incident.Scanner.Cycle.{run_once_write}
use install_singboxhysteria.Incident.Lifecycle.{Follows, Rests, IsConsistent, AtMostOne, life}
use install_singboxhysteria.Incident.Lifecycle.Ends.{closed-Follows}
use install_singboxhysteria.Incident.Lifecycle.Moves.{
  Follows-same, opened-Follows, updated-Follows, Rests-same, marked-Rests, Follows-Rests,
}

Follows-laws : StoreLaws Follows Rests
Follows-laws = record {
  same = Follows-same;
  opened = opened-Follows;
  updated = updated-Follows;
  closed = closed-Follows;
  rests = Rests-same;
  marked = marked-Rests;
  then_rest = Follows-Rests;
}

-- From a consistent store, `run_once` in any environment, whatever fails in it, leads to a consistent store
-- and moves the lifecycle at most once, along one of its steps.
pub run_once-refines :
    (env : Env) (w : World)
    → IsConsistent w.store
    → IsConsistent (run_once env w).store × AtMostOne (life w.store) (life (run_once env w).store)
run_once-refines = run_once_write Follows-laws
