-- ===== src/Incident/Scanner/Writes.antt =====
-- What one cycle of the scanner does to the store, as a relation of the store before and after: it writes
-- one window at most, and then marks what it has evaluated.
use install_singboxhysteria.Incident.Scanner.Stages.{
  then_stage, stage_then, if_stage, run_detect_store, or_raise_store, advance_last_signal_store,
}
use install_singboxhysteria.Incident.Bundle.{bucket_span, min_baseline_buckets, max_buckets}
use install_singboxhysteria.Incident.Lifecycle.{Armed}
use install_singboxhysteria.Incident.Writes.Transactions.{
  close_write, update_write, open_write, mark_write,
}
use install_singboxhysteria.Incident.Verdict.{Detection}
use install_singboxhysteria.Incident.Transactions.{
  update_rows, settle, map_runtime, same_runtime, row_count, close_row, close_runtime,
  incident_close_window, incident_update_window, incident_runtime_mark,
}
use install_singboxhysteria.Incident.Stage.{
  World, Stage, ◌>>=◌, Scanner, ◌>>◌, landing, pure, modify, Env, or_raise, raise,
  runtime_state_corrupt,
}
use install_singboxhysteria.Incident.Gates.{run_detect, discovery_buckets, warming}
use install_singboxhysteria.Incident.Scanner.{
  Row, Runtime, Request, settle_open, open_cycle, discovery_cycle, close_clean, close_window_limit,
  incident_close_window, advance_last_signal, open_row, Detection, request_of, rounded,
  incident_update_window, unchanged, bucket_span, clean_tail, clean_buckets, point_at,
  unpoint_clean, is_incident, limit_request, window_limit, unpoint, evaluate, mark, cycle_at,
  or_persisted, set_warmup, incident_runtime_mark, regate, note_evaluated, alarm_of,
}
use install_singboxhysteria.Incident.Store.{
  Io, Store, Row, Runtime, accepts, landed, Values, Closure, Request, clean_buckets, window_limit,
}
use install_singboxhysteria.Common.{
  ◌≡◌, sym, subst, ◌∷◌, none, some, true, refl, Bool, ltb, ℕ, Option, if◌then◌else◌, ◌*◌, ◌-◌, ◌||◌,
  not, ◌==◌, ◌∙◌,
}

-- What is asked of a relation of stores, to hold of a cycle: that it holds of each write that SQLite
-- accepts, and of none; a mark after a write has a relation of its own.
pub record StoreLaws (R Q : Store → Store → Type 0) : Type 0 where
  pub same : (a b : Store) → b.rows ≡ a.rows → b.runtime ≡ a.runtime → R a b
  pub opened :
      (io : Io) (r : Row) (s : Runtime) (st : Store)
      → r.is_open ≡ true
      → st.runtime ≡ some s
      → ltb 0 s.activation_floor ≡ true
      → accepts io (r ∷ st.rows) (some (record s { open_id = some r.id })) ≡ true
      → R st (landed (r ∷ st.rows) (some (record s { open_id = some r.id })) st)
  pub updated :
      (v : Values) (now id : ℕ) (st : Store)
      → R st
          (landed (update_rows (settle v now) id st.rows) (map_runtime same_runtime st.runtime) st)
  pub closed :
      (io : Io) (v : Values) (why : Closure) (now id : ℕ) (st : Store)
      → row_count id st.rows ≡ 1
      → accepts io
          (update_rows (close_row v why now) id st.rows)
          (map_runtime (close_runtime why v.last_signal) st.runtime)
        ≡ true
      → R st (
          landed
            (update_rows (close_row v why now) id st.rows)
            (map_runtime (close_runtime why v.last_signal) st.runtime)
            st)
  pub rests : (a b : Store) → b.rows ≡ a.rows → b.runtime ≡ a.runtime → Q a b
  pub marked :
      (io : Io) (n : ℕ) (since : Option ℕ) (s : Runtime) (st : Store)
      → st.runtime ≡ some s
      → accepts io st.rows (some (record s { evaluated_end = n; fresh_since = since })) ≡ true
      → Q st (landed st.rows (some (record s { evaluated_end = n; fresh_since = since })) st)
  pub then_rest : (a b c : Store) → R a b → Q b c → R a c

module _ {R Q : Store → Store → Type 0} (laws : StoreLaws R Q) where
  still : (st : Store) → R st st
  still st = laws.same st st refl refl

  -- Stages that left the store are the same start.
  from : {a b c : Store} → b ≡ a → R b c → R a c
  from {c} e r = subst (λ x. R x c) e r

  -- A store write, and what the scanner then notes for itself.
  landing_write :
      (f : Store → Bool × Store) (g : Scanner → Scanner) (w : World)
      → R w.store (f w.store).1
      → R w.store ((landing f >> modify g) w).1.store
  landing_write f g w p =
      stage_then (R w.store) (R w.store) (landing f) (λ t. modify g) w p (λ st q. q) (λ a w' q. q)

  closing_write :
      (io : Io) (id : ℕ) (q : Request) (why : Closure) (now : ℕ) (g : Scanner → Scanner) (w : World)
      → R w.store ((landing (incident_close_window io id q why (some now)) >> modify g) w).1.store
  closing_write io id q why now g w =
      landing_write (incident_close_window io id q why (some now)) g w (
        close_write R laws.same io id q why (some now) w.store
          (λ v n. laws.closed io v why n id w.store))

  -- A stage on the same store, and then nothing more that is written.
  ending_write :
      {A B : Type 0} (m : Stage A) (b : B) (w : World)
      → R w.store (m w).1.store
      → R w.store ((m >> pure b) w).1.store
  ending_write m b w p =
      stage_then (R w.store) (R w.store) m (λ t. pure b) w p (λ st q. q) (λ a w' q. q)

  settle_open_write :
      (env : Env) (r : Row) (last_end count : ℕ) (d : Detection) (signal : ℕ) (w : World)
      → R w.store (settle_open env r last_end count d signal w).1.store
  unfolding settle_open close_clean
  settle_open_write env r last_end count d signal w =
      let q = request_of d.classification signal last_end count in
      let now = env.store_now in
      let over : Stage (Option ℕ) = close_clean env r q signal >> pure (some last_end) in
      let kept : Stage (Option ℕ) = pure (some last_end) in
      let moved : Stage (Option ℕ) =
        landing (incident_update_window env.write_ok r.id q (some now)) >> pure (some last_end) in
      let rest : Stage (Option ℕ) =
        if unchanged r d.classification signal last_end count then kept else moved in
      if_stage (R w.store) (clean_tail count d.indices) over rest w
        (λ e.
          ending_write (close_clean env r q signal) (some last_end) w
            (closing_write env.write_ok r.id q clean_buckets now (unpoint_clean signal) w))
        (λ e.
          if_stage (R w.store) (unchanged r d.classification signal last_end count) kept moved w
            (λ u. still w.store)
            (λ u.
              ending_write (landing (incident_update_window env.write_ok r.id q (some now)))
                (some last_end) w
                (update_write R laws.same env.write_ok r.id q (some now) w.store
                  (λ v n c h. laws.updated v n r.id w.store))))

  open_cycle_write :
      (env : Env) (r : Row) (last_end : ℕ) (since : Option ℕ) (w : World)
      → R w.store (open_cycle env r last_end since w).1.store
  unfolding open_cycle close_window_limit run_detect advance_last_signal
  open_cycle_write env r last_end since w =
      let count = rounded (last_end - r.analysis_start) in
      let advanced : Detection → Stage (Option ℕ) =
        λ d. advance_last_signal r d >>= λ signal. settle_open env r last_end count d signal in
      let found : Stage (Option ℕ) = run_detect env r.analysis_start last_end since >>= advanced in
      let over : Stage (Option ℕ) = close_window_limit env r >> pure none in
      let corrupt : Stage (Option ℕ) = raise runtime_state_corrupt in
      if_stage (R w.store) (ltb last_end r.analysis_start || count == 0) corrupt
        (if ltb max_buckets count then over else found) w (λ e. still w.store)
        (λ e.
          if_stage (R w.store) (ltb max_buckets count) over found w
            (λ l. ending_write (close_window_limit env r) none w (
              closing_write env.write_ok r.id (limit_request r) window_limit env.store_now
                (unpoint none true) w))
            (λ l.
              then_stage (R w.store) (run_detect env r.analysis_start last_end since) advanced w
                (run_detect_store env r.analysis_start last_end since w) (still w.store)
                (λ d w1 h.
                  then_stage (R w.store) (advance_last_signal r d)
                    (λ signal. settle_open env r last_end count d signal) w1
                    (advance_last_signal_store r d w1) (from h (still w1.store))
                    (λ signal w2 g.
                      from (g ∙ h) (settle_open_write env r last_end count d signal w2)))))

  opening_write :
      (env : Env) (start first end_ : ℕ) (q : Request) (w : World)
      → Armed w.store
      → R w.store
          ((open_row env start first q >>= λ id. modify (point_at id) >> pure (some end_))
            w).1.store
  unfolding open_row
  opening_write env start first end_ q w a =
      stage_then (R w.store) (R w.store) (open_row env start first q)
        (λ id. modify (point_at id) >> pure (some end_)) w
        (open_write R laws.same env.rowid env.write_ok (some start) (some first) q
          (some env.store_now) w.store
          (λ r s o e. laws.opened env.write_ok r s w.store o e (a s e)))
        (λ st p. p) (λ id w' p. p)

  -- The window that an incident opens, with its signal or without one.
  alarm_write :
      (env : Env) (d : Detection) (last_end : ℕ) (w : World)
      → Armed w.store
      → R w.store (alarm_of env last_end d w).1.store
  unfolding alarm_of
  alarm_write env d last_end w a =
      let start : ℕ → ℕ = λ first. first - min_baseline_buckets * bucket_span in
      let q : ℕ → Request = λ last. request_of d.classification last last_end discovery_buckets in
      let opening : ℕ → ℕ → Stage (Option ℕ) = λ first last.
        open_row env (start first) first (q last) >>= λ id.
        modify (point_at id) >> pure (some last_end) in
      let signalled : ℕ → Stage (Option ℕ) =
        λ first. or_raise d.last_signal runtime_state_corrupt >>= opening first in
      then_stage (R w.store) (or_raise d.first_signal runtime_state_corrupt) signalled w
        (or_raise_store d.first_signal runtime_state_corrupt w) (still w.store)
        (λ first w1 h1.
          then_stage (R w.store) (or_raise d.last_signal runtime_state_corrupt) (opening first) w1
            (or_raise_store d.last_signal runtime_state_corrupt w1) (from h1 (still w1.store))
            (λ last w2 h2. from (h2 ∙ h1) (
              opening_write env (start first) first last_end (q last) w2
                (subst Armed (sym (h2 ∙ h1)) a))))

  discovery_cycle_write :
      (env : Env) (gate last_end : ℕ) (since : Option ℕ) (w : World)
      → Armed w.store
      → R w.store (discovery_cycle env gate last_end since w).1.store
  unfolding discovery_cycle
  discovery_cycle_write env gate last_end since w a =
      let start = last_end - discovery_buckets * bucket_span in
      let waiting : Stage (Option ℕ) = pure none in
      let quiet : Stage (Option ℕ) = pure (some last_end) in
      let judged : Detection → Stage (Option ℕ) =
        λ d. if not (is_incident d.classification.status) then quiet else alarm_of env last_end d in
      let found : Stage (Option ℕ) = run_detect env start last_end since >>= judged in
      if_stage (R w.store) (warming (some gate) (some last_end)) waiting found w
        (λ e. still w.store)
        (λ e.
          then_stage (R w.store) (run_detect env start last_end since) judged w
            (run_detect_store env start last_end since w) (still w.store)
            (λ d w1 h1.
              if_stage (R w.store) (not (is_incident d.classification.status)) quiet
                (alarm_of env last_end d) w1 (λ q. from h1 (still w1.store))
                (λ q. from h1 (alarm_write env d last_end w1 (subst Armed (sym h1) a)))))

  evaluate_write :
      (env : Env) (r : Option Row) (gate : Option ℕ) (last_end : ℕ) (since : Option ℕ) (w : World)
      → Armed w.store
      → R w.store (evaluate env r gate last_end since w).1.store
  unfolding evaluate
  evaluate_write env (some r) gate last_end since w a = open_cycle_write env r last_end since w
  evaluate_write env none none last_end since w a = still w.store
  evaluate_write env none (some gate) last_end since w a =
      discovery_cycle_write env gate last_end since w a

  mark_rest :
      (env : Env) (end_ since : Option ℕ) (s : Runtime) (w : World)
      → Q w.store (mark env end_ since s w).1.store
  unfolding mark
  mark_rest env end_ since s w =
      let n = or_persisted end_ s.evaluated_end in
      stage_then (Q w.store) (Q w.store)
        (landing (incident_runtime_mark env.mark_ok (some n) (some since)))
        (λ t. modify (note_evaluated end_)) w
        (mark_write Q laws.rests env.mark_ok (some n) (some since) w.store
          (λ k o x e. laws.marked env.mark_ok k o x w.store e))
        (λ st p. p) (λ t w' p. p)

  pub cycle_at_write :
      (env : Env) (s : Runtime) (r : Option Row) (gate since last_end : Option ℕ) (w : World)
      → Armed w.store
      → R w.store (cycle_at env s r gate since last_end w).1.store
  unfolding cycle_at
  cycle_at_write env s r gate since none w a =
      laws.then_rest w.store w.store
        (mark env none since s (record w { scanner = set_warmup true w.scanner })).1.store
        (still w.store)
        (mark_rest env none since s (record w { scanner = set_warmup true w.scanner }))
  cycle_at_write env s r gate since (some last_end) w a =
      stage_then (R w.store) (R w.store) (evaluate env r gate last_end since)
        (λ evaluated. modify (regate last_end) >> mark env evaluated since s) w
        (evaluate_write env r gate last_end since w a) (λ st p. p)
        (λ evaluated w' p.
          let w2 : World = record w' { scanner = regate last_end w'.scanner } in
          laws.then_rest w.store w'.store (mark env evaluated since s w2).1.store p
            (mark_rest env evaluated since s w2))
