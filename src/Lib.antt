-- ===== src/Lib.antt =====
-- A model of the program logic of the installer's monitoring and failover tools, written in Python.
--
-- Parts and files (paths from the repository's root):
--   Common, Dict      shared names; a Python dictionary with numbers for keys, as a list in insertion
--                     order.
--   Quality           tools/quality_failover/policy.py: the policy that turns upload confirmations into
--                     the state of a path (Quality/Policy, Quality/NodePath for `Path.observe` and
--                     `usable`), `Engine` over the nodes (Quality/Engine), and `Ownership` of the
--                     selector group (Quality/Ownership). The engine holds one path for each node and
--                     `target` reads them; the ownership decides whether a switch may be made.
--   Wire              monitor-v2/api_bridge/proto_wire.py: varints, messages by specification, and the
--                     connection events of the sing-box API; and of monitor-v2/api_bridge/grpc_web.py the
--                     frames of a body without chunked encoding (Wire/Stream), over any list of what the
--                     socket brings.
--   Collector         monitor-v2/collector.py: `Tracker`, fed with the decoded batches. `apply_batch` is
--                     Collector/Batches, `_apply_event` and its branches are Collector/Events.
--   Reader            monitor-v2/journal_reader: cursor.py (Reader/Cursor), state.py with the recovery
--                     table (Reader/State), and of reader.py the startup, `_commit_batch`,
--                     `reset_from_now` (Reader/Disk) and `_enforce_retention` (Reader/Retention). An
--                     operation is the list of its durable writes, so that a crash is a prefix of it.
--   Delivery          monitor-v2/remote_probe: `classify_response` and `backoff_delay` of delivery.py
--                     (Delivery/Response), the queue of spool.py (Delivery/Queue), and
--                     `deliver_pending` over it (Delivery/Drain).
--   Auth              monitor-v2/web/auth.py: `LoginRateLimiter` and `SessionStore`.
--   Incident          monitor-v2/web: the classifier of incident_classifier.py, from the check of a bundle
--                     (Incident/Accept) over the statistics of a bucket (Incident/Stats), its anomaly and
--                     the clusters (Incident/Anomaly) and the attribution (Incident/Verdict) to `detect`
--                     (Incident/Detect); of incident_history.py the two tables of the incident runtime
--                     with their CHECKs (Incident/Store) and the transactions on them
--                     (Incident/Transactions); and `IncidentScanner` of incident_runtime.py, its state and
--                     stages (Incident/Stage), its gates (Incident/Gates), its cycle (Incident/Scanner)
--                     and its start (Incident/Startup). The scanner asks the classifier for a verdict on a window and
--                     writes it through the transactions. Incident/Lifecycle is the abstract view that both
--                     follow; Incident/Writes and Incident/Scanner/Writes say what they write, for any
--                     relation of the store before and after.
--   Examples          small inputs on which the theorems are applied.
--
-- Bounds and fuel: rates of the policy are counted in millionths, since they are compared only; varints
-- are read up to ten groups of seven bits and a last one, which the code's test on the shift allows;
-- `decode_message` runs on as much fuel as there are bytes, which is enough since every field takes one.
-- All other loops are structural. A wrap-around at 64 bits is written out in `to_signed64`.
--
-- Times of the incident modules and of `LoginRateLimiter` are milliseconds, the means exact fractions; the
-- wait that the limiter names is rounded to seconds as in the code. The collector's totals and deltas are
-- signed (Collector/Signed). The power of two in `backoff_delay` overflows a float from attempt 1024 on,
-- where the delay is none, the OverflowError; it escapes `deliver_pending`, whose counters the model keeps.
-- Rows are typed, so that the checks for values of another shape always pass, in the classifier's sections
-- and in the scanner's reads.
--
-- Parameters: the decoding of UTF-8 (`utf8`), the pattern of a since-timestamp (`since_form`), the check
-- of a success body (`success_body`), the step-up fingerprint (`fingerprint`), what the network brings
-- (`exchange`), the random tokens of `create`, and of SQLite which statements of a transaction
-- and whether its commit succeed (`io`) and the row ids that it gives (`fresh`). What a cycle of the scanner
-- meets, the clock, the heartbeat and the bundles among it, is `Env`. Clocks are arguments.
--
-- A rollback of SQLite is taken to succeed. The unlinks of the reader's retention are taken as durable one
-- by one, while the code syncs the directory once behind the last of them.
--
-- Not modelled: JSON, files and sockets below the durable writes; the rates and display fields of the
-- tracker; the append, rotation and compaction of the spool; the incident store's other
-- tables, its retention and the operator's markers; the scanner's thread and lock; the stream's
-- chunked encoding and trailers; the web server; the shell installer. Names, ids and tokens of the
-- collector and of auth.py are numbers, since they are only compared.
pub mod Common
pub mod Dict
pub mod Quality
pub mod Wire
pub mod Reader
pub mod Delivery
pub mod Collector
pub mod Auth
pub mod Incident
pub mod Examples
