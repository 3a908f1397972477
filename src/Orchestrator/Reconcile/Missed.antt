-- ===== src/Orchestrator/Reconcile/Missed.antt =====
-- A stop-first update whose replacement does not start.
use dck.Base.Bytes.{Bytes}
