-- ===== src/Runtime/Loop/Whole.antt =====
-- The steps of a run of reconcileOnce of pkg/sdc/target/manager/runtime.go, against reconcile_once.
use config_server.Runtime.{Runtime}
