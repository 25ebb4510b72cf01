-- ===== src/Lib.antt =====
-- The core of config-server: how the configs of a target reach its device, and when the datastore of a
-- target may be used. Paths are from the root of the repository.
--
-- The parts and their files:
-- Condition (Condition.antt and below): the conditions of a resource and the messages they carry,
-- apis/condition/v1alpha1/condition.go and message.go. Setting, reading, deduplicating, truncating.
-- Errors (Errors.antt): Go error values as the code looks into them, with error.go, utils.go and
-- isUnknownDatastoreErr of pkg/sdc/target/manager.
-- Config (Config.antt and below): the Config resource, its predicates and conditions, and the names
-- of Deviations, apis/config/*.go and apis/config/v1alpha1/*.go. The internal and the versioned type
-- have the same fields and are one record.
-- Transactor (Transactor.antt and below): pkg/sdc/target/manager/transactor.go. Classify holds
-- getConfigsToTransact; Intents holds setIntents and GetIntentUpdate; Response holds TransactionSet
-- and the two readings of a reply; Status holds the status writes; Deviations holds the Deviation
-- and the finalizer of a config; Failure holds handleTransactionErrors; Transact and Recover hold the
-- two entry points.
-- Runtime (Runtime.antt and below): pkg/sdc/target/manager/runtime.go. Datastore holds
-- ensureDatastore and ensureDatastoreDeleted; Reconcile holds reconcileOnce, a run at a time; Loop
-- holds the run loop in steps, between any two of which other goroutines may act, and GetDatastore of
-- manager.go. A step is what is done under one lock, or one call; Interleave has the acts of the
-- others, and Run and Whole compare the steps with Reconcile.
-- Subscriptions (Subscriptions.antt and below): pkg/sdc/target/manager/subscription.go. The root holds
-- the choice of the current subscription of a path, Update holds AddSubscription and DelSubscription
-- over an interface of the store of paths, Read what a runtime reads, and Refine the abstract view.
-- Intervals are natural numbers.
-- ClearDeviation (ClearDeviation.antt and below): ClearDeviations of apis/config/target_helpers.go. The
-- root holds the checks of the entries; Retry the transaction and its retries; Report the status that
-- is returned; Request the whole. A pause is in milliseconds.
-- Instantiation (Instantiation.antt and below): pkg/reconcilers/targetdatastore/reconciler.go, which
-- makes a target Ready or finalizes it. Manager holds the map of runtimes of
-- pkg/sdc/target/manager/manager.go; Profiles the profiles of apis/inv/v1alpha1; Request the datastore
-- request and the schema test; Ready the Ready condition; Reconcile the stages. Its server answers
-- from the steps made so far, as Env does for the transactor.
-- TargetConfig (TargetConfig.antt and below): pkg/reconcilers/targetconfig/reconciler.go, which calls
-- Transact with what GetDatastore hands out. What a runtime does meanwhile is not a part of its run.
-- DryRun (DryRun.antt and below): RunDryRunTransaction of pkg/sdc/target/manager/dryrun.go, and the
-- handlers of apis/config/handlers/confighandler.go.
-- Prelude holds what the others share, and Tests a concrete input for each property.
--
-- A runtime calls the transactor to replay the configs of its target; reconcilers take a handle from
-- GetDatastore and call Transact. Kubernetes, the dataserver, the clock, SHA-1, path parsing and the
-- order in which Go ranges over a map are outside the program: they are the fields of `Env`, and each
-- answers from the calls made so far, so that an answer may change with every call. Functions return
-- the calls they made, newest first. An error is a value; a pointer that may be nil is an `Option`.
-- Loops run over lists, but for the retries of ClearDeviations, which count down from four tries.
--
-- int32 and int64 values are compared and stored only, and are natural numbers. A time is a natural
-- number, with 0 for the zero time. A string is a text, or its bytes where the code cuts it.
--
-- Not modelled: logging; what other goroutines do during the replay of the configs and during
-- reconcileCollector; the timers, whose wake may come at any time; that a runtime reads its
-- subscriptions, of which its state holds the two answers it needs; errors of the store of paths;
-- the streams of the collector and of the deviation watcher; what runs between two calls of the
-- datastore reconciler to the manager; the other reconcilers, the registry and the generated code.
pub mod Prelude
pub mod Condition
pub mod Errors
pub mod Config
pub mod Transactor
pub mod Runtime
pub mod Subscriptions
pub mod ClearDeviation
pub mod Instantiation
pub mod TargetConfig
pub mod DryRun
pub mod Tests
