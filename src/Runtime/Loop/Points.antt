-- ===== src/Runtime/Loop/Points.antt =====
-- Kinds of steps of the run loop of pkg/sdc/target/manager/runtime.go.
use config_server.Prelude.{Bool, false, none, true}
use config_server.Runtime.Loop.{
  Point, adopts, asks_client, checks_latch, checks_recovered, collects, creates, decides,
  degrades_released, deletes_old, differs, ds_closes, ended, ensures_runtime, forgets, forgets_hash,
  hashes_created, latches, leaves, notifies, pends, probes, readies, readies_created, reads_hash,
  records, recovers, releases, replays, retries_later, runs, selects, shuts, stops_old,
  stops_released, stops_waiting, unreadies_released, unrecovers_created, unrecovers_released,
  vanishes,
}

-- The configs or the datastore are being worked on: a datastore is deleted, created or replayed into.
unfoldable pub touches : Point → Bool
touches (stops_old req want) = true
touches (deletes_old req want) = true
touches (creates doing req want) = true
touches (hashes_created req want) = true
touches (readies_created req) = true
touches (unrecovers_created req) = true
touches (replays req) = true
touches (records req msg e) = true
touches (decides req e) = true
touches (latches e) = true
touches (retries_later e) = true
touches _ = false

-- The loop is about to wake itself, or in a run that has yet to see whether the configs are recovered,
-- or that is about to leave the phase Running.
unfoldable pub attends : Point → Bool
attends selects = false
attends ended = false
attends notifies = false
attends (ensures_runtime req) = false
attends (runs req) = false
attends (collects req) = false
attends (stops_old req want) = false
attends (deletes_old req want) = false
attends (creates doing req want) = false
attends (hashes_created req want) = false
attends (readies_created req) = false
attends (unrecovers_created req) = false
attends (replays req) = false
attends (records req msg e) = false
attends (decides req e) = false
attends _ = true

-- The run has seen that the dataserver is ready.
unfoldable pub connected : Point → Bool
connected (leaves req) = true
connected (asks_client req) = true
connected (reads_hash req) = true
connected (probes req want) = true
connected (vanishes req want) = true
connected (differs req want) = true
connected (stops_old req want) = true
connected (deletes_old req want) = true
connected (creates doing req want) = true
connected (hashes_created req want) = true
connected (readies_created req) = true
connected (unrecovers_created req) = true
connected (adopts req want) = true
connected (readies req) = true
connected (checks_recovered req) = true
connected (checks_latch req) = true
connected (recovers req) = true
connected (replays req) = true
connected (records req msg e) = true
connected (decides req e) = true
connected (ensures_runtime req) = true
connected (runs req) = true
connected _ = false

-- The run has set the datastore ready.
unfoldable pub readied : Point → Bool
readied (unrecovers_created req) = true
readied (checks_recovered req) = true
readied (checks_latch req) = true
readied (recovers req) = true
readied (replays req) = true
readied (records req msg e) = true
readied (decides req e) = true
readied (ensures_runtime req) = true
readied (runs req) = true
readied _ = false

-- The run has seen the configs recovered.
unfoldable pub settled : Point → Bool
settled (decides req none) = true
settled (ensures_runtime req) = true
settled (runs req) = true
settled _ = false

-- The run has seen that nothing is desired.
unfoldable pub released : Point → Bool
released stops_released = true
released releases = true
released forgets = true
released forgets_hash = true
released (unreadies_released e) = true
released (degrades_released e) = true
released unrecovers_released = true
released pends = true
released _ = false

-- The dataserver's events are closed.
unfoldable pub closes : Point → Bool
closes ds_closes = true
closes _ = false

-- The loop is at its end, or waits for the dataserver.
unfoldable pub is_down : Point → Bool
is_down shuts = true
is_down ended = true
is_down stops_waiting = true
is_down _ = false
