-- ===== src/Runtime/Loop/Safety.antt =====
-- What holds at every step of the run loop of pkg/sdc/target/manager/runtime.go, however the steps of
-- other goroutines interleave.
use config_server.Prelude.{
  Bool, Bool-cases, Option, Option-cases, arith, false, inl, inr, none, some, subst, suc, true,
  utf8, zero, ℕ, ◌&&◌, ◌<◌, ◌≡◌, ◌≢◌, ◌⊎◌,
}
use config_server.Errors.{Error, plain}
use config_server.Runtime.{
  Runtime, new_target_runtime, running, set_ds_ready, set_phase, set_recovered, wake,
}
use config_server.Runtime.Laws.{Held, reconcile_collector_lem}
use config_server.Runtime.Loop.{
  Point, adopts, advance, asks_client, begins, checks_ds, checks_latch, checks_recovered, collects,
  creates, decides, degrades, degrades_released, deletes_old, differs, ds_closes, ds_wakes, ended,
  ensures_runtime, fails, forgets, forgets_hash, get_datastore, hashes_created, latches, leaves,
  notifies, pends, probes, readies, readies_created, reads_hash, records, recovers, releases,
  replays, retries_later, runs, selects, shuts, stops_old, stops_released, stops_waiting, unreadies,
  unreadies_released, unrecovers_created, unrecovers_released, vanishes, waits_client, waits_ds,
}
use config_server.Runtime.Loop.Interleave.{
  Act, Arm, Machine, Reaches, act, act_step, acts, arms, desires, ds_closed, ds_event, loop_step,
  loops, pays, retries, select, select_step, starts, stop, subscribes, takes_wake, timer,
  unrecovers,
}
use config_server.Runtime.Loop.Points.{
  attends, closes, connected, is_down, readied, released, settled, touches,
}
use config_server.Runtime.Once.{notify_if_changed_lem}
use config_server.Transactor.{Env, History, Key}

-- A wake is pending or owed.
abbrev pub Due : Runtime → ℕ → Type 0
Due rt owed = (rt.woken ≡ true) ⊎ (0 < owed)

abbrev Inv : Point → Runtime → ℕ → Type 0
Inv p rt owed =
    Held rt
    × (rt.phase ≡ running
        → ((rt.recovered ≡ true) × (rt.datastore_ready ≡ true))
          ⊎ Due rt owed
          ⊎ (rt.ds_ready ≡ false)
          ⊎ (attends p ≡ true))
    × (touches p ≡ true → rt.phase ≢ running)
    × (connected p ≡ true → rt.ds_ready ≡ true)
    × (readied p ≡ true → rt.datastore_ready ≡ true)
    × (settled p ≡ true → (rt.recovered ≡ true) ⊎ Due rt owed)
    × (released p ≡ true → (rt.desired ≡ none) ⊎ Due rt owed)
    × (closes p ≡ true → rt.ds_ready ≡ false)
    × (is_down p ≡ true → rt.phase ≢ running)

set_ds_ready_lem :
    (up : Bool) (e : Option Error) (rt : Runtime)
    → let rt' = set_ds_ready up e rt in
      (rt'.ds_ready ≡ up)
      × (rt'.phase ≡ rt.phase)
      × (rt'.datastore_ready ≡ rt.datastore_ready)
      × (rt'.recovered ≡ (up && rt.recovered))
unfolding set_ds_ready
set_ds_ready_lem true e rt = ground arith
set_ds_ready_lem false e rt = ground arith

advance-Inv :
    (env : Env) (target : Key) (p : Point) (rt : Runtime) (owed : ℕ) (h : History)
    → Inv p rt owed
    → let (p', rt', h') = advance env target p rt h in Inv p' rt' owed
unfolding advance touches attends connected readied settled released closes is_down
advance-Inv env target selects rt owed h inv = ground arith
advance-Inv env target ended rt owed h inv = ground arith
advance-Inv env target ds_wakes rt owed h inv = ground arith
advance-Inv env target ds_closes rt owed h inv = ground arith
advance-Inv env target shuts rt owed h inv = ground arith
advance-Inv env target begins rt owed h inv = ground arith
advance-Inv env target stops_released rt owed h inv = ground arith
advance-Inv env target releases rt owed h inv = ground arith
advance-Inv env target forgets rt owed h inv = ground arith
advance-Inv env target forgets_hash rt owed h inv = ground arith
advance-Inv env target (unreadies_released e) rt owed h inv = ground arith
advance-Inv env target (degrades_released e) rt owed h inv = ground arith
advance-Inv env target unrecovers_released rt owed h inv = ground arith
advance-Inv env target pends rt owed h inv = ground (arith, Option-cases rt.desired)
advance-Inv env target (checks_ds req) rt owed h inv = ground arith
advance-Inv env target waits_ds rt owed h inv = ground arith
advance-Inv env target stops_waiting rt owed h inv = ground arith
advance-Inv env target (leaves req) rt owed h inv = ground arith
advance-Inv env target (asks_client req) rt owed h inv = ground arith
advance-Inv env target waits_client rt owed h inv = ground arith
advance-Inv env target (reads_hash req) rt owed h inv = ground arith
advance-Inv env target (probes req want) rt owed h inv = ground arith
advance-Inv env target (vanishes req want) rt owed h inv = ground arith
advance-Inv env target (differs req want) rt owed h inv = ground arith
advance-Inv env target (stops_old req want) rt owed h inv = ground arith
advance-Inv env target (deletes_old req want) rt owed h inv = ground arith
advance-Inv env target (creates doing req want) rt owed h inv = ground arith
advance-Inv env target (hashes_created req want) rt owed h inv = ground arith
advance-Inv env target (readies_created req) rt owed h inv = ground arith
advance-Inv env target (unrecovers_created req) rt owed h inv = ground arith
advance-Inv env target (adopts req want) rt owed h inv = ground arith
advance-Inv env target (readies req) rt owed h inv = ground arith
advance-Inv env target (unreadies e) rt owed h inv = ground arith
advance-Inv env target (degrades e) rt owed h inv = ground arith
advance-Inv env target (checks_recovered req) rt owed h inv = ground arith
advance-Inv env target (checks_latch req) rt owed h inv = ground arith
advance-Inv env target (recovers req) rt owed h inv = ground arith
advance-Inv env target (replays req) rt owed h inv = ground arith
advance-Inv env target (records req msg none) rt owed h inv = ground arith
advance-Inv env target (records req msg (some e)) rt owed h inv = ground arith
advance-Inv env target (decides req none) rt owed h inv = ground arith
advance-Inv env target (decides req (some e)) rt owed h inv = ground arith
advance-Inv env target (latches e) rt owed h inv = ground arith
advance-Inv env target (fails e) rt owed h inv = ground arith
advance-Inv env target (retries_later e) rt owed h inv = ground arith
advance-Inv env target (ensures_runtime req) rt owed h inv = ground arith
advance-Inv env target (runs req) rt owed h inv = ground arith
advance-Inv env target (collects req) rt owed h inv =
    ground (arith, reconcile_collector_lem env req (rt, h))
advance-Inv env target notifies rt owed h inv = ground (arith, notify_if_changed_lem rt)

act-Inv :
    (a : Act) (p : Point) (rt : Runtime) (owed : ℕ)
    → Inv p rt owed
    → let (rt', owed') = act a rt owed in Inv p rt' owed'
unfolding act wake set_recovered
act-Inv timer p rt owed inv = ground arith
act-Inv pays p rt zero inv = ground arith
act-Inv pays p rt (suc owed) inv = ground arith
act-Inv unrecovers p rt owed inv = ground arith
act-Inv (desires req hash) p rt owed inv = ground arith
act-Inv (retries token) p rt owed inv = ground arith
act-Inv (subscribes active port) p rt owed inv = ground arith

select-Inv :
    (arm : Arm) (rt : Runtime) (owed : ℕ)
    → Inv selects rt owed
    → let (p', rt') = select arm rt in Inv p' rt' owed
unfolding select touches attends connected readied settled released closes is_down
select-Inv stop rt owed inv = unfold set_phase in ground arith
select-Inv ds_closed rt owed inv =
    ground (arith, set_ds_ready_lem false (some (plain (utf8 "ds events closed"))) rt)
select-Inv (ds_event up e) rt owed inv = ground (arith, set_ds_ready_lem up e rt)
select-Inv takes_wake rt owed inv = ground arith

Reaches-Inv :
    (env : Env) (target : Key) (m : Machine) → Reaches env target m → Inv m.point m.rt m.owed
unfolding loop_step select_step act_step
Reaches-Inv env target m (starts h) =
    unfold new_target_runtime wake touches connected readied settled released closes is_down in
    ground arith
Reaches-Inv env target m (loops {m = before} reached) =
    advance-Inv env target before.point before.rt before.owed before.h
      (Reaches-Inv env target before reached)
Reaches-Inv env target m (arms {m = before} arm reached at_select) =
    select-Inv arm before.rt before.owed (
      subst (λ (p : Point). Inv p before.rt before.owed) at_select
        (Reaches-Inv env target before reached))
Reaches-Inv env target m (acts {m = before} a reached) =
    act-Inv a before.point before.rt before.owed (Reaches-Inv env target before reached)

-- At every step of the loop, however other goroutines interleave: only a datastore that is ready, of a
-- dataserver that is ready, counts as recovered; and if GetDatastore hands the datastore out, then the
-- loop is not at a step that recreates it or replays into it, and the configs are recovered, or a wake
-- is pending or owed, or the loop is about to wake itself, or in a run that has yet to see whether the
-- configs are recovered or that is about to leave the phase Running.
pub get_datastore-recovered :
    (env : Env) (target : Key) (m : Machine)
    → Reaches env target m
    → ((m.rt.recovered ≡ false) ⊎ ((m.rt.ds_ready ≡ true) × (m.rt.datastore_ready ≡ true)))
      × ((get_datastore env (m.rt, m.h) ≡ false)
          ⊎ ((touches m.point ≡ false)
              × ((m.rt.recovered ≡ true)
                  ⊎ (m.rt.woken ≡ true)
                  ⊎ (0 < m.owed)
                  ⊎ (attends m.point ≡ true))))
unfolding get_datastore
get_datastore-recovered env target m reached =
    let inv = Reaches-Inv env target m reached in
    (
      elim (Bool-cases m.rt.recovered) [ inl done ↦ inr (inv.0 done) | inr out ↦ inl out ],
      elim (Bool-cases (get_datastore env (m.rt, m.h))) [
        | inr withheld ↦ inl withheld
        | inl usable ↦ inr (ground (arith, inv, usable, Bool-cases (touches m.point)))
      ],
    )

-- From any state in which GetDatastore hands the datastore out, a DS down event and a DS up event lead
-- to one in which it does so again, and nothing is recovered, while a wake is pending; and once the loop
-- takes that wake, it still does so, and none is.
pub get_datastore-unrecovered :
    (env : Env) (target : Key) (m : Machine) (e : Option Error)
    → get_datastore env (m.rt, m.h) ≡ true
    → let down = loop_step env target (select_step (ds_event false e) m) in
      let up = loop_step env target (select_step (ds_event true none) down) in
      let taken = select_step takes_wake up in
      (get_datastore env (up.rt, up.h) ≡ true)
      × (up.rt.recovered ≡ false)
      × (up.rt.woken ≡ true)
      × (get_datastore env (taken.rt, taken.h) ≡ true)
      × (taken.rt.recovered ≡ false)
      × (taken.rt.woken ≡ false)
      × (taken.point ≡ begins)
unfolding get_datastore loop_step select_step select advance
get_datastore-unrecovered env target m e usable =
    let down = wake (set_ds_ready false e m.rt) in
    unfold wake in ground (arith, set_ds_ready_lem false e m.rt, set_ds_ready_lem true none down)
