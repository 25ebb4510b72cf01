-- ===== src/Runtime/Loop/Interleave.antt =====
-- The select of the run loop of pkg/sdc/target/manager/runtime.go, and what other goroutines do
-- between its steps.
use config_server.Prelude.{
  Bool, Option, String, bytes_eq, false, if◌then◌else◌, nat_eq, none, some, string_eq, suc, utf8,
  zero, ℕ, ◌==◌, ◌≡◌,
}
use config_server.Errors.{Error, plain}
use config_server.Runtime.{
  Runtime, deleting_target, new_target_runtime, set_ds_ready, set_phase, set_recovered, wake,
}
use config_server.Runtime.Loop.{
  LoopStep, Point, advance, begins, ds_closes, ds_wakes, selects, shuts,
}
use config_server.Transactor.{DatastoreRequest, Env, History, Key}

-- The arms of the select.
pub data Arm : Type 0 where
  stop ds_closed takes_wake : Arm
  ds_event : Bool → Option Error → Arm

unfoldable pub select : Arm → Runtime → Point × Runtime
unfolding set_phase set_ds_ready utf8
select stop rt = (shuts, set_phase deleting_target none rt)
select ds_closed rt = (ds_closes, set_ds_ready false (some (plain (utf8 "ds events closed"))) rt)
select (ds_event up e) rt = (ds_wakes, set_ds_ready up e rt)
select takes_wake rt = if rt.woken then (begins, record rt { woken = false }) else (selects, rt)

-- What other goroutines do to the runtime: SetDesired, SetRecoveryRetryToken, the subscriptions and
-- MarkRecovered(false) of a handle first set something, and owe a wake, which follows at some time. A
-- timer wakes the loop without.
pub data Act : Type 0 where
  timer pays unrecovers : Act
  desires : Option DatastoreRequest → String → Act
  retries : String → Act
  subscribes : Bool → ℕ → Act

-- With the number of wakes that are owed.
unfoldable pub act : Act → Runtime → ℕ → Runtime × ℕ
unfolding wake set_recovered
act timer rt owed = (wake rt, owed)
act pays rt zero = (rt, zero)
act pays rt (suc owed) = (wake rt, owed)
act unrecovers rt owed = (set_recovered false rt, suc owed)
act (desires req hash) rt owed = (record rt { desired = req; desired_hash = hash }, suc owed)
act (retries token) rt owed =
    (record rt { recovery_token = token }, if rt.recovery_token == token then owed else suc owed)
act (subscribes active port) rt owed =
    (record rt { has_active_paths = active; subscription_port = port }, suc owed)

-- A loop, and the wakes that are owed to it.
pub record Machine : Type 0 where
  pub point : Point
  pub rt : Runtime
  pub owed : ℕ
  pub h : History

abbrev pub machine : LoopStep → ℕ → Machine
machine (p, rt, h) owed = record { point = p; rt = rt; owed = owed; h = h }

-- One step of the loop, one arm of its select, and one act of another goroutine.
unfoldable pub loop_step : Env → Key → Machine → Machine
unfolding advance
loop_step env target m = machine (advance env target m.point m.rt m.h) m.owed

unfoldable pub select_step : Arm → Machine → Machine
unfolding select
select_step arm m = let (p, rt) = select arm m.rt in record m { point = p; rt = rt }

unfoldable pub act_step : Act → Machine → Machine
unfolding act
act_step a m = let (rt, owed) = act a m.rt m.owed in record m { rt = rt; owed = owed }

-- What a loop that was just started goes through, however its steps and those of others interleave.
pub data Reaches (env : Env) (target : Key) : Machine → Type 0 where
  starts : (h : History) → Reaches env target (machine (selects, wake new_target_runtime, h) 0)
  loops : {m : Machine} → Reaches env target m → Reaches env target (loop_step env target m)
  arms :
      {m : Machine} (arm : Arm)
      → Reaches env target m
      → m.point ≡ selects
      → Reaches env target (select_step arm m)
  acts : {m : Machine} (a : Act) → Reaches env target m → Reaches env target (act_step a m)
