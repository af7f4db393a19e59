-- ===== src/Emitter/Handle.antt =====
-- application/emitter.rs: `EmitterHandle`. The channel and the task are the runtime's: whether the
-- signal could be sent, and how waiting for the task ends, are parameters.
use tracing_throttle.Prelude.{
  Bool, true, false, not, Option, none, some, Result, ok, err, Duration, from_secs,
}

pub data ShutdownError : Type 0 where
  task_panicked task_cancelled timeout signal_failed : ShutdownError

-- How `timeout(duration, handle).await` ends: the task ended well, by a panic, by a cancellation,
-- by an error of another kind, or not in time.
pub data Waited : Type 0 where
  completed panicked cancelled unknown elapsed : Waited

-- `join_handle` is gone once it was taken.
pub record TaskHandle : Type 0 where
  pub receives : Bool
  pub join_handle : Option (Duration → Waited)

unfoldable pub shutdown_result : Waited → Result ShutdownError (Unit {0})
shutdown_result completed = ok tt
shutdown_result panicked = err task_panicked
shutdown_result cancelled = err task_cancelled
shutdown_result unknown = err task_panicked
shutdown_result elapsed = err timeout

unfoldable pub await_task : Option (Duration → Waited) → Duration → Result ShutdownError (Unit {0})
unfolding shutdown_result
await_task none duration = ok tt
await_task (some wait) duration = shutdown_result (wait duration)

unfoldable pub shutdown_with_timeout : TaskHandle → Duration → Result ShutdownError (Unit {0})
unfolding await_task
shutdown_with_timeout handle duration = elim handle.receives [
  | true ↦ await_task handle.join_handle duration
  | false ↦ err signal_failed
]

unfoldable pub shutdown : TaskHandle → Result ShutdownError (Unit {0})
unfolding shutdown_with_timeout
shutdown handle = shutdown_with_timeout handle (from_secs 10)

-- Whether the task has finished, if its handle is still there.
pub is_running : Option Bool → Bool
is_running none = false
is_running (some finished) = not finished
