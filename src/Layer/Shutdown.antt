-- ===== src/Layer/Shutdown.antt =====
-- infrastructure/layer.rs, `shutdown`: the handle of the emitter is taken once.
use tracing_throttle.Prelude.{Option, none, some, Result, ok}
use tracing_throttle.Policy.Float.{F64}
use tracing_throttle.Signature.{EventSignature}
use tracing_throttle.Metadata.{EventMetadata}
use tracing_throttle.Ports.{Storage}
use tracing_throttle.Registry.{EventState}
use tracing_throttle.Emitter.Handle
use tracing_throttle.Emitter.Handle.{ShutdownError, TaskHandle}
use tracing_throttle.Layer.{TracingRateLimitLayer, EmitterHandle}

-- `task` is the task of a running emitter, as its runtime has it.
stop_emitter :
    {Formatter : Type 0}
    → Option (EmitterHandle Formatter)
    → TaskHandle
    → Result ShutdownError (Unit {0})
stop_emitter none task = ok tt
stop_emitter (some handle) task = Handle.shutdown task

module _ {Formatter : Type 0} {f : F64}
    {p : Storage EventSignature (EventState f EventMetadata)} where
  pub shutdown :
      TracingRateLimitLayer Formatter f p
      → TaskHandle
      → TracingRateLimitLayer Formatter f p × Result ShutdownError (Unit {0})
  unfolding stop_emitter
  shutdown l task = (record l { emitter_handle = none }, stop_emitter l.emitter_handle task)
