-- ===== src/Emitter/Message.antt =====
-- domain/summary.rs: the text of a summary. How `f64` and a `Duration` print is a parameter:
-- `{:.2}` of the seconds, and `{:?}`.
use mathlib.Core.Option
use tracing_throttle.Prelude.{Option, none, some, ◌++◌, Duration}
use tracing_throttle.Text.{Text, codes}
use tracing_throttle.Signature.{EventSignature, display}
use tracing_throttle.Metadata.{EventMetadata, format_brief, format_detailed}
use tracing_throttle.Visitor.{u64_text}
use tracing_throttle.Emitter.{SuppressionSummary}

module _ (seconds_text debug_text : Duration → Text) where
  -- With the text of the metadata, if there are any.
  message_of : SuppressionSummary EventSignature EventMetadata → Option Text → Text
  message_of s (some event) =
      codes "Suppressed "
      ++ (u64_text s.count
          ++ (codes " times over " ++ (seconds_text s.duration ++ (codes "s: " ++ event))))
  message_of s none =
      codes "Event suppressed "
      ++ (u64_text s.count
          ++ (codes " times over "
              ++ (debug_text s.duration
                  ++ (codes " (signature: " ++ (display s.signature ++ codes ")")))))

  pub format_message : SuppressionSummary EventSignature EventMetadata → Text
  unfolding message_of
  format_message s = message_of s (Option.map format_brief s.metadata)

  pub format_detailed_message : SuppressionSummary EventSignature EventMetadata → Text
  unfolding message_of
  format_detailed_message s = message_of s (Option.map format_detailed s.metadata)
