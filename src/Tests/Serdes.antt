-- ===== src/Tests/Serdes.antt =====
-- Policies that are written and read back.
use tracing_throttle.Prelude.{◌≡◌, [], ◌∷◌, some, ok, ◌>>=◌, arith}
use tracing_throttle.Policy.Decoding.{as_map}
use tracing_throttle.Policy.TimeWindow.{TimeWindowPolicy}
use tracing_throttle.Policy.TimeWindow.Serde.{
  Movable, moved, serialize, deserialize, deserialize-serialize,
}
use tracing_throttle.Policy.TokenBucket.{TokenBucketPolicy, register_event, take_token}
use tracing_throttle.Policy.TokenBucket.Serde
use tracing_throttle.Tests.Floats.{num, whole}

abbrev window : TimeWindowPolicy
window = record { max_events = 2; window_duration = 1000; event_timestamps = 100 ∷ 400 ∷ [] }

deserialize-serialize_example :
    deserialize 5000 (as_map (serialize window))
    ≡ ok (record window { event_timestamps = moved 5000 (100 ∷ 400 ∷ []) })
unfolding Movable
deserialize-serialize_example =
    deserialize-serialize window 5000 (omega arith)
      ((omega arith, omega arith), ((omega arith, omega arith), tt))

abbrev bucket : TokenBucketPolicy whole
bucket = record { capacity = num 5; refill_rate = num 1; tokens = num 2; last_refill = some 100 }

register_event-deserialize_example :
    (Serde.deserialize whole (as_map (Serde.serialize whole bucket))
      >>= (λ q. ok (register_event whole q 900)))
    ≡ ok (take_token whole (record bucket { last_refill = some 900 }))
register_event-deserialize_example = Serde.register_event-deserialize whole bucket 900
