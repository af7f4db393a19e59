-- ===== src/Tests/Limiters.antt =====
-- The rate limiter over a sharded storage of two signatures.
use tracing_throttle.Prelude.{ℕ, ◌≡◌, refl, [], ◌∷◌, none, true}
use tracing_throttle.Policy
use tracing_throttle.Policy.CountBased
use tracing_throttle.Policy.{Policy, count_based}
use tracing_throttle.Breaker.{default_config, state, from_u8}
use tracing_throttle.Storage.{StorageEntry}
use tracing_throttle.Storage.Map.{DashMap}
use tracing_throttle.Ports.{StorageLaws}
use tracing_throttle.Ports.Sharded.{sharded, sharded-Laws}
use tracing_throttle.Registry.{EventState}
use tracing_throttle.Limiter.{allowed, suppressed, RateLimiter, Readings, check, decide}
use tracing_throttle.Limiter.Decided.{Decided, check-Decided}
use tracing_throttle.Limiter.Decisions.{of_policy, policy_decisions}
use tracing_throttle.Limiter.Run.{Event, Ready, decisions, current_policy, decisions-policy}
use tracing_throttle.Limiter.Sharded.{sharded-Reliable}
use tracing_throttle.Tests.Floats.{whole}
use tracing_throttle.Tests.Maps.{Key, login, Key-discrete, slots, slots-Laws, get_slot}

abbrev states : DashMap Key (StorageEntry (EventState whole ℕ))
states = slots (StorageEntry (EventState whole ℕ))

abbrev states-Laws : StorageLaws (sharded states)
states-Laws = sharded-Laws Key-discrete states (slots-Laws (StorageEntry (EventState whole ℕ)))

-- One event of each signature may pass.
abbrev one_each : Policy whole
one_each = count_based (record { max_count = 1; current_count = 0 })

abbrev limiter : RateLimiter whole ℕ (sharded states)
limiter = record {
  registry = record {
    storage = record {
      table = (none, none);
      epoch = 0;
      has_metrics = true;
      eviction_policy = none;
      current_memory_bytes = 0;
    };
    default_policy = one_each;
  };
  metrics = record { events_allowed = 0; events_suppressed = 0; signatures_evicted = 0 };
  circuit_breaker = record {
    state_byte = 0;
    consecutive_failures = 0;
    last_failure_time_nanos = 0;
    config = default_config;
    epoch = 0;
  };
}

limiter-Ready : Ready whole 0 (sharded states) states-Laws (sharded-Reliable whole 0 states) limiter
unfolding sharded-Reliable state from_u8
limiter-Ready = record { safe = refl; closed_breaker = refl }

abbrev first_event : Event
first_event = record { at_request = 10; time = 11; at_access = 12; at_failure = 13 }

abbrev second_event : Event
second_event = record { at_request = 20; time = 21; at_access = 22; at_failure = 23 }

decisions-policy_example :
    decisions whole 0 (sharded states) limiter login (first_event ∷ second_event ∷ [])
    ≡ allowed ∷ suppressed ∷ []
unfolding of_policy policy_decisions current_policy Policy.register_event CountBased.register_event
    get_slot
decisions-policy_example =
    decisions-policy whole 0 (sharded states) states-Laws (sharded-Reliable whole 0 states) limiter
      login (first_event ∷ second_event ∷ []) limiter-Ready

-- The clock of the registry panics.
abbrev no_clock : Readings
no_clock = record { at_request = 10; clock = none; at_access = 12; at_failure = 13 }

check-Decided_example :
    let (l', d) = check whole 0 (sharded states) limiter login no_clock (decide whole 0) in
    Decided whole 0 (sharded states) states-Laws limiter l' login no_clock (decide whole 0) d
check-Decided_example =
    check-Decided whole 0 (sharded states) states-Laws limiter login no_clock (decide whole 0)
