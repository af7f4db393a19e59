-- ===== src/Storage/Threads/Overshoot.antt =====
-- infrastructure/storage.rs: two threads that select the same victim.
use mathlib.Core.Path.{subst}
use mathlib.Core.Logic.{if_pos, if_neg}
use tracing_throttle.Prelude.{
  ℕ, zero, suc, ◌+◌, ◌<◌, ◌≤◌, ◌≡◌, ◌≢◌, refl, sym, ap, ◌∙◌, true, not, none, some, inl, inr,
  Option-cases, List, [], ◌++◌, All, Instant, arith, leb, System, Run, settled, left, right, Duo,
  append, Duo-Run, if◌then◌else◌,
}
use tracing_throttle.Metrics.{record_eviction}
use tracing_throttle.Eviction.Port.{EvictionPolicy, EvictionCandidate, selected}
use tracing_throttle.Storage.Map.{DashMap, DashMapLaws}
use tracing_throttle.Storage.{StorageEntry, candidates, len, is_some, untracked}
use tracing_throttle.Storage.Removal.{candidates-All, candidates-ne_nil}
use tracing_throttle.Storage.Threads.{
  Calls, Pc, Effect, Shared, Sampling, Move, with_table, enter_new, enter_old, stored,
}

module _ {K V R : Type 0} (dec : Discrete K) (calls : Calls K V R) (m : DashMap K (StorageEntry V))
    (l : DashMapLaws dec m) where
  open calls use {Call, key, fresh, accessor}

  -- The candidates are read in one step.
  abbrev pub snapshot : Sampling m
  snapshot s cs = cs ≡ candidates m s

  begin_new :
      (s : Shared m) (c : Call)
      → m.get s.storage.table (key c) ≡ none
      → Move calls m snapshot s Pc.idle Effect.quiet s (Pc.looked c true)
  unfolding is_some
  begin_new s c e =
      subst (λ o. Move calls m snapshot s Pc.idle Effect.quiet s (Pc.looked c (not (is_some o)))) e
        (Move.begin c)

  -- The storage behind `enter_new`.
  entered :
      (s : Shared m) (c : Call) (now : Instant)
      → m.get s.storage.table (key c) ≡ none
      → let s' = (enter_new calls m snapshot s c true now).storage in
        (len m s' ≡ suc (len m s.storage))
        × (s'.eviction_policy ≡ s.storage.eviction_policy)
        × ((j : K) → key c ≢ j → m.get s'.table j ≡ m.get s.storage.table j)
  unfolding enter_new enter_old with_table stored len
  entered s c now e = (
    l.len-insert_new s.storage.table (key c) _ e,
    refl,
    λ j other. l.get-insert s.storage.table (key c) j _ ∙ if_neg (dec (key c) j) other _ _,
  )

  module _ (policy : EvictionPolicy K V)
      (picks : (cs : List (EvictionCandidate K V)) (P : K → Type 0)
        → All (λ c. P c.key) cs
        → cs ≢ []
        → (k : K) × (policy.select_victim cs ≡ selected (some k)) × P k)
      (max_entries : ℕ) (by_entries : (n b : ℕ) → policy.should_evict n b ≡ leb max_entries n)
      (spare : (t : m.Table)
        → (c : Call) × (d : Call) × (m.get t (key c) ≡ none)
          × (m.get t (key d) ≡ none)
          × (key c ≢ key d)) where
    -- A storage with the policy that is full.
    pub record Full (s : Shared m) : Type 0 where
      pub has_policy : s.storage.eviction_policy ≡ some policy
      pub positive : 0 < len m s.storage
      pub full : max_entries ≤ len m s.storage

    -- Two calls for new keys, one in each thread, of which both select the entry `v`.
    round :
        (s : Shared m) (c d : Call) (v : K) (w : StorageEntry V)
        → Full s
        → policy.select_victim (candidates m s.storage) ≡ selected (some v)
        → m.get s.storage.table v ≡ some w
        → m.get s.storage.table (key c) ≡ none
        → m.get s.storage.table (key d) ≡ none
        → key c ≢ key d
        → (es : List (Effect calls)) × (t : Shared m) × Duo
            (Move calls m snapshot)
            s
            Pc.idle
            Pc.idle
            es
            t
            Pc.idle
            Pc.idle
          × (len m t.storage ≡ suc (len m s.storage))
          × (t.storage.eviction_policy ≡ s.storage.eviction_policy)
    unfolding len with_table
    round s c d v w h found here no_c no_d apart =
        let asks : policy.should_evict (m.len s.storage.table) s.storage.current_memory_bytes
            ≡ true =
          by_entries (m.len s.storage.table) s.storage.current_memory_bytes
          ∙ ground (arith, h.full) in
        let s1 = with_table s (m.remove s.storage.table v) in
        let s2 : Shared m = record s1 {
          storage = record s1.storage {
            current_memory_bytes = untracked policy v w.value s1.storage.current_memory_bytes;
          };
        } in
        let s3 : Shared m = record s2 {
          metrics = if s2.storage.has_metrics then record_eviction s2.metrics else s2.metrics;
        } in
        let gone : (j : K) → v ≢ j → m.get s3.storage.table j ≡ m.get s.storage.table j =
          λ j other. l.get-remove s.storage.table v j ∙ if_neg (dec v j) other none _ in
        let apart_c : v ≢ key c = λ e. cc in
        let apart_d : v ≢ key d = λ e. cc in
        let no_c' : m.get s3.storage.table (key c) ≡ none = gone (key c) apart_c ∙ no_c in
        let (len4, policy4, others) = entered s3 c 0 no_c' in
        let s4 = enter_new calls m snapshot s3 c true 0 in
        let no_v : m.get s4.storage.table v ≡ none =
          others v (λ e. apart_c (sym e))
          ∙ l.get-remove s.storage.table v v
          ∙ if_pos (dec v v) refl none _ in
        let no_d' : m.get s4.storage.table (key d) ≡ none =
          others (key d) apart ∙ gone (key d) apart_d ∙ no_d in
        let (len5, policy5, _) = entered s4 d 0 no_d' in
        let fewer = l.len-remove s.storage.table v w here in
        (
          _,
          enter_new calls m snapshot s4 d true 0,
          left (begin_new s c no_c) (
              left (Move.measure h.has_policy) (
                left (Move.full asks) (
                  left (Move.choose (candidates m s.storage) refl found) (
                    right (begin_new s d no_d) (
                      right (Move.measure h.has_policy) (
                        right (Move.full asks) (
                          right (Move.choose (candidates m s.storage) refl found) (
                            left (Move.remove w here) (
                              left Move.untrack (
                                left Move.count (
                                  left (Move.access_new 0 no_c') (
                                    right (Move.missed no_v)
                                      (right (Move.access_new 0 no_d') settled))))))))))))),
          len5 ∙ ap suc len4 ∙ ap suc fewer,
          policy5 ∙ policy4,
        )

    one_more :
        (s : Shared m)
        → Full s
        → (es : List (Effect calls)) × (t : Shared m) × Duo
            (Move calls m snapshot)
            s
            Pc.idle
            Pc.idle
            es
            t
            Pc.idle
            Pc.idle
          × (len m t.storage ≡ suc (len m s.storage))
          × (t.storage.eviction_policy ≡ s.storage.eviction_policy)
    one_more s h =
        let (v, found, there) =
          picks (candidates m s.storage) (λ k. m.get s.storage.table k ≢ none)
            (candidates-All dec m l s.storage) (candidates-ne_nil dec m l s.storage h.positive) in
        let (c, d, no_c, no_d, apart) = spare s.storage.table in
        elim (Option-cases (m.get s.storage.table v)) [
          | inl e ↦ absurd (there e)
          | inr (w, e) ↦ round s c d v w h found e no_c no_d apart
        ]

    many_more :
        (n : ℕ) (s : Shared m)
        → Full s
        → (es : List (Effect calls)) × (t : Shared m) × Duo
            (Move calls m snapshot)
            s
            Pc.idle
            Pc.idle
            es
            t
            Pc.idle
            Pc.idle
          × (len m t.storage ≡ n + len m s.storage)
    many_more zero s h = ([], s, settled, omega arith)
    many_more (suc n) s h =
        let (es, t, duo, more, policy_kept) = one_more s h in
        let (fs, u, rest, count) = many_more n t (record {
          has_policy = policy_kept ∙ h.has_policy;
          positive = omega (arith, more);
          full = omega (arith, more, h.full);
        }) in
        (es ++ fs, u, append (Move calls m snapshot) duo rest, omega (arith, more, count))

    -- Two threads can bring a full storage to any number of entries: if both select the same
    -- victim, one entry is removed, and both insert. The policy must go by the number of entries
    -- and select one of its candidates, and there must always be calls for two new keys.
    pub len-threads :
        (s : Shared m) (n : ℕ)
        → Full s
        → (es : List (Effect calls)) × (t : System (Shared m) (Pc calls)) × Run
            (Move calls m snapshot)
            2
            (record { shared = s; pc = λ i. Pc.idle })
            es
            t
          × (t.pc 0 ≡ Pc.idle)
          × (t.pc 1 ≡ Pc.idle)
          × (len m t.shared.storage ≡ n + len m s.storage)
    len-threads s n h =
        let (es, t, duo, more) = many_more n s h in
        let (at, a, b, run) = Duo-Run (Move calls m snapshot) duo (λ i. Pc.idle) refl refl in
        (es, record { shared = t; pc = at }, run, a, b, more)
