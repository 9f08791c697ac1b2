-- ===== src/Lock/Exclusion.antt =====
-- While a holder has not given its lease up, and two thirds of the lease have not passed since it
-- last renewed, nobody else can take the lock.
use agentic_kit.Base.{
  ℕ, ◌+◌, ◌-◌, ◌*◌, ◌≤◌, ◌<◌, ◌≡◌, refl, true, false, Option, none, some, String, arith, eq_iff,
  or_else, ◌∙◌,
}
use agentic_kit.Kv.Port.{KvPort}
use agentic_kit.Lock.{Lease, failed, acquire, keep, every_ms, lease_ms, run_lock_key, join}
use agentic_kit.Lock.World.{World, Drift, Step, Reach}
use agentic_kit.Lock.Kept.{
  Kept, le_self, Foreign-Kept, tick_start-SameGrip, tick_end-SameGrip, release-key,
}
use agentic_kit.Lock.Safety.{IsSafe, Step-IsSafe}

-- The world in which a lease that was just taken starts to be kept.
abbrev pub kept_world : (port : KvPort) → port.Store → Lease → ℕ → World port
kept_world port kv l now = record { kv = kv; lease = keep l now; now = now; answer = none }

-- The period of the renewals, which bounds their race, is at most a third of a lease.
every_ms-lease_ms : (seconds : ℕ) → 0 < seconds → 3 * every_ms seconds ≤ lease_ms seconds
every_ms-lease_ms seconds pos = omega arith

module _ (port : KvPort) (seconds delay : ℕ) where
  open port use {Store, look, look-put_value}

  Reach-IsSafe :
      {w u : World port}
      → 0 < seconds
      → IsSafe port seconds delay w
      → Reach port seconds delay w u
      → IsSafe port seconds delay u
  Reach-IsSafe pos s Reach.here = s
  Reach-IsSafe pos s (Reach.next r st) =
      Step-IsSafe port seconds delay pos st (Reach-IsSafe pos s r)

  Drift-Kept :
      {key value : String} {kv : Store} {now : ℕ} {kv' : Store} {t : ℕ} (end : ℕ)
      → Drift port key value kv now kv' t
      → Kept port kv key value now end
      → Kept port kv' key value t end
  Drift-Kept end Drift.still h u p q = h u p q
  Drift-Kept end (Drift.later d le) h u p q = Drift-Kept end d h u (omega arith) q
  Drift-Kept end (Drift.acted d f) h u p q = Foreign-Kept port end f (Drift-Kept end d h) u p q

  acquire-Kept :
      (kv : Store) (thread : String) (run dispatch : Option String)
      (uuid : String × String × String) (now : ℕ) (l : Lease)
      → 0 < seconds
      → (acquire port kv thread run dispatch uuid seconds now).1 ≡ some l
      → (l.key ≡ run_lock_key thread)
        × (l.timer ≡ false)
        × (l.released ≡ false)
        × Kept port
            (acquire port kv thread run dispatch uuid seconds now).0
            l.key
            l.value
            now
            (now + lease_ms seconds)
  unfolding acquire
  acquire-Kept kv thread run dispatch uuid now l pos e = (
    ground arith,
    ground arith,
    ground arith,
    λ later p q. ground (
      arith,
      look-put_value kv (run_lock_key thread)
          (join (or_else run uuid.0) (or_else dispatch uuid.1) uuid.2) (run_lock_key thread) seconds
          now later true p,
      eq_iff (run_lock_key thread) (run_lock_key thread),
    ),
  )

  kept_world-IsSafe :
      (kv : Store) (l : Lease) (start now : ℕ)
      → start ≤ now
      → now ≤ start + delay
      → Kept port kv l.key l.value now (start + lease_ms seconds)
      → l.timer ≡ false
      → l.released ≡ false
      → IsSafe port seconds delay (kept_world port kv l now)
  unfolding keep
  kept_world-IsSafe kv l start now a b h off open_ =
      rw (off, open_)
        (record {
          clock = omega arith;
          asked = λ at done e. absurd (cc);
          held = λ r t p q. h t p (omega arith);
          answered = λ r at e. absurd (cc);
        })

  Step-key : {w u : World port} → Step port seconds delay w u → u.lease.key ≡ w.lease.key
  Step-key {w} (Step.passes later h) = refl
  Step-key {w} (Step.acts kv' f) = refl
  Step-key {w} Step.fires = (tick_start-SameGrip w.lease).same_key
  Step-key {w} (Step.lands h) = refl
  Step-key {w} (Step.sees at done outcome a fits o) =
      (tick_end-SameGrip seconds w.lease outcome w.now).same_key
  Step-key {w} Step.misses = (tick_end-SameGrip seconds w.lease failed w.now).same_key
  Step-key {w} Step.strays = refl
  Step-key {w} Step.frees_own = release-key port w.kv w.lease w.now

  Reach-key : {w u : World port} → Reach port seconds delay w u → u.lease.key ≡ w.lease.key
  Reach-key Reach.here = refl
  Reach-key (Reach.next r st) = Step-key st ∙ Reach-key r

  Drift-le :
      {key value : String} {kv : Store} {now : ℕ} {kv' : Store} {t : ℕ}
      → Drift port key value kv now kv' t
      → now ≤ t
  Drift-le Drift.still = omega arith
  Drift-le (Drift.later d le) = omega (arith, Drift-le d)
  Drift-le (Drift.acted d f) = Drift-le d

  keep-key : (l : Lease) (now : ℕ) → (keep l now).key ≡ l.key
  unfolding keep
  keep-key l now = ground arith

  -- Nobody takes a key that a live value is under.
  acquire_held :
      (kv : Store) (thread : String) (run dispatch : Option String)
      (uuid : String × String × String) (now : ℕ) (v : String)
      → look kv (run_lock_key thread) now ≡ some v
      → (acquire port kv thread run dispatch uuid seconds now).1 ≡ none
  unfolding acquire
  acquire_held kv thread run dispatch uuid now v e = ground (
    arith,
    look-put_value kv (run_lock_key thread)
        (join (or_else run uuid.0) (or_else dispatch uuid.1) uuid.2) (run_lock_key thread) seconds
        now now true (le_self now),
  )

  -- Over a store that keeps the port's contract: a holder takes a thread's run lock, starts to keep it
  -- within `delay` milliseconds of that, and runs on, among others who take, renew and free locks under
  -- values of their own; it sees the answer to a renewal within `delay` of the store's giving it, or
  -- not at all, and `delay` is at most a third of a lease. Whenever the holder has not released its
  -- lease and at most two thirds of a lease have passed since the last renewal that it knows of, the
  -- lock still holds its value, and any try to take the lock fails.
  pub keep-acquire :
      (kv kv' : Store) (thread : String) (run dispatch run' dispatch' : Option String)
      (uuid uuid' : String × String × String) (start now : ℕ) (l : Lease) (w : World port)
      → 0 < seconds
      → 3 * delay ≤ lease_ms seconds
      → (acquire port kv thread run dispatch uuid seconds start).1 ≡ some l
      → Drift port l.key l.value
          (acquire port kv thread run dispatch uuid seconds start).0
          start
          kv'
          now
      → now ≤ start + delay
      → Reach port seconds delay (kept_world port kv' l now) w
      → w.lease.released ≡ false
      → 3 * (w.now - w.lease.last_ok) ≤ lease_ms seconds * 2
      → (look w.kv w.lease.key w.now ≡ some w.lease.value)
        × ((acquire port w.kv thread run' dispatch' uuid' seconds w.now).1 ≡ none)
  keep-acquire kv kv' thread run dispatch run' dispatch' uuid uuid' start now l w pos prompt e d
        fits r o recent =
      let (key, off, open_, mine) = acquire-Kept kv thread run dispatch uuid start l pos e in
      let safe : IsSafe port seconds delay w =
        Reach-IsSafe pos
          (kept_world-IsSafe kv' l start now (Drift-le d) fits (Drift-Kept _ d mine) off open_) r in
      let held : look w.kv w.lease.key w.now ≡ some w.lease.value =
        safe.held o w.now (le_self w.now) (omega (arith, safe.clock, prompt)) in
      (
        held,
        acquire_held w.kv thread run' dispatch' uuid' w.now w.lease.value
            (rw (← (Reach-key r ∙ keep-key l now ∙ key)) held),
      )
