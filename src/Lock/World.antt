-- ===== src/Lock/World.antt =====
-- One holder of the run lock among any number of others. The store is shared: between two steps
-- of the holder, others take, renew and free the same lock under values of their own, and use other
-- keys as they like. A renewal's answer is a message that the holder sees later, or never.
use agentic_kit.Base.{ℕ, ◌+◌, ◌≤◌, ◌≡◌, ◌≢◌, ◌⊎◌, Bool, true, false, Option, none, some, String}
use agentic_kit.Kv.Port.{KvPort}
use agentic_kit.Lock.{Lease, Outcome, ok, taken, failed, tick_start, tick_end, renew, release}

module _ (port : KvPort) where
  open port use {Store, put_value, remove, set_if_value, del_if_value}

  pub record World : Type 0 where
    pub kv : Store
    pub lease : Lease
    pub now : ℕ
    -- When the store answered the renewal, and what it said.
    pub answer : Option (ℕ × Bool)

  -- What another party does to the store at a time, in a world whose holder writes `value` under
  -- `key`.
  pub data Foreign (key value : String) (kv : Store) (now : ℕ) : Store → Type 0 where
    takes : (v : String) (ex : ℕ) → Foreign key value kv now (put_value kv key v ex true now).0
    renews :
        (old v : String) (ex : ℕ)
        → old ≢ value
        → Foreign key value kv now (set_if_value kv key old v ex now).0
    frees : (old : String) → old ≢ value → Foreign key value kv now (del_if_value kv key old now).0
    sets_other :
        (k v : String) (ex : ℕ) (only_new : Bool)
        → k ≢ key
        → Foreign key value kv now (put_value kv k v ex only_new now).0
    swaps_other :
        (k old v : String) (ex : ℕ)
        → k ≢ key
        → Foreign key value kv now (set_if_value kv k old v ex now).0
    deletes_other : (k : String) → k ≢ key → Foreign key value kv now (remove kv k)

  -- What happens to the store while the holder does nothing: time passes, and others act.
  pub data Drift (key value : String) (kv : Store) (now : ℕ) : Store → ℕ → Type 0 where
    still : Drift key value kv now kv now
    later :
        {kv' : Store} {t u : ℕ}
        → Drift key value kv now kv' t
        → t ≤ u
        → Drift key value kv now kv' u
    acted :
        {kv' kv'' : Store} {t : ℕ}
        → Drift key value kv now kv' t
        → Foreign key value kv' t kv''
        → Drift key value kv now kv'' t

  -- An answer is seen at most `delay` milliseconds after the store gave it. The race with the timer of the
  -- renewal, `every_ms`, is what bounds this in the source, as far as that timer is on time.
  module _ (seconds delay : ℕ) where
    pub data Step (w : World) : World → Type 0 where
      passes : (later : ℕ) → w.now ≤ later → Step w (record w { now = later })
      acts :
          (kv' : Store)
          → Foreign w.lease.key w.lease.value w.kv w.now kv'
          → Step w (record w { kv = kv' })
      fires : Step w (record w { lease = (tick_start w.lease).0 })
      -- The store runs the renewal of a tick that is under way.
      lands :
          w.lease.in_flight ≡ true
          → Step w (record w {
            kv = (renew port w.kv w.lease seconds w.now).0;
            answer = some (w.now, (renew port w.kv w.lease seconds w.now).1);
          })
      -- The holder sees an answer.
      sees :
          (at : ℕ) (done : Bool) (outcome : Outcome)
          → w.answer ≡ some (at, done)
          → w.now ≤ at + delay
          → ((outcome ≡ ok) × (done ≡ true)) ⊎ ((outcome ≡ taken) × (done ≡ false))
          → Step w (record w { lease = tick_end w.lease outcome seconds w.now; answer = none })
      -- It sees none: the call threw, or timed out.
      misses : Step w (record w { lease = tick_end w.lease failed seconds w.now; answer = none })
      -- A renewal whose answer nobody waits for any more reaches the store late.
      strays : Step w (record w { kv = (renew port w.kv w.lease seconds w.now).0 })
      frees_own : Step w (record w {
        kv = (release port w.kv w.lease w.now).0;
        lease = (release port w.kv w.lease w.now).1;
      })

    pub data Reach (w : World) : World → Type 0 where
      here : Reach w w
      next : {t u : World} → Reach w t → Step t u → Reach w u
