-- ===== src/Lock/Kept.antt =====
-- What each action of lease.ts on the store and on the lease leaves of the holder's lock.
use agentic_kit.Base.{ℕ, ◌+◌, ◌≤◌, ◌<◌, ◌≡◌, true, some, String, arith, eq_iff, ◌⊎◌}
use agentic_kit.Kv.Port.{KvPort}
use agentic_kit.Lock.{Lease, Outcome, ok, tick_start, tick_end, renew, release, lease_ms}
use agentic_kit.Lock.World.{Foreign}

pub le_self : (n : ℕ) → n ≤ n
le_self n = omega arith

-- A lease under the same key and value, whose last renewal is no later than is known to be kept.
pub record SameGrip (l k : Lease) : Type 0 where
  pub same_key : k.key ≡ l.key
  pub same_value : k.value ≡ l.value
  pub same_released : k.released ≡ l.released

pub tick_start-SameGrip : (l : Lease) → SameGrip l (tick_start l).0
unfolding tick_start
tick_start-SameGrip l = ground arith

pub tick_start-last_ok : (l : Lease) → (tick_start l).0.last_ok ≡ l.last_ok
unfolding tick_start
tick_start-last_ok l = ground arith

module _ (seconds : ℕ) where
  pub tick_end-SameGrip :
      (l : Lease) (o : Outcome) (now : ℕ) → SameGrip l (tick_end l o seconds now)
  unfolding tick_end
  tick_end-SameGrip l o now = ground arith

  pub tick_end-last_ok :
      (l : Lease) (o : Outcome) (now : ℕ)
      → ((tick_end l o seconds now).last_ok ≡ l.last_ok)
        ⊎ ((o ≡ ok) × ((tick_end l o seconds now).last_ok ≡ now))
  unfolding tick_end
  tick_end-last_ok l o now = ground arith

module _ (port : KvPort) where
  open port use {Store, look, look-put_value, look-set_if_value, look-del_if_value, look-remove}

  -- Every read of the key from now to a time finds the value.
  abbrev pub Kept : Store → String → String → ℕ → ℕ → Type 0
  Kept kv key value now end =
      (later : ℕ) → now ≤ later → later ≤ end → look kv key later ≡ some value

  pub Foreign-Kept :
      {key value : String} {now : ℕ} {kv kv' : Store} (end : ℕ)
      → Foreign port key value kv now kv'
      → Kept kv key value now end
      → Kept kv' key value now end
  Foreign-Kept {key} {value} {now} {kv} end (Foreign.takes v ex) h later p q = ground (
    arith,
    look-put_value kv key v key ex now later true p,
    h now (le_self now),
    h later p q,
    eq_iff key key,
  )
  Foreign-Kept {key} {value} {now} {kv} end (Foreign.renews old v ex d) h later p q = ground (
    arith,
    look-set_if_value kv key old v key ex now later p,
    h now (le_self now),
    h later p q,
    eq_iff value old,
  )
  Foreign-Kept {key} {value} {now} {kv} end (Foreign.frees old d) h later p q = ground (
    arith,
    look-del_if_value kv key old key now later p,
    h now (le_self now),
    h later p q,
    eq_iff value old,
  )
  Foreign-Kept {key} {now} {kv} end (Foreign.sets_other k v ex only_new d) h later p q =
      ground (arith, look-put_value kv k v key ex now later only_new p, h later p q, eq_iff k key)
  Foreign-Kept {key} {now} {kv} end (Foreign.swaps_other k old v ex d) h later p q =
      ground (arith, look-set_if_value kv k old v key ex now later p, h later p q, eq_iff k key)
  Foreign-Kept {key} {kv} end (Foreign.deletes_other k d) h later p q =
      ground (arith, look-remove kv k key later, h later p q, eq_iff k key)

  pub release-released :
      (kv : Store) (l : Lease) (now : ℕ) → (release port kv l now).1.released ≡ true
  unfolding release
  release-released kv l now = ground arith

  pub release-last_ok :
      (kv : Store) (l : Lease) (now : ℕ) → (release port kv l now).1.last_ok ≡ l.last_ok
  unfolding release
  release-last_ok kv l now = ground arith

  pub release-key : (kv : Store) (l : Lease) (now : ℕ) → (release port kv l now).1.key ≡ l.key
  unfolding release
  release-key kv l now = ground arith

  module _ (seconds : ℕ) where
    -- A renewal that the store runs keeps the value, and one that succeeds keeps it for a lease.
    pub renew-Kept :
        (kv : Store) (l : Lease) (now end : ℕ)
        → 0 < seconds
        → end ≤ now + lease_ms seconds
        → Kept kv l.key l.value now end
        → Kept (renew port kv l seconds now).0 l.key l.value now end
    unfolding renew
    renew-Kept kv l now end pos fits h later p q = ground (
      arith,
      look-set_if_value kv l.key l.value l.value l.key seconds now later p,
      h now (le_self now),
      h later p q,
      eq_iff l.key l.key,
    )

    pub renew_done :
        (kv : Store) (l : Lease) (now : ℕ)
        → 0 < seconds
        → (renew port kv l seconds now).1 ≡ true
        → Kept (renew port kv l seconds now).0 l.key l.value now (now + lease_ms seconds)
    unfolding renew
    renew_done kv l now pos e later p q = ground (
      arith,
      look-set_if_value kv l.key l.value l.value l.key seconds now later p,
      eq_iff l.key l.key,
    )
