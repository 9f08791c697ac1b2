-- ===== src/Lock.antt =====
-- The per-thread run lock, packages/agentenkit/src/core/lease.ts, over any store that keeps the
-- contract of the port (Kv.Port). The random ids that it draws and the clock are arguments. A renewal
-- is three events, because other workers may run between them: the timer fires (`tick_start`), the
-- store answers (`renew`), and the holder sees the outcome (`tick_end`); a call that throws or times
-- out is `Outcome.failed`.
pub mod Value
pub mod World
pub mod Kept
pub mod Safety
pub mod Exclusion
pub mod Release
mod Samples
use Prim.Native.Char.{code}
use Prim.Native.String.{◌++◌ as glue}
use agentic_kit.Base.{
  ℕ, ◌+◌, ◌-◌, ◌*◌, ◌/◌, max, Bool, true, false, not, ◌&&◌, ◌||◌, List, [], ◌∷◌, Option, none, some,
  String, leb, ◌==◌, if◌then◌else◌, or_else,
}
use agentic_kit.Kv.Port.{KvPort}

unfoldable pub run_lock_key : String → String
run_lock_key thread_id = glue "agent:lock:" thread_id

-- `[a, b, c].join('/')`.
unfoldable pub join : String → String → String → String
join a b c = glue a (glue "/" (glue b (glue "/" c)))

-- `value.split('/')`.
abbrev pub on_first : (String → String) → List String → List String
on_first f [] = []
on_first f (p ∷ ps) = f p ∷ ps

unfoldable pub split : String → List String
split String.[] = String.[] ∷ []
split (String.◌∷◌ c s) =
    let rest = split s in
    if code c == b'/' then String.[] ∷ rest else on_first (λ p. String.◌∷◌ c p) rest

pub record LockOwner : Type 0 where
  pub run_id : Option String
  pub dispatch_id : Option String

abbrev pub owner_of : String → List String → LockOwner
owner_of value (run ∷ dispatch ∷ nonce ∷ more) = record {
  run_id = some run;
  dispatch_id = some dispatch;
}
owner_of value _ = record { run_id = some value; dispatch_id = none }

unfoldable pub parse_lock_value : Option String → LockOwner
parse_lock_value none = record { run_id = none; dispatch_id = none }
parse_lock_value (some value) = owner_of value (split value)

-- `timer` says that the renewal timer runs, `last_ok` and `in_flight` are the variables of `keep`.
pub record Lease : Type 0 where
  pub key : String
  pub value : String
  pub lost_flag : Bool
  pub timer : Bool
  pub released : Bool
  pub last_ok : ℕ
  pub in_flight : Bool

abbrev pub lease_ms : ℕ → ℕ
lease_ms seconds = seconds * 1000

abbrev pub every_ms : ℕ → ℕ
every_ms seconds = max (lease_ms seconds / 6) 1

unfoldable pub keep : Lease → ℕ → Lease
keep l now =
    if l.timer || l.released then l else record l { timer = true; last_ok = now; in_flight = false }

-- The timer fires: whether a renewal starts.
unfoldable pub tick_start : Lease → Lease × Bool
tick_start l =
    if not l.timer || (l.in_flight || (l.lost_flag || l.released))
    then (l, false)
    else (record l { in_flight = true }, true)

pub data Outcome : Type 0 where
  ok taken failed : Outcome

abbrev pub stop : Lease → Lease
stop l = record l { timer = false }

-- The lease is given up when another holder has the key, or when no renewal has landed for two
-- thirds of the lease.
unfoldable pub tick_end : Lease → Outcome → ℕ → ℕ → Lease
tick_end l outcome seconds now =
    let seen = record l { in_flight = false } in
    if l.released then seen else elim outcome [
      | ok ↦ record seen { last_ok = now }
      | taken ↦ stop (record seen { lost_flag = true })
      | failed ↦
          if leb (3 * (now - l.last_ok)) (lease_ms seconds * 2)
          then seen
          else stop (record seen { lost_flag = true })
    ]

module _ (port : KvPort) where
  open port use {Store, put_value, set_if_value, del_if_value}

  -- `acquire`; `uuid` gives the three random ids that it may draw.
  unfoldable pub acquire :
      Store
      → String
      → Option String
      → Option String
      → String × String × String
      → ℕ
      → ℕ
      → Store × Option Lease
  acquire kv thread_id run_id dispatch_id uuid seconds now =
      let value = join (or_else run_id uuid.0) (or_else dispatch_id uuid.1) uuid.2 in
      let key = run_lock_key thread_id in
      let (kv', got) = put_value kv key value seconds true now in
      (
        kv',
        if got
            then some (record {
              key = key;
              value = value;
              lost_flag = false;
              timer = false;
              released = false;
              last_ok = 0;
              in_flight = false;
            })
            else none,
      )

  -- The store's side of a renewal.
  unfoldable pub renew : Store → Lease → ℕ → ℕ → Store × Bool
  renew kv l seconds now = set_if_value kv l.key l.value l.value seconds now

  -- `release`: the store's errors are swallowed, and here it has none.
  unfoldable pub release : Store → Lease → ℕ → Store × Lease
  release kv l now =
      if l.released
      then (kv, l)
      else ((del_if_value kv l.key l.value now).0, record l { released = true; timer = false })
