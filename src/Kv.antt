-- ===== src/Kv.antt =====
-- The in-memory key-value store, `MemoryKv` in packages/agentenkit/src/adapters/memory.ts.
-- The clock (`Date.now()`, in milliseconds) is an argument of each operation, and an operation
-- returns the new store with its result. A method without an await is one step. `setIfValue`,
-- `delIfValue` and `incrWithExpiry` await their own read, so that others may act before they write:
-- each is two steps, its `get` and an `_end` on the store that is there by then; the `_alone` is a call
-- between whose steps nobody acts. Options whose number is absent or 0 are `0`.
pub mod Reads
pub mod Port
pub mod Counter
mod Samples
use agentic_kit.Base.{
  ℕ, ◌+◌, ◌-◌, ◌*◌, ◌≡◌, Bool, true, false, not, ◌&&◌, List, [], ◌∷◌, Option, none, some, String,
  Dict, lookup, insert, erase, ltb, ◌==◌, if◌then◌else◌, is_text,
}

pub record MemEntry : Type 0 where
  pub value : String
  pub expires_at : Option ℕ

pub record Kv : Type 0 where
  pub m : Dict MemEntry
  pub last_sweep : ℕ

-- `new MemoryKv()`.
unfoldable pub init : ℕ → Kv
init now = record { m = []; last_sweep = now }

-- `e.expiresAt && e.expiresAt < now`.
abbrev pub is_past : Option ℕ → ℕ → Bool
is_past none now = false
is_past (some t) now = if t == 0 then false else ltb t now

-- `exSeconds ? Date.now() + exSeconds * 1000 : undefined`.
abbrev pub expiry : ℕ → ℕ → Option ℕ
expiry now ex = if ex == 0 then none else some (now + ex * 1000)

-- The loop that deletes each key whose entry is past.
unfoldable pub drop_past : ℕ → Dict MemEntry → Dict MemEntry
drop_past now [] = []
drop_past now ((k, e) ∷ m) =
    let rest = drop_past now m in if is_past e.expires_at now then erase k rest else (k, e) ∷ rest

unfoldable pub sweep : Kv → ℕ → Kv
sweep s now =
    if ltb (now - s.last_sweep) 60000 then s else record { m = drop_past now s.m; last_sweep = now }

-- What `get` does with the entry that it found.
unfoldable pub get_entry : Kv → String → ℕ → Option MemEntry → Kv × Option String
get_entry s key now none = (s, none)
get_entry s key now (some e) =
    if is_past e.expires_at now then (record s { m = erase key s.m }, none) else (s, some e.value)

unfoldable pub get : Kv → String → ℕ → Kv × Option String
get s key now = get_entry s key now (lookup key s.m)

abbrev pub put : Kv → String → String → Option ℕ → Kv
put s key value expires = record s {
  m = insert key (record { value = value; expires_at = expires }) s.m;
}

-- `existing && !(existing.expiresAt && existing.expiresAt < Date.now())`.
abbrev pub is_taken : Option MemEntry → ℕ → Bool
is_taken none now = false
is_taken (some e) now = not (is_past e.expires_at now)

-- `set(key, value, { exSeconds, onlyIfNotExists })`.
unfoldable pub set : Kv → String → String → ℕ → Bool → ℕ → Kv × Bool
set s key value ex only_if_not_exists now =
    let swept = sweep s now in
    if only_if_not_exists && is_taken (lookup key swept.m) now
    then (swept, false)
    else (put swept key value (expiry now ex), true)

unfoldable pub del : Kv → String → Kv
del s key = record s { m = erase key s.m }

unfoldable pub set_if_value_end : Kv → Option String → String → String → String → ℕ → ℕ → Kv × Bool
set_if_value_end s found key expected value ex now =
    if is_text found expected then (put s key value (expiry now ex), true) else (s, false)

unfoldable pub set_if_value_alone : Kv → String → String → String → ℕ → ℕ → Kv × Bool
set_if_value_alone s key expected value ex now =
    let (read, found) = get s key now in set_if_value_end read found key expected value ex now

unfoldable pub del_if_value_end : Kv → Option String → String → String → Kv × Bool
del_if_value_end s found key expected =
    if is_text found expected then (record s { m = erase key s.m }, true) else (s, false)

unfoldable pub del_if_value_alone : Kv → String → String → ℕ → Kv × Bool
del_if_value_alone s key expected now =
    let (read, found) = get s key now in del_if_value_end read found key expected

-- JavaScript's numbers as text: `String(n)`, `Number(s)`, 0 and `n + 1`.
pub record Numerals : Type 1 where
  pub Num : Type 0
  pub zero_num : Num
  pub next : Num → Num
  pub to_text : Num → String
  pub of_text : String → Num
  pub of_text-to_text : (n : Num) → of_text (to_text n) ≡ n

module _ (j : Numerals) where
  open j use {Num, zero_num, next, to_text, of_text}

  -- `Number(o ?? 0) + 1`.
  abbrev pub bump : Option String → Num
  bump none = next zero_num
  bump (some t) = next (of_text t)

  abbrev pub entry_value : Option MemEntry → Option String
  entry_value none = none
  entry_value (some e) = some e.value

  abbrev pub entry_expiry : Option MemEntry → Option ℕ
  entry_expiry none = none
  entry_expiry (some e) = e.expires_at

  -- The counter's expiry is set when it is made, and kept after that.
  abbrev pub counter_expiry : Option String → Option MemEntry → ℕ → ℕ → Option ℕ
  counter_expiry none e now ex = expiry now ex
  counter_expiry (some _) e now ex = entry_expiry e

  unfoldable pub incr_with_expiry_end : Kv → Option String → String → ℕ → ℕ → Kv × Num
  incr_with_expiry_end s live key ex now =
      let n = bump live in (put s key (to_text n) (counter_expiry live (lookup key s.m) now ex), n)

  unfoldable pub incr_with_expiry_alone : Kv → String → ℕ → ℕ → Kv × Num
  incr_with_expiry_alone s key ex now =
      let (read, live) = get s key now in incr_with_expiry_end read live key ex now

  unfoldable pub incr : Kv → String → ℕ → Kv × Num
  incr s key now =
      let swept = sweep s now in
      let e = lookup key swept.m in
      let n = bump (entry_value e) in (put swept key (to_text n) (entry_expiry e), n)
