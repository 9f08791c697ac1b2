-- ===== src/Kv/Reads.antt =====
-- What a later read sees after each operation of the store.
use agentic_kit.Base.{
  ℕ, ◌+◌, ◌*◌, ◌≤◌, ◌≡◌, refl, Bool, true, not, ◌&&◌, [], ◌∷◌, Option, none, some, String, Dict,
  lookup, lookup-insert, lookup-erase, erase, leb, ◌==◌, if◌then◌else◌, is_text, is_some, arith,
  eq_iff, str_eq, inl, inr, Option-cases, ◌∙◌,
}
use agentic_kit.Kv.{
  Kv, MemEntry, is_past, expiry, drop_past, sweep, get_entry, get, put, is_taken, set, del,
  set_if_value_end, set_if_value_alone, del_if_value_end, del_if_value_alone,
}

-- The value under a key, for a reader at a time: nothing once it is past its expiry.
abbrev pub live_value : Option MemEntry → ℕ → Option String
live_value none now = none
live_value (some e) now = if is_past e.expires_at now then none else some e.value

abbrev pub read : Kv → String → ℕ → Option String
read s key now = live_value (lookup key s.m) now

pub get-read : (s : Kv) (key : String) (now : ℕ) → (get s key now).1 ≡ read s key now
unfolding get get_entry
get-read s key now = ground arith

is_past_later :
    (t : Option ℕ) (now later : ℕ) → now ≤ later → is_past t now ≡ true → is_past t later ≡ true
is_past_later none now later h p = p
is_past_later (some t) now later h p = ground arith

read-drop_past :
    (now later : ℕ) (k : String) (m : Dict MemEntry)
    → now ≤ later
    → live_value (lookup k (drop_past now m)) later ≡ live_value (lookup k m) later
unfolding lookup drop_past
read-drop_past now later k [] h = refl
read-drop_past now later k ((j, e) ∷ m) h = ground (
  arith,
  read-drop_past now later k m h,
  lookup-erase j k (drop_past now m),
  eq_iff j k,
  eq_iff k j,
  is_past_later e.expires_at now later h,
)

read-sweep :
    (s : Kv) (k : String) (now later : ℕ)
    → now ≤ later
    → read (sweep s now) k later ≡ read s k later
unfolding sweep
read-sweep s k now later h = ground (arith, read-drop_past now later k s.m h)

read-erase :
    (s : Kv) (key j : String) (now : ℕ)
    → live_value (lookup j (erase key s.m)) now ≡ (if str_eq key j then none else read s j now)
read-erase s key j now = ground (arith, lookup-erase key j s.m)

pub read-get :
    (s : Kv) (key j : String) (now later : ℕ)
    → now ≤ later
    → read (get s key now).0 j later ≡ read s j later
unfolding get get_entry
read-get s key j now later h = elim (Option-cases (lookup key s.m)) [
  | inl e ↦ rw (e, get_entry) refl
  | inr (x, e) ↦
      ground
        (arith, e, eq_iff key j, lookup-erase key j s.m, is_past_later x.expires_at now later h)
]

-- The value that a write leaves for a reader at a time: it lasts through its last millisecond.
abbrev pub written : String → ℕ → ℕ → ℕ → Option String
written value ex now later =
    if ex == 0 then some value else if leb later (now + ex * 1000) then some value else none

read-put :
    (s : Kv) (key j value : String) (ex now later : ℕ)
    → read (put s key value (expiry now ex)) j later
      ≡ (if str_eq key j then written value ex now later else read s j later)
read-put s key j value ex now later =
    ground (arith, lookup-insert key j (record { value = value; expires_at = expiry now ex }) s.m)

-- Whether a write that asks for a free key is refused.
abbrev pub is_refused : Kv → String → Bool → ℕ → Bool
is_refused s key only_new now = only_new && is_some (read s key now)

is_taken-read :
    (s : Kv) (key : String) (now : ℕ) → is_taken (lookup key s.m) now ≡ is_some (read s key now)
is_taken-read s key now = ground arith

-- `set` succeeds unless it asks for a free key and a live value is there. A set that succeeds is
-- seen by every later read of its key, until its expiry; all other reads, and those after a set
-- that was refused, are as they were.
pub read-set :
    (s : Kv) (key value j : String) (ex now later : ℕ) (only_new : Bool)
    → now ≤ later
    → let (t, done) = set s key value ex only_new now in
      (done ≡ not (is_refused s key only_new now))
      × (read t j later
          ≡ (if done && str_eq key j then written value ex now later else read s j later))
unfolding set
read-set s key value j ex now later only_new h = ground (
  arith,
  is_taken-read (sweep s now) key now,
  read-sweep s key now now,
  read-sweep s j now later h,
  read-put (sweep s now) key j value ex now later,
)

-- A compare-and-set that nobody overlaps writes exactly when a read of the key gives the expected value. A refused
-- one changes no read, of any key.
pub read-set_if_value_alone :
    (s : Kv) (key expected value j : String) (ex now later : ℕ)
    → now ≤ later
    → let (t, done) = set_if_value_alone s key expected value ex now in
      (done ≡ is_text (read s key now) expected)
      × (read t j later
          ≡ (if done && str_eq key j then written value ex now later else read s j later))
unfolding set_if_value_alone set_if_value_end
read-set_if_value_alone s key expected value j ex now later h = ground (
  arith,
  get-read s key now,
  read-get s key j now later h,
  read-put (get s key now).0 key j value ex now later,
)

-- A compare-and-delete that nobody overlaps removes the key exactly when a read of it gives the
-- expected value, and changes no other read.
pub read-del_if_value_alone :
    (s : Kv) (key expected j : String) (now later : ℕ)
    → now ≤ later
    → let (t, done) = del_if_value_alone s key expected now in
      (done ≡ is_text (read s key now) expected)
      × (read t j later ≡ (if done && str_eq key j then none else read s j later))
unfolding del_if_value_alone del_if_value_end
read-del_if_value_alone s key expected j now later h = ground (
  arith,
  get-read s key now,
  read-get s key j now later h,
  read-erase (get s key now).0 key j later,
)

pub read-del :
    (s : Kv) (key j : String) (now : ℕ)
    → read (del s key) j now ≡ (if str_eq key j then none else read s j now)
unfolding del
read-del s key j now = read-erase s key j now

-- Two compare-and-sets of one key that overlap, both having read before either writes: each writes
-- exactly when the key held what it expects at its own read, and later reads find the value of the
-- second where it wrote, else that of the first where it wrote. So of two that expect the value that
-- the key holds, both write.
pub set_if_value_race :
    (s : Kv) (key j expected expected' value value' : String) (ex ex' now now' at_a at_b later : ℕ)
    → now ≤ now'
    → now' ≤ later
    → let (s1, found) = get s key now in
      let (s2, found') = get s1 key now' in
      let (s3, done) = set_if_value_end s2 found key expected value ex at_a in
      let (s4, done') = set_if_value_end s3 found' key expected' value' ex' at_b in
      (done ≡ is_text (read s key now) expected)
      × (done' ≡ is_text (read s key now') expected')
      × (read s4 j later ≡ (
          if done' && str_eq key j
          then written value' ex' at_b later
          else (if done && str_eq key j then written value ex at_a later else read s j later)))
unfolding set_if_value_end
set_if_value_race s key j expected expected' value value' ex ex' now now' at_a at_b later a b =
    let s1 = (get s key now).0 in
    let s2 = (get s1 key now').0 in
    let e1 = get-read s key now in
    let e2 = get-read s1 key now' ∙ read-get s key key now now' a in
    let same = read-get s1 key j now' later b ∙ read-get s key j now later (omega (arith, a, b)) in
    let s3 = (set_if_value_end s2 (get s key now).1 key expected value ex at_a).0 in
    ground (
      arith,
      e1,
      e2,
      same,
      read-put s2 key j value ex at_a later,
      read-put s3 key j value' ex' at_b later,
    )
