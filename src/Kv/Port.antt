-- ===== src/Kv/Port.antt =====
-- What `Kv` in packages/agentenkit/src/ports/kv.ts asks of any store, as far as a lock needs it: each
-- operation is one atomic step, `setIfValue` and `delIfValue` included. `read` is what a `get` at a
-- time answers.
use agentic_kit.Base.{
  ℕ, ◌≤◌, ◌≡◌, Bool, not, ◌&&◌, Option, none, String, is_text, is_some, str_eq, if◌then◌else◌,
}
use agentic_kit.Kv.{Kv, set, del, set_if_value_alone, del_if_value_alone}
use agentic_kit.Kv.Reads.{
  read, written, read-set, read-set_if_value_alone, read-del_if_value_alone, read-del,
}

pub record KvPort : Type 1 where
  pub Store : Type 0
  pub look : Store → String → ℕ → Option String
  pub put_value : Store → String → String → ℕ → Bool → ℕ → Store × Bool
  pub remove : Store → String → Store
  pub set_if_value : Store → String → String → String → ℕ → ℕ → Store × Bool
  pub del_if_value : Store → String → String → ℕ → Store × Bool
  pub look-put_value :
      (s : Store) (key value j : String) (ex now later : ℕ) (only_new : Bool)
      → now ≤ later
      → let (t, done) = put_value s key value ex only_new now in
        (done ≡ not (only_new && is_some (look s key now)))
        × (look t j later
            ≡ (if done && str_eq key j then written value ex now later else look s j later))
  pub look-set_if_value :
      (s : Store) (key expected value j : String) (ex now later : ℕ)
      → now ≤ later
      → let (t, done) = set_if_value s key expected value ex now in
        (done ≡ is_text (look s key now) expected)
        × (look t j later
            ≡ (if done && str_eq key j then written value ex now later else look s j later))
  pub look-del_if_value :
      (s : Store) (key expected j : String) (now later : ℕ)
      → now ≤ later
      → let (t, done) = del_if_value s key expected now in
        (done ≡ is_text (look s key now) expected)
        × (look t j later ≡ (if done && str_eq key j then none else look s j later))
  pub look-remove :
      (s : Store) (key j : String) (now : ℕ)
      → look (remove s key) j now ≡ (if str_eq key j then none else look s j now)

-- The in-memory store keeps it while no two calls of one key overlap.
abbrev pub memory_port : KvPort
memory_port = record {
  Store = Kv;
  look = read;
  put_value = set;
  remove = del;
  set_if_value = set_if_value_alone;
  del_if_value = del_if_value_alone;
  look-put_value = read-set;
  look-set_if_value = read-set_if_value_alone;
  look-del_if_value = read-del_if_value_alone;
  look-remove = read-del;
}
