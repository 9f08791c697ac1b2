-- ===== src/Events.antt =====
-- The thread record held in memory, `MemoryStorage.events` in
-- packages/agentenkit/src/adapters/memory.ts, with the records of packages/agentenkit/src/core/types.ts.
-- The functions are on the rows of one thread, in the order in which they were stored. A payload
-- stands as its JSON, a date as its time.
pub mod Record
mod Samples
use agentic_kit.Base.{
  ℕ, suc, ◌+◌, max, Bool, true, false, not, ◌&&◌, ◌||◌, List, [], ◌∷◌, ◌++◌, Option, none, some,
  String, str_eq, ltb, leb, ◌==◌, if◌then◌else◌, or_else, any, keep_if, last?, take, is_text,
}

pub record AgentEvent : Type 0 where
  pub thread_id : String
  pub seq : ℕ
  pub type_name : String
  pub payload : String
  pub created_at : ℕ
  pub run_id : Option String

pub record NewThreadEvent : Type 0 where
  pub new_type : String
  pub new_payload : String
  pub new_run_id : Option String
  pub new_created_at : Option ℕ

pub record ThreadEventFilter : Type 0 where
  pub types : Option (List String)
  pub of_run : Option String
  pub after : Option ℕ
  pub limit : Option ℕ

-- The highest number in use, 0 with none.
unfoldable pub top_seq : List AgentEvent → ℕ
top_seq [] = 0
top_seq (e ∷ es) = max e.seq (top_seq es)

-- An empty run id is left out.
abbrev pub kept_run : Option String → Option String
kept_run none = none
kept_run (some r) = if str_eq r "" then none else some r

abbrev pub stored : String → ℕ → NewThreadEvent → List AgentEvent → AgentEvent
stored thread now e rows = record {
  thread_id = thread;
  seq = top_seq rows + 1;
  type_name = e.new_type;
  payload = e.new_payload;
  created_at = or_else e.new_created_at now;
  run_id = kept_run e.new_run_id;
}

unfoldable pub append : String → ℕ → NewThreadEvent → List AgentEvent → List AgentEvent × AgentEvent
append thread now e rows = let event = stored thread now e rows in (rows ++ (event ∷ []), event)

-- `sort((a, b) => a.seq - b.seq)`, which keeps the order of equals.
unfoldable pub put_in : AgentEvent → List AgentEvent → List AgentEvent
put_in e [] = e ∷ []
put_in e (x ∷ xs) = let rest = put_in e xs in if leb e.seq x.seq then e ∷ (x ∷ xs) else x ∷ rest

unfoldable pub by_seq : List AgentEvent → List AgentEvent
by_seq [] = []
by_seq (e ∷ es) = put_in e (by_seq es)

abbrev pub has_type : Option (List String) → AgentEvent → Bool
has_type none e = true
has_type (some names) e = any (λ n. str_eq n e.type_name) names

abbrev pub has_run : Option String → AgentEvent → Bool
has_run none e = true
has_run (some r) e = is_text e.run_id r

abbrev pub is_after : Option ℕ → AgentEvent → Bool
is_after none e = true
is_after (some n) e = ltb n e.seq

abbrev pub passes : ThreadEventFilter → AgentEvent → Bool
passes f e = has_type f.types e && (has_run f.of_run e && is_after f.after e)

-- A limit of 0 is none.
abbrev pub limited : Option ℕ → List AgentEvent → List AgentEvent
limited none es = es
limited (some n) es = if n == 0 then es else take n es

unfoldable pub list_events : List AgentEvent → ThreadEventFilter → List AgentEvent
list_events rows f = limited f.limit (by_seq (keep_if (passes f) rows))

unfoldable pub list_since : List AgentEvent → ℕ → List AgentEvent
list_since rows since = by_seq (keep_if (λ e. ltb since e.seq) rows)

unfoldable pub latest : List AgentEvent → String → Option AgentEvent
latest rows name = last? (keep_if (λ e. str_eq e.type_name name) rows)

unfoldable pub list_by_type : List AgentEvent → String → List AgentEvent
list_by_type rows name = by_seq (keep_if (λ e. str_eq e.type_name name) rows)
