-- ===== src/Context.antt =====
-- The context window, packages/agentenkit/src/core/context.ts: the budget, the choice of what is
-- summarized, and the packing of a history into summary calls.
-- A text is the list of its code points, what `Array.from` gives; `length` of the source counts
-- UTF-16 units. A share of the budget is a ratio, and only its whole part is compared. JSON.stringify
-- and the model's answers are arguments; a call's answer may differ from one call to the next, so
-- calls are numbered.
pub mod Packing
pub mod Bounds
pub mod Merging
pub mod Shape
pub mod Compaction
pub mod Tail
mod Samples
use agentic_kit.Base.{
  ℕ, zero, suc, ◌+◌, ◌-◌, ◌*◌, ◌/◌, ◌%◌, ◌≤◌, min, max, Bool, true, false, not, ◌&&◌, ◌||◌, List,
  [], ◌∷◌, ◌++◌, Option, none, some, String, map, ltb, leb, ◌==◌, if◌then◌else◌, length, take, drop,
  reverse, sum_of, or_else, is_some, ◌>>=◌, Dict, lookup, str_eq,
}
use agentic_kit.History.{
  Role, user, system, Message, Content, object, is_summary, prompt_history, context_summary,
}

abbrev pub Text : Type 0
Text = List ℕ

-- How many UTF-16 units a code point takes.
abbrev pub width : ℕ → ℕ
width c = if ltb c 65536 then 1 else 2

abbrev pub units : Text → ℕ
units = sum_of width

abbrev pub line_tokens : Text → ℕ
line_tokens line = (units line + 3) / 4

-- "\n[... cut ...]\n"
abbrev pub cut_mark : Text
cut_mark = 10 ∷ 91 ∷ 46 ∷ 46 ∷ 46 ∷ 32 ∷ 99 ∷ 117 ∷ 116 ∷ 32 ∷ 46 ∷ 46 ∷ 46 ∷ 93 ∷ 10 ∷ []

unfoldable pub trim_middle : Text → ℕ → Text
trim_middle line limit =
    let kept = limit * 4 / 2 in
    if leb (line_tokens line) limit
    then line
    else if leb (length line) (kept * 2)
    then line
    else take kept line ++ (cut_mark ++ drop (length line - kept) line)

-- The variables of the loop of `chunkLines`.
pub record Packed : Type 0 where
  pub chunks : List Text
  pub current : Text
  pub used : ℕ

abbrev pub pack_line : ℕ → Packed → Text → Packed
pack_line limit p raw =
    let line = trim_middle raw limit in
    let t = line_tokens line in
    if ltb 0 p.used && ltb limit (p.used + t)
    then record { chunks = p.chunks ++ (p.current ∷ []); current = line; used = t }
    else record { chunks = p.chunks; current = p.current ++ line; used = p.used + t }

unfoldable pub pack : ℕ → Packed → List Text → Packed
pack limit p [] = p
pack limit p (line ∷ lines) = pack limit (pack_line limit p line) lines

abbrev pub nothing_packed : Packed
nothing_packed = record { chunks = []; current = []; used = 0 }

abbrev pub close_packed : Packed → List Text
close_packed p =
    if ltb 0 p.used || (length p.chunks == 0) then p.chunks ++ (p.current ∷ []) else p.chunks

unfoldable pub chunk_lines : List Text → ℕ → List Text
chunk_lines lines limit = close_packed (pack limit nothing_packed lines)

-- `${n}`; `n` digits of fuel are enough, for a positive `n`.
unfoldable pub digits : ℕ → ℕ → Text → Text
digits zero n acc = acc
digits (suc fuel) n acc =
    let rest = digits fuel (n / 10) ((48 + n % 10) ∷ acc) in if n == 0 then acc else rest

-- `Part ${i + 1}:\n${part}\n\n`
abbrev pub part_label : ℕ → Text → Text
part_label i part =
    80 ∷ 97 ∷ 114 ∷ 116 ∷ 32 ∷ (digits (suc i) (suc i) [] ++ (58 ∷ 10 ∷ (part ++ (10 ∷ 10 ∷ []))))

unfoldable pub merge_lines : ℕ → ℕ → List Text → List Text
merge_lines limit i [] = []
merge_lines limit i (part ∷ ps) =
    trim_middle (part_label i part) (limit / 3) ∷ merge_lines limit (suc i) ps

pub data Summarized : Type 0 where
  out_of_fuel call_failed : Summarized
  summary : Text → Summarized

-- One partial summary is the answer, and more go on.
abbrev pub after_round : (List Text → Summarized) → List Text → Summarized
after_round next (part ∷ []) = summary part
after_round next ps = next ps

-- The answer to a numbered call, with the prompt that merges or the one that summarizes, on a chunk.
-- A call that throws has none.
module _ (answer : ℕ → Bool → Text → Option Text) (limit : ℕ) where
  unfoldable pub ask_all : ℕ → Bool → List Text → Option (List Text)
  ask_all n merging [] = some []
  ask_all n merging (chunk ∷ cs) = do
    part ← answer n merging chunk
    ps ← ask_all (suc n) merging cs
    some (part ∷ ps)

  unfoldable pub summarize_lines : ℕ → ℕ → Bool → List Text → Summarized
  summarize_lines zero n merging lines = out_of_fuel
  summarize_lines (suc fuel) n merging lines =
      let chunks = chunk_lines lines limit in
      elim (ask_all n merging chunks) [
        | none ↦ call_failed
        | some ps ↦
            after_round
              (λ qs. summarize_lines fuel (n + length chunks) true (merge_lines limit 0 qs)) ps
      ]

pub record Ratio : Type 0 where
  pub over : ℕ
  pub under : ℕ

abbrev pub share_of : Ratio → ℕ → ℕ
share_of r n = n * r.over / r.under

pub record ContextConfig : Type 0 where
  pub native_windows : Dict ℕ
  pub context_ceiling_tokens : ℕ
  pub context_output_reserve_tokens : ℕ
  pub compaction_trigger : Ratio
  pub context_tail_share : Ratio

abbrev pub default_native_windows : Dict ℕ
default_native_windows =
    ("gpt-4o", 128000)
    ∷ ("gpt-4o-mini", 128000)
    ∷ ("claude-3-5-sonnet", 200000)
    ∷ ("gemini-1.5-pro", 1000000)
    ∷ []

-- `declared` is what the registry says of the model, if anything.
unfoldable pub context_budget : ContextConfig → Option ℕ → String → ℕ
context_budget config declared model =
    let fallback = or_else (lookup model default_native_windows) config.context_ceiling_tokens in
    let native = or_else declared (or_else (lookup model config.native_windows) fallback) in
    min native config.context_ceiling_tokens

abbrev pub summary_chunk_tokens : ContextConfig → Option ℕ → String → ℕ
summary_chunk_tokens config declared compaction_model =
    max (context_budget config declared compaction_model / 2) 1000

abbrev pub is_user : Role → Bool
is_user user = true
is_user _ = false

-- The first user turn of a part of a history whose first message has the number `i`.
unfoldable pub first_user : ℕ → List Message → Option ℕ
first_user i [] = none
first_user i (m ∷ ms) = let rest = first_user (suc i) ms in if is_user m.role then some i else rest

unfoldable pub last_user : ℕ → List Message → Option ℕ
last_user i [] = none
last_user i (m ∷ ms) = sooner (last_user (suc i) ms)
  where
    sooner : Option ℕ → Option ℕ
    sooner (some at) = some at
    sooner none = if is_user m.role then some i else none

unfoldable pub user_turn_at_or_after : List Message → ℕ → ℕ
user_turn_at_or_after history start = elim (first_user start (drop start history)) [
  | some at ↦ at
  | none ↦ or_else (last_user 0 (take start history)) (length history)
]

-- `[...older].reverse().find((m) => !summaryOf(m))?.id`
unfoldable pub covers_up_to : List Message → Option String
covers_up_to [] = none
covers_up_to (m ∷ ms) = elim (covers_up_to ms) [
  | some id ↦ some id
  | none ↦ if is_summary m then none else some m.id
]

module _ (json : Content → Text) where
  abbrev pub estimate_tokens : Content → ℕ
  estimate_tokens c = line_tokens (json c)

  abbrev pub history_tokens : List Message → ℕ
  history_tokens = sum_of λ m. estimate_tokens m.content

  -- The loop that keeps the recent tail, over the history from its end.
  unfoldable pub tail_scan : ℕ → List Message → ℕ → ℕ → ℕ
  tail_scan cap [] start used = start
  tail_scan cap (m ∷ ms) start used =
      let t = estimate_tokens m.content in
      let rest = tail_scan cap ms (start - 1) (used + t) in
      if ltb cap (used + t) then start else rest

module _ (json : Content → Text) (config : ContextConfig) (budget : ℕ) where
  unfoldable pub tail_start : List Message → Bool → ℕ
  tail_start history force =
      let cap = share_of config.context_tail_share budget in
      let start = tail_scan json cap (reverse history) (length history) 0 in
      user_turn_at_or_after history (if force then length history else start)

  -- What is summarized, with the id that it covers up to, and what stays; none when the history goes
  -- as it is. A budget below 0 acts as 0: every message counts a token at least.
  unfoldable pub plan_compaction :
      List Message → Bool → Option (String × List Message × List Message)
  plan_compaction history force =
      let total = history_tokens json history in
      let start = tail_start history force in
      let older = take start history in
      let tail = drop start history in
      if not force && leb total (share_of config.compaction_trigger budget)
      then none
      else elim (covers_up_to older) [
        | none ↦ none
        | some id ↦ if str_eq id "" then none else some (id, older, tail)
      ]

abbrev pub summary_message : String → String → String → Message
summary_message fresh_id text covers = record {
  id = fresh_id;
  role = system;
  content = object (some context_summary) (some text) (some covers);
}

-- The stored messages and the prompt that `compactContext` leaves; `text` is the summary of what the
-- plan gives it, if the calls for it end.
unfoldable pub compact_context :
    (Content → Text)
    → ContextConfig
    → ℕ
    → Bool
    → String
    → (List Message → Option String)
    → List Message
    → Option (List Message × List Message)
compact_context json config budget force fresh_id text stored =
    let history = prompt_history stored in
    elim (plan_compaction json config budget history force) [
      | none ↦ some (stored, history)
      | some (covers, older, tail) ↦ do
        t ← text older
        let s = summary_message fresh_id t covers
        some (stored ++ (s ∷ []), s ∷ tail)
    ]
