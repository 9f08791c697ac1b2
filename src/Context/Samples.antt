-- ===== src/Context/Samples.antt =====
-- Packing, compaction and their bounds at concrete inputs.
use agentic_kit.Base.{
  ℕ, ◌≡◌, ◌+◌, refl, Bool, false, List, [], ◌∷◌, ◌++◌, Option, some, String, arith, length,
}
use agentic_kit.History.{
  Message, Content, plain, user, assistant, prompt_history, latest_from, summary_of,
}
use agentic_kit.Context.{
  Text, trim_middle, pack, chunk_lines, summary, summarize_lines, ContextConfig, first_user,
  last_user, user_turn_at_or_after, covers_up_to, tail_scan, tail_start, plan_compaction,
  summary_message, compact_context,
}
use agentic_kit.Context.Merging.{summarize_lines-ends}
use agentic_kit.Context.Compaction.{IsDistinct, compact_context-prompt}
use agentic_kit.Context.Tail.{StartsAtUser, plan_compaction_cut}

abbrev letters : Text
letters = 97 ∷ 98 ∷ 99 ∷ 100 ∷ 101 ∷ []

abbrev some_lines : List Text
some_lines = letters ∷ letters ∷ letters ∷ []

-- Two lines of two tokens fit a chunk of four.
packed_lines : chunk_lines some_lines 4 ≡ (letters ++ letters) ∷ letters ∷ []
unfolding chunk_lines pack trim_middle
packed_lines = refl

-- A model that answers every prompt with one letter.
abbrev one_letter : ℕ → Bool → Text → Option Text
one_letter n merging chunk = some (97 ∷ [])

summarize_lines-ends_example :
    (t : Text) × (summarize_lines one_letter 24 (length some_lines + 1) 0 false some_lines
      ≡ summary t)
summarize_lines-ends_example =
    summarize_lines-ends one_letter 24 (λ n merging chunk. (97 ∷ [], refl, (omega arith, tt))) 0
      false some_lines (omega arith)

abbrev turn : String → String → Message
turn id t = record { id = id; role = user; content = plain t }

abbrev answer : String → String → Message
answer id t = record { id = id; role = assistant; content = plain t }

abbrev talk : List Message
talk = turn "1" "a" ∷ answer "2" "b" ∷ turn "3" "c" ∷ answer "4" "d" ∷ []

abbrev text_of_two : Content → Text
text_of_two c = letters

abbrev small_window : ContextConfig
small_window = record {
  native_windows = [];
  context_ceiling_tokens = 10;
  context_output_reserve_tokens = 0;
  compaction_trigger = record { over = 1; under = 2 };
  context_tail_share = record { over = 1; under = 2 };
}

plan_talk :
    plan_compaction text_of_two small_window 10 talk false
    ≡ some ("2", turn "1" "a" ∷ answer "2" "b" ∷ [], turn "3" "c" ∷ answer "4" "d" ∷ [])
unfolding plan_compaction tail_start tail_scan user_turn_at_or_after first_user last_user
    covers_up_to summary_of
plan_talk = refl

plan_compaction_cut_example :
    ((turn "1" "a" ∷ answer "2" "b" ∷ []) ++ (turn "3" "c" ∷ answer "4" "d" ∷ []) ≡ talk)
    × StartsAtUser (turn "3" "c" ∷ answer "4" "d" ∷ [])
    × (covers_up_to (turn "1" "a" ∷ answer "2" "b" ∷ []) ≡ some "2")
plan_compaction_cut_example =
    plan_compaction_cut text_of_two small_window 10 talk false "2"
      (turn "1" "a" ∷ answer "2" "b" ∷ []) (turn "3" "c" ∷ answer "4" "d" ∷ []) plan_talk

abbrev brief : List Message → Option String
brief older = some "in short"

compact_talk :
    compact_context text_of_two small_window 10 false "5" brief talk
    ≡ some (
      talk ++ (summary_message "5" "in short" "2" ∷ []),
      summary_message "5" "in short" "2" ∷ turn "3" "c" ∷ answer "4" "d" ∷ [],
    )
unfolding compact_context plan_compaction tail_start tail_scan user_turn_at_or_after first_user
    last_user covers_up_to summary_of prompt_history latest_from
compact_talk = refl

compact_context-prompt_example :
    prompt_history (talk ++ (summary_message "5" "in short" "2" ∷ []))
    ≡ summary_message "5" "in short" "2" ∷ turn "3" "c" ∷ answer "4" "d" ∷ []
compact_context-prompt_example =
    compact_context-prompt text_of_two small_window 10 false "5" brief talk
      (talk ++ (summary_message "5" "in short" "2" ∷ []))
      (summary_message "5" "in short" "2" ∷ turn "3" "c" ∷ answer "4" "d" ∷ []) distinct
      compact_talk
  where
    distinct : IsDistinct talk
    distinct = ((refl, (refl, (refl, tt))), ((refl, (refl, tt)), ((refl, tt), (tt, tt))))
