-- ===== src/History/Prompt.antt =====
-- The part of a stored history that goes to the model.
use agentic_kit.Base.{
  ℕ, suc, ◌+◌, ◌≤◌, ◌≡◌, refl, sym, ap, ◌∙◌, true, false, not, List, [], ◌∷◌, ◌++◌, Option, none,
  some, String, str_eq, append_assoc, Option-cases, keep_if-append, count_if, length, get_elem?,
  drop, arith, All, inl, inr,
}
use agentic_kit.History.{
  Message, summary_of, is_summary, note_summary, latest_from, find_index, covered_at, not_summaries,
  with_latest, prompt_history,
}

latest_from-none :
    (i : ℕ) (found : Option (ℕ × Option String)) (ms : List Message)
    → All (λ m. summary_of m.content ≡ none) ms
    → latest_from i found ms ≡ found
unfolding latest_from
latest_from-none i found [] h = refl
latest_from-none i found (m ∷ ms) h = rw h.0 (latest_from-none (suc i) found ms h.1)

latest_from-append :
    (i : ℕ) (found : Option (ℕ × Option String)) (xs post : List Message) (s : Message)
    (covers : Option String)
    → summary_of s.content ≡ some covers
    → All (λ m. summary_of m.content ≡ none) post
    → latest_from i found (xs ++ (s ∷ post)) ≡ some (i + length xs, covers)
unfolding latest_from
latest_from-append i found [] post s covers e h =
    rw (e, latest_from) (rw (latest_from-none (suc i) (some (i, covers)) post h) (ground arith))
latest_from-append i found (x ∷ xs) post s covers e h =
    rw
      (latest_from-append (suc i) (note_summary i found (summary_of x.content)) xs post s covers e
        h)
      (ground arith)

find_index_first :
    (id : String) (xs rest : List Message) (c : Message)
    → All (λ m. str_eq m.id id ≡ false) xs
    → str_eq c.id id ≡ true
    → find_index id (xs ++ (c ∷ rest)) ≡ some (length xs)
unfolding find_index
find_index_first id [] rest c h e = rw e
find_index_first id (x ∷ xs) rest c h e = rw (h.0, find_index_first id xs rest c h.1 e)

drop-append :
    (xs : List Message) (c : Message) (rest : List Message)
    → drop (suc (length xs)) (xs ++ (c ∷ rest)) ≡ rest
drop-append [] c rest = refl
drop-append (x ∷ xs) c rest = drop-append xs c rest

get_elem?-append :
    (xs : List Message) (s : Message) (post : List Message)
    → get_elem? (xs ++ (s ∷ post)) (length xs) ≡ some s
get_elem?-append [] s post = refl
get_elem?-append (x ∷ xs) s post = get_elem?-append xs s post

not_summaries_same :
    (ms : List Message) → All (λ m. summary_of m.content ≡ none) ms → not_summaries ms ≡ ms
not_summaries_same [] h = refl
not_summaries_same (m ∷ ms) h = rw h.0 (rw (not_summaries_same ms h.1))

prompt_history_at :
    (hs : List Message) (i k : ℕ) (id : String) (s : Message)
    → latest_from 0 none hs ≡ some (i, some id)
    → find_index id hs ≡ some k
    → get_elem? hs i ≡ some s
    → prompt_history hs ≡ s ∷ not_summaries (drop (suc k) hs)
unfolding prompt_history
prompt_history_at hs i k id s a b c = rw (a, prompt_history) (rw (b, c))

regroup :
    (before between after : List Message) (c s : Message)
    → before ++ (c ∷ (between ++ (s ∷ after))) ≡ (before ++ (c ∷ between)) ++ (s ∷ after)
regroup before between after c s = sym (append_assoc before (c ∷ between) (s ∷ after))

not_summaries_behind :
    (between after : List Message) (s : Message) {covers : Option String}
    → summary_of s.content ≡ some covers
    → All (λ m. summary_of m.content ≡ none) after
    → not_summaries (between ++ (s ∷ after)) ≡ not_summaries between ++ after
not_summaries_behind between after s e h =
    keep_if-append (λ m. not (is_summary m)) between (s ∷ after)
    ∙ ap (◌++◌ (not_summaries between)) (rw e (not_summaries_same after h))

-- A history whose latest summary `s` covers it up to the message `c`: what goes to the model is the
-- summary first, then the messages behind `c` that are no summaries, in order. Nothing up to `c`
-- goes, and no other summary.
pub prompt_history_covered :
    (before between after : List Message) (c s : Message) (id : String)
    → summary_of s.content ≡ some (some id)
    → All (λ m. summary_of m.content ≡ none) after
    → All (λ m. str_eq m.id id ≡ false) before
    → str_eq c.id id ≡ true
    → prompt_history (before ++ (c ∷ (between ++ (s ∷ after))))
      ≡ s ∷ (not_summaries between ++ after)
prompt_history_covered before between after c s id e h u v =
    let xs = before ++ (c ∷ between) in
    prompt_history_at _ (length xs) (length before) id s
      (rw (regroup before between after c s)
        (latest_from-append 0 none xs after s (some id) e h ∙ ground arith))
      (find_index_first id before (between ++ (s ∷ after)) c u v)
      (rw (regroup before between after c s) (get_elem?-append xs s after))
    ∙ ap (◌∷◌ s) (
        rw (drop-append before c (between ++ (s ∷ after)))
          (not_summaries_behind between after s e h))

unfoldable pub summaries : List Message → ℕ
summaries = count_if is_summary

summaries-not_summaries : (ms : List Message) → summaries (not_summaries ms) ≡ 0
unfolding summaries
summaries-not_summaries [] = refl
summaries-not_summaries (m ∷ ms) = ground (arith, summaries-not_summaries ms)

latest_from_found :
    (i : ℕ) (f : ℕ × Option String) (ms : List Message) → ¬ (latest_from i (some f) ms ≡ none)
unfolding latest_from
latest_from_found i f [] = λ h. cc h
latest_from_found i f (m ∷ ms) = λ h. elim (Option-cases (summary_of m.content)) [
  | inl e ↦ latest_from_found (suc i) f ms (rw e at h)
  | inr (c, e) ↦ latest_from_found (suc i) (i, c) ms (rw e at h)
]

pub summaries-none : (i : ℕ) (ms : List Message) → latest_from i none ms ≡ none → summaries ms ≡ 0
unfolding latest_from summaries
summaries-none i [] h = refl
summaries-none i (m ∷ ms) h = elim (Option-cases (summary_of m.content)) [
  | inl e ↦ rw e (summaries-none (suc i) ms (rw e at h))
  | inr (c, e) ↦ absurd (latest_from_found (suc i) (i, c) ms (rw e at h))
]

summaries-with_latest :
    (o : Option Message) (ms : List Message) → summaries ms ≡ 0 → summaries (with_latest o ms) ≤ 1
unfolding summaries
summaries-with_latest none ms h = omega (arith, h)
summaries-with_latest (some m) ms h = ground (arith, h)

-- However many summaries a history holds, at most one goes to the model.
pub prompt_history-summaries : (history : List Message) → summaries (prompt_history history) ≤ 1
unfolding prompt_history
prompt_history-summaries history = elim (Option-cases (latest_from 0 none history)) [
  | inl e ↦ rw (e, prompt_history) (omega (arith, summaries-none 0 history e))
  | inr ((latest, covers), e) ↦ elim (Option-cases (covered_at covers history)) [
    | inl f ↦ rw (e, prompt_history) (rw f (omega (arith, summaries-not_summaries history)))
    | inr (at, f) ↦
        rw (e, prompt_history)
          (rw f (
            summaries-with_latest (get_elem? history latest) _
              (summaries-not_summaries (drop (suc at) history))))
  ]
]
