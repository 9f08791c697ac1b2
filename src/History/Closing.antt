-- ===== src/History/Closing.antt =====
-- Every call of the closed history has its result among the tool messages right behind it.
use agentic_kit.Base.{
  ◌≡◌, refl, sym, ap, subst, true, false, not, ◌||◌, List, [], ◌∷◌, ◌++◌, map, String, str_eq,
  keep_if, arith, eq_iff, All, append-nil, append_assoc, Bool-cases, inl, inr,
}
use agentic_kit.History.{
  Part, tool_call, tool_result, other, Message, parts_of, is_tool, is_assistant, has, calls_in,
  results_in, ids_of, called_by, answered_by, dangling, missing, added, close_calls,
}

-- Every id of the first list is among the second.
abbrev pub Covers : List String → List String → Type 0
Covers ids answers = All (λ id. has id answers ≡ true) ids

-- The turns of a history that a strict provider accepts: the calls of each are answered at once.
abbrev pub IsAnswered : List Message → Type 0
IsAnswered [] = Unit
IsAnswered (m ∷ ms) = Covers (called_by m) (answered_by ms) × IsAnswered ms

has-append : (id : String) (xs ys : List String) → has id (xs ++ ys) ≡ (has id xs || has id ys)
has-append id [] ys = refl
has-append id (x ∷ xs) ys = ground (arith, has-append id xs ys)

-- The ids of calls that are no empty text.
abbrev IsNamed : List (String × String) → Type 0
IsNamed = All (λ c. str_eq c.0 "" ≡ false)

calls_in-IsNamed : (ps : List Part) → IsNamed (calls_in ps)
unfolding calls_in
calls_in-IsNamed [] = tt
calls_in-IsNamed (tool_call id name ∷ ps) = elim (Bool-cases (str_eq id "")) [
  | inl e ↦ rw e (calls_in-IsNamed ps)
  | inr e ↦ rw e (e, calls_in-IsNamed ps)
]
calls_in-IsNamed (tool_result id name v ∷ ps) = calls_in-IsNamed ps
calls_in-IsNamed (other t ∷ ps) = calls_in-IsNamed ps

results_in-dangling :
    (cs : List (String × String)) → IsNamed cs → results_in (map dangling cs) ≡ ids_of cs
unfolding results_in
results_in-dangling [] h = refl
results_in-dangling ((id, name) ∷ cs) h = rw (h.0, results_in-dangling cs h.1)

answered_by-added :
    (owed : List Part) (m : Message) (ms : List Message)
    → is_tool m.role ≡ false
    → answered_by (added owed ++ (m ∷ ms)) ≡ results_in owed
unfolding answered_by results_in
answered_by-added [] m ms e = rw (e, answered_by)
answered_by-added (p ∷ ps) m ms e = rw (e, answered_by) (append-nil (results_in (p ∷ ps)))

answered_by-close_calls :
    (owed : List Part) (ms : List Message)
    → answered_by (close_calls owed ms) ≡ answered_by ms ++ results_in owed
unfolding answered_by close_calls
answered_by-close_calls [] [] = unfold results_in in refl
answered_by-close_calls (p ∷ ps) [] = append-nil (results_in (p ∷ ps))
answered_by-close_calls owed (m ∷ ms) = elim (Bool-cases (is_tool m.role)) [
  | inl e ↦
      rw (e, answered_by)
        (rw (e, answered_by-close_calls owed ms)
          (sym (append_assoc (results_in (parts_of m.content)) (answered_by ms) (results_in owed))))
  | inr e ↦ rw (e, answered_by) (answered_by-added owed m (close_calls (missing m ms) ms) e)
]

pub Covers-mono :
    (ids xs ys : List String)
    → ((id : String) → has id xs ≡ true → has id ys ≡ true)
    → Covers ids xs
    → Covers ids ys
Covers-mono [] xs ys f h = tt
Covers-mono (id ∷ ids) xs ys f h = (f id h.0, Covers-mono ids xs ys f h.1)

abbrev unanswered : List String → List (String × String) → List (String × String)
unanswered answers = keep_if λ c. not (has c.0 answers)

-- The calls of a list, against its answers and the ids of what is left of it.
abbrev CoversWith : List String → List (String × String) → List (String × String) → Type 0
CoversWith answers cs left = Covers (ids_of cs) (answers ++ ids_of left)

CoversWith-more :
    (answers : List String) (cs left : List (String × String)) (c : String × String)
    → CoversWith answers cs left
    → CoversWith answers cs (c ∷ left)
CoversWith-more answers cs left c = Covers-mono (ids_of cs) _ _ λ id h.
    ground
      (arith, h, has-append id answers (ids_of left), has-append id answers (c.0 ∷ ids_of left))

Covers_rest :
    (cs : List (String × String)) (answers : List String)
    → CoversWith answers cs (unanswered answers cs)
Covers_rest [] answers = tt
Covers_rest (c ∷ cs) answers = elim (Bool-cases (has c.0 answers)) [
  | inl e ↦ subst (CoversWith answers (c ∷ cs)) {x = unanswered answers cs} (sym (rw e)) (
    ground (arith, e, has-append c.0 answers (ids_of (unanswered answers cs))),
    Covers_rest cs answers,
  )
  | inr e ↦ subst (CoversWith answers (c ∷ cs)) {x = c ∷ unanswered answers cs} (sym (rw e)) (
    ground (arith, eq_iff c.0 c.0, has-append c.0 answers (c.0 ∷ ids_of (unanswered answers cs))),
    CoversWith-more answers cs (unanswered answers cs) c (Covers_rest cs answers),
  )
]

unanswered_none :
    (answers : List String) (cs : List (String × String))
    → Covers (ids_of cs) answers
    → unanswered answers cs ≡ []
unanswered_none answers [] h = refl
unanswered_none answers (c ∷ cs) h = rw h.0 (unanswered_none answers cs h.1)

unanswered-IsNamed :
    (answers : List String) (cs : List (String × String))
    → IsNamed cs
    → IsNamed (unanswered answers cs)
unanswered-IsNamed answers [] h = tt
unanswered-IsNamed answers (c ∷ cs) h = elim (Bool-cases (has c.0 answers)) [
  | inl e ↦ rw e (unanswered-IsNamed answers cs h.1)
  | inr e ↦ rw e (h.0, unanswered-IsNamed answers cs h.1)
]

Covers-missing :
    (m : Message) (ms : List Message)
    → Covers (called_by m) (answered_by ms ++ results_in (missing m ms))
unfolding called_by missing
Covers-missing m ms = elim (Bool-cases (is_assistant m.role)) [
  | inl e ↦
      let cs = calls_in (parts_of m.content) in
      rw e (
        rw
          (results_in-dangling (unanswered (answered_by ms) cs)
            (unanswered-IsNamed (answered_by ms) cs (calls_in-IsNamed (parts_of m.content))))
          (Covers_rest cs (answered_by ms)))
  | inr e ↦ rw e tt
]

pub tool_calls_none : (m : Message) → is_tool m.role ≡ true → called_by m ≡ []
unfolding called_by
tool_calls_none m e = ground arith

added-IsAnswered :
    (owed : List Part) (ms : List Message) → IsAnswered ms → IsAnswered (added owed ++ ms)
unfolding called_by
added-IsAnswered [] ms h = h
added-IsAnswered (p ∷ ps) ms h = (tt, h)

pub close_calls-IsAnswered :
    (owed : List Part) (ms : List Message) → IsAnswered (close_calls owed ms)
unfolding close_calls
close_calls-IsAnswered [] [] = tt
close_calls-IsAnswered (p ∷ ps) [] = added-IsAnswered (p ∷ ps) [] tt
close_calls-IsAnswered owed (m ∷ ms) = elim (Bool-cases (is_tool m.role)) [
  | inl e ↦ rw e (rw (tool_calls_none m e) tt, close_calls-IsAnswered owed ms)
  | inr e ↦ rw e (
      added-IsAnswered owed _ (
        rw (answered_by-close_calls (missing m ms) ms) (Covers-missing m ms),
        close_calls-IsAnswered (missing m ms) ms,
      ))
]

-- A history whose calls are answered is closed as it is.
missing_none :
    (m : Message) (ms : List Message) → Covers (called_by m) (answered_by ms) → missing m ms ≡ []
unfolding called_by missing
missing_none m ms h = elim (Bool-cases (is_assistant m.role)) [
  | inl e ↦ rw e (
      ap (map dangling)
        (unanswered_none (answered_by ms) (calls_in (parts_of m.content)) (rw e at h)))
  | inr e ↦ rw e
]

pub close_calls_same : (ms : List Message) → IsAnswered ms → close_calls [] ms ≡ ms
unfolding close_calls
close_calls_same [] h = refl
close_calls_same (m ∷ ms) h = rw (missing_none m ms h.0, close_calls_same ms h.1) (ground arith)
