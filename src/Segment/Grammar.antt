-- ===== src/Segment/Grammar.antt =====
-- What a reader of the stream relies on, for the events of one agent: a message starts under a number
-- that is above all before it, its content and its end name it, one message is open at a time, and a
-- step of the main agent ends with none open.
use agentic_kit.Base.{
  ℕ, ◌≤◌, Bool, true, false, ◌&&◌, List, [], ◌∷◌, ◌++◌, Option, none, some, String, str_eq, ◌≡◌,
  refl, sym, ap, ◌∙◌, append_assoc, Option-cases, inl, inr, arith, ltb, ◌==◌, if◌then◌else◌,
}
use agentic_kit.StreamEvents.{
  StreamEvent, text_message_start, text_message_content, text_message_end, reasoning_start,
  reasoning_content, reasoning_end, step_finished, subagent_event,
}

pub record Marks : Type 0 where
  pub open_text : Option ℕ
  pub open_reasoning : Option ℕ
  pub last : ℕ

abbrev pub is_open : Option ℕ → ℕ → Bool
is_open none i = false
is_open (some j) i = j == i

abbrev pub is_none : Option ℕ → Bool
is_none none = true
is_none (some j) = false

abbrev pub allow : Bool → Marks → Option Marks
allow true m = some m
allow false m = none

-- One event: the marks after it, or `none` where the reader would be lost.
unfoldable pub advance : Marks → StreamEvent → Option Marks
advance m (text_message_start i) =
    allow (is_none m.open_text && (is_none m.open_reasoning && ltb m.last i))
      (record m { open_text = some i; last = i })
advance m (text_message_content i delta) = allow (is_open m.open_text i) m
advance m (text_message_end i) = allow (is_open m.open_text i) (record m { open_text = none })
advance m (reasoning_start i) =
    allow (is_none m.open_text && (is_none m.open_reasoning && ltb m.last i))
      (record m { open_reasoning = some i; last = i })
advance m (reasoning_content i delta) = allow (is_open m.open_reasoning i) m
advance m (reasoning_end i) =
    allow (is_open m.open_reasoning i) (record m { open_reasoning = none })
advance m (step_finished step none reason usage) =
    allow (is_none m.open_text && is_none m.open_reasoning) m
advance m _ = some m

unfoldable pub run_marks : Marks → List StreamEvent → Option Marks
run_marks m [] = some m
run_marks m (e ∷ es) = elim (advance m e) [ none ↦ none | some m' ↦ run_marks m' es ]

-- The events of one agent in a stream: a nested agent's are wrapped, the main one's are not, and its
-- key is the empty text.
abbrev pub of_agent : String → StreamEvent → List StreamEvent
of_agent key (subagent_event agent_id e) = if str_eq agent_id key then e ∷ [] else []
of_agent key e = if str_eq "" key then e ∷ [] else []

unfoldable pub view : String → List StreamEvent → List StreamEvent
view key [] = []
view key (e ∷ es) = of_agent key e ++ view key es

pub run_marks-append :
    (m m' : Marks) (xs ys : List StreamEvent)
    → run_marks m xs ≡ some m'
    → run_marks m (xs ++ ys) ≡ run_marks m' ys
unfolding run_marks
run_marks-append m m' [] ys h = cc
run_marks-append m m' (x ∷ xs) ys h = elim (Option-cases (advance m x)) [
  | inl e ↦ ground (arith, e, h)
  | inr (n, e) ↦ rw (e, run_marks) (run_marks-append n m' xs ys (rw (e, run_marks) at h))
]

pub view-append :
    (key : String) (xs ys : List StreamEvent) → view key (xs ++ ys) ≡ view key xs ++ view key ys
unfolding view
view-append key [] ys = refl
view-append key (x ∷ xs) ys =
    ap (◌++◌ (of_agent key x)) (view-append key xs ys)
    ∙ sym (append_assoc (of_agent key x) (view key xs) (view key ys))

advance_mono :
    (m n : Marks) (l : ℕ) (e : StreamEvent)
    → l ≤ m.last
    → advance m e ≡ some n
    → (l' : ℕ) × (l' ≤ n.last) × (advance (record m { last = l }) e ≡ some (record n { last = l' }))
unfolding advance
advance_mono m n l (text_message_start i) h e = (i, ground (arith, e), ground (arith, e))
advance_mono m n l (reasoning_start i) h e = (i, ground (arith, e), ground (arith, e))
advance_mono m n l (step_finished k none r u) h e = (l, ground (arith, e), ground (arith, e))
advance_mono m n l (step_finished k (some a) r u) h e = (l, ground (arith, e), ground (arith, e))
advance_mono m n l (text_message_end i) h e = (l, ground (arith, e), ground (arith, e))
advance_mono m n l (text_message_content i d) h e = (l, ground (arith, e), ground (arith, e))
advance_mono m n l (reasoning_end i) h e = (l, ground (arith, e), ground (arith, e))
advance_mono m n l (reasoning_content i d) h e = (l, ground (arith, e), ground (arith, e))
advance_mono m n l _ h e = (l, ground (arith, e), ground (arith, e))

-- A reader that has seen smaller numbers reads on as well.
pub run_marks_mono :
    (m m' : Marks) (l : ℕ) (es : List StreamEvent)
    → l ≤ m.last
    → run_marks m es ≡ some m'
    → (l' : ℕ) × (l' ≤ m'.last)
      × (run_marks (record m { last = l }) es ≡ some (record m' { last = l' }))
unfolding run_marks
run_marks_mono m m' l [] h e = (l, ground (arith, e), ground (arith, e))
run_marks_mono m m' l (x ∷ xs) h e = elim (Option-cases (advance m x)) [
  | inl q ↦ absurd (ground (arith, q, e))
  | inr (n, q) ↦
      let (k, le, q') = advance_mono m n l x h q in
      let (l', le', r) = run_marks_mono n m' k xs le (rw (q, run_marks) at e) in
      (l', le', rw (q', run_marks) r)
]
