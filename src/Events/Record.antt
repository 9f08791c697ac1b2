-- ===== src/Events/Record.antt =====
-- The order of the record.
use agentic_kit.Base.{
  ℕ, ◌<◌, ◌≤◌, ◌≡◌, refl, ap, ap₂, ◌∙◌, true, false, List, [], ◌∷◌, ◌++◌, some, String, str_eq, ltb,
  leb, keep_if, keep_if-append, last?, last?-snoc, arith, lt→ltb, Bool-cases, inl, inr,
  str_eq-eq_of,
}
use agentic_kit.Events.{
  AgentEvent, NewThreadEvent, top_seq, stored, append, put_in, by_seq, list_since, latest,
}

-- The numbers go up strictly, from above n.
abbrev pub IsAscending : ℕ → List AgentEvent → Type 0
IsAscending n [] = Unit
IsAscending n (e ∷ es) = (n < e.seq) × IsAscending e.seq es

append_above :
    (n : ℕ) (xs : List AgentEvent) (e : AgentEvent)
    → IsAscending n xs
    → n < e.seq
    → top_seq xs < e.seq
    → IsAscending n (xs ++ (e ∷ []))
unfolding top_seq
append_above n [] e h p q = (p, tt)
append_above n (x ∷ xs) e (a, h) p q =
    (a, append_above x.seq xs e h (omega (arith, q)) (omega (arith, q)))

none_after :
    (m : ℕ) (rows : List AgentEvent) → top_seq rows ≤ m → keep_if (λ e. ltb m e.seq) rows ≡ []
unfolding top_seq
none_after m [] h = refl
none_after m (x ∷ xs) h = ground (arith, h, none_after m xs (omega (arith, h)))

keep_after :
    (m n : ℕ) (rows : List AgentEvent)
    → IsAscending n rows
    → m ≤ n
    → keep_if (λ e. ltb m e.seq) rows ≡ rows
keep_after m n [] h le = refl
keep_after m n (x ∷ xs) (a, h) le =
    rw (lt→ltb m x.seq (omega (arith, a, le)))
      (ap (◌∷◌ x) (keep_after m x.seq xs h (omega (arith, a, le))))

pub by_seq-ascending : (n : ℕ) (es : List AgentEvent) → IsAscending n es → by_seq es ≡ es
unfolding by_seq put_in
by_seq-ascending n [] h = refl
by_seq-ascending n (e ∷ []) h = refl
by_seq-ascending n (e ∷ x ∷ es) (a, (b, h)) =
    ap (put_in e) (by_seq-ascending e.seq (x ∷ es) (b, h)) ∙ ground (arith, b)

after_one : (m : ℕ) (e : AgentEvent) → m < e.seq → keep_if (λ x. ltb m x.seq) (e ∷ []) ≡ e ∷ []
after_one m e h = rw (lt→ltb m e.seq h) refl

typed_one :
    (e : AgentEvent) (name : String)
    → str_eq e.type_name name ≡ true
    → keep_if (λ x. str_eq x.type_name name) (e ∷ []) ≡ e ∷ []
typed_one e name h = rw h refl

none_before :
    (m n : ℕ) (rows : List AgentEvent)
    → IsAscending n rows
    → m ≤ n
    → keep_if (λ e. leb e.seq m) rows ≡ []
none_before m n [] h le = refl
none_before m n (x ∷ xs) (a, h) le =
    ground (arith, a, le, none_before m x.seq xs h (omega (arith, a, le)))

not_after : (m n : ℕ) → leb n m ≡ true → ltb m n ≡ false
not_after m n h = ground (arith, h)

is_after_it : (m n : ℕ) → leb n m ≡ false → m < n
is_after_it m n h = ground (arith, h)

-- Storing an entry keeps the record's numbers strictly going up, the entry is what a reader that had
-- everything before gets next, and it is the latest of its type.
pub append-IsAscending :
    (thread : String) (now : ℕ) (e : NewThreadEvent) (rows : List AgentEvent)
    → IsAscending 0 rows
    → let (rows', event) = append thread now e rows in
      IsAscending 0 rows'
      × (list_since rows' (top_seq rows) ≡ event ∷ [])
      × (latest rows' e.new_type ≡ some event)
unfolding append list_since latest by_seq put_in
append-IsAscending thread now e rows h =
    let event = stored thread now e rows in
    (
      append_above 0 rows event h (omega arith) (omega arith),
      ap by_seq (
          keep_if-append (λ x. ltb (top_seq rows) x.seq) rows (event ∷ [])
          ∙ ap (λ xs. xs ++ keep_if (λ x. ltb (top_seq rows) x.seq) (event ∷ []))
              (none_after (top_seq rows) rows (omega arith))
          ∙ after_one (top_seq rows) event (omega arith)),
      ap last? (
            keep_if-append (λ x. str_eq x.type_name e.new_type) rows (event ∷ [])
            ∙ ap (λ xs. keep_if (λ x. str_eq x.type_name e.new_type) rows ++ xs)
                (typed_one event e.new_type (str_eq-eq_of {s = e.new_type} {t = e.new_type} refl)))
          ∙ last?-snoc (keep_if (λ x. str_eq x.type_name e.new_type) rows) event,
    )

-- A reader's cursor splits a record whose numbers go up: what is up to the cursor and what is read
-- since it are together the record, each entry once and in order.
pub list_since-append :
    (rows : List AgentEvent) (cursor : ℕ)
    → IsAscending 0 rows
    → keep_if (λ e. leb e.seq cursor) rows ++ list_since rows cursor ≡ rows
unfolding list_since by_seq
list_since-append rows cursor h = split 0 rows h
  where
    split :
        (n : ℕ) (rows : List AgentEvent)
        → IsAscending n rows
        → keep_if (λ e. leb e.seq cursor) rows ++ by_seq (keep_if (λ e. ltb cursor e.seq) rows)
          ≡ rows
    split n [] h = refl
    split n (x ∷ xs) (a, h) = elim (Bool-cases (leb x.seq cursor)) [
      | inl e ↦ rw (e, not_after cursor x.seq e) (ap (◌∷◌ x) (split x.seq xs h))
      | inr e ↦
          let asc : IsAscending cursor (x ∷ xs) = (is_after_it cursor x.seq e, h) in
          ap₂ ◌++◌ (none_before cursor cursor (x ∷ xs) asc (omega arith)) (
            ap by_seq (keep_after cursor cursor (x ∷ xs) asc (omega arith))
            ∙ by_seq-ascending cursor (x ∷ xs) asc)
    ]
