-- ===== src/Prune/Emptied.antt =====
-- A clean-up ends, and leaves exactly the rows of other types.
use agentic_kit.Base.{
  ℕ, zero, suc, ◌+◌, ◌<◌, ◌≡◌, refl, sym, ap, ◌∙◌, false, not, List, [], ◌∷◌, some, String, str_eq,
  ltb, if◌then◌else◌, keep_if, Bool-cases, inl, inr, arith,
}
use agentic_kit.Events.{AgentEvent}
use agentic_kit.Prune.{
  TypeCounts, Rows, stream_only_types, add_count, is_spent, is_one_of, Pruning, taken, prune_list,
  prune_rows, prune, PruneReport, sum_counts, reported, prune_batches, no_report, prune_events,
}

abbrev pub others_of : List String → List AgentEvent → List AgentEvent
others_of types es = keep_if (λ e. not (is_one_of types e)) es

-- The rows that a clean-up is to leave.
abbrev pub rows_others : List String → Rows → Rows
rows_others types [] = []
rows_others types ((t, es) ∷ rows) = (t, others_of types es) ∷ rows_others types rows

-- How many rows it is to delete.
abbrev pub count_of : List String → List AgentEvent → ℕ
count_of types [] = 0
count_of types (e ∷ es) =
    let rest = count_of types es in if is_one_of types e then suc rest else rest

abbrev pub rows_count : List String → Rows → ℕ
rows_count types [] = 0
rows_count types ((t, es) ∷ rows) = count_of types es + rows_count types rows

sum_counts-add_count :
    (t : String) (n : ℕ) (cs : TypeCounts) → sum_counts (add_count t n cs) ≡ n + sum_counts cs
unfolding add_count sum_counts
sum_counts-add_count t n [] = refl
sum_counts-add_count t n ((u, m) ∷ cs) = elim (Bool-cases (str_eq t u)) [
  | inl e ↦ rw e (omega arith)
  | inr e ↦ rw e (omega (arith, sum_counts-add_count t n cs))
]

abbrev pass : TypeCounts → ℕ → Pruning
pass c k = record { counts = c; left = some k }

-- What a pass did with n rows to delete, of which it left m.
abbrev IsSpent : ℕ → ℕ → TypeCounts → ℕ → Pruning → Type 0
IsSpent k n c m q =
    (l : ℕ) × (d : TypeCounts) × (q ≡ pass d l)
    × (l + n ≡ k + m)
    × (sum_counts d + m ≡ sum_counts c + n)
    × (0 < l → m ≡ 0)

prune_list-IsSpent :
    (types : List String) (k : ℕ) (c : TypeCounts) (es : List AgentEvent)
    → IsSpent k
        (count_of types es)
        c
        (count_of types (prune_list types false (pass c k) es).0)
        (prune_list types false (pass c k) es).1
unfolding prune_list is_spent
prune_list-IsSpent types k c [] = (k, c, refl, omega arith, omega arith, λ h. refl)
prune_list-IsSpent types zero c (x ∷ es) = elim (Bool-cases (is_one_of types x)) [
  | inl h ↦
      let (l, d, q, a, b, f) = prune_list-IsSpent types zero c es in
      rw h (l, d, q, omega (arith, a), omega (arith, b), λ o. absurd (omega (arith, a, f o, o)))
  | inr h ↦ rw h (prune_list-IsSpent types zero c es)
]
prune_list-IsSpent types (suc k) c (x ∷ es) = elim (Bool-cases (is_one_of types x)) [
  | inl h ↦
      let (l, d, q, a, b, f) = prune_list-IsSpent types k (add_count x.type_name 1 c) es in
      rw h (l, d, q, omega (arith, a), omega (arith, b, sum_counts-add_count x.type_name 1 c), f)
  | inr h ↦ rw (h, h) (prune_list-IsSpent types (suc k) c es)
]

prune_rows-IsSpent :
    (types : List String) (k : ℕ) (c : TypeCounts) (rows : Rows)
    → IsSpent k
        (rows_count types rows)
        c
        (rows_count types (prune_rows types false (pass c k) rows).0)
        (prune_rows types false (pass c k) rows).1
unfolding prune_rows
prune_rows-IsSpent types k c [] = (k, c, refl, omega arith, omega arith, λ h. refl)
prune_rows-IsSpent types k c ((t, es) ∷ rows) =
    let (l, d, q, a, b, f) = prune_list-IsSpent types k c es in
    let (l', d', q', a', b', f') = prune_rows-IsSpent types l d rows in
    rw q (
      l',
      d',
      q',
      omega (arith, a, a'),
      omega (arith, b, b'),
      λ o. omega (arith, f' o, f (omega (arith, a', f' o, o))),
    )

-- No pass takes a row of another type.
others_of-prune_list :
    (types : List String) (p : Pruning) (es : List AgentEvent)
    → others_of types (prune_list types false p es).0 ≡ others_of types es
unfolding prune_list
others_of-prune_list types p [] = refl
others_of-prune_list types p (x ∷ es) = elim (Bool-cases (is_one_of types x)) [
  | inl h ↦ elim (Bool-cases (is_spent p.left)) [
    | inl s ↦ simp (h, s) (others_of-prune_list types p es)
    | inr s ↦ simp (h, s) (others_of-prune_list types (taken p x) es)
  ]
  | inr h ↦ elim (Bool-cases (is_spent p.left)) [
    | inl s ↦ simp (h, s) (ap (λ k. x ∷ k) (others_of-prune_list types p es))
    | inr s ↦ simp (h, s) (ap (λ k. x ∷ k) (others_of-prune_list types p es))
  ]
]

rows_others-prune_rows :
    (types : List String) (p : Pruning) (rows : Rows)
    → rows_others types (prune_rows types false p rows).0 ≡ rows_others types rows
unfolding prune_rows
rows_others-prune_rows types p [] = refl
rows_others-prune_rows types p ((t, es) ∷ rows) =
    let q = (prune_list types false p es).1 in
    rw (others_of-prune_list types p es, rows_others-prune_rows types q rows) refl

none_left :
    (types : List String) (es : List AgentEvent) → count_of types es ≡ 0 → others_of types es ≡ es
none_left types [] e = refl
none_left types (x ∷ es) e = elim (Bool-cases (is_one_of types x)) [
  | inl h ↦ absurd (omega (arith, rw h at e))
  | inr h ↦ rw h (ap (λ k. x ∷ k) (none_left types es (rw h at e)))
]

rows_none_left :
    (types : List String) (rows : Rows) → rows_count types rows ≡ 0 → rows_others types rows ≡ rows
rows_none_left types [] e = refl
rows_none_left types ((t, es) ∷ rows) e =
    rw (none_left types es (omega (arith, e)), rows_none_left types rows (omega (arith, e))) refl

prune_spent :
    (limit : ℕ) (rows : Rows)
    → (l : ℕ) × (l + sum_counts (prune stream_only_types limit false rows).1 ≡ limit)
      × (sum_counts (prune stream_only_types limit false rows).1
            + rows_count stream_only_types (prune stream_only_types limit false rows).0
          ≡ rows_count stream_only_types rows)
      × (0 < l → rows_count stream_only_types (prune stream_only_types limit false rows).0 ≡ 0)
unfolding prune sum_counts
prune_spent limit rows =
    let (l, d, q, a, b, f) = prune_rows-IsSpent stream_only_types limit [] rows in
    let s = ap (λ p. sum_counts p.counts) q in (l, omega (arith, a, b, s), omega (arith, b, s), f)

rows_others-prune :
    (limit : ℕ) (rows : Rows)
    → rows_others stream_only_types (prune stream_only_types limit false rows).0
      ≡ rows_others stream_only_types rows
unfolding prune
rows_others-prune limit rows =
    rows_others-prune_rows stream_only_types (record { counts = []; left = some limit }) rows

-- The report and the rows of a clean-up that began with `report`.
abbrev IsPruned : PruneReport → Rows → Rows × PruneReport → Type 0
IsPruned report rows (kept, end) =
    (kept ≡ rows_others stream_only_types rows)
    × (end.total ≡ report.total + rows_count stream_only_types rows)

prune_batches_done :
    (limit fuel : ℕ) (report : PruneReport) (rows : Rows)
    → 0 < limit
    → rows_count stream_only_types rows < fuel
    → (r : Rows × PruneReport) × (prune_batches limit false fuel report rows ≡ some r)
      × IsPruned report rows r
unfolding prune_batches
prune_batches_done limit zero report rows pos f = absurd (omega (arith, f))
prune_batches_done limit (suc fuel) report rows pos f =
    let (l, a, b, c) = prune_spent limit rows in
    let after = prune stream_only_types limit false rows in
    elim (Bool-cases (ltb (sum_counts (prune stream_only_types limit false rows).1) limit)) [
      | inl e ↦
          let z = c (ground (arith, a, e)) in
          rw e (
            (after.0, reported report after.1),
            refl,
            (
              sym (rows_none_left stream_only_types after.0 z) ∙ rows_others-prune limit rows,
              omega (arith, b, z),
            ),
          )
      | inr e ↦
          let (r, g, (k, t)) =
            prune_batches_done limit fuel (reported report after.1) after.0 pos
              (ground (arith, a, b, e, f, pos)) in
          rw e (r, g, (k ∙ rows_others-prune limit rows, omega (arith, t, b)))
    ]

-- A clean-up that deletes, with a batch size that is not 0, ends within one more batch than there are
-- rows of the stream-only types: it leaves every other row of every thread, in order, and no row of
-- those types, and it reports as many rows as it deleted.
pub prune_events_done :
    (limit fuel : ℕ) (rows : Rows)
    → 0 < limit
    → rows_count stream_only_types rows < fuel
    → (report : PruneReport) × (prune_events limit false fuel rows
        ≡ some (rows_others stream_only_types rows, report))
      × (report.total ≡ rows_count stream_only_types rows)
unfolding prune_events
prune_events_done limit fuel rows pos f =
    let (r, g, (k, t)) = prune_batches_done limit fuel no_report rows pos f in
    (r.1, g ∙ ap (λ kept. some (kept, r.1)) k, omega (arith, t))
