-- ===== src/Usage/Counters.antt =====
-- The counters of the totals.
use agentic_kit.Base.{
  ℕ, ◌+◌, ◌≡◌, refl, ap, ◌∙◌, ◌&&◌, List, [], ◌∷◌, Option, none, some, String, str_eq, arith,
  sum_of, Bool-cases, inl, inr, length,
}
use agentic_kit.Usage.{
  NewUsage, UsageLine, UsageGroup, UsageTotals, empty_totals, merged, add_line, add_group,
  row_group, merge_rows, sum_usage, same_key, takes, text_of,
}

-- A counter of a line that merging adds up.
abbrev pub Adds : (UsageLine → ℕ) → Type 0
Adds f = (x l : UsageLine) (c : String) → f (merged x l c) ≡ f x + f l

sum-add_line :
    (f : UsageLine → ℕ)
    → Adds f
    → (xs : List UsageLine) (l : UsageLine) (c : String)
    → sum_of f (add_line xs l c) ≡ sum_of f xs + f l
unfolding add_line
sum-add_line f a [] l c = omega arith
sum-add_line f a (x ∷ xs) l c = elim (Bool-cases (same_key x l && takes x c)) [
  | inl e ↦ rw e (omega (arith, a x l c))
  | inr e ↦ rw e (omega (arith, sum-add_line f a xs l c))
]

-- A counter of the totals, and the counters of a line and of a row that it sums up.
abbrev Counts : (UsageTotals → ℕ) → (UsageLine → ℕ) → (NewUsage → ℕ) → Type 0
Counts total f row =
    (out : UsageTotals) (u : NewUsage)
    → (total (add_group out (row_group u)) ≡ total out + row u)
      × (sum_of f (add_group out (row_group u)).lines ≡ sum_of f out.lines + row u)

merge_rows-Counts :
    (total : UsageTotals → ℕ) (f : UsageLine → ℕ) (row : NewUsage → ℕ)
    → Counts total f row
    → (out : UsageTotals) (us : List NewUsage)
    → (total (merge_rows out us) ≡ total out + sum_of row us)
      × (sum_of f (merge_rows out us).lines ≡ sum_of f out.lines + sum_of row us)
unfolding merge_rows
merge_rows-Counts total f row c out [] = (omega arith, omega arith)
merge_rows-Counts total f row c out (u ∷ us) =
    let (p, q) = merge_rows-Counts total f row c (add_group out (row_group u)) us in
    let (p', q') = c out u in (omega (arith, p, p'), omega (arith, q, q'))

lines-add_group :
    (f : UsageLine → ℕ)
    → Adds f
    → ((l : UsageLine) (c : Option String) → f (record l { line_currency = c }) ≡ f l)
    → ((l : UsageLine) → f (record l { line_cost_micros = 0; line_currency = none }) ≡ f l)
    → (out : UsageTotals) (g : UsageGroup)
    → sum_of f (add_group out g).lines ≡ sum_of f out.lines + f g.line
unfolding add_group
lines-add_group f a paid unpaid out g = elim (Bool-cases (str_eq (text_of g.group_currency) "")) [
  | inl e ↦ rw e (
      sum-add_line f a out.lines _ (text_of g.group_currency)
      ∙ ap (λ n. sum_of f out.lines + n) (unpaid g.line))
  | inr e ↦ rw e (
      sum-add_line f a out.lines _ (text_of g.group_currency)
      ∙ ap (λ n. sum_of f out.lines + n) (paid g.line (some (text_of g.group_currency))))
]

input-Counts : Counts (λ t. t.all_input_tokens) (λ l. l.line_input_tokens) λ u. u.input_tokens
unfolding add_group row_group merged
input-Counts out u = (
  ground arith,
  lines-add_group (λ l. l.line_input_tokens) (λ x l c. refl) (λ l c. refl) (λ l. refl) out
      (row_group u),
)

cached-Counts :
    Counts
      (λ t. t.all_cached_input_tokens)
      (λ l. l.line_cache_read_input_tokens)
      λ u. u.cache_read_input_tokens
unfolding add_group row_group merged
cached-Counts out u = (
  ground arith,
  lines-add_group (λ l. l.line_cache_read_input_tokens) (λ x l c. refl) (λ l c. refl) (λ l. refl)
      out (row_group u),
)

output-Counts : Counts (λ t. t.all_output_tokens) (λ l. l.line_output_tokens) λ u. u.output_tokens
unfolding add_group row_group merged
output-Counts out u = (
  ground arith,
  lines-add_group (λ l. l.line_output_tokens) (λ x l c. refl) (λ l c. refl) (λ l. refl) out
      (row_group u),
)

calls-lines :
    (out : UsageTotals) (us : List NewUsage)
    → sum_of (λ l. l.line_calls) (merge_rows out us).lines
      ≡ sum_of (λ l. l.line_calls) out.lines + length us
unfolding merge_rows merged row_group
calls-lines out [] = omega arith
calls-lines out (u ∷ us) = omega (
  arith,
  calls-lines (add_group out (row_group u)) us,
  lines-add_group (λ l. l.line_calls) (λ x l c. refl) (λ l c. refl) (λ l. refl) out (row_group u),
)

total-add_group :
    (out : UsageTotals) (u : NewUsage)
    → (add_group out (row_group u)).all_total_tokens ≡ out.all_total_tokens + u.total_tokens
unfolding add_group row_group
total-add_group out u = ground arith

pub total-merge_rows :
    (out : UsageTotals) (us : List NewUsage)
    → (merge_rows out us).all_total_tokens ≡ out.all_total_tokens + sum_of (λ u. u.total_tokens) us
unfolding merge_rows
total-merge_rows out [] = omega arith
total-merge_rows out (u ∷ us) =
    omega (arith, total-merge_rows (add_group out (row_group u)) us, total-add_group out u)

-- Each counter of the totals is the sum over all calls, in whatever order they come and whatever
-- they cost, and so is the sum over the lines; every call is in exactly one line.
pub sum_usage-counters :
    (us : List NewUsage)
    → let t = sum_usage us in
      (t.all_input_tokens ≡ sum_of (λ u. u.input_tokens) us)
      × (sum_of (λ l. l.line_input_tokens) t.lines ≡ sum_of (λ u. u.input_tokens) us)
      × (t.all_cached_input_tokens ≡ sum_of (λ u. u.cache_read_input_tokens) us)
      × (sum_of (λ l. l.line_cache_read_input_tokens) t.lines
          ≡ sum_of (λ u. u.cache_read_input_tokens) us)
      × (t.all_output_tokens ≡ sum_of (λ u. u.output_tokens) us)
      × (sum_of (λ l. l.line_output_tokens) t.lines ≡ sum_of (λ u. u.output_tokens) us)
      × (t.all_total_tokens ≡ sum_of (λ u. u.total_tokens) us)
      × (sum_of (λ l. l.line_calls) t.lines ≡ length us)
unfolding sum_usage empty_totals
sum_usage-counters us =
    let (a, b) =
      merge_rows-Counts (λ t. t.all_input_tokens) (λ l. l.line_input_tokens) (λ u. u.input_tokens)
        input-Counts empty_totals us in
    let (c, d) =
      merge_rows-Counts (λ t. t.all_cached_input_tokens) (λ l. l.line_cache_read_input_tokens)
        (λ u. u.cache_read_input_tokens) cached-Counts empty_totals us in
    let (e, f) =
      merge_rows-Counts (λ t. t.all_output_tokens) (λ l. l.line_output_tokens)
        (λ u. u.output_tokens) output-Counts empty_totals us in
    (
      omega (arith, a),
      omega (arith, b),
      omega (arith, c),
      omega (arith, d),
      omega (arith, e),
      omega (arith, f),
      omega (arith, total-merge_rows empty_totals us),
      omega (arith, calls-lines empty_totals us),
    )
