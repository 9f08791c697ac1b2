-- ===== src/Usage/Currencies.antt =====
-- The totals of each currency.
use agentic_kit.Base.{
  ℕ, ◌+◌, ◌-◌, ◌≡◌, ◌≢◌, refl, sym, ap, subst, ◌∙◌, Bool, true, false, List, [], ◌∷◌, Option, none,
  some, String, str_eq, eq_iff, if◌then◌else◌, or_else, is_some, is_text, arith, sum_of, Bool-cases,
  inl, inr, count_if, lookup, lookup-insert, All, Dict, str_eq-eq_of,
}
use agentic_kit.Usage.{
  NewUsage, UsageGroup, UsageTotals, Cost, CurrencyCost, no_cost, empty_totals, add_line, add_cost,
  add_group, row_group, merge_rows, sum_usage, count_group, pay_group, micros_of, currency_of,
  text_of,
}
use agentic_kit.Usage.Money.{
  in_currency, spent_in, line_spent, cost_in, IsFree, add_line-free, add_line-IsFree,
  add_line-line_spent,
}

-- A call adds to each currency, in the costs and in the lines, what it spent there.
abbrev AddsIn : String → UsageTotals → NewUsage → UsageTotals → Type 0
AddsIn c out u out' =
    ((cost_in c out').sum_micros ≡ (cost_in c out).sum_micros + spent_in c u)
    × ((cost_in c out').sum_calls ≡ (cost_in c out).sum_calls + (if in_currency c u then 1 else 0))
    × (sum_of (line_spent c) out'.lines ≡ sum_of (line_spent c) out.lines + spent_in c u)
    × All IsFree out'.lines

cost-add_cost :
    (c currency : String) (costs : Dict CurrencyCost) (m n : ℕ)
    → or_else (lookup c (add_cost costs currency m n)) no_cost ≡ (
        if str_eq currency c
        then record {
          sum_micros = (or_else (lookup c costs) no_cost).sum_micros + m;
          sum_calls = (or_else (lookup c costs) no_cost).sum_calls + n;
        }
        else or_else (lookup c costs) no_cost)
unfolding add_cost
cost-add_cost c currency costs m n = elim (Bool-cases (str_eq currency c)) [
  | inl e ↦
      rw ((eq_iff currency c).0 e)
        (rw (lookup-insert c c _ costs) (rw (str_eq-eq_of {s = c} {t = c} refl) refl))
  | inr e ↦ rw (lookup-insert currency c _ costs) (rw e refl)
]

pub add_group_free :
    (out : UsageTotals) (g : UsageGroup)
    → str_eq (text_of g.group_currency) "" ≡ true
    → add_group out g ≡ record (count_group out g) {
      lines = add_line out.lines (record g.line { line_cost_micros = 0; line_currency = none }) "";
    }
unfolding add_group
add_group_free out g e =
    ap (λ b. if b then free (text_of g.group_currency) else paid) e
    ∙ ap free ((eq_iff (text_of g.group_currency) "").0 e)
  where
    free : String → UsageTotals
    free c = record (count_group out g) {
      lines = add_line out.lines (record g.line { line_cost_micros = 0; line_currency = none }) c;
    }

    paid : UsageTotals
    paid = record (pay_group (count_group out g) g (text_of g.group_currency)) {
      lines =
          add_line out.lines (record g.line { line_currency = some (text_of g.group_currency) })
            (text_of g.group_currency);
    }

pub add_group_paid :
    (out : UsageTotals) (g : UsageGroup)
    → str_eq (text_of g.group_currency) "" ≡ false
    → add_group out g ≡ record (pay_group (count_group out g) g (text_of g.group_currency)) {
      lines =
          add_line out.lines
            (record g.line { line_currency = some (text_of g.group_currency) })
            (text_of g.group_currency);
    }
unfolding add_group
add_group_paid out g e = ap (λ b. if b then free else paid) e
  where
    free : UsageTotals
    free = record (count_group out g) {
      lines =
          add_line out.lines (record g.line { line_cost_micros = 0; line_currency = none })
            (text_of g.group_currency);
    }

    paid : UsageTotals
    paid = record (pay_group (count_group out g) g (text_of g.group_currency)) {
      lines =
          add_line out.lines (record g.line { line_currency = some (text_of g.group_currency) })
            (text_of g.group_currency);
    }

not_in :
    (c : String) (o : Option Cost)
    → str_eq (text_of (currency_of o)) "" ≡ true
    → str_eq c "" ≡ false
    → is_text (currency_of o) c ≡ false
not_in c none e n = refl
not_in c (some k) e n =
    rw ((eq_iff k.currency "").0 e) (ground (arith, n, eq_iff "" c, eq_iff c ""))

is_in :
    (c : String) (o : Option Cost)
    → str_eq (text_of (currency_of o)) "" ≡ false
    → is_text (currency_of o) c ≡ str_eq (text_of (currency_of o)) c
is_in c none e = absurd (ground (arith, e))
is_in c (some k) e = refl

one_call :
    (o : Option Cost)
    → str_eq (text_of (currency_of o)) "" ≡ false
    → 1 - (if is_some o then 0 else 1) ≡ 1
one_call none e = absurd (ground (arith, e))
one_call (some k) e = omega arith

abbrev grown_by : CurrencyCost → ℕ → ℕ → CurrencyCost
grown_by x m n = record { sum_micros = x.sum_micros + m; sum_calls = x.sum_calls + n }

micros_if :
    (b : Bool) (x : CurrencyCost) (m n : ℕ)
    → (if b then grown_by x m n else x).sum_micros ≡ x.sum_micros + (if b then m else 0)
micros_if true x m n = refl
micros_if false x m n = omega arith

calls_if :
    (b : Bool) (x : CurrencyCost) (m n : ℕ)
    → n ≡ 1
    → (if b then grown_by x m n else x).sum_calls ≡ x.sum_calls + (if b then 1 else 0)
calls_if true x m n e = omega (arith, e)
calls_if false x m n e = omega arith

add_group-AddsIn :
    (c : String) (out : UsageTotals) (u : NewUsage)
    → All IsFree out.lines
    → str_eq c "" ≡ false
    → AddsIn c out u (add_group out (row_group u))
unfolding row_group
add_group-AddsIn c out u h named = elim (Bool-cases (str_eq (text_of (currency_of u.cost)) "")) [
  | inl e ↦
      let free =
        add_line-free c out.lines
          (record (row_group u).line { line_cost_micros = 0; line_currency = none }) refl refl in
      subst (AddsIn c out u) (sym (add_group_free out (row_group u) e)) (
        rw (not_in c u.cost e named) (omega arith),
        rw (not_in c u.cost e named) (omega arith),
        rw (not_in c u.cost e named) (omega (arith, free)),
        add_line-IsFree "" out.lines _ (λ z. refl) (λ z. refl) h,
      )
  | inr e ↦
      let k = text_of (currency_of u.cost) in
      let costs =
        cost-add_cost c k out.costs (micros_of u.cost) (1 - (if is_some u.cost then 0 else 1)) in
      let line =
        add_line-line_spent c k out.lines (record (row_group u).line { line_currency = some k }) e
          refl h in
      subst (AddsIn c out u) (sym (add_group_paid out (row_group u) e)) (
        rw (is_in c u.cost e) (
            ap (λ x. x.sum_micros) costs
            ∙ micros_if (str_eq k c) (cost_in c out) (micros_of u.cost)
                (1 - (if is_some u.cost then 0 else 1))),
        rw (is_in c u.cost e) (
            ap (λ x. x.sum_calls) costs
            ∙ calls_if (str_eq k c) (cost_in c out) (micros_of u.cost)
                (1 - (if is_some u.cost then 0 else 1)) (one_call u.cost e)),
        rw (is_in c u.cost e) (omega (arith, line)),
        add_line-IsFree k out.lines _ (λ z. absurd (ground (arith, z, e)))
            (λ z. absurd (ground (arith, z, e))) h,
      )
]

merge_rows-costs :
    (c : String) (out : UsageTotals) (us : List NewUsage)
    → All IsFree out.lines
    → str_eq c "" ≡ false
    → let t = merge_rows out us in
      ((cost_in c t).sum_micros ≡ (cost_in c out).sum_micros + sum_of (spent_in c) us)
      × ((cost_in c t).sum_calls ≡ (cost_in c out).sum_calls + count_if (in_currency c) us)
      × (sum_of (line_spent c) t.lines ≡ sum_of (line_spent c) out.lines + sum_of (spent_in c) us)
unfolding merge_rows
merge_rows-costs c out [] h n = (omega arith, omega arith, omega arith)
merge_rows-costs c out (u ∷ us) h n =
    let (p, q, r, free) = add_group-AddsIn c out u h n in
    let (p', q', r') = merge_rows-costs c (add_group out (row_group u)) us free n in
    (omega (arith, p, p'), ground (arith, q, q'), omega (arith, r, r'))

-- In each currency, the entry of the totals has the money and the number of the calls that were
-- priced in it, and the lines of the currency sum up to the same money.
pub sum_usage-costs :
    (c : String) (us : List NewUsage)
    → c ≢ ""
    → let t = sum_usage us in
      ((cost_in c t).sum_micros ≡ sum_of (spent_in c) us)
      × ((cost_in c t).sum_calls ≡ count_if (in_currency c) us)
      × (sum_of (line_spent c) t.lines ≡ sum_of (spent_in c) us)
unfolding sum_usage empty_totals lookup
sum_usage-costs c us ne =
    let (p, q, r) = merge_rows-costs c empty_totals us tt (ground (arith, ne, eq_iff c "")) in
    (omega (arith, p), omega (arith, q), omega (arith, r))
