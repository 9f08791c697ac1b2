-- ===== src/Usage/Unpriced.antt =====
-- The total of the first currency, and the calls that it leaves out.
use agentic_kit.Base.{
  ℕ, suc, ◌+◌, ◌-◌, ◌≡◌, refl, sym, ap, subst, ◌∙◌, Bool, false, List, [], ◌∷◌, none, some, String,
  str_eq, if◌then◌else◌, is_text, arith, sum_of, Option-cases, inl, inr, count_if, length, any,
}
use agentic_kit.Usage.{
  NewUsage, UsageTotals, Cost, empty_totals, add_group, row_group, merge_rows, sum_usage, micros_of,
  currency_of, text_of,
}
use agentic_kit.Usage.Money.{in_currency, spent_in}
use agentic_kit.Usage.Currencies.{add_group_free, add_group_paid}

abbrev FirstIn : String → UsageTotals → NewUsage → UsageTotals → Type 0
FirstIn c out u t =
    (t.all_currency ≡ some c)
    × (t.all_cost_micros ≡ out.all_cost_micros + spent_in c u)
    × (t.unpriced + (if in_currency c u then 1 else 0) ≡ out.unpriced + 1)

paid_if : (b : Bool) (n m : ℕ) → (if b then n + m else n) ≡ n + (if b then m else 0)
paid_if b n m = ground arith

unpriced_if :
    (b : Bool) (n : ℕ) → (if b then n + 0 else (n + 0) + (1 - 0)) + (if b then 1 else 0) ≡ n + 1
unpriced_if b n = ground arith

-- With a currency taken already, a call counts in it or as unpriced.
first-add_group :
    (out : UsageTotals) (u : NewUsage) (c : String)
    → out.all_currency ≡ some c
    → str_eq c "" ≡ false
    → in_currency "" u ≡ false
    → FirstIn c out u (add_group out (row_group u))
unfolding row_group
first-add_group out u c e n named = elim (Option-cases u.cost) [
  | inl none_there ↦
      subst (FirstIn c out u)
        (sym (
          add_group_free out (row_group u)
            (ap (λ o. str_eq (text_of (currency_of o)) "") none_there)))
        (e, rw none_there (omega arith), rw none_there (omega arith))
  | inr (k, there) ↦
      subst (FirstIn c out u)
        (sym (
          add_group_paid out (row_group u)
            (ap (λ o. str_eq (text_of (currency_of o)) "") there ∙ (rw there at named))))
        (
          rw e refl,
          rw (there, e) (paid_if (str_eq k.currency c) out.all_cost_micros k.micros),
          rw (there, e) (unpriced_if (str_eq k.currency c) out.unpriced),
        )
]

merge_rows-first :
    (out : UsageTotals) (us : List NewUsage) (c : String)
    → out.all_currency ≡ some c
    → str_eq c "" ≡ false
    → any (in_currency "") us ≡ false
    → let t = merge_rows out us in
      (t.all_currency ≡ some c)
      × (t.all_cost_micros ≡ out.all_cost_micros + sum_of (spent_in c) us)
      × (t.unpriced + count_if (in_currency c) us ≡ out.unpriced + length us)
unfolding merge_rows
merge_rows-first out [] c e n named = (e, omega arith, omega arith)
merge_rows-first out (u ∷ us) c e n named =
    let (p, q, r) = first-add_group out u c e n (ground (arith, named)) in
    let (p', q', r') =
      merge_rows-first (add_group out (row_group u)) us c p n (ground (arith, named)) in
    (p', omega (arith, q, q'), ground (arith, r, r'))

any-head :
    (p : NewUsage → Bool) (u : NewUsage) (us : List NewUsage) → any p (u ∷ us) ≡ false → p u ≡ false
any-head p u us h = ground (arith, h)

-- The first price sets the currency, as if it had been there before.
abbrev seeded : UsageTotals → Cost → UsageTotals
seeded out k = record out { all_currency = some k.currency }

seeded_same :
    (out : UsageTotals) (u : NewUsage) (k : Cost)
    → out.all_currency ≡ none
    → u.cost ≡ some k
    → str_eq k.currency "" ≡ false
    → add_group out (row_group u) ≡ add_group (seeded out k) (row_group u)
unfolding row_group
seeded_same out u k e there n =
    let named = ap (λ o. str_eq (text_of (currency_of o)) "") there ∙ n in
    add_group_paid out (row_group u) named
    ∙ rw (e, there) refl
    ∙ sym (add_group_paid (seeded out k) (row_group u) named)

merge_rows-none :
    (out : UsageTotals) (us : List NewUsage)
    → out.all_currency ≡ none
    → out.all_cost_micros ≡ 0
    → any (in_currency "") us ≡ false
    → let t = merge_rows out us in
      let c = text_of t.all_currency in
      (t.all_cost_micros ≡ sum_of (spent_in c) us)
      × (t.unpriced + count_if (in_currency c) us ≡ out.unpriced + length us)
unfolding merge_rows row_group
merge_rows-none out [] e z named = (z, omega arith)
merge_rows-none out (u ∷ us) e z named = elim (Option-cases u.cost) [
  | inl none_there ↦
      let free =
        add_group_free out (row_group u)
          (ap (λ o. str_eq (text_of (currency_of o)) "") none_there) in
      let (p, q) =
        merge_rows-none (add_group out (row_group u)) us (ap (λ t. t.all_currency) free ∙ e)
          (ap (λ t. t.all_cost_micros) free ∙ z) (ground (arith, named)) in
      let r : (add_group out (row_group u)).unpriced ≡ out.unpriced + 1 =
        ap (λ t. t.unpriced) free ∙ rw none_there refl in
      let c = text_of (merge_rows (add_group out (row_group u)) us).all_currency in
      let no = ap (λ o. is_text (currency_of o) c) none_there in
      (
        omega (arith, p, ap (λ b. if b then micros_of u.cost else 0) no),
        ap
              (λ b.
                (merge_rows (add_group out (row_group u)) us).unpriced
                + (if b then suc (count_if (in_currency c) us) else count_if (in_currency c) us))
              no
            ∙ omega (arith, q, r),
      )
  | inr (k, there) ↦
      let n : str_eq k.currency "" ≡ false = rw there at (any-head (in_currency "") u us named) in
      let (first, p, q) = merge_rows-first (seeded out k) (u ∷ us) k.currency refl n named in
      let same = ap (λ t. merge_rows t us) (seeded_same out u k e there n) in
      subst
        (λ t.
          (t.all_cost_micros ≡ sum_of (spent_in (text_of t.all_currency)) (u ∷ us))
          × (t.unpriced + count_if (in_currency (text_of t.all_currency)) (u ∷ us)
              ≡ out.unpriced + length (u ∷ us)))
        (sym same)
        (
          p ∙ omega (arith, z) ∙ sym (ap (λ o. sum_of (spent_in (text_of o)) (u ∷ us)) first),
          ap
                (λ o.
                  (merge_rows (seeded out k) (u ∷ us)).unpriced
                  + count_if (in_currency (text_of o)) (u ∷ us))
                first
              ∙ q,
        )
]

-- Where every price names its currency: the one cost that is shown is the money of the calls priced
-- in the totals' currency, and every other call is counted as unpriced.
pub sum_usage-unpriced :
    (us : List NewUsage)
    → any (in_currency "") us ≡ false
    → let t = sum_usage us in
      let c = text_of t.all_currency in
      (t.all_cost_micros ≡ sum_of (spent_in c) us)
      × (t.unpriced + count_if (in_currency c) us ≡ length us)
unfolding sum_usage empty_totals
sum_usage-unpriced us named =
    let (p, q) = merge_rows-none empty_totals us refl refl named in (p, omega (arith, q))
