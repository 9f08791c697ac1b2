-- ===== src/Usage/Money.antt =====
-- The money of the totals.
use agentic_kit.Base.{
  ℕ, ◌+◌, ◌≡◌, refl, Bool, true, false, ◌&&◌, ◌||◌, List, [], ◌∷◌, Option, none, some, String,
  str_eq, eq_iff, if◌then◌else◌, or_else, is_text, arith, sum_of, Bool-cases, inl, inr, lookup, All,
}
use agentic_kit.Usage.{
  NewUsage, UsageLine, UsageTotals, CurrencyCost, no_cost, merged, merged_currency, add_line,
  same_key, takes, micros_of, currency_of, text_of,
}

-- A call, and a line, in a currency, and its money there.
abbrev pub in_currency : String → NewUsage → Bool
in_currency c u = is_text (currency_of u.cost) c

abbrev pub spent_in : String → NewUsage → ℕ
spent_in c u = if in_currency c u then micros_of u.cost else 0

abbrev pub line_spent : String → UsageLine → ℕ
line_spent c l = if is_text l.line_currency c then l.line_cost_micros else 0

abbrev pub cost_in : String → UsageTotals → CurrencyCost
cost_in c t = or_else (lookup c t.costs) no_cost

-- A line with no currency has no money.
abbrev pub IsFree : UsageLine → Type 0
IsFree l = str_eq (text_of l.line_currency) "" ≡ true → l.line_cost_micros ≡ 0

or_false : (b : Bool) → (b || false) ≡ true → b ≡ true
or_false b h = ground (arith, h)

-- The money of a merged line, from that of its parts.
money :
    (c currency : String) (o : Option String) (m n : ℕ)
    → str_eq currency "" ≡ false
    → (str_eq (text_of o) currency || str_eq (text_of o) "") ≡ true
    → (str_eq (text_of o) "" ≡ true → m ≡ 0)
    → (if is_text (merged_currency o currency) c then m + n else 0)
      ≡ (if is_text o c then m else 0) + (if str_eq currency c then n else 0)
money c currency none m n named t free = rw named (rw (free refl) (ground arith))
money c currency (some k) m n named t free = elim (Bool-cases (str_eq k "")) [
  | inl e ↦ rw e (rw named (rw (free e) (ground arith)))
  | inr e ↦ rw e (rw ((eq_iff k currency).0 (or_false _ (rw e at t))) (ground arith))
]

-- A call's line joins the lines: the money of each currency grows by the call's.
pub add_line-line_spent :
    (c currency : String) (xs : List UsageLine) (l : UsageLine)
    → str_eq currency "" ≡ false
    → l.line_currency ≡ some currency
    → All IsFree xs
    → sum_of (line_spent c) (add_line xs l currency)
      ≡ sum_of (line_spent c) xs + (if str_eq currency c then l.line_cost_micros else 0)
unfolding add_line merged
add_line-line_spent c currency [] l named p h = rw p (ground arith)
add_line-line_spent c currency (x ∷ xs) l named p (free, h) =
    elim (Bool-cases (same_key x l && takes x currency)) [
      | inl e ↦
          let m =
            money c currency x.line_currency x.line_cost_micros l.line_cost_micros named
              (fit (same_key x l) named e) free in
          rw e (omega (arith, m))
      | inr e ↦ rw e (omega (arith, add_line-line_spent c currency xs l named p h))
    ]
  where
    fit :
        (b : Bool)
        → str_eq currency "" ≡ false
        → (b && takes x currency) ≡ true
        → (str_eq (text_of x.line_currency) currency || str_eq (text_of x.line_currency) "") ≡ true
    fit true q e = ground (arith, q, e)
    fit false q e = absurd (ground (arith, e))

unmerged : (o : Option String) → merged_currency o "" ≡ o
unmerged o = elim (Bool-cases (str_eq (text_of o) "")) [ inl e ↦ rw e refl | inr e ↦ rw e refl ]

free_merge :
    (o : Option String) (currency : String) (m n : ℕ)
    → (str_eq currency "" ≡ true → n ≡ 0)
    → (str_eq (text_of o) "" ≡ true → m ≡ 0)
    → str_eq (text_of (merged_currency o currency)) "" ≡ true
    → m + n ≡ 0
free_merge o currency m n z free q = elim (Bool-cases (str_eq (text_of o) "")) [
  | inl e ↦ elim (Bool-cases (str_eq currency "")) [
    | inl k ↦ omega (arith, z k, free e)
    | inr k ↦ absurd (ground (arith, rw (e, k) at q, k))
  ]
  | inr e ↦ absurd (ground (arith, rw e at q, e))
]

pub add_line-free :
    (c : String) (xs : List UsageLine) (l : UsageLine)
    → l.line_currency ≡ none
    → l.line_cost_micros ≡ 0
    → sum_of (line_spent c) (add_line xs l "") ≡ sum_of (line_spent c) xs
unfolding add_line merged
add_line-free c [] l p z = rw p (ground arith)
add_line-free c (x ∷ xs) l p z = elim (Bool-cases (same_key x l && takes x "")) [
  | inl e ↦ rw e (rw z (rw (unmerged x.line_currency) (ground arith)))
  | inr e ↦ rw e (omega (arith, add_line-free c xs l p z))
]

pub add_line-IsFree :
    (currency : String) (xs : List UsageLine) (l : UsageLine)
    → (str_eq currency "" ≡ true → l.line_cost_micros ≡ 0)
    → IsFree l
    → All IsFree xs
    → All IsFree (add_line xs l currency)
unfolding add_line merged
add_line-IsFree currency [] l z f h = (f, tt)
add_line-IsFree currency (x ∷ xs) l z f (free, h) =
    elim (Bool-cases (same_key x l && takes x currency)) [
      | inl e ↦ rw e (merged_free, h)
      | inr e ↦ rw e (free, add_line-IsFree currency xs l z f h)
    ]
  where
    merged_free :
        str_eq (text_of (merged_currency x.line_currency currency)) "" ≡ true
        → x.line_cost_micros + l.line_cost_micros ≡ 0
    merged_free q =
        free_merge x.line_currency currency x.line_cost_micros l.line_cost_micros z free q
