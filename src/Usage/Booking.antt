-- ===== src/Usage/Booking.antt =====
-- A run's ledger agrees with the rows that it stored.
use agentic_kit.Base.{
  ℕ, ◌+◌, ◌≡◌, refl, sym, ap, Bool, true, false, List, [], ◌∷◌, ◌++◌, Option, none, some, String,
  str_eq, if◌then◌else◌, eq_iff, arith, sum_of, Bool-cases, inl, inr,
}
use agentic_kit.Usage.{NewUsage, Cost, micros_of}
use agentic_kit.Usage.Ledger.{
  RunLedger, Pricer, price, store, hold, book, record_in, taken_currency, one_currency, new_ledger,
}

unfoldable pub record_all :
    Pricer → RunLedger × List NewUsage → List NewUsage → RunLedger × List NewUsage
record_all pricer s [] = s
record_all pricer s (u ∷ us) = record_all pricer (record_in pricer true s u) us

-- The rows of a run are in the ledger's currency.
abbrev pub IsIn : Option String → Option Cost → Type 0
IsIn c none = Unit
IsIn c (some k) = c ≡ some k.currency

abbrev pub AllIn : Option String → List NewUsage → Type 0
AllIn c [] = Unit
AllIn c (u ∷ us) = IsIn c u.cost × AllIn c us

sum-snoc :
    (f : NewUsage → ℕ) (us : List NewUsage) (u : NewUsage)
    → sum_of f (us ++ (u ∷ [])) ≡ sum_of f us + f u
sum-snoc f [] u = omega arith
sum-snoc f (x ∷ us) u = omega (arith, sum-snoc f us u)

one_currency-IsIn :
    (c : Option String) (o : Option Cost) → IsIn (taken_currency c o) (one_currency c o)
one_currency-IsIn c none = tt
one_currency-IsIn none (some k) = kept (str_eq k.currency k.currency)
  where
    kept : (b : Bool) → IsIn (some k.currency) (if b then some k else none)
    kept true = refl
    kept false = tt
one_currency-IsIn (some c) (some k) = elim (Bool-cases (str_eq k.currency c)) [
  | inl e ↦ rw e (ap some (sym ((eq_iff k.currency c).0 e)))
  | inr e ↦ rw e tt
]

-- A currency that is taken stays.
taken-IsIn : (c : Option String) (o p : Option Cost) → IsIn c p → IsIn (taken_currency c o) p
taken-IsIn c none p h = h
taken-IsIn none (some k) none h = tt
taken-IsIn none (some k) (some j) h = absurd (ground (arith, h))
taken-IsIn (some c) (some k) p h = h

AllIn-snoc :
    (c : Option String) (o : Option Cost) (us : List NewUsage) (u : NewUsage)
    → AllIn c us
    → IsIn (taken_currency c o) u.cost
    → AllIn (taken_currency c o) (us ++ (u ∷ []))
AllIn-snoc c o [] u h k = (k, tt)
AllIn-snoc c o (x ∷ us) u (p, h) k = (taken-IsIn c o x.cost p, AllIn-snoc c o us u h k)

-- However the pricer answers, or fails, over any calls of a new run whose rows are all written: the
-- ledger has the tokens and the money of the stored rows, and these are all in one currency, the
-- ledger's.
pub record_all-booked :
    (pricer : Pricer) (us : List NewUsage)
    → let (l, rows) = record_all pricer (new_ledger, []) us in
      (l.tokens_used ≡ sum_of (λ u. u.total_tokens) rows)
      × (l.cost_micros ≡ sum_of (λ u. micros_of u.cost) rows)
      × AllIn l.ledger_currency rows
unfolding record_all record_in store book hold
record_all-booked pricer us = booked new_ledger [] us (refl, refl, tt)
  where
    Booked : RunLedger → List NewUsage → Type 0
    Booked l rows =
        (l.tokens_used ≡ sum_of (λ u. u.total_tokens) rows)
        × (l.cost_micros ≡ sum_of (λ u. micros_of u.cost) rows)
        × AllIn l.ledger_currency rows

    booked :
        (l : RunLedger) (rows us : List NewUsage)
        → Booked l rows
        → Booked (record_all pricer (l, rows) us).0 (record_all pricer (l, rows) us).1
    booked l rows [] h = h
    booked l rows (u ∷ us) (p, q, r) =
        let priced = price pricer u in
        let held = hold l priced in
        booked (book l priced) (rows ++ (held ∷ [])) us (
          omega (arith, p, sum-snoc (λ v. v.total_tokens) rows held),
          omega (arith, q, sum-snoc (λ v. micros_of v.cost) rows held),
          AllIn-snoc l.ledger_currency priced.cost rows held r
              (one_currency-IsIn l.ledger_currency priced.cost),
        )
