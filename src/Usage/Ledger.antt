-- ===== src/Usage/Ledger.antt =====
-- A run's ledger, `price`, `store`, `recordCall`, `RunLedger` and `seedRunLedger` of
-- packages/agentenkit/src/core/usage.ts. The pricer is the application's: it is a function that fails
-- (`throws`) or answers. The rows of a thread are a list, and a write that fails leaves it as it is.
use agentic_kit.Base.{
  ℕ, ◌+◌, Bool, List, [], ◌∷◌, ◌++◌, Option, none, some, String, str_eq, if◌then◌else◌, or_else,
  is_some,
}
use agentic_kit.Usage.{NewUsage, Cost, UsageTotals, micros_of}

pub data Priced : Type 0 where
  throws : Priced
  answers : Option Cost → Priced

-- `Pricer`, absent or there.
abbrev pub Pricer : Type 0
Pricer = Option (NewUsage → Priced)

abbrev pub answer_of : Priced → Option Cost
answer_of throws = none
answer_of (answers c) = c

unfoldable pub price : Pricer → NewUsage → NewUsage
price none u = u
price (some ask) u = if is_some u.cost then u else record u { cost = answer_of (ask u) }

-- `writes` tells whether the storage takes the row.
unfoldable pub store : Bool → List NewUsage → NewUsage → List NewUsage
store writes rows u = if writes then rows ++ (u ∷ []) else rows

unfoldable pub record_call : Pricer → Bool → List NewUsage → NewUsage → List NewUsage × NewUsage
record_call pricer writes rows u = (store writes rows (price pricer u), price pricer u)

pub record RunLedger : Type 0 where
  pub tokens_used : ℕ
  pub cost_micros : ℕ
  pub ledger_currency : Option String

-- `this.currency ??= priced.cost.currency`.
abbrev pub taken_currency : Option String → Option Cost → Option String
taken_currency c none = c
taken_currency c (some k) = some (or_else c k.currency)

-- The cost is dropped when it is in another currency than the ledger's.
abbrev pub one_currency : Option String → Option Cost → Option Cost
one_currency c none = none
one_currency c (some k) = if str_eq k.currency (or_else c k.currency) then some k else none

unfoldable pub hold : RunLedger → NewUsage → NewUsage
hold l u = record u { cost = one_currency l.ledger_currency u.cost }

unfoldable pub book : RunLedger → NewUsage → RunLedger
book l u =
    let held = hold l u in
    record {
      tokens_used = l.tokens_used + held.total_tokens;
      cost_micros = l.cost_micros + micros_of held.cost;
      ledger_currency = taken_currency l.ledger_currency u.cost;
    }

-- `RunLedger.record`.
unfoldable pub record_in :
    Pricer → Bool → RunLedger × List NewUsage → NewUsage → RunLedger × List NewUsage
record_in pricer writes (l, rows) u =
    let priced = price pricer u in (book l priced, store writes rows (hold l priced))

abbrev pub new_ledger : RunLedger
new_ledger = record { tokens_used = 0; cost_micros = 0; ledger_currency = none }

-- `seedRunLedger`, whose read of the run's totals may fail.
unfoldable pub seed_run_ledger : Option String → Option UsageTotals → RunLedger
seed_run_ledger none spent = new_ledger
seed_run_ledger (some run_id) none = new_ledger
seed_run_ledger (some run_id) (some t) = record {
  tokens_used = t.all_total_tokens;
  cost_micros = t.all_cost_micros;
  ledger_currency = t.all_currency;
}
