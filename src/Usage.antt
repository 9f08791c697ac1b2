-- ===== src/Usage.antt =====
-- What model calls used and cost, in total, packages/agentenkit/src/core/usage.ts (UsageMerger and
-- sumUsage) and the usage types of packages/agentenkit/src/core/types.ts. The merger's maps from a
-- key to the places of its lines and costs are left out: the place is searched for in order, which
-- finds the same one. `null` and an absent value are one.
pub mod Counters
pub mod Money
pub mod Currencies
pub mod Unpriced
pub mod Ledger
pub mod Booking
mod Samples
use agentic_kit.Base.{
  ℕ, ◌+◌, ◌-◌, Bool, true, false, not, ◌&&◌, ◌||◌, List, [], ◌∷◌, Option, none, some, String, Dict,
  lookup, insert, str_eq, if◌then◌else◌, or_else, is_some,
}

pub data UsageOutcome : Type 0 where
  finished aborted error : UsageOutcome

pub data UsageKind : Type 0 where
  step compaction tool : UsageKind

pub data CostSource : Type 0 where
  receipt table estimate : CostSource

-- The money that one call cost.
pub record Cost : Type 0 where
  pub micros : ℕ
  pub currency : String
  pub source : CostSource

-- One call. What the provider attached to it stands as its JSON.
pub record NewUsage : Type 0 where
  pub run_id : Option String
  pub agent_id : Option String
  pub agent_name : Option String
  pub kind : UsageKind
  pub step_number : ℕ
  pub model : Option String
  pub model_id : Option String
  pub input_tokens : ℕ
  pub cache_read_input_tokens : ℕ
  pub cache_write_input_tokens : ℕ
  pub output_tokens : ℕ
  pub reasoning_tokens : ℕ
  pub total_tokens : ℕ
  pub outcome : UsageOutcome
  pub estimated : Bool
  pub provider_metadata : Option String
  pub cost : Option Cost

pub record UsageLine : Type 0 where
  pub line_agent_id : Option String
  pub line_agent_name : Option String
  pub line_model : Option String
  pub line_model_id : Option String
  pub line_currency : Option String
  pub line_input_tokens : ℕ
  pub line_cache_read_input_tokens : ℕ
  pub line_cache_write_input_tokens : ℕ
  pub line_output_tokens : ℕ
  pub line_reasoning_tokens : ℕ
  pub line_calls : ℕ
  pub line_estimated : ℕ
  pub line_cost_micros : ℕ

-- The money in one currency.
pub record CurrencyCost : Type 0 where
  pub sum_micros : ℕ
  pub sum_calls : ℕ

pub record UsageTotals : Type 0 where
  pub all_input_tokens : ℕ
  pub all_cached_input_tokens : ℕ
  pub all_output_tokens : ℕ
  pub all_total_tokens : ℕ
  pub all_cost_micros : ℕ
  pub all_currency : Option String
  pub unpriced : ℕ
  pub costs : Dict CurrencyCost
  pub lines : List UsageLine

pub record UsageGroup : Type 0 where
  pub line : UsageLine
  pub group_currency : Option String
  pub group_total_tokens : ℕ
  pub group_unpriced : ℕ

unfoldable pub empty_totals : UsageTotals
empty_totals = record {
  all_input_tokens = 0;
  all_cached_input_tokens = 0;
  all_output_tokens = 0;
  all_total_tokens = 0;
  all_cost_micros = 0;
  all_currency = none;
  unpriced = 0;
  costs = [];
  lines = [];
}

abbrev pub text_of : Option String → String
text_of o = or_else o ""

-- Whether `key` is the same for two lines.
abbrev pub same_key : UsageLine → UsageLine → Bool
same_key x l =
    str_eq (text_of x.line_agent_id) (text_of l.line_agent_id)
    && (str_eq (text_of x.line_agent_name) (text_of l.line_agent_name)
        && (str_eq (text_of x.line_model) (text_of l.line_model)
            && str_eq (text_of x.line_model_id) (text_of l.line_model_id)))

-- Whether a line takes a call in a currency, the empty text for none.
abbrev pub takes : UsageLine → String → Bool
takes x currency =
    str_eq currency ""
    || (str_eq (text_of x.line_currency) currency || str_eq (text_of x.line_currency) "")

abbrev pub merged_currency : Option String → String → Option String
merged_currency c currency =
    if str_eq (text_of c) "" && not (str_eq currency "") then some currency else c

unfoldable pub merged : UsageLine → UsageLine → String → UsageLine
merged x l currency = record x {
  line_currency = merged_currency x.line_currency currency;
  line_input_tokens = x.line_input_tokens + l.line_input_tokens;
  line_cache_read_input_tokens = x.line_cache_read_input_tokens + l.line_cache_read_input_tokens;
  line_cache_write_input_tokens = x.line_cache_write_input_tokens + l.line_cache_write_input_tokens;
  line_output_tokens = x.line_output_tokens + l.line_output_tokens;
  line_reasoning_tokens = x.line_reasoning_tokens + l.line_reasoning_tokens;
  line_calls = x.line_calls + l.line_calls;
  line_estimated = x.line_estimated + l.line_estimated;
  line_cost_micros = x.line_cost_micros + l.line_cost_micros;
}

unfoldable pub add_line : List UsageLine → UsageLine → String → List UsageLine
add_line [] l currency = l ∷ []
add_line (x ∷ xs) l currency =
    let rest = add_line xs l currency in
    if same_key x l && takes x currency then merged x l currency ∷ xs else x ∷ rest

abbrev pub no_cost : CurrencyCost
no_cost = record { sum_micros = 0; sum_calls = 0 }

unfoldable pub add_cost : Dict CurrencyCost → String → ℕ → ℕ → Dict CurrencyCost
add_cost costs currency micros priced =
    let old = or_else (lookup currency costs) no_cost in
    insert currency (grown old micros priced) costs
  where
    grown : CurrencyCost → ℕ → ℕ → CurrencyCost
    grown old m n = record { sum_micros = old.sum_micros + m; sum_calls = old.sum_calls + n }

-- `out.currency ??= currency`.
abbrev pub or_first : Option String → String → String
or_first c currency = or_else c currency

-- The counters that every group adds to.
abbrev pub count_group : UsageTotals → UsageGroup → UsageTotals
count_group out g = record out {
  all_input_tokens = out.all_input_tokens + g.line.line_input_tokens;
  all_cached_input_tokens = out.all_cached_input_tokens + g.line.line_cache_read_input_tokens;
  all_output_tokens = out.all_output_tokens + g.line.line_output_tokens;
  all_total_tokens = out.all_total_tokens + g.group_total_tokens;
  unpriced = out.unpriced + g.group_unpriced;
}

-- The money of a group in a currency.
abbrev pub pay_group : UsageTotals → UsageGroup → String → UsageTotals
pay_group out g currency =
    let priced = g.line.line_calls - g.group_unpriced in
    let first = or_first out.all_currency currency in
    let is_first = str_eq currency first in
    record out {
      costs = add_cost out.costs currency g.line.line_cost_micros priced;
      all_currency = some first;
      all_cost_micros =
          if is_first then out.all_cost_micros + g.line.line_cost_micros else out.all_cost_micros;
      unpriced = if is_first then out.unpriced else out.unpriced + priced;
    }

unfoldable pub add_group : UsageTotals → UsageGroup → UsageTotals
add_group out g =
    let currency = text_of g.group_currency in
    let counted = count_group out g in
    let unpaid = record g.line { line_cost_micros = 0; line_currency = none } in
    let paid = record g.line { line_currency = some currency } in
    if str_eq currency ""
    then record counted { lines = add_line out.lines unpaid currency }
    else record (pay_group counted g currency) { lines = add_line out.lines paid currency }

abbrev pub count_bool : Bool → ℕ
count_bool true = 1
count_bool false = 0

abbrev pub micros_of : Option Cost → ℕ
micros_of none = 0
micros_of (some c) = c.micros

abbrev pub currency_of : Option Cost → Option String
currency_of none = none
currency_of (some c) = some c.currency

-- The group that `sumUsage` makes of a call.
unfoldable pub row_group : NewUsage → UsageGroup
row_group u = record {
  line = record {
    line_agent_id = u.agent_id;
    line_agent_name = u.agent_name;
    line_model = u.model;
    line_model_id = u.model_id;
    line_currency = none;
    line_input_tokens = u.input_tokens;
    line_cache_read_input_tokens = u.cache_read_input_tokens;
    line_cache_write_input_tokens = u.cache_write_input_tokens;
    line_output_tokens = u.output_tokens;
    line_reasoning_tokens = u.reasoning_tokens;
    line_calls = 1;
    line_estimated = count_bool u.estimated;
    line_cost_micros = micros_of u.cost;
  };
  group_currency = currency_of u.cost;
  group_total_tokens = u.total_tokens;
  group_unpriced = if is_some u.cost then 0 else 1;
}

unfoldable pub merge_rows : UsageTotals → List NewUsage → UsageTotals
merge_rows out [] = out
merge_rows out (u ∷ us) = merge_rows (add_group out (row_group u)) us

unfoldable pub sum_usage : List NewUsage → UsageTotals
sum_usage rows = merge_rows empty_totals rows
