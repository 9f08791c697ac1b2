-- ===== src/Usage/Samples.antt =====
-- Totals and ledgers of concrete calls.
use agentic_kit.Base.{
  ◌≡◌, ◌≢◌, false, List, [], ◌∷◌, Option, none, some, String, eq_iff, arith, sum_of, count_if,
}
use agentic_kit.Usage.{NewUsage, Cost, sum_usage, finished, step, table, micros_of}
use agentic_kit.Usage.Money.{cost_in, spent_in, in_currency, line_spent}
use agentic_kit.Usage.Currencies.{sum_usage-costs}
use agentic_kit.Usage.Ledger.{Pricer, answers, new_ledger}
use agentic_kit.Usage.Booking.{record_all, AllIn, record_all-booked}

abbrev spent : Option Cost → NewUsage
spent c = record {
  run_id = some "r";
  agent_id = none;
  agent_name = some "main";
  kind = step;
  step_number = 1;
  model = some "m";
  model_id = none;
  input_tokens = 10;
  cache_read_input_tokens = 5;
  cache_write_input_tokens = 0;
  output_tokens = 3;
  reasoning_tokens = 0;
  total_tokens = 18;
  outcome = finished;
  estimated = false;
  provider_metadata = none;
  cost = c;
}

abbrev in_dollars : Cost
in_dollars = record { micros = 40; currency = "USD"; source = table }

abbrev in_euros : Cost
in_euros = record { micros = 25; currency = "EUR"; source = table }

abbrev calls : List NewUsage
calls = spent none ∷ spent (some in_dollars) ∷ spent (some in_euros) ∷ []

sum_usage-costs_example :
    let t = sum_usage calls in
    ((cost_in "EUR" t).sum_micros ≡ sum_of (spent_in "EUR") calls)
    × ((cost_in "EUR" t).sum_calls ≡ count_if (in_currency "EUR") calls)
    × (sum_of (line_spent "EUR") t.lines ≡ sum_of (spent_in "EUR") calls)
sum_usage-costs_example = sum_usage-costs "EUR" calls named
  where
    named : ◌≢◌ {A = String} "EUR" ""
    named e = absurd (ground (arith, (eq_iff "EUR" "").1 e))

abbrev pricer : Pricer
pricer = some λ u. answers (some in_dollars)

record_all-booked_example :
    let (l, rows) = record_all pricer (new_ledger, []) calls in
    (l.tokens_used ≡ sum_of (λ u. u.total_tokens) rows)
    × (l.cost_micros ≡ sum_of (λ u. micros_of u.cost) rows)
    × AllIn l.ledger_currency rows
record_all-booked_example = record_all-booked pricer calls
