-- ===== src/StepLimit.antt =====
-- The wall-time limit of a step, `StepLimit` in packages/agentenkit/src/core/steplimit.ts. The clock is an
-- argument. `timer` is when the armed timer fires, with the limit that it then reports; the running
-- timed calls are a map by their number, in the order of their starts.
pub mod Latest
mod Samples
use agentic_kit.Base.{
  ℕ, suc, ◌+◌, max, Bool, true, false, not, ◌&&◌, ◌||◌, List, [], ◌∷◌, ◌++◌, Option, none, some,
  ltb, ◌==◌, if◌then◌else◌, keep_if,
}

pub record TimedCall : Type 0 where
  pub id : ℕ
  pub call_end : ℕ
  pub call_limit : ℕ

pub record StepLimit : Type 0 where
  pub base : ℕ
  pub base_end : ℕ
  pub step_end : ℕ
  pub calls : List TimedCall
  pub next_id : ℕ
  pub done : Bool
  pub limit : ℕ
  pub expired : Bool
  pub timer : Option (ℕ × ℕ)

unfoldable pub arm : StepLimit → ℕ → ℕ → StepLimit
arm s at limit = record s { step_end = at; limit = limit; timer = some (at, limit) }

-- The constructor.
unfoldable pub step_limit : ℕ → ℕ → StepLimit
step_limit base now =
    let s : StepLimit = record {
      base = base;
      base_end = 0;
      step_end = 0;
      calls = [];
      next_id = 0;
      done = false;
      limit = base;
      expired = false;
      timer = none;
    } in
    if ltb 0 base then arm (record s { base_end = now + base }) (now + base) base else s

-- The loop over the calls: the latest end, with its limit.
unfoldable pub latest_end : ℕ × ℕ → List TimedCall → ℕ × ℕ
latest_end (at, limit) [] = (at, limit)
latest_end (at, limit) (c ∷ cs) =
    latest_end (if ltb at c.call_end then (c.call_end, c.call_limit) else (at, limit)) cs

unfoldable pub rearm : StepLimit → StepLimit
rearm s =
    let (at, limit) = latest_end (s.base_end, s.base) s.calls in
    if s.done || (s.expired || (s.base_end == 0))
    then s
    else (if at == s.step_end then s else arm s at limit)

-- `Map.set` with a number that is not in the map yet goes last.
unfoldable pub begin : StepLimit → ℕ → ℕ → StepLimit × ℕ
begin s now ms =
    let id = suc s.next_id in
    let call : TimedCall = record { id = id; call_end = now + ms; call_limit = ms } in
    (rearm (record s { next_id = id; calls = s.calls ++ (call ∷ []) }), id)

unfoldable pub finish : StepLimit → ℕ → ℕ → StepLimit
finish s now id =
    let rest = record s { calls = keep_if (λ c. not (c.id == id)) s.calls } in
    rearm
      (if s.base_end == 0 then rest else record rest { base_end = max s.base_end (now + s.base) })

-- Whether it aborts the step.
unfoldable pub expire : StepLimit → ℕ → StepLimit × Bool
expire s limit =
    if s.done || s.expired then (s, false) else (record s { expired = true; limit = limit }, true)

-- The timer fires.
abbrev pub fired : StepLimit → ℕ → Option (ℕ × ℕ) → StepLimit × Bool
fired s now none = (s, false)
fired s now (some (at, limit)) =
    let over = expire (record s { timer = none }) limit in if ltb now at then (s, false) else over

unfoldable pub fire : StepLimit → ℕ → StepLimit × Bool
fire s now = fired s now s.timer

unfoldable pub stop : StepLimit → StepLimit
stop s = record s { done = true; timer = none }
