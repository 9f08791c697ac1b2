-- ===== src/StepLimit/Latest.antt =====
-- A step ends when the last of its limits does, and it is aborted once.
use agentic_kit.Base.{
  ℕ, suc, ◌≤◌, ◌≡◌, max, Bool, true, not, ◌&&◌, List, [], ◌∷◌, some, ◌==◌, if◌then◌else◌,
}
use agentic_kit.StepLimit.{TimedCall, StepLimit, step_limit, begin, finish, expire, fire, stop}

-- The latest of the step's own end and the ends of the calls that run.
abbrev pub top_end : ℕ → List TimedCall → ℕ
top_end own [] = own
top_end own (c ∷ cs) = max c.call_end (top_end own cs)

-- The step runs, and has a limit.
abbrev pub is_running : StepLimit → Bool
is_running s = not s.done && (not s.expired && not (s.base_end == 0))

abbrev HasTimer : StepLimit → Type 0
HasTimer s = is_running s ≡ true → s.timer ≡ some (s.step_end, s.limit)

abbrev pub IsTimed : StepLimit → Type 0
IsTimed s =
    is_running s ≡ true
    → (s.step_end ≡ top_end s.base_end s.calls) × (s.timer ≡ some (s.step_end, s.limit))

-- A step's limit, and how often the step was aborted.
pub record Limited : Type 0 where
  pub step : StepLimit
  pub aborts : ℕ

abbrev counted : ℕ → StepLimit × Bool → Limited
counted n (s, aborted) = record { step = s; aborts = if aborted then suc n else n }

pub data Step (w : Limited) : Limited → Type 0 where
  begins : (now ms : ℕ) → Step w (record w { step = (begin w.step now ms).0 })
  finishes : (now id : ℕ) → Step w (record w { step = finish w.step now id })
  fires : (now : ℕ) → Step w (counted w.aborts (fire w.step now))
  -- A call that ran past its own limit.
  expires : (limit : ℕ) → Step w (counted w.aborts (expire w.step limit))
  stops : Step w (record w { step = stop w.step })

pub data Reach (w : Limited) : Limited → Type 0 where
  here : Reach w w
  next : {t u : Limited} → Reach w t → Step t u → Reach w u

abbrev IsOnce : Limited → Type 0
IsOnce w = IsTimed w.step × (w.aborts ≤ (if w.step.expired then 1 else 0))

abbrev pub started : ℕ → ℕ → Limited
started base now = record { step = step_limit base now; aborts = 0 }
