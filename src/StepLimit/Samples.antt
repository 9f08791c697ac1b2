-- ===== src/StepLimit/Samples.antt =====
-- A slow call moves the end of its step out, and the step goes back once it returns.
use agentic_kit.Base.{◌≡◌, refl, true, some}
use agentic_kit.StepLimit.{
  StepLimit, step_limit, latest_end, rearm, arm, begin, finish, fire, expire,
}

abbrev slow : StepLimit
slow = (begin (step_limit 10 100) 105 50).0

slow_timer : slow.timer ≡ some (155, 50)
unfolding step_limit begin rearm arm latest_end
slow_timer = refl

returned_timer : (finish slow 120 1).timer ≡ some (130, 10)
unfolding step_limit begin rearm arm latest_end finish
returned_timer = refl

overrun : (fire (finish slow 120 1) 130).1 ≡ true
unfolding step_limit begin rearm arm latest_end finish fire expire
overrun = refl
