-- ===== src/Kv/Samples.antt =====
-- The store at concrete inputs.
use agentic_kit.Base.{ℕ, suc, zero, ◌≡◌, refl, ap, true, false, some, String, arith, lookup, insert}
use agentic_kit.Kv.{Kv, Numerals, init, sweep, get, get_entry, set, set_if_value_end, incr}
use agentic_kit.Kv.Reads.{read, set_if_value_race}

-- Numbers written in strokes.
abbrev strokes : ℕ → String
strokes zero = String.[]
strokes (suc n) = String.◌∷◌ "1" (strokes n)

abbrev count_strokes : String → ℕ
count_strokes String.[] = 0
count_strokes (String.◌∷◌ c s) = suc (count_strokes s)

pub count_strokes-strokes : (n : ℕ) → count_strokes (strokes n) ≡ n
count_strokes-strokes zero = refl
count_strokes-strokes (suc n) = ap suc (count_strokes-strokes n)

abbrev pub unary : Numerals
unary = record {
  Num = ℕ;
  zero_num = 0;
  next = λ n. suc n;
  to_text = strokes;
  of_text = count_strokes;
  of_text-to_text = count_strokes-strokes;
}

abbrev held : Kv
held = (set (init 0) "lock" "a" 30 true 5).0

set_twice : (set held "lock" "b" 30 true 30005).1 ≡ false
unfolding set sweep init lookup insert
set_twice = refl

set_after_expiry : (set held "lock" "b" 30 true 30006).1 ≡ true
unfolding set sweep init lookup insert
set_after_expiry = refl

-- Two takeovers of one lock that overlap: both succeed.
set_if_value_race_example :
    let (s1, found) = get held "lock" 7 in
    let (s2, found') = get s1 "lock" 8 in
    let (s3, done) = set_if_value_end s2 found "lock" "a" "b" 30 9 in
    let (s4, done') = set_if_value_end s3 found' "lock" "a" "c" 30 10 in
    (done ≡ true) × (done' ≡ true) × (read s4 "lock" 11 ≡ some "c")
unfolding set sweep init lookup insert get get_entry set_if_value_end
set_if_value_race_example =
    set_if_value_race held "lock" "lock" "a" "a" "b" "c" 30 30 7 8 9 10 11 (omega arith)
      (omega arith)

-- `incr` goes on from a counter that is past its expiry; `incrWithExpiry` starts again.
incr_past : (incr unary (incr unary (init 0) "n" 0).0 "n" 1).1 ≡ 2
unfolding init sweep lookup insert incr
incr_past = refl
