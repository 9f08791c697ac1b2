-- ===== src/Kv/Counter.antt =====
-- The counters that calls of `incrWithExpiry` keep that do not overlap: numbered pickups, with a window that does not move.
use agentic_kit.Base.{
  ℕ, ◌+◌, ◌*◌, ◌≤◌, ◌<◌, ◌≡◌, refl, none, some, String, List, [], ◌∷◌, All, arith, eq_iff, lookup,
  lookup-insert,
}
use agentic_kit.Kv.{Kv, Numerals, get, get_entry, incr_with_expiry_end, incr_with_expiry_alone}
use agentic_kit.Kv.Reads.{read, get-read}

module _ (n : Numerals) where
  open n use {Num, zero_num, next, to_text, of_text, of_text-to_text}

  -- One increment for each time of the list; the results in order.
  unfoldable pub bumps : Kv → String → ℕ → List ℕ → Kv × List Num
  bumps s key ex [] = (s, [])
  bumps s key ex (t ∷ ts) =
      let (s', x) = incr_with_expiry_alone n s key ex t in
      let (s'', xs) = bumps s' key ex ts in (s'', x ∷ xs)

  -- The numbers after `x`, one for each of the times.
  abbrev pub series : Num → List ℕ → List Num
  series x [] = []
  series x (t ∷ ts) = next x ∷ series (next x) ts

  abbrev pub Holds : Kv → String → Num → ℕ → Type 0
  Holds s key x end = lookup key s.m ≡ some (record { value = to_text x; expires_at = some end })

  incr-new :
      (s : Kv) (key : String) (ex now : ℕ)
      → 0 < ex
      → read s key now ≡ none
      → let (t, x) = incr_with_expiry_alone n s key ex now in
        (x ≡ next zero_num) × Holds t key (next zero_num) (now + ex * 1000)
  unfolding incr_with_expiry_alone incr_with_expiry_end
  incr-new s key ex now h e = ground (
    arith,
    get-read s key now,
    eq_iff key key,
    lookup-insert key key
        (record { value = to_text (next zero_num); expires_at = some (now + ex * 1000) })
        (get s key now).0.m,
  )

  incr-old :
      (s : Kv) (key : String) (ex now end : ℕ) (x : Num)
      → now ≤ end
      → Holds s key x end
      → let (t, y) = incr_with_expiry_alone n s key ex now in
        (y ≡ next x) × Holds t key (next x) end
  unfolding incr_with_expiry_alone incr_with_expiry_end get get_entry
  incr-old s key ex now end x h e = ground (
    arith,
    e,
    eq_iff key key,
    of_text-to_text x,
    lookup-insert key key (record { value = to_text (next x); expires_at = some end }) s.m,
  )

  bumps-old :
      (s : Kv) (key : String) (ex end : ℕ) (x : Num) (ts : List ℕ)
      → All (λ t. t ≤ end) ts
      → Holds s key x end
      → (bumps s key ex ts).1 ≡ series x ts
  unfolding bumps
  bumps-old s key ex end x [] h e = refl
  bumps-old s key ex end x (t ∷ ts) h e =
      let (y, e') = incr-old s key ex t end x h.0 e in
      cc (y, bumps-old (incr_with_expiry_alone n s key ex t).0 key ex end (next x) ts h.1 e')

  -- A counter that is not there, or whose window is over, starts again at one. Every increment
  -- until `ex` seconds after that first one gets the next number, in order, however late in the
  -- window it comes: an increment does not move the window's end.
  pub bumps-series :
      (s : Kv) (key : String) (ex start : ℕ) (ts : List ℕ)
      → 0 < ex
      → read s key start ≡ none
      → All (λ t. t ≤ start + ex * 1000) ts
      → (bumps s key ex (start ∷ ts)).1 ≡ series zero_num (start ∷ ts)
  unfolding bumps
  bumps-series s key ex start ts h e within =
      let (y, e') = incr-new s key ex start h e in
      cc (
        y,
        bumps-old (incr_with_expiry_alone n s key ex start).0 key ex (start + ex * 1000)
            (next zero_num) ts within e',
      )
