-- ===== src/Lock/Safety.antt =====
-- The invariant of a lease that is kept, and that every step keeps it.
use agentic_kit.Base.{
  ℕ, ◌+◌, ◌-◌, ◌≤◌, ◌<◌, ◌≡◌, refl, sym, Bool, true, false, Option, none, some, arith, ◌⊎◌, inl,
  inr, ◌∙◌,
}
use agentic_kit.Kv.Port.{KvPort}
use agentic_kit.Lock.{Lease, Outcome, ok, taken, failed, tick_end, lease_ms}
use agentic_kit.Lock.World.{World, Step}
use agentic_kit.Lock.Kept.{
  Kept, Foreign-Kept, renew-Kept, renew_done, SameGrip, tick_start-SameGrip, tick_start-last_ok,
  tick_end-SameGrip, tick_end-last_ok, release-released, release-last_ok,
}

module _ (port : KvPort) (seconds delay : ℕ) where
  -- The time through which the last renewal that the holder knows of keeps the lock.
  abbrev pub known_end : Lease → ℕ
  known_end l = l.last_ok + lease_ms seconds - delay

  pub record IsSafe (w : World port) : Type 0 where
    pub clock : w.lease.last_ok ≤ w.now
    pub asked : (at : ℕ) (done : Bool) → w.answer ≡ some (at, done) → at ≤ w.now
    pub held :
        w.lease.released ≡ false
        → Kept port w.kv w.lease.key w.lease.value w.now (known_end w.lease)
    pub answered :
        w.lease.released ≡ false
        → (at : ℕ) → w.answer ≡ some (at, true)
        → Kept port w.kv w.lease.key w.lease.value w.now (at + lease_ms seconds)

  pub regrip :
      (w : World port) (k : Lease)
      → SameGrip w.lease k
      → k.last_ok ≤ w.now
      → (w.lease.released ≡ false → Kept port w.kv w.lease.key w.lease.value w.now (known_end k))
      → IsSafe w
      → (a : Option (ℕ × Bool)) → (a ≡ w.answer) ⊎ (a ≡ none)
      → IsSafe (record w { lease = k; answer = a })
  regrip w k g le h s a o = record {
    clock = le;
    asked = λ at done e. ground (arith, s.asked at done);
    held = λ r t p q. rw (g.same_key, g.same_value) (h (sym g.same_released ∙ r) t p q);
    answered = λ r at e t p q.
        rw (g.same_key, g.same_value)
          (s.answered (sym g.same_released ∙ r) at (ground arith) t p q);
  }

  pub sees-IsSafe :
      (w : World port) (at : ℕ) (done : Bool) (o : Outcome)
      → w.answer ≡ some (at, done)
      → w.now ≤ at + delay
      → ((o ≡ ok) × (done ≡ true)) ⊎ ((o ≡ taken) × (done ≡ false))
      → IsSafe w
      → IsSafe (record w { lease = tick_end w.lease o seconds w.now; answer = none })
  sees-IsSafe w at done o a fits c s = elim (tick_end-last_ok seconds w.lease o w.now) [
    | inl e ↦
        regrip w _ (tick_end-SameGrip seconds w.lease o w.now) (omega (arith, e, s.clock))
          (λ r t p q. s.held r t p (omega (arith, e))) s none (inr refl)
    | inr (isok, e) ↦
        regrip w _ (tick_end-SameGrip seconds w.lease o w.now) (omega (arith, e))
          (λ r t p q. s.answered r at (ground arith) t p (omega (arith, e))) s none (inr refl)
  ]

  pub misses-IsSafe :
      (w : World port)
      → IsSafe w
      → IsSafe (record w { lease = tick_end w.lease failed seconds w.now; answer = none })
  misses-IsSafe w s = elim (tick_end-last_ok seconds w.lease failed w.now) [
    | inl e ↦
        regrip w _ (tick_end-SameGrip seconds w.lease failed w.now) (omega (arith, e, s.clock))
          (λ r t p q. s.held r t p (omega (arith, e))) s none (inr refl)
    | inr (isok, e) ↦ absurd (ground arith)
  ]

  pub Step-IsSafe :
      {w u : World port} → 0 < seconds → Step port seconds delay w u → IsSafe w → IsSafe u
  Step-IsSafe {w} pos (Step.passes later h) s = record {
    clock = omega (arith, s.clock);
    asked = λ at done e. omega (arith, s.asked at done e);
    held = λ r t p q. s.held r t (omega arith) q;
    answered = λ r at e t p q. s.answered r at e t (omega arith) q;
  }
  Step-IsSafe {w} pos (Step.acts kv' f) s = record {
    clock = s.clock;
    asked = s.asked;
    held = λ r. Foreign-Kept port (known_end w.lease) f (s.held r);
    answered = λ r at e. Foreign-Kept port (at + lease_ms seconds) f (s.answered r at e);
  }
  Step-IsSafe {w} pos Step.fires s =
      regrip w _ (tick_start-SameGrip w.lease) (omega (arith, tick_start-last_ok w.lease, s.clock))
        (λ r t p q. s.held r t p (omega (arith, tick_start-last_ok w.lease))) s w.answer (inl refl)
  Step-IsSafe {w} pos (Step.lands h) s = record {
    clock = s.clock;
    asked = λ at done e. ground arith;
    held = λ r.
        renew-Kept port seconds w.kv w.lease w.now (known_end w.lease) pos (omega (arith, s.clock))
          (s.held r);
    answered = λ r at e t p q.
        renew_done port seconds w.kv w.lease w.now pos (ground arith) t p (ground arith);
  }
  Step-IsSafe {w} pos (Step.sees at done outcome a fits o) s =
      sees-IsSafe w at done outcome a fits o s
  Step-IsSafe {w} pos Step.misses s = misses-IsSafe w s
  Step-IsSafe {w} pos Step.strays s = record {
    clock = s.clock;
    asked = s.asked;
    held = λ r.
        renew-Kept port seconds w.kv w.lease w.now (known_end w.lease) pos (omega (arith, s.clock))
          (s.held r);
    answered = λ r at e.
        renew-Kept port seconds w.kv w.lease w.now (at + lease_ms seconds) pos
          (omega (arith, s.asked at true e)) (s.answered r at e);
  }
  Step-IsSafe {w} pos Step.frees_own s = record {
    clock = omega (arith, release-last_ok port w.kv w.lease w.now, s.clock);
    asked = s.asked;
    held = λ r. absurd (cc (release-released port w.kv w.lease w.now));
    answered = λ r. absurd (cc (release-released port w.kv w.lease w.now));
  }
