-- ===== src/Threads/Transition.antt =====
-- The compare-and-set that every state change goes through.
use agentic_kit.Base.{
  ℕ, ◌≡◌, refl, sym, ap, subst, ◌∙◌, Bool, true, false, not, ◌&&◌, some, String, lookup, str_eq,
  any, arith, Bool-cases, Option-cases, inl, inr, lookup-insert, str_eq-eq_of,
}
use agentic_kit.Threads.{
  is_state, Thread, ThreadTransition, ThreadStore, moved, put_state, put_run, text_of, is_other_run,
  transition_found, transition,
}

-- What a thread reads after a write.
put-lookup :
    (s : ThreadStore) (now : ℕ) (id : String) (tr : ThreadTransition) (t : Thread)
    → lookup id (put_run (put_state s now id tr.to t) id tr.new_run_id).threads
      ≡ some (moved t tr.to now)
put-lookup s now id tr t = elim (Bool-cases (str_eq (text_of tr.new_run_id) "")) [
  | inl e ↦ rw e (
      lookup-insert id id (moved t tr.to now) s.threads
      ∙ rw (str_eq-eq_of {s = id} {t = id} refl) refl)
  | inr e ↦ rw e (
      lookup-insert id id (moved t tr.to now) s.threads
      ∙ rw (str_eq-eq_of {s = id} {t = id} refl) refl)
]

abbrev Lands : ThreadStore → ℕ → String → ThreadTransition → Thread → ThreadStore × Bool → Type 0
Lands s now id tr t (s', lands) =
    (lands ≡ (any (is_state t.state) tr.from && not (is_other_run tr.run_id (lookup id s.runs))))
    × (lands ≡ true → lookup id s'.threads ≡ some (moved t tr.to now))
    × (lands ≡ false → s' ≡ s)

-- A thread in none of the states that a transition comes from stays.
lost :
    (s : ThreadStore) (now : ℕ) (id : String) (tr : ThreadTransition) (t : Thread)
    → lookup id s.threads ≡ some t
    → any (is_state t.state) tr.from ≡ false
    → transition s now id tr ≡ (s, false)
unfolding transition
lost s now id tr t there e = ap (transition_found s now id tr) there ∙ simp e refl

-- A transition of a thread that is there lands exactly when the thread is in one of the states it
-- comes from and does not belong to another run than it asks for. One that lands leaves the thread
-- in the state it goes to, and one that does not leaves the store as it was.
pub transition-moved :
    (s : ThreadStore) (now : ℕ) (id : String) (tr : ThreadTransition) (t : Thread)
    → lookup id s.threads ≡ some t
    → let (s', lands) = transition s now id tr in
      (lands ≡ (any (is_state t.state) tr.from && not (is_other_run tr.run_id (lookup id s.runs))))
      × (lands ≡ true → lookup id s'.threads ≡ some (moved t tr.to now))
      × (lands ≡ false → s' ≡ s)
unfolding transition
transition-moved s now id tr t e =
    subst (Lands s now id tr t) (ap (transition_found s now id tr) (sym e))
      (elim (Bool-cases (any (is_state t.state) tr.from)) [
        | inl a ↦ elim (Bool-cases (is_other_run tr.run_id (lookup id s.runs))) [
          | inl o ↦ simp (a, o) (refl, λ r. absurd (ground (arith, r)), λ r. refl)
          | inr o ↦
              simp (a, o) (refl, λ r. put-lookup s now id tr t, λ r. absurd (ground (arith, r)))
        ]
        | inr a ↦ simp a (refl, λ r. absurd (ground (arith, r)), λ r. refl)
      ])

-- Of two transitions of one thread where the first lands, the second does not if the state that the
-- first goes to is none that the second comes from: two callers that race for a thread never both
-- get it.
pub transition-once :
    (s : ThreadStore) (now later : ℕ) (id : String) (first second : ThreadTransition)
    → (transition s now id first).1 ≡ true
    → any (is_state first.to) second.from ≡ false
    → transition (transition s now id first).0 later id second
      ≡ ((transition s now id first).0, false)
unfolding transition
transition-once s now later id first second lands e = elim (Option-cases (lookup id s.threads)) [
  | inl n ↦ absurd (ground (arith, ap (λ o. (transition_found s now id first o).1) (sym n) ∙ lands))
  | inr (t, there) ↦
      let (p, q, r) = transition-moved s now id first t there in
      lost (transition s now id first).0 later id second (moved t first.to now) (q lands) e
]
