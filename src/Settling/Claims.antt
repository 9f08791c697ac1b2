-- ===== src/Settling/Claims.antt =====
-- A run is settled by one settler at a time, and once.
use agentic_kit.Base.{
  ℕ, ◌≤◌, ◌≡◌, refl, sym, ap, subst, ◌∙◌, Bool, true, false, ◌||◌, List, some, String, lookup,
  insert, erase, str_eq, leb, if◌then◌else◌, is_some, is_text, arith, Bool-cases, Option-cases, inl,
  inr, lookup-insert, str_eq-eq_of,
}
use agentic_kit.Settling.{
  RunRecord, AdminStore, is_recent, claimed, claim_on, claim_settle, settled_row, end_on,
  end_settle,
}

pub here :
    {V : Type 0} (id : String) (x : V) (d : List (String × V)) → lookup id (insert id x d) ≡ some x
here id x d = lookup-insert id id x d ∙ rw (str_eq-eq_of {s = id} {t = id} refl) refl

pub claim_lost :
    (s : AdminStore) (now : ℕ) (run_id token : String) (stale_before : ℕ) (cur : RunRecord)
    → lookup run_id s.run_rows ≡ some cur
    → (is_some cur.settled_at || is_recent stale_before cur.settling_at) ≡ true
    → claim_settle s now run_id token stale_before ≡ (s, false)
unfolding claim_settle
claim_lost s now run_id token stale_before cur e h =
    ap (claim_on s now run_id token stale_before) e ∙ simp h refl

claim_won :
    (s : AdminStore) (now : ℕ) (run_id token : String) (stale_before : ℕ)
    → (claim_settle s now run_id token stale_before).1 ≡ true
    → (cur : RunRecord) × ((claim_settle s now run_id token stale_before).0
        ≡ claimed s now run_id token cur)
unfolding claim_settle
claim_won s now run_id token stale_before w = elim (Option-cases (lookup run_id s.run_rows)) [
  | inl n ↦
      absurd (ground (arith, ap (λ o. (claim_on s now run_id token stale_before o).1) (sym n) ∙ w))
  | inr (cur, e) ↦
      elim (Bool-cases (is_some cur.settled_at || is_recent stale_before cur.settling_at)) [
        | inl h ↦ absurd (
            ground (
              arith,
              sym (ap (λ r. r.1) (ap (claim_on s now run_id token stale_before) e ∙ picked cur h))
                  ∙ w,
            ))
        | inr h ↦ (cur, ap (λ r. r.0) (ap (claim_on s now run_id token stale_before) e ∙ won cur h))
      ]
]
  where
    picked :
        (cur : RunRecord)
        → (is_some cur.settled_at || is_recent stale_before cur.settling_at) ≡ true
        → claim_on s now run_id token stale_before (some cur) ≡ (s, false)
    picked cur h = simp h refl

    won :
        (cur : RunRecord)
        → (is_some cur.settled_at || is_recent stale_before cur.settling_at) ≡ false
        → claim_on s now run_id token stale_before (some cur)
          ≡ (claimed s now run_id token cur, true)
    won cur h = simp h refl

pub end_foreign :
    (s : AdminStore) (now : ℕ) (run_id token other : String) (settled : Bool) (cur : RunRecord)
    → lookup run_id s.run_rows ≡ some cur
    → lookup run_id s.settle_tokens ≡ some token
    → str_eq token other ≡ false
    → end_settle s now run_id other settled ≡ s
unfolding end_settle
end_foreign s now run_id token other settled cur e t ne =
    ap (end_on s now run_id other settled) e
    ∙ ap (λ o. if is_text o other then ended else s) t
    ∙ ap (λ b. if b then ended else s) ne
  where
    ended : AdminStore
    ended = record s {
      run_rows = insert run_id (settled_row now settled cur) s.run_rows;
      settle_tokens = erase run_id s.settle_tokens;
    }

pub end_own :
    (s : AdminStore) (now : ℕ) (run_id token : String) (settled : Bool) (cur : RunRecord)
    → lookup run_id s.run_rows ≡ some cur
    → lookup run_id s.settle_tokens ≡ some token
    → lookup run_id (end_settle s now run_id token settled).run_rows
      ≡ some (settled_row now settled cur)
unfolding end_settle
end_own s now run_id token settled cur e t =
    ap (λ r. lookup run_id r.run_rows)
      (ap (end_on s now run_id token settled) e
        ∙ ap (λ o. if is_text o token then ended else s) t
        ∙ ap (λ b. if b then ended else s) (str_eq-eq_of {s = token} {t = token} refl))
    ∙ here run_id (settled_row now settled cur) s.run_rows
  where
    ended : AdminStore
    ended = record s {
      run_rows = insert run_id (settled_row now settled cur) s.run_rows;
      settle_tokens = erase run_id s.settle_tokens;
    }

-- Once a settler has claimed a run, every other claim is refused until the claim is older than what
-- the other takes for stale; another settler's end of the claim changes nothing; and when its own
-- end marks the run settled, every later claim is refused, however old.
pub claim_settle-once :
    (s : AdminStore) (now later end_time : ℕ) (run_id token other : String)
    (stale_before stale_then : ℕ)
    → (claim_settle s now run_id token stale_before).1 ≡ true
    → str_eq token other ≡ false
    → let held = (claim_settle s now run_id token stale_before).0 in
      let settled = end_settle held end_time run_id token true in
      (stale_then ≤ now → claim_settle held later run_id other stale_then ≡ (held, false))
      × ((b : Bool) → end_settle held end_time run_id other b ≡ held)
      × (claim_settle settled later run_id other stale_then ≡ (settled, false))
claim_settle-once s now later end_time run_id token other stale_before stale_then w ne =
    let (cur, e) = claim_won s now run_id token stale_before w in
    subst (Once later end_time run_id token other stale_then now) (sym e) (once cur)
  where
    Once : ℕ → ℕ → String → String → String → ℕ → ℕ → AdminStore → Type 0
    Once later end_time run_id token other stale_then now held =
        (stale_then ≤ now → claim_settle held later run_id other stale_then ≡ (held, false))
        × ((b : Bool) → end_settle held end_time run_id other b ≡ held)
        × (claim_settle (end_settle held end_time run_id token true) later run_id other stale_then
            ≡ (end_settle held end_time run_id token true, false))

    recent : (b : Bool) → stale_then ≤ now → (b || leb stale_then now) ≡ true
    recent b le = ground (arith, le)

    once :
        (cur : RunRecord)
        → Once later end_time run_id token other stale_then now (claimed s now run_id token cur)
    once cur =
        let row : RunRecord = record cur { settling_at = some now } in
        let held = claimed s now run_id token cur in
        let found = here run_id row s.run_rows in
        let owned = here run_id token s.settle_tokens in
        (
          λ le.
              claim_lost held later run_id other stale_then row found
                (recent (is_some cur.settled_at) le),
          λ b. end_foreign held end_time run_id token other b row found owned ne,
          claim_lost (end_settle held end_time run_id token true) later run_id other stale_then
              (settled_row end_time true row)
              (end_own held end_time run_id token true row found owned) refl,
        )
