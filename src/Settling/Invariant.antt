-- ===== src/Settling/Invariant.antt =====
-- Each step of a settler keeps what the settlers of a run rely on.
use agentic_kit.Base.{
  ℕ, suc, ◌+◌, ◌-◌, ◌≡◌, ◌⊎◌, refl, sym, ap, ◌∙◌, subst, Bool, true, false, Option, none, some,
  String, lookup, insert, erase, ◌==◌, is_some, is_text, if◌then◌else◌, Bool-cases, inl, inr, arith,
  eq_iff, str_eq-eq_of,
}
use agentic_kit.Settling.{
  RunRecord, AdminStore, is_recent, claimed, claim_on, claim_settle, settled_row, end_on,
  end_settle,
}
use agentic_kit.Settling.Runner.{
  settle_claim_ttl_ms, Call, fine, threw_before, threw_after, Phase, claiming, refused, holding,
  marking, ended, next_claim, claim_attempt, next_mark, mark_attempt, lost, World, set_phase,
  live_since,
}
use agentic_kit.Settling.Claims.{here}
use agentic_kit.Settling.Kept.{
  IsBacked, IsMarking, Kept, Kept-quiet, Kept-claimed, Kept-dropped, Kept-settled, Kept-retried,
  Kept-given_up, IsBacked-idle,
}

pub claim_settle-cases :
    (s : AdminStore) (now : ℕ) (run_id token : String) (stale_before : ℕ) (cur : RunRecord)
    → lookup run_id s.run_rows ≡ some cur
    → (claim_settle s now run_id token stale_before ≡ (s, false))
      ⊎ ((is_some cur.settled_at ≡ false)
          × (is_recent stale_before cur.settling_at ≡ false)
          × (claim_settle s now run_id token stale_before ≡ (claimed s now run_id token cur, true)))
unfolding claim_settle
claim_settle-cases s now run_id token stale_before cur e =
    elim (Bool-cases (is_some cur.settled_at)) [
      | inl a ↦ inl (ap (claim_on s now run_id token stale_before) e ∙ simp a refl)
      | inr a ↦ elim (Bool-cases (is_recent stale_before cur.settling_at)) [
        | inl b ↦ inl (ap (claim_on s now run_id token stale_before) e ∙ simp (a, b) refl)
        | inr b ↦ inr (a, b, ap (claim_on s now run_id token stale_before) e ∙ simp (a, b) refl)
      ]
    ]

pub end_settle-cases :
    (s : AdminStore) (now : ℕ) (run_id token : String) (ok : Bool) (cur : RunRecord)
    → lookup run_id s.run_rows ≡ some cur
    → ((is_text (lookup run_id s.settle_tokens) token ≡ false)
        × (end_settle s now run_id token ok ≡ s))
      ⊎ ((lookup run_id s.settle_tokens ≡ some token)
          × (lookup run_id (end_settle s now run_id token ok).run_rows
              ≡ some (settled_row now ok cur)))
unfolding end_settle
end_settle-cases s now run_id token ok cur e =
    elim (Bool-cases (is_text (lookup run_id s.settle_tokens) token)) [
      | inr a ↦ inl (a, ap (end_on s now run_id token ok) e ∙ simp a refl)
      | inl a ↦ inr (
        owner (lookup run_id s.settle_tokens) a,
        ap (λ r. lookup run_id r.run_rows)
              (ap (end_on s now run_id token ok) e ∙ ap (λ b. if b then written else s) a)
            ∙ here run_id (settled_row now ok cur) s.run_rows,
      )
    ]
  where
    written : AdminStore
    written = record s {
      run_rows = insert run_id (settled_row now ok cur) s.run_rows;
      settle_tokens = erase run_id s.settle_tokens;
    }

    owner : (o : Option String) → is_text o token ≡ true → o ≡ some token
    owner none h = absurd (cc h)
    owner (some x) h = ap some ((eq_iff x token).0 h)

-- The row of the run, and what the settlers keep of it.
pub record Invariant (run_id : String) (w : World) : Type 0 where
  pub cur : RunRecord
  pub settled : Bool
  pub claimed_at : Option ℕ
  pub owner : Option String
  pub row : lookup run_id w.store.run_rows ≡ some cur
  pub settled_is : is_some cur.settled_at ≡ settled
  pub claimed_is : cur.settling_at ≡ claimed_at
  pub owner_is : lookup run_id w.store.settle_tokens ≡ owner
  pub kept : Kept settled claimed_at owner w.now w.phase w.billed w.lost_marks

next_claim-live : (n : ℕ) → live_since (next_claim n) ≡ none
next_claim-live n = elim (Bool-cases (n == 2)) [ inl e ↦ rw e refl | inr e ↦ rw e refl ]

module _ (run_id : String) where
  abbrev pub after : World → String → ℕ → ℕ → AdminStore × Phase → World
  after w t b l r = record w {
    store = r.0;
    phase = set_phase w.phase t r.1;
    billed = b;
    lost_marks = l;
  }

  abbrev same_store : World → Phase → AdminStore × Phase
  same_store w p = (w.store, p)

  pub quiet-Invariant :
      (w : World) (t : String) (p : Phase)
      → live_since (w.phase t) ≡ none
      → live_since p ≡ none
      → Invariant run_id w
      → Invariant run_id (after w t w.billed w.lost_marks (same_store w p))
  quiet-Invariant w t p q r i = record {
    cur = i.cur;
    settled = i.settled;
    claimed_at = i.claimed_at;
    owner = i.owner;
    row = i.row;
    settled_is = i.settled_is;
    claimed_is = i.claimed_is;
    owner_is = i.owner_is;
    kept =
        Kept-quiet w.phase t p i.settled i.claimed_at i.owner w.now w.billed w.lost_marks q r
          i.kept;
  }

  abbrev won_store : World → String → RunRecord → Phase → AdminStore × Phase
  won_store w t cur p = (claimed w.store w.now run_id t cur, p)

  won-Invariant :
      (w : World) (t : String) (p : Phase) (i : Invariant run_id w)
      → is_some i.cur.settled_at ≡ false
      → is_recent (w.now - settle_claim_ttl_ms) i.cur.settling_at ≡ false
      → IsBacked false (some w.now) (some t) w.now t p
      → Invariant run_id (after w t w.billed w.lost_marks (won_store w t i.cur p))
  won-Invariant w t p i a b back = record {
    cur = record i.cur { settling_at = some w.now };
    settled = false;
    claimed_at = some w.now;
    owner = some t;
    row = here run_id (record i.cur { settling_at = some w.now }) w.store.run_rows;
    settled_is = a;
    claimed_is = refl;
    owner_is = here run_id t w.store.settle_tokens;
    kept =
        Kept-claimed w.phase t p i.claimed_at i.owner w.now w.billed w.lost_marks
          (subst (λ o. is_recent (w.now - settle_claim_ttl_ms) o ≡ false) i.claimed_is b) back
          (subst (λ x. Kept x i.claimed_at i.owner w.now w.phase w.billed w.lost_marks)
            (sym i.settled_is ∙ a) i.kept);
  }

  pub claimed-Invariant :
      (w : World) (t : String) (n : ℕ) (c : Call)
      → w.phase t ≡ claiming n
      → Invariant run_id w
      → Invariant run_id
          (after w t w.billed w.lost_marks (claim_attempt w.store w.now run_id t n c))
  unfolding claim_attempt
  claimed-Invariant w t n threw_before e i =
      quiet-Invariant w t (next_claim n) (ap live_since e) (next_claim-live n) i
  claimed-Invariant w t n threw_after e i =
      elim (claim_settle-cases w.store w.now run_id t (w.now - settle_claim_ttl_ms) i.cur i.row) [
        | inl l ↦
            subst (λ r. Invariant run_id (after w t w.billed w.lost_marks (r.0, next_claim n)))
              (sym l) (quiet-Invariant w t (next_claim n) (ap live_since e) (next_claim-live n) i)
        | inr (a, b, l) ↦
            subst (λ r. Invariant run_id (after w t w.billed w.lost_marks (r.0, next_claim n)))
              (sym l)
              (won-Invariant w t (next_claim n) i a b (
                IsBacked-idle false (some w.now) (some t) w.now t (next_claim n)
                  (next_claim-live n)))
      ]
  claimed-Invariant w t n fine e i =
      elim (claim_settle-cases w.store w.now run_id t (w.now - settle_claim_ttl_ms) i.cur i.row) [
        | inl l ↦
            subst
              (λ r.
                Invariant run_id
                  (after w t w.billed w.lost_marks (r.0, if r.1 then holding w.now else refused)))
              (sym l) (quiet-Invariant w t refused (ap live_since e) refl i)
        | inr (a, b, l) ↦
            subst
              (λ r.
                Invariant run_id
                  (after w t w.billed w.lost_marks (r.0, if r.1 then holding w.now else refused)))
              (sym l) (won-Invariant w t (holding w.now) i a b (refl, refl, refl, omega arith))
      ]

  -- The claim is ended after a hook that failed.
  dropped-Invariant :
      (w : World) (t : String) (p : Phase) (at n : ℕ)
      → w.phase t ≡ marking false at n
      → live_since p ≡ none
      → Invariant run_id w
      → Invariant run_id
          (after w t w.billed w.lost_marks (end_settle w.store w.now run_id t false, p))
  dropped-Invariant w t p at n e q i =
      elim (end_settle-cases w.store w.now run_id t false i.cur i.row) [
        | inl (a, l) ↦
            subst (λ r. Invariant run_id (after w t w.billed w.lost_marks (r, p))) (sym l)
              (quiet-Invariant w t p (ap live_since e) q i)
        | inr (o, r) ↦ record {
          cur = settled_row w.now false i.cur;
          settled = i.settled;
          claimed_at = none;
          owner = lookup run_id (end_settle w.store w.now run_id t false).settle_tokens;
          row = r;
          settled_is = i.settled_is;
          claimed_is = refl;
          owner_is = refl;
          kept =
              Kept-dropped w.phase t p i.settled i.claimed_at none i.owner _ w.now w.billed
                w.lost_marks (sym i.owner_is ∙ o) q (λ m. subst IsMarking e m) i.kept;
        }
      ]

  -- The claim is ended after a hook that succeeded: the run is settled, now or before.
  settled-Invariant :
      (w : World) (t : String) (p : Phase) (at n more : ℕ)
      → w.phase t ≡ marking true at n
      → ((sa : Option ℕ) (ow : Option String) → IsBacked true sa ow w.now t p)
      → Invariant run_id w
      → Invariant run_id
          (after w t w.billed (w.lost_marks + more) (end_settle w.store w.now run_id t true, p))
  settled-Invariant w t p at n more e back i =
      elim (end_settle-cases w.store w.now run_id t true i.cur i.row) [
        | inl (a, l) ↦
            subst (λ r. Invariant run_id (after w t w.billed (w.lost_marks + more) (r, p))) (sym l)
              (record {
                cur = i.cur;
                settled = true;
                claimed_at = i.claimed_at;
                owner = i.owner;
                row = i.row;
                settled_is = i.settled_is ∙ before a;
                claimed_is = i.claimed_is;
                owner_is = i.owner_is;
                kept =
                    Kept-settled w.phase t p i.settled i.claimed_at i.claimed_at i.owner i.owner
                      w.now w.billed w.lost_marks more (inl (before a)) (back i.claimed_at i.owner)
                      i.kept;
              })
        | inr (o, r) ↦ record {
          cur = settled_row w.now true i.cur;
          settled = true;
          claimed_at = none;
          owner = lookup run_id (end_settle w.store w.now run_id t true).settle_tokens;
          row = r;
          settled_is = refl;
          claimed_is = refl;
          owner_is = refl;
          kept =
              Kept-settled w.phase t p i.settled i.claimed_at none i.owner _ w.now w.billed
                w.lost_marks more (inr (sym i.owner_is ∙ o)) (back none _) i.kept;
        }
      ]
    where
      before : is_text (lookup run_id w.store.settle_tokens) t ≡ false → i.settled ≡ true
      before a = elim (subst (IsBacked i.settled i.claimed_at i.owner w.now t) e (i.kept.0 t)) [
        | inl s ↦ s
        | inr (s, c, o, h) ↦ absurd (
            cc (sym a ∙ ap (λ x. is_text x t) (i.owner_is ∙ o) ∙ str_eq-eq_of {s = t} {t = t} refl))
      ]

  retried-Invariant :
      (w : World) (t : String) (at n : ℕ)
      → w.phase t ≡ marking true at n
      → Invariant run_id w
      → Invariant run_id (
          after w t w.billed
            (w.lost_marks + lost true n threw_before)
            (same_store w (next_mark true at n)))
  retried-Invariant w t at n e i = elim (Bool-cases (n == 2)) [
    | inl z ↦ rw z (
        with ended (w.lost_marks + 1) (
          Kept-given_up w.phase t ended i.settled i.claimed_at i.owner w.now w.billed w.lost_marks
            refl i.kept))
    | inr z ↦ rw z (
        with (marking true at (suc n)) (w.lost_marks + 0) (
          subst
            (λ l.
              Kept i.settled i.claimed_at i.owner w.now
                (set_phase w.phase t (marking true at (suc n))) w.billed l)
            (omega arith)
            (Kept-retried w.phase t (marking true at (suc n)) i.settled i.claimed_at i.owner w.now
              w.billed w.lost_marks at n e refl i.kept)))
  ]
    where
      with :
          (p : Phase) (l : ℕ)
          → Kept i.settled i.claimed_at i.owner w.now (set_phase w.phase t p) w.billed l
          → Invariant run_id (after w t w.billed l (same_store w p))
      with p l k = record {
        cur = i.cur;
        settled = i.settled;
        claimed_at = i.claimed_at;
        owner = i.owner;
        row = i.row;
        settled_is = i.settled_is;
        claimed_is = i.claimed_is;
        owner_is = i.owner_is;
        kept = k;
      }

  next_mark-live : (at n : ℕ) → live_since (next_mark false at n) ≡ none
  next_mark-live at n = elim (Bool-cases (n == 2)) [ inl e ↦ rw e refl | inr e ↦ rw e refl ]

  next_mark-back :
      (w : World) (t : String) (at n : ℕ) (sa : Option ℕ) (ow : Option String)
      → IsBacked true sa ow w.now t (next_mark true at n)
  next_mark-back w t at n sa ow = elim (Bool-cases (n == 2)) [
    | inl e ↦ rw e tt
    | inr e ↦ rw e (inl refl)
  ]

  pub marked-Invariant :
      (w : World) (t : String) (ok : Bool) (at n : ℕ) (c : Call)
      → w.phase t ≡ marking ok at n
      → Invariant run_id w
      → Invariant run_id (
          after w t w.billed
            (w.lost_marks + lost ok n c)
            (mark_attempt w.store w.now run_id t ok at n c))
  unfolding mark_attempt
  marked-Invariant w t true at n threw_before e i = retried-Invariant w t at n e i
  marked-Invariant w t true at n threw_after e i =
      settled-Invariant w t (next_mark true at n) at n (lost true n threw_after) e
        (next_mark-back w t at n) i
  marked-Invariant w t true at n fine e i = settled-Invariant w t ended at n 0 e (λ sa ow. tt) i
  marked-Invariant w t false at n c e i =
      subst
        (λ l.
          Invariant run_id
            (after w t w.billed l (mark_attempt w.store w.now run_id t false at n c)))
        (omega arith) (failed c)
    where
      failed :
          (c : Call)
          → Invariant run_id
              (after w t w.billed w.lost_marks (mark_attempt w.store w.now run_id t false at n c))
      failed threw_before =
          quiet-Invariant w t (next_mark false at n) (ap live_since e) (next_mark-live at n) i
      failed threw_after =
          dropped-Invariant w t (next_mark false at n) at n e (next_mark-live at n) i
      failed fine = dropped-Invariant w t ended at n e refl i
