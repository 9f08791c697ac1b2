-- ===== src/Settling/Progress.antt =====
-- A run whose settle failed is settled later.
use agentic_kit.Base.{
  ℕ, ◌+◌, ◌-◌, ◌≡◌, refl, sym, ap, ◌∙◌, subst, true, false, Option, none, some, String, lookup,
  is_some, or_else, if◌then◌else◌, arith,
}
use agentic_kit.Settling.{
  RunRecord, AdminStore, is_recent, claimed, claim_on, claim_settle, settled_row, end_settle,
}
use agentic_kit.Settling.Runner.{
  passes, starts, claims, hooks, marks, here, next, settle_claim_ttl_ms, fine, idle, claiming,
  refused, holding, marking, ended, claim_attempt, mark_attempt, World, set_phase, live_since, Step,
  Reach, IsPrompt,
}
use agentic_kit.Settling.Claims.{here as found, end_own}
use agentic_kit.Settling.Kept.{set_phase-here}

-- Whoever claimed it last, a claim as old as that is stale.
abbrev when_stale : ℕ → Option ℕ → ℕ
when_stale now at = now + (or_else at 0 + settle_claim_ttl_ms) + 1

is_recent_not :
    (now : ℕ) (at : Option ℕ) → is_recent (when_stale now at - settle_claim_ttl_ms) at ≡ false
is_recent_not now none = refl
is_recent_not now (some at) = ground arith

module _ (run_id t : String) (cur : RunRecord) where
  claim_settle_fine :
      (s : AdminStore) (now stale_before : ℕ)
      → lookup run_id s.run_rows ≡ some cur
      → is_some cur.settled_at ≡ false
      → is_recent stale_before cur.settling_at ≡ false
      → claim_settle s now run_id t stale_before ≡ (claimed s now run_id t cur, true)
  unfolding claim_settle
  claim_settle_fine s now stale_before e a b =
      ap (claim_on s now run_id t stale_before) e ∙ simp (a, b) refl

  claim_attempt_fine :
      (s : AdminStore) (now : ℕ)
      → lookup run_id s.run_rows ≡ some cur
      → is_some cur.settled_at ≡ false
      → is_recent (now - settle_claim_ttl_ms) cur.settling_at ≡ false
      → claim_attempt s now run_id t 0 fine ≡ (claimed s now run_id t cur, holding now)
  unfolding claim_attempt
  claim_attempt_fine s now e a b =
      ap (λ r. (r.0, if r.1 then holding now else refused))
        (claim_settle_fine s now (now - settle_claim_ttl_ms) e a b)

  module _ (w : World) where
    abbrev later : ℕ
    later = when_stale w.now cur.settling_at

    abbrev waited : World
    waited = record w { now = later }

    abbrev started : World
    started = record waited { phase = set_phase w.phase t (claiming 0) }

    abbrev holds : World
    holds = record started {
      store = claimed w.store later run_id t cur;
      phase = set_phase started.phase t (holding later);
    }

    abbrev billed_once : World
    billed_once = record holds {
      phase = set_phase holds.phase t (marking true later 0);
      billed = w.billed + 1;
    }

    abbrev finished : World
    finished = record billed_once {
      store = end_settle billed_once.store later run_id t true;
      phase = set_phase billed_once.phase t ended;
      lost_marks = w.lost_marks + 0;
    }

    reaches :
        lookup run_id w.store.run_rows ≡ some cur
        → is_some cur.settled_at ≡ false
        → w.phase t ≡ idle
        → ((u : String) → live_since (w.phase u) ≡ none)
        → (r : Reach run_id w finished) × IsPrompt run_id r
    unfolding mark_attempt
    reaches row open_run free nobody = (
      next (next (next (next (next here wait) start) claim) hook) mark,
      (((((tt, λ u at e. absurd (cc (sym (nobody u) ∙ e))), tt), tt), tt), tt),
    )
      where
        wait : Step run_id w waited
        wait = passes later (omega arith)

        start : Step run_id waited started
        start = starts t free

        claim : Step run_id started holds
        claim =
            subst
              (λ r.
                Step run_id started
                  (record started { store = r.0; phase = set_phase started.phase t r.1 }))
              (claim_attempt_fine w.store later row open_run (is_recent_not w.now cur.settling_at))
              (claims t 0 fine (set_phase-here w.phase t (claiming 0)))

        hook : Step run_id holds billed_once
        hook = hooks t later true (set_phase-here started.phase t (holding later))

        mark : Step run_id billed_once finished
        mark = marks t true later 0 fine (set_phase-here holds.phase t (marking true later 0))

-- Where the record of a run is there and unsettled, and nobody has its claim at work (each settler
-- before has ended, with its hook failed, its mark lost or its claim left behind), a settler that
-- has not started can settle it: some steps, with no claim overrun, lead to a world in which the hook has succeeded once
-- more and the record says that the run was settled then.
pub Reach-settled :
    (run_id t : String) (cur : RunRecord) (w : World)
    → lookup run_id w.store.run_rows ≡ some cur
    → is_some cur.settled_at ≡ false
    → w.phase t ≡ idle
    → ((u : String) → live_since (w.phase u) ≡ none)
    → (w' : World) × (row : RunRecord) × ((r : Reach run_id w w') × IsPrompt run_id r)
      × (w'.billed ≡ w.billed + 1)
      × (lookup run_id w'.store.run_rows ≡ some row)
      × (row.settled_at ≡ some w'.now)
Reach-settled run_id t cur w row open_run free nobody =
    let held : RunRecord = record cur { settling_at = some (later run_id t cur w) } in
    (
      finished run_id t cur w,
      settled_row (later run_id t cur w) true held,
      reaches run_id t cur w row open_run free nobody,
      refl,
      end_own (claimed w.store (later run_id t cur w) run_id t cur) (later run_id t cur w) run_id t
          true held (found run_id held w.store.run_rows) (found run_id t w.store.settle_tokens),
      refl,
    )
