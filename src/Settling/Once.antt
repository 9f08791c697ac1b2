-- ===== src/Settling/Once.antt =====
-- The settle hook of a run succeeds once, however settlers interleave.
use agentic_kit.Base.{
  ℕ, ◌+◌, ◌≤◌, ◌≡◌, refl, sym, ap, ◌∙◌, subst, Bool, true, false, none, some, String, lookup,
  is_some, inl, arith,
}
use agentic_kit.Settling.{RunRecord}
use agentic_kit.Settling.Runner.{
  passes, dies, starts, claims, hooks_unclaimed, gives_up, hooks, marks, here, next, Phase, idle,
  claiming, refused, holding, marking, ended, unmarked, IsPromptStep, IsPrompt, counted, World,
  set_phase, live_since, Step, Reach,
}
use agentic_kit.Settling.Invariant.{Invariant, quiet-Invariant, claimed-Invariant, marked-Invariant}
use agentic_kit.Settling.Kept.{
  Kept, Kept-quiet, Kept-given_up, Kept-hooked, Kept-failed, Paid-bound, IsBacked-idle, Kept-later,
}

module _ (run_id : String) where
  hooked-Invariant :
      (w : World) (t : String) (at : ℕ) (ok : Bool)
      → w.phase t ≡ holding at
      → Invariant run_id w
      → Invariant run_id (record w {
        phase = set_phase w.phase t (marking ok at 0);
        billed = w.billed + counted ok;
      })
  hooked-Invariant w t at ok e i = record {
    cur = i.cur;
    settled = i.settled;
    claimed_at = i.claimed_at;
    owner = i.owner;
    row = i.row;
    settled_is = i.settled_is;
    claimed_is = i.claimed_is;
    owner_is = i.owner_is;
    kept = hooked ok;
  }
    where
      hooked :
          (ok : Bool)
          → Kept i.settled i.claimed_at i.owner w.now
              (set_phase w.phase t (marking ok at 0))
              (w.billed + counted ok)
              w.lost_marks
      hooked true =
          Kept-hooked w.phase t (marking true at 0) i.settled i.claimed_at i.owner w.now w.billed
            w.lost_marks at e refl i.kept
      hooked false =
          subst
            (λ b.
              Kept i.settled i.claimed_at i.owner w.now (set_phase w.phase t (marking false at 0)) b
                w.lost_marks)
            (omega arith)
            (Kept-failed w.phase t (marking false at 0) i.settled i.claimed_at i.owner w.now
              w.billed w.lost_marks at e refl i.kept)

  died-Invariant :
      (w : World) (t : String)
      → Invariant run_id w
      → Invariant run_id (record w {
        phase = set_phase w.phase t ended;
        lost_marks = w.lost_marks + unmarked (w.phase t);
      })
  died-Invariant w t i = record {
    cur = i.cur;
    settled = i.settled;
    claimed_at = i.claimed_at;
    owner = i.owner;
    row = i.row;
    settled_is = i.settled_is;
    claimed_is = i.claimed_is;
    owner_is = i.owner_is;
    kept = died (w.phase t) refl;
  }
    where
      KeptAt : ℕ → Type 0
      KeptAt l = Kept i.settled i.claimed_at i.owner w.now (set_phase w.phase t ended) w.billed l

      same : KeptAt w.lost_marks → KeptAt (w.lost_marks + 0)
      same k = subst KeptAt (omega arith) k

      quiet : live_since (w.phase t) ≡ none → KeptAt (w.lost_marks + 0)
      quiet q = same (
          Kept-quiet w.phase t ended i.settled i.claimed_at i.owner w.now w.billed w.lost_marks q
            refl i.kept)

      died : (p : Phase) → w.phase t ≡ p → KeptAt (w.lost_marks + unmarked p)
      died idle e = quiet (ap live_since e)
      died (claiming n) e = quiet (ap live_since e)
      died refused e = quiet (ap live_since e)
      died (holding at) e = same (
          Kept-failed w.phase t ended i.settled i.claimed_at i.owner w.now w.billed w.lost_marks at
            e refl i.kept)
      died (marking true at n) e =
          Kept-given_up w.phase t ended i.settled i.claimed_at i.owner w.now w.billed w.lost_marks
            refl i.kept
      died (marking false at n) e = quiet (ap live_since e)
      died ended e = quiet (ap live_since e)

  Step-Invariant :
      {w w' : World} (s : Step run_id w w')
      → IsPromptStep run_id s
      → Invariant run_id w
      → Invariant run_id w'
  Step-Invariant {w = w} (passes later le) prompt i = record {
    cur = i.cur;
    settled = i.settled;
    claimed_at = i.claimed_at;
    owner = i.owner;
    row = i.row;
    settled_is = i.settled_is;
    claimed_is = i.claimed_is;
    owner_is = i.owner_is;
    kept =
        Kept-later i.settled i.claimed_at i.owner w.now later w.billed w.lost_marks w.phase prompt
          i.kept;
  }
  Step-Invariant {w = w} (dies t) _ i = died-Invariant w t i
  Step-Invariant {w = w} (starts t e) _ i =
      quiet-Invariant run_id w t (claiming 0) (ap live_since e) refl i
  Step-Invariant {w = w} (claims t n c e) _ i = claimed-Invariant run_id w t n c e i
  Step-Invariant (hooks_unclaimed t ok e absent) _ i = absurd (cc (sym absent ∙ i.row))
  Step-Invariant {w = w} (gives_up t e) _ i =
      quiet-Invariant run_id w t ended (ap live_since e) refl i
  Step-Invariant {w = w} (hooks t at ok e) _ i = hooked-Invariant w t at ok e i
  Step-Invariant {w = w} (marks t ok at n c e) _ i = marked-Invariant run_id w t ok at n c e i

  pub Reach-Invariant :
      {w w' : World} (r : Reach run_id w w')
      → IsPrompt run_id r
      → Invariant run_id w
      → Invariant run_id w'
  Reach-Invariant here _ i = i
  Reach-Invariant (next r s) (p, q) i = Step-Invariant s q (Reach-Invariant r p i)

  -- From a world in which the run's record is there and unsettled, nobody settles yet, and no hook
  -- has run: in every world that an interleaving of settlers leads to in which no settler that lives
  -- has its claim for longer than ten minutes, the hook has succeeded at most once more often than a
  -- mark after a success was lost, to three calls that threw or to the death of its settler. Calls of
  -- the store and hooks may fail, and settlers die, at any step.
  pub Reach-billed :
      {w w' : World}
      → (cur : RunRecord) → lookup run_id w.store.run_rows ≡ some cur
      → is_some cur.settled_at ≡ false
      → ((t : String) → w.phase t ≡ idle)
      → w.billed ≡ 0
      → (r : Reach run_id w w') → IsPrompt run_id r
      → w'.billed ≤ w'.lost_marks + 1
  Reach-billed {w = w} {w' = w'} cur row open_run idles b r prompt =
      let i = Reach-Invariant r prompt start in
      Paid-bound i.settled w'.billed w'.lost_marks w'.phase i.kept.1
    where
      start : Invariant run_id w
      start = record {
        cur = cur;
        settled = false;
        claimed_at = cur.settling_at;
        owner = lookup run_id w.store.settle_tokens;
        row = row;
        settled_is = open_run;
        claimed_is = refl;
        owner_is = refl;
        kept = (
          λ u. IsBacked-idle false _ _ w.now u (w.phase u) (ap live_since (idles u)),
          inl (omega (arith, b)),
        );
      }
