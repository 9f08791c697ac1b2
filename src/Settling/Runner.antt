-- ===== src/Settling/Runner.antt =====
-- `settleRun` of packages/agentenkit/src/core/settle.ts for one run, with any number of settlers that
-- act between each other's steps on one admin store. A call of the store may throw before the
-- store has acted or after it: a throw says nothing of what was written. A settler may die at any step,
-- and time passes as it likes, past the end of a claim that is still at work too. A settler's token is
-- a fresh id, so that a token that has ended is not used again.
use agentic_kit.Base.{
  ℕ, suc, ◌+◌, ◌-◌, ◌≤◌, ◌≡◌, Bool, true, false, Option, none, some, String, lookup, str_eq, ◌==◌,
  if◌then◌else◌,
}
use agentic_kit.Settling.{AdminStore, claim_settle, end_settle}

-- `SETTLE_CLAIM_TTL_MS`.
abbrev pub settle_claim_ttl_ms : ℕ
settle_claim_ttl_ms = 600000

-- How a call of the store went.
pub data Call : Type 0 where
  fine threw_before threw_after : Call

-- Where a settler is: not started, about to make a numbered attempt at the claim, refused, with the
-- claim it took at a time and the hook to run, about to make a numbered attempt at ending the claim
-- after a hook that succeeded or not, or at the end.
pub data Phase : Type 0 where
  idle : Phase
  claiming : ℕ → Phase
  refused : Phase
  holding : ℕ → Phase
  marking : Bool → ℕ → ℕ → Phase
  ended : Phase

-- An attempt threw: the next one of three, or the end.
abbrev pub next_claim : ℕ → Phase
next_claim n = if n == 2 then ended else claiming (suc n)

unfoldable pub claim_attempt : AdminStore → ℕ → String → String → ℕ → Call → AdminStore × Phase
claim_attempt s now run_id token n threw_before = (s, next_claim n)
claim_attempt s now run_id token n threw_after =
    ((claim_settle s now run_id token (now - settle_claim_ttl_ms)).0, next_claim n)
claim_attempt s now run_id token n fine =
    let (s', won) = claim_settle s now run_id token (now - settle_claim_ttl_ms) in
    (s', if won then holding now else refused)

abbrev pub next_mark : Bool → ℕ → ℕ → Phase
next_mark ok at n = if n == 2 then ended else marking ok at (suc n)

unfoldable pub mark_attempt :
    AdminStore → ℕ → String → String → Bool → ℕ → ℕ → Call → AdminStore × Phase
mark_attempt s now run_id token ok at n threw_before = (s, next_mark ok at n)
mark_attempt s now run_id token ok at n threw_after =
    (end_settle s now run_id token ok, next_mark ok at n)
mark_attempt s now run_id token ok at n fine = (end_settle s now run_id token ok, ended)

-- Whether the last attempt at the mark of a hook that succeeded threw.
abbrev pub lost : Bool → ℕ → Call → ℕ
lost false n c = 0
lost true n fine = 0
lost true n threw_before = if n == 2 then 1 else 0
lost true n threw_after = if n == 2 then 1 else 0

abbrev pub counted : Bool → ℕ
counted ok = if ok then 1 else 0

-- `billed` counts the hooks that succeeded, `lost_marks` those whose mark was given up, or died with
-- their settler.
pub record World : Type 0 where
  pub store : AdminStore
  pub now : ℕ
  pub phase : String → Phase
  pub billed : ℕ
  pub lost_marks : ℕ

abbrev pub set_phase : (String → Phase) → String → Phase → String → Phase
set_phase phase token p other = if str_eq other token then p else phase other

-- When a settler that has a claim took it.
abbrev pub live_since : Phase → Option ℕ
live_since (holding at) = some at
live_since (marking true at n) = some at
live_since _ = none

-- The mark that a settler with a hook that succeeded has still to make.
abbrev pub unmarked : Phase → ℕ
unmarked (marking true at n) = 1
unmarked _ = 0

module _ (run_id : String) where
  pub data Step (w : World) : World → Type 0 where
    passes : (later : ℕ) → w.now ≤ later → Step w (record w { now = later })
    -- A settler dies where it is, and what it had still to mark is lost.
    dies :
        (t : String)
        → Step w (record w {
          phase = set_phase w.phase t ended;
          lost_marks = w.lost_marks + unmarked (w.phase t);
        })
    starts :
        (t : String)
        → w.phase t ≡ idle
        → Step w (record w { phase = set_phase w.phase t (claiming 0) })
    claims :
        (t : String) (n : ℕ) (c : Call)
        → w.phase t ≡ claiming n
        → Step w (record w {
          store = (claim_attempt w.store w.now run_id t n c).0;
          phase = set_phase w.phase t (claim_attempt w.store w.now run_id t n c).1;
        })
    -- A refused settler reads the record: with none it runs the hook unclaimed.
    hooks_unclaimed :
        (t : String) (ok : Bool)
        → w.phase t ≡ refused
        → lookup run_id w.store.run_rows ≡ none
        → Step w (record w { phase = set_phase w.phase t ended; billed = w.billed + counted ok })
    gives_up :
        (t : String) → w.phase t ≡ refused → Step w (record w { phase = set_phase w.phase t ended })
    hooks :
        (t : String) (at : ℕ) (ok : Bool)
        → w.phase t ≡ holding at
        → Step w (record w {
          phase = set_phase w.phase t (marking ok at 0);
          billed = w.billed + counted ok;
        })
    marks :
        (t : String) (ok : Bool) (at n : ℕ) (c : Call)
        → w.phase t ≡ marking ok at n
        → Step w (record w {
          store = (mark_attempt w.store w.now run_id t ok at n c).0;
          phase = set_phase w.phase t (mark_attempt w.store w.now run_id t ok at n c).1;
          lost_marks = w.lost_marks + lost ok n c;
        })

  pub data Reach (w : World) : World → Type 0 where
    here : Reach w w
    next : {t u : World} → Reach w t → Step t u → Reach w u

  -- No step of a run lets a settler that lives have its claim for longer than it holds: what the source
  -- asks of a hook that must not see a run twice.
  abbrev pub IsPromptStep : {w w' : World} → Step w w' → Type 0
  IsPromptStep {w = w} (passes later le) =
      (t : String) (at : ℕ) → live_since (w.phase t) ≡ some at → later ≤ at + settle_claim_ttl_ms
  IsPromptStep _ = Unit

  abbrev pub IsPrompt : {w w' : World} → Reach w w' → Type 0
  IsPrompt here = Unit
  IsPrompt (next r s) = IsPrompt r × IsPromptStep s
