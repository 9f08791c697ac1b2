-- ===== src/Context/Shape.antt =====
-- What a prompt is of the stored messages: a plain part behind one summary at most.
use agentic_kit.Base.{
  ℕ, suc, ◌+◌, ◌≤◌, ◌≡◌, ◌⊎◌, refl, sym, ap, subst, true, false, List, [], ◌∷◌, ◌++◌, Option, none,
  some, String, Bool-cases, Option-cases, length, get_elem?, drop, arith, All, inl, inr,
}
use agentic_kit.History.{
  Message, summary_of, is_summary, latest_from, covered_at, not_summaries, with_latest,
  prompt_history,
}
use agentic_kit.History.Prompt.{summaries, summaries-none}

abbrev pub IsPlain : Message → Type 0
IsPlain m = is_summary m ≡ false

abbrev pub AtSummary : Option Message → Type 0
AtSummary none = Unit
AtSummary (some m) = is_summary m ≡ true

not_summaries_zero : (ms : List Message) → summaries ms ≡ 0 → not_summaries ms ≡ ms
unfolding summaries
not_summaries_zero [] h = refl
not_summaries_zero (m ∷ ms) h = elim (Bool-cases (is_summary m)) [
  | inl e ↦ absurd (ground (arith, h, e))
  | inr e ↦ rw e (ap (λ t. m ∷ t) (not_summaries_zero ms (ground (arith, h, e))))
]

pub not_summaries-IsPlain : (ms : List Message) → All IsPlain (not_summaries ms)
not_summaries-IsPlain [] = tt
not_summaries-IsPlain (m ∷ ms) = elim (Bool-cases (is_summary m)) [
  | inl e ↦ rw e (not_summaries-IsPlain ms)
  | inr e ↦ rw e (e, not_summaries-IsPlain ms)
]

pub IsPlain-not_summaries : (ms : List Message) → All IsPlain ms → not_summaries ms ≡ ms
IsPlain-not_summaries [] h = refl
IsPlain-not_summaries (m ∷ ms) h = rw h.0 (ap (λ t. m ∷ t) (IsPlain-not_summaries ms h.1))

abbrev is_found : ℕ → Option String → Option (ℕ × Option String)
is_found k covers = some (k, covers)

abbrev Found : ℕ → ℕ → Option (ℕ × Option String) → Option String → List Message → Type 0
Found i k found covers ms =
    (found ≡ is_found k covers) ⊎ ((d : ℕ) × (k ≡ i + d) × AtSummary (get_elem? ms d))

latest_from_at :
    (i k : ℕ) (found : Option (ℕ × Option String)) (covers : Option String) (ms : List Message)
    → latest_from i found ms ≡ some (k, covers)
    → Found i k found covers ms
unfolding latest_from
latest_from_at i k found covers [] h = inl h
latest_from_at i k found covers (m ∷ ms) h = elim (Option-cases (summary_of m.content)) [
  | inl e ↦ elim (latest_from_at (suc i) k found covers ms (rw e at h)) [
    | inl f ↦ inl f
    | inr (d, f, a) ↦ inr (suc d, omega (arith, f), a)
  ]
  | inr (c, e) ↦ elim (latest_from_at (suc i) k (some (i, c)) covers ms (rw e at h)) [
    | inl f ↦ inr (0, omega (arith, numbers f), rw e refl)
    | inr (d, f, a) ↦ inr (suc d, omega (arith, f), a)
  ]
]
  where
    numbers : {a b : ℕ} {x y : Option String} → is_found a x ≡ is_found b y → a ≡ b
    numbers e = cc

-- A prompt is a part of the store from some message on without its summaries, behind one summary at
-- most.
abbrev pub Shape : List Message → List Message → Type 0
Shape stored history =
    (j : ℕ) × (head : Option Message) × (history ≡ with_latest head (not_summaries (drop j stored)))
    × AtSummary head

pub prompt_history-Shape : (stored : List Message) → Shape stored (prompt_history stored)
unfolding prompt_history
prompt_history-Shape stored = elim (Option-cases (latest_from 0 none stored)) [
  | inl e ↦
      rw (e, prompt_history)
        (0, none, sym (not_summaries_zero stored (summaries-none 0 stored e)), tt)
  | inr ((latest, covers), e) ↦ elim (Option-cases (covered_at covers stored)) [
    | inl f ↦ rw (e, prompt_history) (rw f (0, none, refl, tt))
    | inr (at, f) ↦
        rw (e, prompt_history) (rw f (suc at, get_elem? stored latest, refl, found latest covers e))
  ]
]
  where
    found :
        (latest : ℕ) (covers : Option String)
        → latest_from 0 none stored ≡ some (latest, covers)
        → AtSummary (get_elem? stored latest)
    found latest covers e = elim (latest_from_at 0 latest none covers stored e) [
      | inl f ↦ absurd (cc f)
      | inr (d, f, a) ↦
          let g : d ≡ latest = omega (arith, f) in subst (λ n. AtSummary (get_elem? stored n)) g a
    ]

-- What stays behind a plain message of a prompt is plain.
pub tail-IsPlain :
    (head : Option Message) (r older tail : List Message)
    → All IsPlain r
    → older ++ tail ≡ with_latest head r
    → 1 ≤ length older
    → All IsPlain tail
tail-IsPlain head r [] tail h e k = absurd (omega (arith, k))
tail-IsPlain none r (x ∷ xs) tail h e k = All-behind (x ∷ xs) tail (subst (All IsPlain) (sym e) h)
  where
    All-behind : (xs ys : List Message) → All IsPlain (xs ++ ys) → All IsPlain ys
    All-behind [] ys h = h
    All-behind (x ∷ xs) ys h = All-behind xs ys h.1
tail-IsPlain (some s) r (x ∷ xs) tail h e k =
    All-behind xs tail (subst (All IsPlain) (sym (tails e)) h)
  where
    All-behind : (xs ys : List Message) → All IsPlain (xs ++ ys) → All IsPlain ys
    All-behind [] ys h = h
    All-behind (x ∷ xs) ys h = All-behind xs ys h.1

    tails : {x y : Message} {xs ys : List Message} → x ∷ xs ≡ y ∷ ys → xs ≡ ys
    tails r = cc

pub with_latest-plain :
    (head : Option Message) (r : List Message)
    → AtSummary head
    → not_summaries (with_latest head (not_summaries r)) ≡ not_summaries r
with_latest-plain none r h = IsPlain-not_summaries (not_summaries r) (not_summaries-IsPlain r)
with_latest-plain (some m) r h =
    rw h (IsPlain-not_summaries (not_summaries r) (not_summaries-IsPlain r))
