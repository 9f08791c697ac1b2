-- ===== src/Context/Compaction.antt =====
-- What a compaction leaves in the store, and what the next run's prompt makes of it.
use agentic_kit.Base.{
  ℕ, ◌≤◌, ◌≡◌, ◌⊎◌, refl, sym, ap, ◌∙◌, subst, Bool, false, not, ◌&&◌, List, [], ◌∷◌, ◌++◌, Option,
  none, some, String, str_eq, append-nil, append_assoc, Bool-cases, Option-cases, keep_if-append,
  length, take, drop, take-append-drop, leb, arith, All, inl, inr, str_eq-eq_of,
}
use agentic_kit.History.{Message, Content, summary_of, is_summary, not_summaries, prompt_history}
use agentic_kit.History.Prompt.{prompt_history_covered}
use agentic_kit.Context.Shape.{
  IsPlain, prompt_history-Shape, not_summaries-IsPlain, IsPlain-not_summaries, tail-IsPlain,
  with_latest-plain,
}
use agentic_kit.Context.{
  Text, ContextConfig, share_of, history_tokens, tail_start, covers_up_to, plan_compaction,
  summary_message, compact_context,
}

-- No two messages have one id.
abbrev pub IsDistinct : List Message → Type 0
IsDistinct [] = Unit
IsDistinct (m ∷ ms) = All (λ x. str_eq m.id x.id ≡ false) ms × IsDistinct ms

-- The last plain message of a part, and only summaries behind it.
covers_up_to_at :
    (older : List Message) (id : String)
    → covers_up_to older ≡ some id
    → (a b : List Message) × (c : Message) × (older ≡ a ++ (c ∷ b))
      × (not_summaries b ≡ [])
      × IsPlain c
      × (c.id ≡ id)
unfolding covers_up_to
covers_up_to_at [] id h = absurd (cc h)
covers_up_to_at (m ∷ ms) id h = elim (Option-cases (covers_up_to ms)) [
  | inr (x, e) ↦
      let (a, b, c, f, n, p, i) = covers_up_to_at ms x e in
      (m ∷ a, b, c, ap (λ t. m ∷ t) f, n, p, i ∙ some_inj (rw e at h))
  | inl e ↦ elim (Bool-cases (is_summary m)) [
    | inl s ↦ absurd (ground (arith, h, e, s))
    | inr s ↦ ([], ms, m, refl, none_plain ms e, s, some_inj (rw (e, s) at h))
  ]
]
  where
    some_inj : {x y : String} → some x ≡ some y → x ≡ y
    some_inj r = cc

    none_plain : (xs : List Message) → covers_up_to xs ≡ none → not_summaries xs ≡ []
    none_plain [] e = refl
    none_plain (x ∷ xs) e = ground (arith, e, none_plain xs)

-- A message that stays when the summaries go stands in the list, with what stays behind it.
not_summaries_at :
    (xs a t : List Message) (c : Message)
    → not_summaries xs ≡ a ++ (c ∷ t)
    → (p q : List Message) × (xs ≡ p ++ (c ∷ q)) × (not_summaries q ≡ t)
not_summaries_at [] [] t c h = absurd (cc h)
not_summaries_at [] (x ∷ a) t c h = absurd (cc h)
not_summaries_at (x ∷ xs) [] t c h = elim (Bool-cases (is_summary x)) [
  | inl e ↦
      let (p, q, f, g) = not_summaries_at xs [] t c (rw e at h) in (x ∷ p, q, ap (λ r. x ∷ r) f, g)
  | inr e ↦ ([], xs, ap (λ m. m ∷ xs) (heads (rw e at h)), tails (rw e at h))
]
  where
    heads : {x y : Message} {xs ys : List Message} → x ∷ xs ≡ y ∷ ys → x ≡ y
    heads r = cc

    tails : {x y : Message} {xs ys : List Message} → x ∷ xs ≡ y ∷ ys → xs ≡ ys
    tails r = cc
not_summaries_at (x ∷ xs) (y ∷ a) t c h = elim (Bool-cases (is_summary x)) [
  | inl e ↦
      let (p, q, f, g) = not_summaries_at xs (y ∷ a) t c (rw e at h) in
      (x ∷ p, q, ap (λ r. x ∷ r) f, g)
  | inr e ↦
      let (p, q, f, g) = not_summaries_at xs a t c (tails (rw e at h)) in
      (x ∷ p, q, ap (λ r. x ∷ r) f, g)
]
  where
    tails : {x y : Message} {xs ys : List Message} → x ∷ xs ≡ y ∷ ys → xs ≡ ys
    tails r = cc

IsDistinct-before :
    (p q : List Message) (c : Message)
    → IsDistinct (p ++ (c ∷ q))
    → All (λ m. str_eq m.id c.id ≡ false) p
IsDistinct-before [] q c h = tt
IsDistinct-before (m ∷ p) q c h = (at p h.0, IsDistinct-before p q c h.1)
  where
    at :
        (p : List Message)
        → All (λ x. str_eq m.id x.id ≡ false) (p ++ (c ∷ q))
        → str_eq m.id c.id ≡ false
    at [] h = h.0
    at (x ∷ p) h = at p h.1

-- The store with a summary of the older part behind it reads as the summary and the tail.
reads_back :
    (stored older tail : List Message) (fresh_id text covers : String)
    → IsDistinct stored
    → older ++ tail ≡ prompt_history stored
    → covers_up_to older ≡ some covers
    → let s = summary_message fresh_id text covers in prompt_history (stored ++ (s ∷ [])) ≡ s ∷ tail
unfolding summary_of
reads_back stored older tail fresh_id text covers d e o =
    let s = summary_message fresh_id text covers in
    let (j, head, shape, at) = prompt_history-Shape stored in
    let (a, b, c, f, n, p, i) = covers_up_to_at older covers o in
    let some_older : 1 ≤ length older = rw f (nonempty a b c) in
    let plain =
      tail-IsPlain head _ older tail (not_summaries-IsPlain (drop j stored)) (e ∙ shape)
        some_older in
    let kept : not_summaries (drop j stored) ≡ not_summaries a ++ (c ∷ tail) =
      sym (ap not_summaries (e ∙ shape) ∙ with_latest-plain head (drop j stored) at)
      ∙ keep_if-append (λ m. not (is_summary m)) older tail
      ∙ ap (λ t. not_summaries older ++ t) (IsPlain-not_summaries tail plain)
      ∙ ap (λ t. t ++ tail) (ap not_summaries f ∙ last_plain a b c p n)
      ∙ append_assoc (not_summaries a) (c ∷ []) tail in
    let (u, q, g, r) = not_summaries_at (drop j stored) (not_summaries a) tail c kept in
    let whole : stored ≡ (take j stored ++ u) ++ (c ∷ q) =
      sym (take-append-drop j stored)
      ∙ ap (λ t. take j stored ++ t) g
      ∙ sym (append_assoc (take j stored) u (c ∷ q)) in
    ap (λ t. prompt_history (t ++ (s ∷ []))) whole
    ∙ ap prompt_history (append_assoc (take j stored ++ u) (c ∷ q) (s ∷ []))
    ∙ prompt_history_covered (take j stored ++ u) q [] c s covers refl tt
        (subst (λ x. All (λ m. str_eq m.id x ≡ false) (take j stored ++ u)) i
          (IsDistinct-before (take j stored ++ u) q c (subst IsDistinct whole d)))
        (str_eq-eq_of i)
    ∙ ap (λ t. s ∷ t) (append-nil (not_summaries q) ∙ r)
  where
    nonempty : (a b : List Message) (c : Message) → 1 ≤ length (a ++ (c ∷ b))
    nonempty [] b c = omega arith
    nonempty (x ∷ a) b c = omega arith

    last_plain :
        (a b : List Message) (c : Message)
        → IsPlain c
        → not_summaries b ≡ []
        → not_summaries (a ++ (c ∷ b)) ≡ not_summaries a ++ (c ∷ [])
    last_plain a b c p n =
        keep_if-append (λ m. not (is_summary m)) a (c ∷ b)
        ∙ ap (λ t. not_summaries a ++ t) (rw (p, n) refl)

-- What a plan gives: the history cut at a user turn, and the last plain message before the cut.
pub planned :
    (json : Content → Text) (config : ContextConfig) (budget : ℕ) (history : List Message)
    (force : Bool)
    → (plan_compaction json config budget history force ≡ none)
      ⊎ ((covers : String) × (older tail : List Message) × (plan_compaction json config budget
              history force
            ≡ some (covers, older, tail))
          × (older ≡ take (tail_start json config budget history force) history)
          × (tail ≡ drop (tail_start json config budget history force) history)
          × (covers_up_to older ≡ some covers))
unfolding plan_compaction
planned json config budget history force =
    elim (Bool-cases (
      not force && leb (history_tokens json history) (share_of config.compaction_trigger budget))) [
        | inl e ↦ inl (rw e refl)
        | inr e ↦
            elim (Option-cases
              (covers_up_to (take (tail_start json config budget history force) history))) [
                | inl f ↦ inl (rw (e, f) refl)
                | inr (covers, f) ↦ elim (Bool-cases (str_eq covers "")) [
                  | inl g ↦ inl (rw (e, f) (rw g refl))
                  | inr g ↦ inr (
                    covers,
                    take (tail_start json config budget history force) history,
                    drop (tail_start json config budget history force) history,
                    rw (e, f) (rw g refl),
                    refl,
                    refl,
                    f,
                  )
                ]
              ]
      ]

abbrev left_with : List Message → List Message → Option (List Message × List Message)
left_with stored prompt = some (stored, prompt)

-- What `compactContext` returns is what the next prompt of the store that it leaves is, whether it
-- compacts or not, where no two stored messages have one id.
pub compact_context-prompt :
    (json : Content → Text) (config : ContextConfig) (budget : ℕ) (force : Bool) (fresh_id : String)
    (text : List Message → Option String) (stored stored' prompt : List Message)
    → IsDistinct stored
    → compact_context json config budget force fresh_id text stored ≡ some (stored', prompt)
    → prompt_history stored' ≡ prompt
unfolding compact_context
compact_context-prompt json config budget force fresh_id text stored stored' prompt d h =
    elim (planned json config budget (prompt_history stored) force) [
      | inl e ↦ ends (rw (e, compact_context) at h) refl
      | inr (covers, older, tail, e, f, g, o) ↦ elim (Option-cases (text older)) [
        | inl n ↦ absurd (cc (rw n at (rw (e, compact_context) at h)))
        | inr (t, n) ↦ ends (rw n at (rw (e, compact_context) at h)) (
            reads_back stored older tail fresh_id t covers d
              (rw (f, g) (take-append-drop _ (prompt_history stored))) o)
      ]
    ]
  where
    ends :
        {a b c d : List Message}
        → left_with a b ≡ left_with c d
        → prompt_history a ≡ b
        → prompt_history c ≡ d
    ends {a = a} {b = b} {c = c} {d = d} e f =
        let l : a ≡ c = cc in let r : b ≡ d = cc in ap prompt_history (sym l) ∙ f ∙ r
