-- ===== src/Queue/Keys.antt =====
-- Keys, and the depth cap.
use agentic_kit.Base.{
  subst, ℕ, ◌+◌, ◌≤◌, ◌≡◌, ◌≢◌, max, refl, Bool, true, false, not, ◌&&◌, List, [], ◌∷◌, ◌++◌,
  Option, none, some, String, str_eq, eq_iff, ltb, leb, is_some, is_text, any, count_if, keep_if,
  arith, Bool-cases, inl, inr, count_if-append, count_if-none, count_if-keep_if-le,
}
use agentic_kit.Queue.{
  RunJob, EnqueueOptions, Item, MemoryQueue, has_key, key_text, has_no_delay, is_duplicate, is_full,
  item_of, enqueue, cancel,
}

-- At most one waiting job per key.
abbrev pub IsKeyed : MemoryQueue → Type 0
IsKeyed q = (k : String) → k ≢ "" → count_if (has_key k) q.items ≤ 1

one_item : (p : Item → Bool) (i : Item) → count_if p (i ∷ []) ≤ 1
one_item p i = ground arith

-- A key that the job's own is not.
other_key :
    (k : String) (job : RunJob) (opts : EnqueueOptions)
    → str_eq (key_text opts.key) k ≡ false
    → k ≢ ""
    → has_key k (item_of job opts) ≡ false
other_key k job opts e ne = go opts.key e
  where
    go : (o : Option String) → str_eq (key_text o) k ≡ false → is_text o k ≡ false
    go none h = refl
    go (some x) h = h

and_free : (b c : Bool) → b ≡ false → (not b && c) ≡ false → c ≡ false
and_free b c n h = ground (arith, n, h)

free_key :
    (q : MemoryQueue) (k : String) (key : Option String)
    → k ≢ ""
    → key_text key ≡ k
    → is_duplicate q key ≡ false
    → any (has_key k) q.items ≡ false
free_key q k key ne x e =
    and_free (str_eq k "") (any (has_key k) q.items) (ground (arith, ne, eq_iff k ""))
      (subst (λ j. (not (str_eq j "") && any (has_key j) q.items) ≡ false) x e)

-- Enqueuing and cancelling, refused or not, keep at most one waiting job per key, and after a
-- cancel none waits under the key.
pub enqueue-IsKeyed :
    (q : MemoryQueue) (job : RunJob) (opts : EnqueueOptions) (key : String)
    → IsKeyed q
    → IsKeyed (enqueue q job opts).0
      × IsKeyed (cancel q key)
      × (key ≢ "" → any (has_key key) (cancel q key).items ≡ false)
unfolding enqueue cancel
enqueue-IsKeyed q job opts key h = (
  λ k ne. elim (Bool-cases (is_duplicate q opts.key)) [
    | inl e ↦ rw e (h k ne)
    | inr e ↦ elim (Bool-cases (is_full q job)) [
      | inl f ↦ rw (e, f) (h k ne)
      | inr f ↦
          rw (e, f)
            (rw (count_if-append (has_key k) q.items (item_of job opts ∷ [])) (added k ne e))
    ]
  ],
  λ k ne. omega (
    arith,
    h k ne,
    count_if-keep_if-le (has_key k) (λ i. not (not (str_eq key "") && has_key key i)) q.items,
  ),
  λ ne. gone (ground (arith, ne, eq_iff key "")) q.items,
)
  where
    added :
        (k : String)
        → k ≢ ""
        → is_duplicate q opts.key ≡ false
        → count_if (has_key k) q.items + count_if (has_key k) (item_of job opts ∷ []) ≤ 1
    added k ne e = elim (Bool-cases (str_eq (key_text opts.key) k)) [
      | inl x ↦ omega (
        arith,
        one_item (has_key k) (item_of job opts),
        count_if-none (has_key k) q.items
            (free_key q k opts.key ne ((eq_iff (key_text opts.key) k).0 x) e),
      )
      | inr x ↦ rw (other_key k job opts x ne) (omega (arith, h k ne))
    ]

    gone :
        str_eq key "" ≡ false
        → (is : List Item)
        → any (has_key key) (keep_if (λ i. not (not (str_eq key "") && has_key key i)) is) ≡ false
    gone n [] = refl
    gone n (i ∷ is) = ground (arith, n, gone n is)

-- A cap of the depth holds for new work alone: a fresh job that goes in leaves no more ready jobs
-- than the cap or than there were, a refused job changes nothing, and a retry, a resume or an
-- expiry whose key is free always goes in.
pub enqueue-depth :
    (q : MemoryQueue) (job : RunJob) (opts : EnqueueOptions)
    → let (q', error) = enqueue q job opts in
      (is_some job.kind ≡ false
        → ltb 0 q.max_depth ≡ true
        → count_if has_no_delay q'.items ≤ max q.max_depth (count_if has_no_delay q.items))
      × (is_some error ≡ true → q' ≡ q)
      × (is_some job.kind ≡ true
          → is_duplicate q opts.key ≡ false
          → (error ≡ none) × (q'.items ≡ q.items ++ (item_of job opts ∷ [])))
unfolding enqueue
enqueue-depth q job opts = elim (Bool-cases (is_duplicate q opts.key)) [
  | inl e ↦
      rw e (
        λ fresh capped. le_max q.max_depth _,
        λ r. refl,
        λ kind free. absurd (ground (arith, free)),
      )
  | inr e ↦ elim (Bool-cases (is_full q job)) [
    | inl f ↦
        rw (e, f)
          (
            λ fresh capped. le_max q.max_depth _,
            λ r. refl,
            λ kind free. absurd (ground (arith, kind, f)),
          )
    | inr f ↦
        rw (e, f)
          (
            λ fresh capped.
                rw (count_if-append has_no_delay q.items (item_of job opts ∷ []))
                  (depth _ _ fresh capped f (one_item has_no_delay (item_of job opts))),
            λ r. absurd (ground (arith, r)),
            λ kind free. (refl, refl),
          )
  ]
]
  where
    le_max : (m n : ℕ) → n ≤ max m n
    le_max m n = omega arith

    depth :
        (n one : ℕ)
        → is_some job.kind ≡ false
        → ltb 0 q.max_depth ≡ true
        → ((ltb 0 q.max_depth && not (is_some job.kind)) && leb q.max_depth n) ≡ false
        → one ≤ 1
        → n + one ≤ max q.max_depth n
    depth n one fresh capped f le = ground (arith, fresh, capped, f, le)
