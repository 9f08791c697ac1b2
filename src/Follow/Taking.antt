-- ===== src/Follow/Taking.antt =====
-- What one step of a follower takes of the record.
use agentic_kit.Base.{
  ℕ, zero, suc, ◌+◌, ◌-◌, ◌≤◌, ◌<◌, ◌≡◌, ◌⊎◌, refl, sym, ap, ◌∙◌, subst, true, false, List, [], ◌∷◌,
  ◌++◌, append-nil, Option, none, some, ltb, ◌==◌, if◌then◌else◌, length, take, drop, length-drop,
  get_elem?, take-length, take-get_elem?, get_elem?-behind, keep_if, Bool-cases, inl, inr, arith,
}
use agentic_kit.Events.{AgentEvent, list_since}
use agentic_kit.Follow.{from_storage, fill, deliver}
use agentic_kit.Follow.Ordered.{
  IsNumbered, list_since-drop, from_storage-all, from_storage-up_to, drop-IsNumbered,
}

-- A notice, or an entry of the record.
abbrev pub IsKnown : List AgentEvent → AgentEvent → Type 0
IsKnown rows e = (e.seq ≡ 0) ⊎ ((k : ℕ) × (get_elem? rows k ≡ some e))

-- The stored events among those that were yielded.
abbrev pub durables : List AgentEvent → List AgentEvent
durables = keep_if λ e. ltb 0 e.seq

pub get_elem?-seq :
    (n k : ℕ) (rows : List AgentEvent) (e : AgentEvent)
    → IsNumbered n rows
    → get_elem? rows k ≡ some e
    → (e.seq ≡ suc (n + k)) × (k < length rows)
get_elem?-seq n k [] e h g = absurd (cc g)
get_elem?-seq n zero (x ∷ rows) e (a, h) g =
    (ap (λ y. y.seq) (sym (inj g)) ∙ omega (arith, a), omega arith)
  where
    inj : {x y : AgentEvent} → some x ≡ some y → x ≡ y
    inj r = cc
get_elem?-seq n (suc k) (x ∷ rows) e (a, h) g =
    let (b, c) = get_elem?-seq (suc n) k rows e h g in (omega (arith, b), omega (arith, c))

-- What a step takes of the record behind the cursor: the stored events that it yields are the next
-- ones, and the cursor is behind them.
abbrev pub Takes : List AgentEvent → ℕ → List AgentEvent × ℕ → Type 0
Takes rows last (es, last') =
    (d : ℕ) × (durables es ≡ take d (drop last rows))
    × (last' ≡ last + d)
    × (last + d ≤ length rows)

pub numbered_durables : (n : ℕ) (es : List AgentEvent) → IsNumbered n es → durables es ≡ es
numbered_durables n [] h = refl
numbered_durables n (e ∷ es) (a, h) =
    let t : ltb 0 e.seq ≡ true = ground (arith, a) in
    rw t (ap (λ r. e ∷ r) (numbered_durables (suc n) es h))

take-IsNumbered : (n k : ℕ) (es : List AgentEvent) → IsNumbered n es → IsNumbered n (take k es)
take-IsNumbered n zero es h = tt
take-IsNumbered n (suc k) [] h = tt
take-IsNumbered n (suc k) (e ∷ es) (a, h) = (a, take-IsNumbered (suc n) k es h)

module _ (rows : List AgentEvent) (h : IsNumbered 0 rows) where
  behind : (last : ℕ) → last ≤ length rows → IsNumbered last (drop last rows)
  behind last le =
      let e : 0 + last ≡ last = omega arith in
      subst (λ n. IsNumbered n (drop last rows)) e (drop-IsNumbered 0 last rows le h)

  length-behind : (last : ℕ) → last ≤ length rows → last + length (drop last rows) ≡ length rows
  length-behind last le = length-drop last rows le

  pub replays-Takes :
      (last : ℕ)
      → last ≤ length rows
      → Takes rows last (from_storage (list_since rows last) none last)
  replays-Takes last le =
      let e : from_storage (list_since rows last) none last
          ≡ (drop last rows, last + length (drop last rows)) =
        ap (λ l. from_storage l none last) (list_since-drop last rows le h)
        ∙ from_storage-all last (drop last rows) (behind last le) in
      subst (Takes rows last) (sym e) (
        length (drop last rows),
        numbered_durables last (drop last rows) (behind last le)
            ∙ sym (take-length (drop last rows)),
        refl,
        omega (arith, length-behind last le),
      )

  -- The entry with the number k + 1, where the storage has all of the record at every attempt.
  fill-gap :
      (last j : ℕ) (reads : List (Option (List AgentEvent)))
      → last ≤ length rows
      → last + j ≤ length rows
      → fill (some rows ∷ reads) (suc (last + j)) last ≡ (take j (drop last rows), last + j)
  unfolding fill
  fill-gap last zero reads le lt =
      let t : ltb (last + 1) (suc (last + 0)) ≡ false = ground arith in
      let e : last ≡ last + 0 = omega arith in rw t (ap (λ k. ([], k)) e)
  fill-gap last (suc j) reads le lt =
      let t : ltb (last + 1) (suc (last + suc j)) ≡ true = ground arith in
      let r : from_storage (list_since rows last) (some (suc (last + suc j))) last
          ≡ (take (suc j) (drop last rows), last + suc j) =
        ap (λ l. from_storage l (some (suc (last + suc j))) last) (list_since-drop last rows le h)
        ∙ from_storage-up_to last (suc j) (drop last rows) (behind last le)
            (omega (arith, lt, length-behind last le)) in
      rw t (
        ap
          (λ p. (
            p.0 ++ (fill reads (suc (last + suc j)) p.1).0,
            (fill reads (suc (last + suc j)) p.1).1,
          ))
          r
        ∙ ap (λ p. (take (suc j) (drop last rows) ++ p.0, p.1)) (full reads)
        ∙ ap (λ l. (l, last + suc j)) (append-nil (take (suc j) (drop last rows))))
    where
      full :
          (reads : List (Option (List AgentEvent)))
          → fill reads (suc (last + suc j)) (last + suc j) ≡ ([], last + suc j)
      full [] = refl
      full (none ∷ rs) = refl
      full (some x ∷ rs) =
          let t : ltb (last + suc j + 1) (suc (last + suc j)) ≡ false = ground arith in rw t refl

  fill-old :
      (last seq : ℕ) (reads : List (Option (List AgentEvent)))
      → seq ≤ last
      → fill (some rows ∷ reads) seq last ≡ ([], last)
  unfolding fill
  fill-old last seq reads le = let t : ltb (last + 1) seq ≡ false = ground (arith, le) in rw t refl

  pub deliver-Takes :
      (last : ℕ) (e : AgentEvent) (reads : List (Option (List AgentEvent)))
      → last ≤ length rows
      → IsKnown rows e
      → Takes rows last (deliver (some rows ∷ reads) e last)
  unfolding deliver
  deliver-Takes last e reads le (inl z) =
      let t : (e.seq == 0) ≡ true = ground (arith, z) in
      let u : ltb 0 e.seq ≡ false = ground (arith, z) in
      rw t (0, rw u refl, omega arith, omega (arith, le))
  deliver-Takes last e reads le (inr (k, g)) =
      let (q, lt) = get_elem?-seq 0 k rows e h g in
      let t : (e.seq == 0) ≡ false = ground (arith, q) in
      elim (Bool-cases (ltb k last)) [
        | inl b ↦ rw t (old k q b)
        | inr b ↦ rw t (new k q lt g (k - last) (ground (arith, b)))
      ]
    where
      found : List AgentEvent × ℕ → List AgentEvent × ℕ
      found (es, last') = if ltb last' e.seq then (es ++ (e ∷ []), e.seq) else (es, last')

      old :
          (k : ℕ)
          → e.seq ≡ suc (0 + k)
          → ltb k last ≡ true
          → Takes rows last (found (fill (some rows ∷ reads) e.seq last))
      old k q b =
          let t : ltb last e.seq ≡ false = ground (arith, q, b) in
          let fit : e.seq ≤ last = ground (arith, q, b) in
          subst (λ r. Takes rows last (found r)) (sym (fill-old last e.seq reads fit))
            (rw t (0, refl, omega arith, omega (arith, le)))

      new :
          (k : ℕ)
          → e.seq ≡ suc (0 + k)
          → k < length rows
          → get_elem? rows k ≡ some e
          → (j : ℕ) → k ≡ last + j
          → Takes rows last (found (fill (some rows ∷ reads) e.seq last))
      new k q lt g j s =
          let at : e.seq ≡ suc (last + j) = omega (arith, q, s) in
          let t : ltb (last + j) e.seq ≡ true = ground (arith, at) in
          let filled : fill (some rows ∷ reads) e.seq last ≡ (take j (drop last rows), last + j) =
            subst (λ n. fill (some rows ∷ reads) n last ≡ (take j (drop last rows), last + j))
              (sym at) (fill-gap last j reads le (omega (arith, lt, s))) in
          let here : get_elem? (drop last rows) j ≡ some e =
            get_elem?-behind last j rows ∙ subst (λ n. get_elem? rows n ≡ some e) s g in
          let whole = take-get_elem? j (drop last rows) e here in
          subst (λ r. Takes rows last (found r)) (sym filled)
            (rw t (
              suc j,
              ap durables whole
                  ∙ numbered_durables last (take (suc j) (drop last rows))
                      (take-IsNumbered last (suc j) (drop last rows) (behind last le)),
              omega (arith, at),
              omega (arith, lt, s),
            ))
