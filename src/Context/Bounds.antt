-- ===== src/Context/Bounds.antt =====
-- How large a trimmed line and a packed chunk are.
use agentic_kit.Base.{
  ℕ, suc, ◌+◌, ◌-◌, ◌*◌, ◌/◌, ◌≤◌, ◌<◌, ◌≡◌, refl, ◌&&◌, ◌||◌, List, [], ◌∷◌, ◌++◌, ltb, leb, ◌==◌,
  Bool-cases, inl, inr, length, length-append, take, drop, length-drop, All, length-take-le,
  All-append, All-take, All-drop, All-each, All-map, arith,
}
use agentic_kit.Context.{
  Text, units, line_tokens, cut_mark, trim_middle, Packed, pack_line, pack, nothing_packed,
  close_packed, chunk_lines,
}
use agentic_kit.Context.Packing.{units-append}

-- No code point takes two units.
abbrev pub IsBasic : Text → Type 0
IsBasic = All λ c. c < 65536

units-basic : (xs : Text) → IsBasic xs → units xs ≡ length xs
units-basic [] h = refl
units-basic (x ∷ xs) h = ground (arith, h.0, units-basic xs h.1)

units-le : (xs : Text) → units xs ≤ 2 * length xs
units-le [] = omega arith
units-le (x ∷ xs) = ground (arith, units-le xs)

-- The cases of `trim_middle`, with what each knows.
trim_middle-cases :
    (P : Text → Type 0) (line : Text) (limit : ℕ)
    → (line_tokens line ≤ limit → P line)
    → (length line ≤ limit * 4 / 2 * 2 → P line)
    → (limit * 4 / 2 * 2 < length line
        → P (take (limit * 4 / 2) line ++ (cut_mark ++ drop (length line - limit * 4 / 2) line)))
    → P (trim_middle line limit)
unfolding trim_middle
trim_middle-cases P line limit a b c = elim (Bool-cases (leb (line_tokens line) limit)) [
  | inl e ↦ rw e (a (ground (arith, e)))
  | inr e ↦ elim (Bool-cases (leb (length line) (limit * 4 / 2 * 2))) [
    | inl f ↦ rw (e, f) (b (ground (arith, f)))
    | inr f ↦ rw (e, f) (c (ground (arith, f)))
  ]
]

length-cut :
    (line : Text) (k : ℕ)
    → k * 2 < length line
    → length (take k line ++ (cut_mark ++ drop (length line - k) line)) ≤ k * 2 + 15
length-cut line k h = omega (
  arith,
  length-append (take k line) (cut_mark ++ drop (length line - k) line),
  length-append cut_mark (drop (length line - k) line),
  length-take-le k line,
  length-drop (length line - k) line (omega (arith, h)),
)

pub trim_middle-IsBasic :
    (line : Text) (limit : ℕ) → IsBasic line → IsBasic (trim_middle line limit)
trim_middle-IsBasic line limit h =
    trim_middle-cases IsBasic line limit (λ _. h) (λ _. h)
      λ _.
        All-append _ (take (limit * 4 / 2) line) _ (All-take _ (limit * 4 / 2) line h)
          (All-append _ cut_mark _ (ground arith) (All-drop _ (length line - limit * 4 / 2) line h))

trim_middle-tokens :
    (line : Text) (limit : ℕ) → line_tokens (trim_middle line limit) ≤ 2 * limit + 4
trim_middle-tokens line limit =
    trim_middle-cases (λ t. line_tokens t ≤ 2 * limit + 4) line limit (λ h. omega (arith, h))
      (λ h. omega (arith, h, units-le line))
      λ h.
        let cut =
          take (limit * 4 / 2) line ++ (cut_mark ++ drop (length line - limit * 4 / 2) line) in
        omega (
          arith,
          units-append (take (limit * 4 / 2) line)
              (cut_mark ++ drop (length line - limit * 4 / 2) line),
          units-append cut_mark (drop (length line - limit * 4 / 2) line),
          units-le (take (limit * 4 / 2) line),
          units-le (drop (length line - limit * 4 / 2) line),
          length-take-le (limit * 4 / 2) line,
          length-drop (length line - limit * 4 / 2) line (omega (arith, h)),
        )

pub trim_middle-tokens_basic :
    (line : Text) (limit : ℕ) → IsBasic line → line_tokens (trim_middle line limit) ≤ limit + 4
trim_middle-tokens_basic line limit b =
    trim_middle-cases (λ t. IsBasic t → line_tokens t ≤ limit + 4) line limit
      (λ h _. omega (arith, h)) (λ h k. omega (arith, h, units-basic line k))
      (λ h k. omega (arith, length-cut line (limit * 4 / 2) h, units-basic _ k))
      (trim_middle-IsBasic line limit b)

pub trim_middle_short :
    (line : Text) (limit : ℕ) → line_tokens line ≤ limit → trim_middle line limit ≡ line
unfolding trim_middle
trim_middle_short line limit h = ground (arith, h)

-- A text that is not empty stays so.
pub trim_middle_some :
    (c : ℕ) (line : Text) (limit : ℕ) → 1 ≤ line_tokens (trim_middle (c ∷ line) limit)
trim_middle_some c line limit =
    trim_middle-cases (λ t. 1 ≤ line_tokens t) (c ∷ line) limit (λ _. ground arith)
      (λ _. ground arith)
      λ _.
        let rest = drop (suc (length line) - limit * 4 / 2) (c ∷ line) in
        omega (
          arith,
          units-append (take (limit * 4 / 2) (c ∷ line)) (cut_mark ++ rest),
          units-append cut_mark rest,
        )

-- A bound of every trimmed line that is at least the limit bounds every chunk.
module _ (limit bound : ℕ) (h : limit ≤ bound) where
  abbrev Fits : Text → Type 0
  Fits c = line_tokens c ≤ bound

  abbrev IsWithin : Packed → Type 0
  IsWithin p = All Fits p.chunks × (units p.current ≤ 4 * p.used) × (p.used ≤ bound)

  pack_line-IsWithin :
      (p : Packed) (raw : Text)
      → Fits (trim_middle raw limit)
      → IsWithin p
      → IsWithin (pack_line limit p raw)
  pack_line-IsWithin p raw f (a, b, c) =
      elim (Bool-cases (ltb 0 p.used && ltb limit (p.used + line_tokens (trim_middle raw limit)))) [
        | inl e ↦ simp e (All-append Fits p.chunks _ a (omega (arith, b, c), tt), omega arith, f)
        | inr e ↦ simp e (
          a,
          omega (arith, b, units-append p.current (trim_middle raw limit)),
          ground (arith, e, f, c, h),
        )
      ]

  pack-IsWithin :
      (p : Packed) (lines : List Text)
      → All (λ line. Fits (trim_middle line limit)) lines
      → IsWithin p
      → IsWithin (pack limit p lines)
  unfolding pack
  pack-IsWithin p [] fs w = w
  pack-IsWithin p (line ∷ lines) fs w =
      pack-IsWithin (pack_line limit p line) lines fs.1 (pack_line-IsWithin p line fs.0 w)

  close_packed-Fits : (p : Packed) → IsWithin p → All Fits (close_packed p)
  close_packed-Fits p (a, b, c) = elim (Bool-cases (ltb 0 p.used || (length p.chunks == 0))) [
    | inl e ↦ simp e (All-append Fits p.chunks _ a (omega (arith, b, c), tt))
    | inr e ↦ simp e a
  ]

  chunk_lines-Fits :
      (lines : List Text)
      → All (λ line. Fits (trim_middle line limit)) lines
      → All Fits (chunk_lines lines limit)
  unfolding chunk_lines
  chunk_lines-Fits lines fs =
      close_packed-Fits (pack limit nothing_packed lines)
        (pack-IsWithin nothing_packed lines fs (tt, omega arith, omega arith))

-- Whatever the lines are, a chunk is estimated at 4 tokens over twice the limit at most; where no
-- code point of them takes two units, at 4 tokens over the limit at most.
pub chunk_lines-bound :
    (lines : List Text) (limit : ℕ)
    → All (λ c. line_tokens c ≤ 2 * limit + 4) (chunk_lines lines limit)
      × (All IsBasic lines → All (λ c. line_tokens c ≤ limit + 4) (chunk_lines lines limit))
chunk_lines-bound lines limit = (
  chunk_lines-Fits limit (2 * limit + 4) (omega arith) lines
      (All-each (λ line. trim_middle-tokens line limit) lines),
  λ b.
      chunk_lines-Fits limit (limit + 4) (omega arith) lines
        (All-map (λ line. trim_middle-tokens_basic line limit) lines b),
)
