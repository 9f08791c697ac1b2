-- ===== src/Context/Merging.antt =====
-- The rounds of summary calls: each merges what the round before answered, and they end.
use agentic_kit.Base.{
  ℕ, zero, suc, ◌+◌, ◌*◌, ◌/◌, ◌%◌, ◌≤◌, ◌<◌, ◌≡◌, refl, ap, Bool, true, List, [], ◌∷◌, ◌++◌,
  Option, some, ltb, leb, ◌==◌, if◌then◌else◌, Bool-cases, inl, inr, length, length-append, All,
  All-append, arith,
}
use agentic_kit.Context.{
  Text, line_tokens, trim_middle, Packed, pack_line, pack, nothing_packed, close_packed,
  chunk_lines, digits, part_label, merge_lines, Summarized, summary, after_round, ask_all,
  summarize_lines,
}
use agentic_kit.Context.Bounds.{
  IsBasic, trim_middle-tokens_basic, trim_middle_short, trim_middle_some,
}

-- At most one chunk a line, and one with none.
abbrev CountsChunks : Packed → ℕ → Type 0
CountsChunks p n = length p.chunks + (if ltb 0 p.used then 1 else 0) ≤ n

pack-CountsChunks :
    (limit : ℕ) (p : Packed) (lines : List Text) (n : ℕ)
    → CountsChunks p n
    → CountsChunks (pack limit p lines) (n + length lines)
unfolding pack
pack-CountsChunks limit p [] n h = omega (arith, h)
pack-CountsChunks limit p (line ∷ lines) n h =
    let k =
      pack-CountsChunks limit (pack_line limit p line) lines (suc n)
        (ground (arith, h, length-append p.chunks (p.current ∷ []))) in
    omega (arith, k)

length-close_packed :
    (p : Packed) → (1 ≤ length (close_packed p)) × (length (close_packed p) ≤ length p.chunks + 1)
length-close_packed p = ground (arith, length-append p.chunks (p.current ∷ []))

pub chunk_lines_some :
    (lines : List Text) (limit : ℕ)
    → (1 ≤ length (chunk_lines lines limit)) × (length (chunk_lines lines limit) ≤ length lines + 1)
unfolding chunk_lines
chunk_lines_some lines limit =
    let p = pack limit nothing_packed lines in
    let k = pack-CountsChunks limit nothing_packed lines 0 (omega arith) in
    ((length-close_packed p).0, ground (arith, k, length-close_packed p))

-- The lines of a merge are at most half a chunk and not empty, so that a chunk is closed with two of
-- them at least.
abbrev IsHalf : ℕ → Text → Type 0
IsHalf limit line =
    (1 ≤ line_tokens (trim_middle line limit)) × (2 * line_tokens (trim_middle line limit) ≤ limit)

abbrev HoldsPairs : ℕ → Packed → ℕ → Type 0
HoldsPairs limit p n =
    2 * length p.chunks + (if ltb 0 p.used then (if leb (2 * p.used) limit then 1 else 2) else 0)
    ≤ n

pack-HoldsPairs :
    (limit : ℕ) (p : Packed) (lines : List Text) (n : ℕ)
    → All (IsHalf limit) lines
    → HoldsPairs limit p n
    → HoldsPairs limit (pack limit p lines) (n + length lines)
unfolding pack
pack-HoldsPairs limit p [] n hs h = omega (arith, h)
pack-HoldsPairs limit p (line ∷ lines) n hs h =
    let k =
      pack-HoldsPairs limit (pack_line limit p line) lines (suc n) hs.1
        (ground (arith, h, hs.0, length-append p.chunks (p.current ∷ []))) in
    omega (arith, k)

close_packed_halves :
    (limit : ℕ) (p : Packed) (n : ℕ)
    → HoldsPairs limit p n
    → 1 ≤ n
    → 2 * length (close_packed p) ≤ n + 1
close_packed_halves limit p n h k = ground (arith, h, k, length-append p.chunks (p.current ∷ []))

chunk_lines_halves :
    (limit : ℕ) (lines : List Text)
    → All (IsHalf limit) lines
    → 1 ≤ length lines
    → 2 * length (chunk_lines lines limit) ≤ length lines + 1
unfolding chunk_lines
chunk_lines_halves limit lines hs k =
    close_packed_halves limit (pack limit nothing_packed lines) (length lines)
      (omega (arith, pack-HoldsPairs limit nothing_packed lines 0 hs (omega arith))) k

digits-IsBasic : (fuel n : ℕ) (acc : Text) → IsBasic acc → IsBasic (digits fuel n acc)
unfolding digits
digits-IsBasic zero n acc h = h
digits-IsBasic (suc fuel) n acc h = elim (Bool-cases (n == 0)) [
  | inl e ↦ rw e h
  | inr e ↦ rw e (digits-IsBasic fuel (n / 10) ((48 + n % 10) ∷ acc) (omega arith, h))
]

part_label-IsBasic : (i : ℕ) (part : Text) → IsBasic part → IsBasic (part_label i part)
part_label-IsBasic i part h =
    let ends = All-append (λ c. c < 65536) part (10 ∷ 10 ∷ []) h (ground arith) in
    let number =
      All-append (λ c. c < 65536) (digits (suc i) (suc i) []) (58 ∷ 10 ∷ (part ++ (10 ∷ 10 ∷ [])))
        (digits-IsBasic (suc i) (suc i) [] tt) (ground (arith, ends)) in
    ground (arith, number)

merge_lines-IsHalf :
    (limit i : ℕ) (ps : List Text)
    → 24 ≤ limit
    → All IsBasic ps
    → All (IsHalf limit) (merge_lines limit i ps)
unfolding merge_lines
merge_lines-IsHalf limit i [] h bs = tt
merge_lines-IsHalf limit i (part ∷ ps) h bs =
    let label = part_label i part in
    let le = trim_middle-tokens_basic label (limit / 3) (part_label-IsBasic i part bs.0) in
    let e = trim_middle_short (trim_middle label (limit / 3)) limit (omega (arith, le, h)) in
    (
      rw e (trim_middle_some 80 _ (limit / 3), omega (arith, le, h)),
      merge_lines-IsHalf limit (suc i) ps h bs.1,
    )

length-merge_lines : (limit i : ℕ) (ps : List Text) → length (merge_lines limit i ps) ≡ length ps
unfolding merge_lines
length-merge_lines limit i [] = refl
length-merge_lines limit i (part ∷ ps) = ap suc (length-merge_lines limit (suc i) ps)

-- Where the partial summaries have no code point of two units, a merge takes at most half the
-- calls, rounded up, of the round before.
pub merge_lines_halve :
    (limit : ℕ) (ps : List Text)
    → 24 ≤ limit
    → All IsBasic ps
    → 1 ≤ length ps
    → 2 * length (chunk_lines (merge_lines limit 0 ps) limit) ≤ length ps + 1
merge_lines_halve limit ps h bs k =
    let e = length-merge_lines limit 0 ps in
    let r =
      chunk_lines_halves limit (merge_lines limit 0 ps) (merge_lines-IsHalf limit 0 ps h bs)
        (omega (arith, e, k)) in
    omega (arith, e, r)

module _ (answer : ℕ → Bool → Text → Option Text) (limit : ℕ)
    (answers : (n : ℕ) (merging : Bool) (chunk : Text)
      → (t : Text) × (answer n merging chunk ≡ some t) × IsBasic t) where
  ask_all_answers :
      (n : ℕ) (merging : Bool) (cs : List Text)
      → (ps : List Text) × (ask_all answer limit n merging cs ≡ some ps)
        × All IsBasic ps
        × (length ps ≡ length cs)
  unfolding ask_all
  ask_all_answers n merging [] = ([], refl, tt, refl)
  ask_all_answers n merging (c ∷ cs) =
      let (t, e, b) = answers n merging c in
      let (ps, f, bs, k) = ask_all_answers (suc n) merging cs in
      (t ∷ ps, rw (e, f) refl, (b, bs), ap suc k)

  summarize_lines-ends_from :
      (fuel n : ℕ) (merging : Bool) (lines : List Text)
      → 24 ≤ limit
      → length (chunk_lines lines limit) ≤ fuel
      → (t : Text) × (summarize_lines answer limit fuel n merging lines ≡ summary t)
  unfolding summarize_lines
  summarize_lines-ends_from zero n merging lines h k =
      absurd (omega (arith, k, chunk_lines_some lines limit))
  summarize_lines-ends_from (suc fuel) n merging lines h k =
      let (ps, e, bs, l) = ask_all_answers n merging (chunk_lines lines limit) in
      rw (e, summarize_lines)
        (rounds _
          (λ qs bs two l.
            summarize_lines-ends_from fuel (n + length (chunk_lines lines limit)) true
              (merge_lines limit 0 qs) h
              (omega (arith, merge_lines_halve limit qs h bs (omega arith), two, l, k)))
          ps bs l)
    where
      rounds :
          (next : List Text → Summarized)
          → ((qs : List Text)
              → All IsBasic qs
              → 2 ≤ length qs
              → length qs ≡ length (chunk_lines lines limit)
              → (t : Text) × (next qs ≡ summary t))
          → (ps : List Text) → All IsBasic ps
          → length ps ≡ length (chunk_lines lines limit)
          → (t : Text) × (after_round next ps ≡ summary t)
      rounds next again [] bs l = absurd (omega (arith, l, chunk_lines_some lines limit))
      rounds next again (p ∷ []) bs l = (p, refl)
      rounds next again (p ∷ q ∷ ps) bs l = again (p ∷ q ∷ ps) bs (omega arith) l

  -- Where every call is answered, with a text that has no code point of two units, and a chunk holds
  -- 24 tokens at least, one round more than there are lines is enough for a summary.
  pub summarize_lines-ends :
      (n : ℕ) (merging : Bool) (lines : List Text)
      → 24 ≤ limit
      → (t : Text) × (summarize_lines answer limit (length lines + 1) n merging lines ≡ summary t)
  summarize_lines-ends n merging lines h =
      summarize_lines-ends_from (length lines + 1) n merging lines h
        (chunk_lines_some lines limit).1
