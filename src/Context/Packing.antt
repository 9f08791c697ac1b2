-- ===== src/Context/Packing.antt =====
-- How the lines of a history are packed into the prompts of summary calls.
use agentic_kit.Base.{
  ℕ, ◌+◌, ◌*◌, ◌≤◌, ◌≡◌, refl, sym, ap, ◌∙◌, ◌&&◌, ◌||◌, List, [], ◌∷◌, ◌++◌, append-nil,
  append_assoc, ltb, ◌==◌, Bool-cases, inl, inr, length, arith,
}
use agentic_kit.Context.{
  Text, units, line_tokens, trim_middle, Packed, pack_line, pack, nothing_packed, close_packed,
  chunk_lines,
}

abbrev pub joined : List Text → Text
joined [] = []
joined (t ∷ ts) = t ++ joined ts

abbrev pub trimmed : ℕ → List Text → List Text
trimmed limit [] = []
trimmed limit (line ∷ lines) = trim_middle line limit ∷ trimmed limit lines

joined-append : (xs ys : List Text) → joined (xs ++ ys) ≡ joined xs ++ joined ys
joined-append [] ys = refl
joined-append (x ∷ xs) ys = rw (joined-append xs ys) (sym (append_assoc x (joined xs) (joined ys)))

pub units-append : (xs ys : Text) → units (xs ++ ys) ≡ units xs + units ys
units-append [] ys = omega arith
units-append (x ∷ xs) ys = omega (arith, units-append xs ys)

units-pos : (xs : Text) → units xs ≤ 0 → xs ≡ []
units-pos [] h = refl
units-pos (x ∷ xs) h = absurd (ground (arith, h))

line_tokens-zero : (xs : Text) → line_tokens xs ≤ 0 → xs ≡ []
line_tokens-zero xs h = units-pos xs (omega (arith, h))

abbrev HoldsUnits : Packed → Type 0
HoldsUnits p = units p.current ≤ 4 * p.used

abbrev content_of : Packed → Text
content_of p = joined p.chunks ++ p.current

pack_line-joined :
    (limit : ℕ) (p : Packed) (raw : Text)
    → content_of (pack_line limit p raw) ≡ content_of p ++ trim_middle raw limit
pack_line-joined limit p raw =
    elim (Bool-cases (ltb 0 p.used && ltb limit (p.used + line_tokens (trim_middle raw limit)))) [
      | inl e ↦ simp e (
          ap (λ t. t ++ trim_middle raw limit)
            (joined-append p.chunks (p.current ∷ [])
              ∙ ap (λ t. joined p.chunks ++ t) (append-nil p.current)))
      | inr e ↦ simp e (sym (append_assoc (joined p.chunks) p.current (trim_middle raw limit)))
    ]

pack_line-HoldsUnits :
    (limit : ℕ) (p : Packed) (raw : Text) → HoldsUnits p → HoldsUnits (pack_line limit p raw)
pack_line-HoldsUnits limit p raw h =
    ground (arith, h, units-append p.current (trim_middle raw limit))

pack-joined :
    (limit : ℕ) (p : Packed) (lines : List Text)
    → content_of (pack limit p lines) ≡ content_of p ++ joined (trimmed limit lines)
unfolding pack
pack-joined limit p [] = sym (append-nil (content_of p))
pack-joined limit p (line ∷ lines) =
    pack-joined limit (pack_line limit p line) lines
    ∙ ap (λ t. t ++ joined (trimmed limit lines)) (pack_line-joined limit p line)
    ∙ append_assoc (content_of p) (trim_middle line limit) (joined (trimmed limit lines))

pack-HoldsUnits :
    (limit : ℕ) (p : Packed) (lines : List Text) → HoldsUnits p → HoldsUnits (pack limit p lines)
unfolding pack
pack-HoldsUnits limit p [] h = h
pack-HoldsUnits limit p (line ∷ lines) h =
    pack-HoldsUnits limit (pack_line limit p line) lines (pack_line-HoldsUnits limit p line h)

close_packed-joined : (p : Packed) → HoldsUnits p → joined (close_packed p) ≡ content_of p
close_packed-joined p h = elim (Bool-cases (ltb 0 p.used || (length p.chunks == 0))) [
  | inl e ↦ simp e (
      joined-append p.chunks (p.current ∷ [])
      ∙ ap (λ t. joined p.chunks ++ t) (append-nil p.current))
  | inr e ↦ simp e (
      sym (append-nil (joined p.chunks))
      ∙ ap (λ t. joined p.chunks ++ t) (sym (units-pos p.current (ground (arith, h, e)))))
]

-- The chunks hold the lines, each one trimmed, in order and in full.
pub chunk_lines-joined :
    (lines : List Text) (limit : ℕ)
    → joined (chunk_lines lines limit) ≡ joined (trimmed limit lines)
unfolding chunk_lines
chunk_lines-joined lines limit =
    close_packed-joined (pack limit nothing_packed lines)
      (pack-HoldsUnits limit nothing_packed lines (omega arith))
    ∙ pack-joined limit nothing_packed lines
