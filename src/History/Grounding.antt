-- ===== src/History/Grounding.antt =====
-- No result of the repaired history stands without its call.
use agentic_kit.Base.{
  ◌≡◌, refl, ap, subst, Bool, true, List, [], ◌∷◌, ◌++◌, map, String, keep_if, length, ◌==◌, arith,
  eq_iff, All, Bool-cases, inl, inr, length-keep_if-le,
}
use agentic_kit.History.{
  Role, user, assistant, system, tool, Part, Message, Content, parts, plain, object, parts_of,
  is_tool, is_assistant, is_called, calls_in, ids_of, called_by, dangling, missing, added,
  keep_called, drop_orphans_from, close_calls,
}
use agentic_kit.History.Closing.{Covers, Covers-mono, tool_calls_none}

-- Every result in a tool message names no call, or one of an assistant's turn before it.
abbrev pub IsGrounded : List String → List Message → Type 0
IsGrounded called [] = Unit
IsGrounded called (m ∷ ms) =
    (is_tool m.role ≡ true
      → All (λ p. is_called (called_by m ++ called) p ≡ true) (parts_of m.content))
    × IsGrounded (called_by m ++ called) ms

keep_if_grounded :
    (called : List String) (ps : List Part)
    → All (λ p. is_called called p ≡ true) ps
    → keep_if (is_called called) ps ≡ ps
keep_if_grounded called [] h = refl
keep_if_grounded called (p ∷ ps) h = rw (h.0, keep_if_grounded called ps h.1)

keep_if-All :
    (called : List String) (ps : List Part)
    → All (λ p. is_called called p ≡ true) (keep_if (is_called called) ps)
keep_if-All called [] = tt
keep_if-All called (p ∷ ps) = elim (Bool-cases (is_called called p)) [
  | inl e ↦ rw e (e, keep_if-All called ps)
  | inr e ↦ rw e (keep_if-All called ps)
]

keep_if_full :
    (called : List String) (ps : List Part)
    → length (keep_if (is_called called) ps) ≡ length ps
    → keep_if (is_called called) ps ≡ ps
keep_if_full called [] h = refl
keep_if_full called (p ∷ ps) h = elim (Bool-cases (is_called called p)) [
  | inl e ↦ rw e (ap (◌∷◌ p) (keep_if_full called ps (ground (arith, e))))
  | inr e ↦ absurd (ground (arith, e, length-keep_if-le (is_called called) ps))
]

keep_called-IsGrounded :
    (id : String) (r : Role) (c : Content) (called : List String) (rest : List Message)
    → let m : Message = record { id = id; role = r; content = c } in
      IsGrounded (called_by m ++ called) rest
      → IsGrounded called (keep_called (called_by m ++ called) m ++ rest)
unfolding called_by keep_called
keep_called-IsGrounded id tool (parts ps) called rest h =
    elim (Bool-cases (length (keep_if (is_called called) ps) == length ps)) [
      | inl e ↦ rw e (
        λ _.
            subst (All (λ p. is_called called p ≡ true))
              (keep_if_full called ps (ground (arith, e))) (keep_if-All called ps),
        h,
      )
      | inr e ↦ elim (Bool-cases (length (keep_if (is_called called) ps) == 0)) [
        | inl z ↦ rw (e, z) h
        | inr z ↦ rw (e, z) (λ _. keep_if-All called ps, h)
      ]
    ]
keep_called-IsGrounded id tool (plain t) called rest h = (λ _. tt, h)
keep_called-IsGrounded id tool (object a b c) called rest h = (λ _. tt, h)
keep_called-IsGrounded id user c called rest h = (λ e. absurd (cc), h)
keep_called-IsGrounded id assistant c called rest h = (λ e. absurd (cc), h)
keep_called-IsGrounded id system c called rest h = (λ e. absurd (cc), h)

pub drop_orphans_from-IsGrounded :
    (called : List String) (ms : List Message) → IsGrounded called (drop_orphans_from called ms)
unfolding drop_orphans_from
drop_orphans_from-IsGrounded called [] = tt
drop_orphans_from-IsGrounded called (m ∷ ms) =
    keep_called-IsGrounded m.id m.role m.content called _
      (drop_orphans_from-IsGrounded (called_by m ++ called) ms)

keep_called_same :
    (id : String) (r : Role) (c : Content) (called : List String)
    → let m : Message = record { id = id; role = r; content = c } in
      (is_tool r ≡ true → All (λ p. is_called called p ≡ true) (parts_of c))
      → keep_called called m ≡ m ∷ []
unfolding keep_called
keep_called_same id tool (parts ps) called h =
    rw (keep_if_grounded called ps (h refl)) (ground arith)
keep_called_same id tool (plain t) called h = refl
keep_called_same id tool (object a b c) called h = refl
keep_called_same id user c called h = refl
keep_called_same id assistant c called h = refl
keep_called_same id system c called h = refl

pub drop_orphans_from_same :
    (called : List String) (ms : List Message)
    → IsGrounded called ms
    → drop_orphans_from called ms ≡ ms
unfolding drop_orphans_from
drop_orphans_from_same called [] h = refl
drop_orphans_from_same called (m ∷ ms) h = rw (
  keep_called_same m.id m.role m.content (called_by m ++ called) h.0,
  drop_orphans_from_same (called_by m ++ called) ms h.1,
)

dangling_called :
    (p : String × String → Bool) (cs : List (String × String)) (called : List String)
    → Covers (ids_of cs) called
    → All (λ q. is_called called q ≡ true) (map dangling (keep_if p cs))
dangling_called p [] called h = tt
dangling_called p (c ∷ cs) called h = elim (Bool-cases (p c)) [
  | inl e ↦ rw e (ground (arith, h.0), dangling_called p cs called h.1)
  | inr e ↦ rw e (dangling_called p cs called h.1)
]

Covers-self : (ids more : List String) → Covers ids (ids ++ more)
Covers-self [] more = tt
Covers-self (id ∷ ids) more = (
  ground (arith, eq_iff id id),
  Covers-mono ids (ids ++ more) (id ∷ ids ++ more) (λ x h. ground (arith, h))
      (Covers-self ids more),
)

missing_called :
    (m : Message) (ms : List Message) (called : List String)
    → All (λ q. is_called (called_by m ++ called) q ≡ true) (missing m ms)
unfolding missing called_by
missing_called m ms called = elim (Bool-cases (is_assistant m.role)) [
  | inl e ↦ rw e (dangling_called _ (calls_in (parts_of m.content)) _ (Covers-self _ called))
  | inr e ↦ rw e tt
]

added-IsGrounded :
    (called : List String) (owed : List Part) (ms : List Message)
    → All (λ q. is_called called q ≡ true) owed
    → IsGrounded called ms
    → IsGrounded called (added owed ++ ms)
unfolding called_by
added-IsGrounded called [] ms o h = h
added-IsGrounded called (p ∷ ps) ms o h = (λ _. o, h)

pub close_calls-IsGrounded :
    (called : List String) (owed : List Part) (ms : List Message)
    → All (λ q. is_called called q ≡ true) owed
    → IsGrounded called ms
    → IsGrounded called (close_calls owed ms)
unfolding close_calls
close_calls-IsGrounded called [] [] o h = tt
close_calls-IsGrounded called (p ∷ ps) [] o h = added-IsGrounded called (p ∷ ps) [] o tt
close_calls-IsGrounded called owed (m ∷ ms) o h = elim (Bool-cases (is_tool m.role)) [
  | inl e ↦
      rw e (
        h.0,
        close_calls-IsGrounded (called_by m ++ called) owed ms (rw (tool_calls_none m e) o) h.1,
      )
  | inr e ↦ rw e (
      added-IsGrounded called owed _ o (
        h.0,
        close_calls-IsGrounded (called_by m ++ called) (missing m ms) ms
            (missing_called m ms called) h.1,
      ))
]
