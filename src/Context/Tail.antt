-- ===== src/Context/Tail.antt =====
-- Where the part of a history that stays as it is begins.
use agentic_kit.Base.{
  ℕ, zero, suc, ◌+◌, ◌<◌, ◌≡◌, refl, sym, ap, ap₂, ◌∙◌, subst, Bool, true, List, [], ◌∷◌, ◌++◌,
  Option, none, some, String, Bool-cases, Option-cases, length, get_elem?, take, drop,
  take-append-drop, arith, inl, inr,
}
use agentic_kit.History.{Message, Content}
use agentic_kit.Context.{
  Text, ContextConfig, is_user, first_user, last_user, user_turn_at_or_after, tail_start,
  covers_up_to, plan_compaction,
}
use agentic_kit.Context.Compaction.{planned}

abbrev IsUser : Option Message → Type 0
IsUser none = Unit
IsUser (some m) = is_user m.role ≡ true

-- It is empty, or its first message is the user's.
abbrev pub StartsAtUser : List Message → Type 0
StartsAtUser [] = Unit
StartsAtUser (m ∷ ms) = is_user m.role ≡ true

drop-StartsAtUser : (n : ℕ) (ms : List Message) → IsUser (get_elem? ms n) → StartsAtUser (drop n ms)
drop-StartsAtUser zero [] h = tt
drop-StartsAtUser zero (m ∷ ms) h = h
drop-StartsAtUser (suc n) [] h = tt
drop-StartsAtUser (suc n) (m ∷ ms) h = drop-StartsAtUser n ms h

drop_all-StartsAtUser : (ms : List Message) → StartsAtUser (drop (length ms) ms)
drop_all-StartsAtUser [] = tt
drop_all-StartsAtUser (m ∷ ms) = drop_all-StartsAtUser ms

get_elem?-drop :
    (s d : ℕ) (ms : List Message) → IsUser (get_elem? (drop s ms) d) → IsUser (get_elem? ms (s + d))
get_elem?-drop zero d ms h =
    let e : d ≡ 0 + d = omega arith in subst (λ k. IsUser (get_elem? ms k)) e h
get_elem?-drop (suc s) d [] h = out (suc s + d)
  where
    out : (k : ℕ) → IsUser (get_elem? [] k)
    out k = tt
get_elem?-drop (suc s) d (m ∷ ms) h =
    let e : suc (s + d) ≡ suc s + d = omega arith in
    subst (λ k. IsUser (get_elem? (m ∷ ms) k)) e (get_elem?-drop s d ms h)

get_elem?-take :
    (n d : ℕ) (ms : List Message)
    → d < length (take n ms)
    → get_elem? (take n ms) d ≡ get_elem? ms d
get_elem?-take zero d ms h = absurd (omega (arith, h))
get_elem?-take (suc n) d [] h = absurd (omega (arith, h))
get_elem?-take (suc n) zero (m ∷ ms) h = refl
get_elem?-take (suc n) (suc d) (m ∷ ms) h = get_elem?-take n d ms (omega (arith, h))

some_inj : {a b : ℕ} → some a ≡ some b → a ≡ b
some_inj e = cc

first_user_at :
    (i at : ℕ) (ms : List Message)
    → first_user i ms ≡ some at
    → (d : ℕ) × (at ≡ i + d) × IsUser (get_elem? ms d)
unfolding first_user
first_user_at i at [] h = absurd (cc h)
first_user_at i at (m ∷ ms) h = elim (Bool-cases (is_user m.role)) [
  | inl e ↦ (0, omega (arith, some_inj (rw e at h)), e)
  | inr e ↦ let (d, f, u) = first_user_at (suc i) at ms (rw e at h) in (suc d, omega (arith, f), u)
]

last_user_at :
    (i at : ℕ) (ms : List Message)
    → last_user i ms ≡ some at
    → (d : ℕ) × (at ≡ i + d) × (d < length ms) × IsUser (get_elem? ms d)
unfolding last_user
last_user_at i at [] h = absurd (cc h)
last_user_at i at (m ∷ ms) h = elim (Option-cases (last_user (suc i) ms)) [
  | inr (x, e) ↦
      let (d, f, l, u) = last_user_at (suc i) x ms e in
      (suc d, omega (arith, f, some_inj (rw e at h)), omega (arith, l), u)
  | inl e ↦ elim (Bool-cases (is_user m.role)) [
    | inl u ↦ (0, omega (arith, some_inj (rw (e, u) at h)), omega arith, u)
    | inr u ↦ absurd (ground (arith, h, e, u))
  ]
]

user_turn-StartsAtUser :
    (history : List Message) (start : ℕ)
    → StartsAtUser (drop (user_turn_at_or_after history start) history)
unfolding user_turn_at_or_after
user_turn-StartsAtUser history start = elim (Option-cases (first_user start (drop start history))) [
  | inr (at, e) ↦
      let (d, f, u) = first_user_at start at (drop start history) e in
      rw (e, user_turn_at_or_after)
        (drop-StartsAtUser at history
          (subst (λ k. IsUser (get_elem? history k)) (sym f) (get_elem?-drop start d history u)))
  | inl e ↦ elim (Option-cases (last_user 0 (take start history))) [
    | inl g ↦ rw (e, user_turn_at_or_after) (rw g (drop_all-StartsAtUser history))
    | inr (at, g) ↦
        let (d, f, l, u) = last_user_at 0 at (take start history) g in
        let k : d ≡ at = omega (arith, f) in
        rw (e, user_turn_at_or_after)
          (rw g (
            drop-StartsAtUser at history (
              subst (λ n. IsUser (get_elem? history n)) k
                (subst IsUser (get_elem?-take start d history l) u))))
  ]
]

abbrev plan : String → List Message → List Message → Option (String × List Message × List Message)
plan covers older tail = some (covers, older, tail)

-- Where a compaction is planned, the history is cut in two: what is summarized has a message that is
-- no summary, and what stays is empty or starts with a turn of the user.
pub plan_compaction_cut :
    (json : Content → Text) (config : ContextConfig) (budget : ℕ) (history : List Message)
    (force : Bool) (covers : String) (older tail : List Message)
    → plan_compaction json config budget history force ≡ some (covers, older, tail)
    → (older ++ tail ≡ history) × StartsAtUser tail × (covers_up_to older ≡ some covers)
unfolding tail_start
plan_compaction_cut json config budget history force covers older tail h =
    elim (planned json config budget history force) [
      | inl e ↦ absurd (cc (sym e ∙ h))
      | inr (c, o, t, e, f, g, k) ↦
          let whole : o ++ t ≡ history = rw (f, g) (take-append-drop _ history) in
          let user : StartsAtUser t = rw g (user_turn-StartsAtUser history _) in
          same (sym e ∙ h) whole user k
    ]
  where
    same :
        {c c' : String} {o t o' t' : List Message}
        → plan c o t ≡ plan c' o' t'
        → o ++ t ≡ history
        → StartsAtUser t
        → covers_up_to o ≡ some c
        → (o' ++ t' ≡ history) × StartsAtUser t' × (covers_up_to o' ≡ some c')
    same {c = c} {c' = c'} {o = o} {t = t} {o' = o'} {t' = t'} r a b k =
        let x : c ≡ c' = cc in
        let y : o ≡ o' = cc in
        let z : t ≡ t' = cc in
        (
          ap₂ (λ p q. p ++ q) (sym y) (sym z) ∙ a,
          subst StartsAtUser z b,
          ap covers_up_to (sym y) ∙ k ∙ ap some x,
        )
