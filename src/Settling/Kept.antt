-- ===== src/Settling/Kept.antt =====
-- What the settlers of a run keep true, in terms of what its row says: whether it is settled, when it
-- was claimed, and by whom.
use agentic_kit.Base.{
  ℕ, suc, ◌+◌, ◌-◌, ◌≤◌, ◌≡◌, ◌⊎◌, refl, sym, ap, ◌∙◌, subst, Bool, true, false, Option, none, some,
  String, str_eq, Bool-cases, inl, inr, arith, eq_iff, str_eq-eq_of,
}
use agentic_kit.Settling.{is_recent}
use agentic_kit.Settling.Runner.{
  settle_claim_ttl_ms, Phase, idle, claiming, refused, holding, marking, ended, set_phase,
  live_since,
}

-- What a settler with the claim relies on: the run is not settled, the claim is its own, and not
-- stale. The view of a row is whether it is settled, when it was claimed, and by whom.
abbrev pub Owned : Bool → Option ℕ → Option String → ℕ → String → ℕ → Type 0
Owned st sa ow now t at =
    (st ≡ false) × (sa ≡ some at) × (ow ≡ some t) × (now ≤ at + settle_claim_ttl_ms)

abbrev pub IsBacked : Bool → Option ℕ → Option String → ℕ → String → Phase → Type 0
IsBacked st sa ow now t (holding at) = Owned st sa ow now t at
IsBacked st sa ow now t (marking true at n) = (st ≡ true) ⊎ Owned st sa ow now t at
IsBacked st sa ow now t _ = Unit

abbrev pub IsMarking : Phase → Type 0
IsMarking (marking true at n) = Unit
IsMarking _ = ⊥

abbrev pub Paid : Bool → ℕ → ℕ → (String → Phase) → Type 0
Paid true billed lost_marks phase = billed ≤ lost_marks + 1
Paid false billed lost_marks phase =
    (billed ≤ lost_marks) ⊎ ((t : String) × IsMarking (phase t) × (billed ≤ lost_marks + 1))

abbrev pub Kept : Bool → Option ℕ → Option String → ℕ → (String → Phase) → ℕ → ℕ → Type 0
Kept st sa ow now phase billed lost_marks =
    ((u : String) → IsBacked st sa ow now u (phase u)) × Paid st billed lost_marks phase

pub Paid-bound : (st : Bool) (b l : ℕ) (phase : String → Phase) → Paid st b l phase → b ≤ l + 1
Paid-bound true b l phase h = h
Paid-bound false b l phase (inl h) = omega (arith, h)
Paid-bound false b l phase (inr (t, m, h)) = h

pub IsBacked-idle :
    (st : Bool) (sa : Option ℕ) (ow : Option String) (now : ℕ) (t : String) (p : Phase)
    → live_since p ≡ none
    → IsBacked st sa ow now t p
IsBacked-idle st sa ow now t idle h = tt
IsBacked-idle st sa ow now t (claiming n) h = tt
IsBacked-idle st sa ow now t refused h = tt
IsBacked-idle st sa ow now t (holding at) h = absurd (cc h)
IsBacked-idle st sa ow now t (marking true at n) h = absurd (cc h)
IsBacked-idle st sa ow now t (marking false at n) h = tt
IsBacked-idle st sa ow now t ended h = tt

IsMarking-live : (p : Phase) → IsMarking p → live_since p ≡ none → ⊥
IsMarking-live idle m h = m
IsMarking-live (claiming n) m h = m
IsMarking-live refused m h = m
IsMarking-live (holding at) m h = m
IsMarking-live (marking true at n) m h = absurd (cc h)
IsMarking-live (marking false at n) m h = m
IsMarking-live ended m h = m

same_text : (u t : String) → str_eq u t ≡ true → u ≡ t
same_text u t e = (eq_iff u t).0 e

-- A settler with the claim of an unsettled run is its owner, and there is one.
IsBacked-owner :
    (sa : Option ℕ) (ow : Option String) (now : ℕ) (u : String) (p : Phase)
    → IsBacked false sa ow now u p
    → (live_since p ≡ none) ⊎ ((ow ≡ some u) × (is_recent (now - settle_claim_ttl_ms) sa ≡ true))
IsBacked-owner sa ow now u idle b = inl refl
IsBacked-owner sa ow now u (claiming n) b = inl refl
IsBacked-owner sa ow now u refused b = inl refl
IsBacked-owner sa ow now u (holding at) (a, b, c, d) = inr (c, rw b (ground (arith, d)))
IsBacked-owner sa ow now u (marking true at n) (inl s) = absurd (cc s)
IsBacked-owner sa ow now u (marking true at n) (inr (a, b, c, d)) =
    inr (c, rw b (ground (arith, d)))
IsBacked-owner sa ow now u (marking false at n) b = inl refl
IsBacked-owner sa ow now u ended b = inl refl

-- What a settler relies on in a settled run does not depend on the claim.
IsBacked-settled :
    (sa sa' : Option ℕ) (ow ow' : Option String) (now : ℕ) (u : String) (p : Phase)
    → IsBacked true sa ow now u p
    → IsBacked true sa' ow' now u p
IsBacked-settled sa sa' ow ow' now u idle b = tt
IsBacked-settled sa sa' ow ow' now u (claiming n) b = tt
IsBacked-settled sa sa' ow ow' now u refused b = tt
IsBacked-settled sa sa' ow ow' now u (holding at) b = absurd (cc b.0)
IsBacked-settled sa sa' ow ow' now u (marking true at n) b = inl refl
IsBacked-settled sa sa' ow ow' now u (marking false at n) b = tt
IsBacked-settled sa sa' ow ow' now u ended b = tt

module _ (phase : String → Phase) (t : String) (p : Phase) where
  pub set_phase-each :
      (P : String → Phase → Type 0)
      → P t p
      → ((u : String) → str_eq u t ≡ false → P u (phase u))
      → (u : String) → P u (set_phase phase t p u)
  set_phase-each P here others u = elim (Bool-cases (str_eq u t)) [
    | inl e ↦ rw e (subst (λ x. P x p) (sym (same_text u t e)) here)
    | inr e ↦ rw e (others u e)
  ]

  set_phase-other : (u : String) → str_eq u t ≡ false → set_phase phase t p u ≡ phase u
  set_phase-other u e = rw e refl

  pub set_phase-here : set_phase phase t p t ≡ p
  set_phase-here = rw (str_eq-eq_of {s = t} {t = t} refl) refl

  -- A settler at the mark is another one where `t` is not live.
  Paid-set_phase :
      (st : Bool) (b l : ℕ)
      → live_since (phase t) ≡ none
      → Paid st b l phase
      → Paid st b l (set_phase phase t p)
  Paid-set_phase true b l q h = h
  Paid-set_phase false b l q (inl h) = inl h
  Paid-set_phase false b l q (inr (u, m, h)) = elim (Bool-cases (str_eq u t)) [
    | inl e ↦
        absurd (IsMarking-live (phase u) m (ap (λ x. live_since (phase x)) (same_text u t e) ∙ q))
    | inr e ↦ inr (u, subst IsMarking (sym (set_phase-other u e)) m, h)
  ]

  -- A step of a settler that has no claim, and gets none, on the same row.
  pub Kept-quiet :
      (st : Bool) (sa : Option ℕ) (ow : Option String) (now b l : ℕ)
      → live_since (phase t) ≡ none
      → live_since p ≡ none
      → Kept st sa ow now phase b l
      → Kept st sa ow now (set_phase phase t p) b l
  Kept-quiet st sa ow now b l q r (back, paid) = (
    set_phase-each (IsBacked st sa ow now) (IsBacked-idle st sa ow now t p r) (λ u e. back u),
    Paid-set_phase st b l q paid,
  )

  -- A claim is taken of an unsettled run whose claim is absent or stale.
  pub Kept-claimed :
      (sa : Option ℕ) (ow : Option String) (now b l : ℕ)
      → is_recent (now - settle_claim_ttl_ms) sa ≡ false
      → IsBacked false (some now) (some t) now t p
      → Kept false sa ow now phase b l
      → Kept false (some now) (some t) now (set_phase phase t p) b l
  Kept-claimed sa ow now b l stale here (back, paid) = (
    set_phase-each (IsBacked false (some now) (some t) now) here
        λ u e. IsBacked-idle false (some now) (some t) now u (phase u) (quiet u),
    spent paid,
  )
    where
      quiet : (u : String) → live_since (phase u) ≡ none
      quiet u = elim (IsBacked-owner sa ow now u (phase u) (back u)) [
        | inl q ↦ q
        | inr (o, r) ↦ absurd (cc (sym r ∙ stale))
      ]

      spent : Paid false b l phase → Paid false b l (set_phase phase t p)
      spent (inl h) = inl h
      spent (inr (u, m, h)) = absurd (IsMarking-live (phase u) m (quiet u))

  -- Nobody else has the claim where the owner is `t`.
  Kept-others :
      (sa : Option ℕ) (ow : Option String) (now b l : ℕ)
      → ow ≡ some t
      → Kept false sa ow now phase b l
      → (u : String) → str_eq u t ≡ false
      → live_since (phase u) ≡ none
  Kept-others sa ow now b l o (back, paid) u e =
      elim (IsBacked-owner sa ow now u (phase u) (back u)) [
        | inl q ↦ q
        | inr (o', r) ↦ absurd (cc (sym e ∙ str_eq-eq_of (inj (sym o' ∙ o))))
      ]
    where
      inj : {x y : String} → some x ≡ some y → x ≡ y
      inj h = cc

  -- What the owner's hook or its end leaves unpaid is what was.
  unpaid :
      (sa : Option ℕ) (ow : Option String) (now b l : ℕ)
      → ow ≡ some t
      → (IsMarking (phase t) → ⊥)
      → Kept false sa ow now phase b l
      → b ≤ l
  unpaid sa ow now b l o free (back, inl h) = h
  unpaid sa ow now b l o free (back, inr (u, m, h)) = elim (Bool-cases (str_eq u t)) [
    | inl e ↦ absurd (free (subst (λ x. IsMarking (phase x)) (same_text u t e) m))
    | inr e ↦
        absurd (IsMarking-live (phase u) m (Kept-others sa ow now b l o (back, inr (u, m, h)) u e))
  ]

  -- The owner's hook succeeded.
  pub Kept-hooked :
      (st : Bool) (sa : Option ℕ) (ow : Option String) (now b l at : ℕ)
      → phase t ≡ holding at
      → p ≡ marking true at 0
      → Kept st sa ow now phase b l
      → Kept st sa ow now (set_phase phase t p) (b + 1) l
  Kept-hooked true sa ow now b l at e q (back, paid) =
      absurd (owned (subst (IsBacked true sa ow now t) e (back t)))
    where
      owned : Owned true sa ow now t at → ⊥
      owned (a, q, r, h) = cc a
  Kept-hooked false sa ow now b l at e q (back, paid) =
      let own : Owned false sa ow now t at = subst (IsBacked false sa ow now t) e (back t) in
      let few = unpaid sa ow now b l own.2 (λ m. subst IsMarking e m) (back, paid) in
      (
        set_phase-each (IsBacked false sa ow now)
            (subst (IsBacked false sa ow now t) (sym q) (inr own)) (λ u _. back u),
        inr (t, subst IsMarking (sym (set_phase-here ∙ q)) tt, omega (arith, few)),
      )

  -- The owner's hook failed.
  pub Kept-failed :
      (st : Bool) (sa : Option ℕ) (ow : Option String) (now b l at : ℕ)
      → phase t ≡ holding at
      → live_since p ≡ none
      → Kept st sa ow now phase b l
      → Kept st sa ow now (set_phase phase t p) b l
  Kept-failed true sa ow now b l at e q (back, paid) =
      absurd (owned (subst (IsBacked true sa ow now t) e (back t)))
    where
      owned : Owned true sa ow now t at → ⊥
      owned (a, q, r, h) = cc a
  Kept-failed false sa ow now b l at e q (back, paid) =
      let own : Owned false sa ow now t at = subst (IsBacked false sa ow now t) e (back t) in
      (
        set_phase-each (IsBacked false sa ow now) (IsBacked-idle false sa ow now t p q)
            (λ u _. back u),
        inl (unpaid sa ow now b l own.2 (λ m. subst IsMarking e m) (back, paid)),
      )

  -- The owner gives its claim up after a hook that failed.
  pub Kept-dropped :
      (st : Bool) (sa sa' : Option ℕ) (ow ow' : Option String) (now b l : ℕ)
      → ow ≡ some t
      → live_since p ≡ none
      → (IsMarking (phase t) → ⊥)
      → Kept st sa ow now phase b l
      → Kept st sa' ow' now (set_phase phase t p) b l
  Kept-dropped true sa sa' ow ow' now b l o q free (back, paid) = (
    set_phase-each (IsBacked true sa' ow' now) (IsBacked-idle true sa' ow' now t p q)
        λ u _. IsBacked-settled sa sa' ow ow' now u (phase u) (back u),
    paid,
  )
  Kept-dropped false sa sa' ow ow' now b l o q free k = (
    set_phase-each (IsBacked false sa' ow' now) (IsBacked-idle false sa' ow' now t p q)
        λ u e. IsBacked-idle false sa' ow' now u (phase u) (Kept-others sa ow now b l o k u e),
    inl (unpaid sa ow now b l o free k),
  )

  -- The run is settled, already or now, by its owner.
  pub Kept-settled :
      (st : Bool) (sa sa' : Option ℕ) (ow ow' : Option String) (now b l more : ℕ)
      → (st ≡ true) ⊎ (ow ≡ some t)
      → IsBacked true sa' ow' now t p
      → Kept st sa ow now phase b l
      → Kept true sa' ow' now (set_phase phase t p) b (l + more)
  Kept-settled true sa sa' ow ow' now b l more c here (back, paid) = (
    set_phase-each (IsBacked true sa' ow' now) here
        λ u _. IsBacked-settled sa sa' ow ow' now u (phase u) (back u),
    omega (arith, paid),
  )
  Kept-settled false sa sa' ow ow' now b l more (inl c) here k = absurd (cc c)
  Kept-settled false sa sa' ow ow' now b l more (inr o) here k = (
    set_phase-each (IsBacked true sa' ow' now) here
        λ u e. IsBacked-idle true sa' ow' now u (phase u) (Kept-others sa ow now b l o k u e),
    omega (arith, Paid-bound false b l phase k.1),
  )

  -- A mark that threw is tried again.
  pub Kept-retried :
      (st : Bool) (sa : Option ℕ) (ow : Option String) (now b l at n : ℕ)
      → phase t ≡ marking true at n
      → p ≡ marking true at (suc n)
      → Kept st sa ow now phase b l
      → Kept st sa ow now (set_phase phase t p) b l
  Kept-retried st sa ow now b l at n e q (back, paid) = (
    set_phase-each (IsBacked st sa ow now)
        (subst (IsBacked st sa ow now t) (sym q) (subst (IsBacked st sa ow now t) e (back t)))
        (λ u _. back u),
    still st paid,
  )
    where
      still : (st : Bool) → Paid st b l phase → Paid st b l (set_phase phase t p)
      still true h = h
      still false (inl h) = inl h
      still false (inr (u, m, h)) = inr (t, subst IsMarking (sym (set_phase-here ∙ q)) tt, h)

  -- And the last time it is given up.
  pub Kept-given_up :
      (st : Bool) (sa : Option ℕ) (ow : Option String) (now b l : ℕ)
      → live_since p ≡ none
      → Kept st sa ow now phase b l
      → Kept st sa ow now (set_phase phase t p) b (l + 1)
  Kept-given_up st sa ow now b l q (back, paid) = (
    set_phase-each (IsBacked st sa ow now) (IsBacked-idle st sa ow now t p q) (λ u _. back u),
    more st (Paid-bound st b l phase paid),
  )
    where
      more : (st : Bool) → b ≤ l + 1 → Paid st b (l + 1) (set_phase phase t p)
      more true h = omega (arith, h)
      more false h = inl (omega (arith, h))

-- Time passes.
pub Kept-later :
    (st : Bool) (sa : Option ℕ) (ow : Option String) (now later b l : ℕ) (phase : String → Phase)
    → ((t : String) (at : ℕ) → live_since (phase t) ≡ some at → later ≤ at + settle_claim_ttl_ms)
    → Kept st sa ow now phase b l
    → Kept st sa ow later phase b l
Kept-later st sa ow now later b l phase h (back, paid) =
    (λ u. still u (phase u) (h u) (back u), paid)
  where
    still :
        (u : String) (p : Phase)
        → ((at : ℕ) → live_since p ≡ some at → later ≤ at + settle_claim_ttl_ms)
        → IsBacked st sa ow now u p
        → IsBacked st sa ow later u p
    still u idle h b = tt
    still u (claiming n) h b = tt
    still u refused h b = tt
    still u (holding at) h (a, r, o, _) = (a, r, o, h at refl)
    still u (marking true at n) h (inl e) = inl e
    still u (marking true at n) h (inr (a, r, o, _)) = inr (a, r, o, h at refl)
    still u (marking false at n) h b = tt
    still u ended h b = tt
