-- ===== src/Base/Maps.antt =====
-- A JavaScript `Map` with text keys: an association list in insertion order. A write to a key that
-- is there keeps its place, and a new key goes last.
use Prim.Native.String.{String}
use mathlib.Core.Path.{◌≡◌, subst}
use mathlib.Core.Logic.{inl, inr}
use mathlib.Core.Bool.{Bool}
use mathlib.Core.List.{List, [], ◌∷◌}
use mathlib.Core.Option.{Option, none, some}
use native.Mathlib.Omega.{arith}
use text.Mathlib.Text.{◌==◌ as str_eq}
use text.Mathlib.TextEquality.{eq_iff}
use agentic_kit.Base.Tests.{if◌then◌else◌, Bool-cases}
use agentic_kit.Base.Lists.{All, keep_if}

abbrev pub Dict {ℓ} : Type ℓ → Type ℓ
Dict V = List (String × V)

module _ {ℓ} {V : Type ℓ} where
  -- `Map.get`.
  unfoldable pub lookup : String → Dict V → Option V
  lookup key [] = none
  lookup key (entry ∷ entries) =
      let rest = lookup key entries in if str_eq key entry.0 then some entry.1 else rest

  -- `Map.set`.
  unfoldable pub insert : String → V → Dict V → Dict V
  insert key new [] = (key, new) ∷ []
  insert key new (entry ∷ entries) =
      let rest = insert key new entries in
      if str_eq key entry.0 then (entry.0, new) ∷ entries else entry ∷ rest

  -- `Map.delete`.
  unfoldable pub erase : String → Dict V → Dict V
  erase key [] = []
  erase key (entry ∷ entries) =
      let rest = erase key entries in if str_eq key entry.0 then rest else entry ∷ rest

  pub lookup-insert :
      (key other : String) (new : V) (entries : Dict V)
      → lookup other (insert key new entries)
        ≡ (if str_eq key other then some new else lookup other entries)
  unfolding lookup insert
  lookup-insert key other new [] = ground (arith, eq_iff key other, eq_iff other key)
  lookup-insert key other new (entry ∷ entries) = ground (
    arith,
    lookup-insert key other new entries,
    eq_iff key other,
    eq_iff other key,
    eq_iff key entry.0,
    eq_iff other entry.0,
  )

  pub lookup-erase :
      (key other : String) (entries : Dict V)
      → lookup other (erase key entries) ≡ (if str_eq key other then none else lookup other entries)
  unfolding lookup erase
  lookup-erase key other [] = ground arith
  lookup-erase key other (entry ∷ entries) = ground (
    arith,
    lookup-erase key other entries,
    eq_iff key other,
    eq_iff key entry.0,
    eq_iff other entry.0,
  )

-- A property of all the values.
module _ {ℓ κ} {V : Type ℓ} (P : V → Type κ) where
  abbrev pub AllValues : Dict V → Type κ
  AllValues = All λ entry. P entry.1

  pub AllValues-insert :
      (key : String) (new : V) (entries : Dict V)
      → P new
      → AllValues entries
      → AllValues (insert key new entries)
  unfolding insert
  AllValues-insert key new [] p h = (p, tt)
  AllValues-insert key new (entry ∷ entries) p (q, h) = elim (Bool-cases (str_eq key entry.0)) [
    | inl e ↦ rw e (p, h)
    | inr e ↦ rw e (q, AllValues-insert key new entries p h)
  ]

  pub AllValues-erase :
      (key : String) (entries : Dict V) → AllValues entries → AllValues (erase key entries)
  unfolding erase
  AllValues-erase key [] h = tt
  AllValues-erase key (entry ∷ entries) (q, h) = elim (Bool-cases (str_eq key entry.0)) [
    | inl e ↦ rw e (AllValues-erase key entries h)
    | inr e ↦ rw e (q, AllValues-erase key entries h)
  ]

  pub AllValues-keep_if :
      (p : String × V → Bool) (entries : Dict V) → AllValues entries → AllValues (keep_if p entries)
  AllValues-keep_if p [] h = tt
  AllValues-keep_if p (entry ∷ entries) (q, h) = elim (Bool-cases (p entry)) [
    | inl e ↦ rw e (q, AllValues-keep_if p entries h)
    | inr e ↦ rw e (AllValues-keep_if p entries h)
  ]

  pub AllValues-lookup :
      (key : String) (found : V) (entries : Dict V)
      → AllValues entries
      → lookup key entries ≡ some found
      → P found
  unfolding lookup
  AllValues-lookup key found [] h e = absurd (ground (arith, e))
  AllValues-lookup key found (entry ∷ entries) (q, h) e = elim (Bool-cases (str_eq key entry.0)) [
    | inl c ↦ subst P (some_inj (rw c at e)) q
    | inr c ↦ AllValues-lookup key found entries h (rw c at e)
  ]
    where
      some_inj : {x y : V} → some x ≡ some y → x ≡ y
      some_inj r = cc
