-- ===== src/Lock/Value.antt =====
-- The lock's value: written as three ids, and read back.
use Prim.Native.Char.{code}
use Prim.Native.String.{◌++◌ as glue}
use text.Mathlib.TextLemmas.{nil-append, cons-append}
use agentic_kit.Base.{
  ◌≡◌, refl, false, List, [], ◌∷◌, none, some, String, ◌==◌, inl, inr, Bool-cases,
}
use agentic_kit.Lock.{join, split, parse_lock_value}

abbrev pub NoSlash : String → Type 0
NoSlash String.[] = Unit {0}
NoSlash (String.◌∷◌ c s) = ((code c == b'/') ≡ false) × NoSlash s

slash_glue : (t : String) → glue "/" t ≡ String.◌∷◌ "/" t
slash_glue t = rw (cons-append, nil-append)

split-slash : (a t : String) → NoSlash a → split (glue a (glue "/" t)) ≡ a ∷ split t
unfolding split
split-slash String.[] t h = rw (nil-append, slash_glue)
split-slash (String.◌∷◌ c s) t h = rw (cons-append, split) (rw (h.0, split-slash s t h.1))

split_one : (a : String) → NoSlash a → split a ≡ a ∷ []
unfolding split
split_one String.[] h = refl
split_one (String.◌∷◌ c s) h = rw h.0 (rw (split_one s h.1))

split_cons : (s : String) → (p : String) × (ps : List String) × (split s ≡ p ∷ ps)
unfolding split
split_cons String.[] = (String.[], [], refl)
split_cons (String.◌∷◌ c s) = elim (Bool-cases (code c == b'/')) [
  | inl e ↦ (String.[], split s, rw e)
  | inr e ↦ let (p, ps, q) = split_cons s in (String.◌∷◌ c p, ps, rw (e, q))
]

-- A value whose run id and dispatch id hold no slash is read back as the two ids it was made of,
-- whatever its nonce; a value with no slash at all is a bare run id.
pub parse_lock_value-join :
    (run dispatch nonce : String)
    → NoSlash run
    → NoSlash dispatch
    → (parse_lock_value (some (join run dispatch nonce))
        ≡ record { run_id = some run; dispatch_id = some dispatch })
      × (parse_lock_value (some run) ≡ record { run_id = some run; dispatch_id = none })
unfolding parse_lock_value join
parse_lock_value-join run dispatch nonce h k =
    let (p, ps, e) = split_cons nonce in
    (
      rw (split-slash run (glue dispatch (glue "/" nonce)) h, split-slash dispatch nonce k, e),
      rw (split_one run h),
    )
