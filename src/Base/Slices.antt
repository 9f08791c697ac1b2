-- ===== src/Base/Slices.antt =====
-- Parts of a list by position.
use Prim.Native.Nat.{ℕ, zero, suc, ◌+◌, ◌≤◌}
use mathlib.Core.Path.{◌≡◌, refl, ap, sym, subst}
use mathlib.Core.List.{List, [], ◌∷◌, ◌++◌}
use mathlib.Core.Option.{some}
use native.Mathlib.Omega.{arith}
use agentic_kit.Base.Lists.{length, get_elem?, take, drop}

module _ {ℓ} {A : Type ℓ} where
  pub take-more :
      (n d : ℕ) (xs : List A) → n ≤ length xs → take n xs ++ take d (drop n xs) ≡ take (n + d) xs
  take-more zero d xs le = let e : d ≡ 0 + d = omega arith in ap (λ k. take k xs) e
  take-more (suc n) d [] le = absurd (omega (arith, le))
  take-more (suc n) d (x ∷ xs) le =
      let e : suc (n + d) ≡ suc n + d = omega arith in
      subst (λ k. x ∷ (take n xs ++ take d (drop n xs)) ≡ take k (x ∷ xs)) e
        (ap (λ r. x ∷ r) (take-more n d xs (omega (arith, le))))

  pub drop-more : (m n : ℕ) (xs : List A) → drop n (drop m xs) ≡ drop (m + n) xs
  drop-more zero n xs = let e : n ≡ 0 + n = omega arith in ap (λ k. drop k xs) e
  drop-more (suc m) zero [] =
      let e : suc m ≡ suc m + 0 = omega arith in ap (λ k. drop {A = A} k []) e
  drop-more (suc m) (suc n) [] =
      let e : suc (m + suc n) ≡ suc m + suc n = omega arith in ap (λ k. drop {A = A} k []) e
  drop-more (suc m) n (x ∷ xs) =
      let e : suc (m + n) ≡ suc m + n = omega arith in
      subst (λ k. drop n (drop m xs) ≡ drop k (x ∷ xs)) e (drop-more m n xs)

  pub take-snoc :
      (n : ℕ) (xs : List A) (x : A) → n ≤ length xs → take n (xs ++ (x ∷ [])) ≡ take n xs
  take-snoc zero xs x le = refl
  take-snoc (suc n) [] x le = absurd (omega (arith, le))
  take-snoc (suc n) (y ∷ xs) x le = ap (λ r. y ∷ r) (take-snoc n xs x (omega (arith, le)))

  pub take-length : (xs : List A) → take (length xs) xs ≡ xs
  take-length [] = refl
  take-length (x ∷ xs) = ap (λ r. x ∷ r) (take-length xs)

  pub get_elem?-snoc :
      (k : ℕ) (xs : List A) (x e : A)
      → get_elem? xs k ≡ some e
      → get_elem? (xs ++ (x ∷ [])) k ≡ some e
  get_elem?-snoc k [] x e h = absurd (cc h)
  get_elem?-snoc zero (y ∷ xs) x e h = h
  get_elem?-snoc (suc k) (y ∷ xs) x e h = get_elem?-snoc k xs x e h

  pub take-get_elem? :
      (k : ℕ) (xs : List A) (e : A)
      → get_elem? xs k ≡ some e
      → take k xs ++ (e ∷ []) ≡ take (suc k) xs
  take-get_elem? k [] e h = absurd (cc h)
  take-get_elem? zero (y ∷ xs) e h = ap (λ r. r ∷ []) (sym (inj h))
    where
      inj : {x y : A} → some x ≡ some y → x ≡ y
      inj r = cc
  take-get_elem? (suc k) (y ∷ xs) e h = ap (λ r. y ∷ r) (take-get_elem? k xs e h)

  pub get_elem?-behind : (m d : ℕ) (xs : List A) → get_elem? (drop m xs) d ≡ get_elem? xs (m + d)
  get_elem?-behind zero d xs = let e : d ≡ 0 + d = omega arith in ap (get_elem? xs) e
  get_elem?-behind (suc m) d [] =
      let e : suc (m + d) ≡ suc m + d = omega arith in ap (λ k. get_elem? {A = A} [] k) e
  get_elem?-behind (suc m) d (x ∷ xs) =
      let e : suc (m + d) ≡ suc m + d = omega arith in
      subst (λ k. get_elem? (drop m xs) d ≡ get_elem? (x ∷ xs) k) e (get_elem?-behind m d xs)
