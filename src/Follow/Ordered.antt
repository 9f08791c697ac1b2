-- ===== src/Follow/Ordered.antt =====
-- What a follower takes from a record that is numbered without gaps.
use agentic_kit.Base.{
  ℕ, zero, suc, ◌+◌, ◌≤◌, ◌≡◌, refl, sym, ap, ◌∙◌, subst, true, false, List, [], ◌∷◌, none, some,
  ltb, leb, length, take, drop, keep_if, arith,
}
use agentic_kit.Events.{AgentEvent, by_seq, list_since}
use agentic_kit.Events.Record.{IsAscending, by_seq-ascending}
use agentic_kit.Follow.{from_storage}

-- The entries carry the numbers after n, one by one.
abbrev pub IsNumbered : ℕ → List AgentEvent → Type 0
IsNumbered n [] = Unit
IsNumbered n (e ∷ es) = (e.seq ≡ suc n) × IsNumbered (suc n) es

IsNumbered-IsAscending : (n : ℕ) (es : List AgentEvent) → IsNumbered n es → IsAscending n es
IsNumbered-IsAscending n [] h = tt
IsNumbered-IsAscending n (e ∷ es) (a, h) =
    (omega (arith, a), subst (λ k. IsAscending k es) (sym a) (IsNumbered-IsAscending (suc n) es h))

pub drop-IsNumbered :
    (n k : ℕ) (es : List AgentEvent)
    → k ≤ length es
    → IsNumbered n es
    → IsNumbered (n + k) (drop k es)
drop-IsNumbered n zero es le h = let e : n ≡ n + 0 = omega arith in subst (λ x. IsNumbered x es) e h
drop-IsNumbered n (suc k) [] le h = tt
drop-IsNumbered n (suc k) (x ∷ es) le (a, h) =
    let e : suc n + k ≡ n + suc k = omega arith in
    subst (λ y. IsNumbered y (drop k es)) e (drop-IsNumbered (suc n) k es (omega (arith, le)) h)

keep_since :
    (n k : ℕ) (es : List AgentEvent)
    → IsNumbered n es
    → keep_if (λ e. ltb (n + k) e.seq) es ≡ drop k es
keep_since n k [] h = none_left k
  where
    none_left : (k : ℕ) → drop {A = AgentEvent} 0 [] ≡ drop k []
    none_left zero = refl
    none_left (suc k) = refl
keep_since n zero (e ∷ es) (a, h) =
    let t : ltb (n + 0) e.seq ≡ true = ground (arith, a) in rw t (ap (λ r. e ∷ r) (all_later es h))
  where
    all_later :
        (xs : List AgentEvent) → IsNumbered (suc n) xs → keep_if (λ e. ltb (n + 0) e.seq) xs ≡ xs
    all_later xs g = later (suc n) (omega arith) xs g
      where
        later :
            (m : ℕ)
            → n ≤ m
            → (xs : List AgentEvent) → IsNumbered m xs
            → keep_if (λ e. ltb (n + 0) e.seq) xs ≡ xs
        later m le [] g = refl
        later m le (x ∷ xs) (b, g) =
            let t : ltb (n + 0) x.seq ≡ true = ground (arith, b, le) in
            rw t (ap (λ r. x ∷ r) (later (suc m) (omega (arith, le)) xs g))
keep_since n (suc k) (e ∷ es) (a, h) =
    let t : ltb (n + suc k) e.seq ≡ false = ground (arith, a) in
    let q : n + suc k ≡ suc n + k = omega arith in
    rw t
      (subst (λ m. keep_if (λ e. ltb m e.seq) es ≡ drop k es) (sym q) (keep_since (suc n) k es h))

-- What is listed since a cursor in the record is the rest of it.
pub list_since-drop :
    (k : ℕ) (rows : List AgentEvent)
    → k ≤ length rows
    → IsNumbered 0 rows
    → list_since rows k ≡ drop k rows
unfolding list_since
list_since-drop k rows le h =
    let e : 0 + k ≡ k = omega arith in
    let s : keep_if (λ x. ltb k x.seq) rows ≡ drop k rows =
      subst (λ m. keep_if (λ x. ltb m x.seq) rows ≡ drop k rows) e (keep_since 0 k rows h) in
    ap by_seq s
    ∙ by_seq-ascending (0 + k) (drop k rows)
        (IsNumbered-IsAscending (0 + k) (drop k rows) (drop-IsNumbered 0 k rows le h))

pub from_storage-all :
    (n : ℕ) (es : List AgentEvent) → IsNumbered n es → from_storage es none n ≡ (es, n + length es)
unfolding from_storage
from_storage-all n [] h = let e : n ≡ n + 0 = omega arith in ap (λ k. ([], k)) e
from_storage-all n (e ∷ es) (a, h) =
    let t : ltb n e.seq ≡ true = ground (arith, a) in
    let r : from_storage es none e.seq ≡ (es, suc n + length es) =
      subst (λ k. from_storage es none k ≡ (es, suc n + length es)) (sym a)
        (from_storage-all (suc n) es h) in
    let q : suc n + length es ≡ n + suc (length es) = omega arith in
    rw t (ap (λ p. (e ∷ p.0, p.1)) r ∙ ap (λ k. (e ∷ es, k)) q)

pub from_storage-up_to :
    (n k : ℕ) (es : List AgentEvent)
    → IsNumbered n es
    → k ≤ length es
    → from_storage es (some (suc (n + k))) n ≡ (take k es, n + k)
unfolding from_storage
from_storage-up_to n zero [] h le = let e : n ≡ n + 0 = omega arith in ap (λ k. ([], k)) e
from_storage-up_to n (suc k) [] h le = absurd (omega (arith, le))
from_storage-up_to n zero (e ∷ es) (a, h) le =
    let t : leb (suc (n + 0)) e.seq ≡ true = ground (arith, a) in
    let q : n ≡ n + 0 = omega arith in rw t (ap (λ k. ([], k)) q)
from_storage-up_to n (suc k) (e ∷ es) (a, h) le =
    let t : leb (suc (n + suc k)) e.seq ≡ false = ground (arith, a) in
    let u : ltb n e.seq ≡ true = ground (arith, a) in
    let q : suc n + k ≡ n + suc k = omega arith in
    let r : from_storage es (some (suc (n + suc k))) e.seq ≡ (take k es, n + suc k) =
      subst (λ m. from_storage es (some (suc m)) e.seq ≡ (take k es, m)) q
        (subst (λ m. from_storage es (some (suc (suc n + k))) m ≡ (take k es, suc n + k)) (sym a)
          (from_storage-up_to (suc n) k es h (omega (arith, le)))) in
    rw (t, u) (ap (λ p. (e ∷ p.0, p.1)) r)
