-- ===== src/Prelude/Sets.antt =====
-- Sets of numbers as lists, with the calls of a `std::unordered_set` that the program makes. The order
-- of a list stands for the order in which a loop goes through the set, which the standard leaves open.
use Prim.Native.Nat.{ℕ, suc}
use mathlib.Core.Path.{◌≡◌, refl, sym, ap, ◌∙◌}
use mathlib.Core.Logic.{◌≢◌}
use mathlib.Core.Bool.{Bool, true, false, not, ◌&&◌, ◌||◌}
use mathlib.Core.List.{List, [], ◌∷◌, ◌++◌}
use native.Mathlib.Omega.{arith}
use rio_iocp_server.Prelude.Tests.{◌==◌, if◌then◌else◌, if_lem, if_false, same_id}
use rio_iocp_server.Prelude.Lists.{length, length-append}

-- `count(x)`
unfoldable pub has : ℕ → List ℕ → Bool
has x [] = false
has x (y ∷ ys) = (x == y) || has x ys

-- `insert(x)`
unfoldable pub insert : ℕ → List ℕ → List ℕ
insert x ys = if has x ys then ys else ys ++ x ∷ []

-- `erase(x)`
unfoldable pub erase : ℕ → List ℕ → List ℕ
erase x [] = []
erase x (y ∷ ys) = let rest = erase x ys in if x == y then rest else y ∷ rest

unfoldable pub keep : (ℕ → Bool) → List ℕ → List ℕ
keep p [] = []
keep p (y ∷ ys) = let rest = keep p ys in if p y then y ∷ rest else rest

pub has-append : (x : ℕ) (xs ys : List ℕ) → has x (xs ++ ys) ≡ (has x xs || has x ys)
unfolding has
has-append x [] ys = refl
has-append x (z ∷ xs) ys = ground (arith, has-append x xs ys)

same_has : (x y : ℕ) (ys : List ℕ) → has y ys ≡ true → ((x == y) || has x ys) ≡ has x ys
same_has x y ys h = ground (arith, h)

appended : (x y : ℕ) (ys : List ℕ) → has x (ys ++ y ∷ []) ≡ ((x == y) || has x ys)
unfolding has
appended x y ys = ground (arith, has-append x ys (y ∷ []))

pub has-insert : (x y : ℕ) (ys : List ℕ) → has x (insert y ys) ≡ ((x == y) || has x ys)
unfolding insert
has-insert x y ys =
    if_lem (λ zs. has x zs ≡ ((x == y) || has x ys)) (has y ys) _ _
      (λ there. sym (same_has x y ys there)) (λ new. appended x y ys)

pub has-erase : (x y : ℕ) (ys : List ℕ) → has x (erase y ys) ≡ (not (x == y) && has x ys)
unfolding has erase
has-erase x y [] = ground arith
has-erase x y (z ∷ ys) = ground (arith, has-erase x y ys)

pub has-keep : (x : ℕ) (p : ℕ → Bool) (ys : List ℕ) → has x (keep p ys) ≡ (p x && has x ys)
unfolding has keep
has-keep x p [] = ground arith
has-keep x p (z ∷ ys) =
    if_lem (λ zs. has x zs ≡ (p x && ((x == z) || has x ys))) (p z) _ _
      (λ yes. ground (arith, has-keep x p ys, yes, at_same))
      (λ no. ground (arith, has-keep x p ys, no, at_same))
  where
    at_same : x ≡ z → p x ≡ p z
    at_same = ap p

-- A set has no element twice.
unfoldable pub Distinct : List ℕ → Type 0
Distinct [] = Unit
Distinct (h ∷ hs) = (has h hs ≡ false) × Distinct hs

pub absent : (t h : ℕ) (hs : List ℕ) → has h hs ≡ false → has t hs ≡ true → t ≢ h
absent t h hs out there e = ground (arith, sym out ∙ ap (λ i. has i hs) (sym e) ∙ there)

pub erase-Distinct : (x : ℕ) (xs : List ℕ) → Distinct xs → Distinct (erase x xs)
unfolding Distinct erase
erase-Distinct x [] d = tt
erase-Distinct x (y ∷ ys) (d, ds) =
    if_lem Distinct (x == y) (erase x ys) (y ∷ erase x ys) (λ e. erase-Distinct x ys ds)
      (λ e. (has-erase y x ys ∙ ground (arith, d), erase-Distinct x ys ds))

erase-absent : (x : ℕ) (xs : List ℕ) → has x xs ≡ false → erase x xs ≡ xs
unfolding erase has
erase-absent x [] out = refl
erase-absent x (y ∷ ys) out =
    if_lem (λ l. l ≡ y ∷ ys) (x == y) (erase x ys) (y ∷ erase x ys) (λ e. ground (arith, e, out))
      (λ e. ap (λ l. y ∷ l) (erase-absent x ys (ground (arith, e, out))))

-- An element of a set is taken out of it once.
pub length-erase :
    (x : ℕ) (xs : List ℕ) → Distinct xs → has x xs ≡ true → suc (length (erase x xs)) ≡ length xs
unfolding Distinct erase has
length-erase x [] d there = ground (arith, there)
length-erase x (y ∷ ys) (d, ds) there =
    if_lem (λ l. suc (length l) ≡ suc (length ys)) (x == y) (erase x ys) (y ∷ erase x ys)
      (λ e. ap (λ l. suc (length l)) (erase-absent x ys (ap (λ i. has i ys) (same_id x y e) ∙ d)))
      (λ e. ap suc (length-erase x ys ds (ground (arith, e, there))))

-- A new element at the end.
pub append-Distinct :
    (x : ℕ) (xs : List ℕ) → has x xs ≡ false → Distinct xs → Distinct (xs ++ x ∷ [])
unfolding Distinct has
append-Distinct x [] out d = (refl, tt)
append-Distinct x (y ∷ ys) out (d, ds) = (
  has-append y ys (x ∷ []) ∙ ground (arith, d, out),
  append-Distinct x ys (ground (arith, out)) ds,
)

pub insert-Distinct : (x : ℕ) (xs : List ℕ) → Distinct xs → Distinct (insert x xs)
unfolding insert
insert-Distinct x xs d =
    if_lem Distinct (has x xs) _ _ (λ there. d) (λ new. append-Distinct x xs new d)

pub length-insert :
    (x : ℕ) (xs : List ℕ) → has x xs ≡ false → length (insert x xs) ≡ suc (length xs)
unfolding insert
length-insert x xs new =
    ap length (if_false (has x xs) xs (xs ++ x ∷ []) new) ∙ omega (arith, length-append xs (x ∷ []))
