-- ===== src/Prelude/Lists.antt =====
-- Lists of addresses and slots, measured and searched by native numbers.
use Prim.Native.Nat.{ℕ, suc, ◌+◌}
use mathlib.Core.Path.{◌≡◌, refl}
use mathlib.Core.Logic.{◌≢◌}
use mathlib.Core.Bool.{Bool, true, false, not, ◌&&◌, ◌||◌}
use mathlib.Core.List.{List, [], ◌∷◌, ◌++◌}
use mathlib.Core.Option.{Option, none, some}
use native.Mathlib.Omega.{arith}
use t_visor.Prelude.Tests.{◌==◌, if◌then◌else◌}

module _ {ℓ} {A : Type ℓ} where
  abbrev pub length : List A → ℕ
  length [] = 0
  length (x ∷ xs) = suc (length xs)

  pub length-append : (xs ys : List A) → length (xs ++ ys) ≡ length xs + length ys
  length-append [] ys = omega arith
  length-append (x ∷ xs) ys = omega (arith, length-append xs ys)

  abbrev pub head? : List A → Option A
  head? [] = none
  head? (x ∷ xs) = some x

  abbrev pub is_nil : List A → Bool
  is_nil [] = true
  is_nil (x ∷ xs) = false

-- Is `a` among the entries?
abbrev pub has : ℕ → List ℕ → Bool
has a [] = false
has a (x ∷ xs) = (a == x) || has a xs

-- The list without its first `a`.
abbrev pub erase : ℕ → List ℕ → List ℕ
erase a [] = []
erase a (x ∷ xs) = if a == x then xs else x ∷ erase a xs

-- No entry occurs twice.
abbrev pub Distinct : List ℕ → Type 0
Distinct [] = Unit {0}
Distinct (x ∷ xs) = (has x xs ≡ false) × Distinct xs

pub has-append : (a : ℕ) (xs ys : List ℕ) → has a (xs ++ ys) ≡ (has a xs || has a ys)
has-append a [] ys = refl
has-append a (x ∷ xs) ys = ground (arith, has-append a xs ys)

-- The two lists share no entry.
abbrev pub Apart : List ℕ → List ℕ → Type 0
Apart xs ys = (a : ℕ) → has a xs ≡ true → has a ys ≡ false

pub Distinct-append :
    (xs ys : List ℕ) → Distinct (xs ++ ys) → Distinct xs × Distinct ys × Apart xs ys
Distinct-append [] ys d = (tt, d, λ a h. cc)
Distinct-append (x ∷ xs) ys d =
    let (dx, dy, ap) = Distinct-append xs ys d.1 in
    let out : has x (xs ++ ys) ≡ false = d.0 in
    ((ground (arith, has-append x xs ys), dx), dy, λ a h. ground (arith, has-append x xs ys, ap a))

pub append-Distinct :
    (xs ys : List ℕ) → Distinct xs → Distinct ys → Apart xs ys → Distinct (xs ++ ys)
append-Distinct [] ys dx dy ap = dy
append-Distinct (x ∷ xs) ys dx dy ap = (
  ground (arith, has-append x xs ys, ap x),
  append-Distinct xs ys dx.1 dy (λ a h. ap a (ground arith)),
)

pub ne_of_has : (a b : ℕ) (xs : List ℕ) → has a xs ≡ false → has b xs ≡ true → a ≢ b
ne_of_has a b xs h k e = cc

pub has-erase :
    (b q : ℕ) (xs : List ℕ) → Distinct xs → has b (erase q xs) ≡ (has b xs && not (b == q))
has-erase b q [] d = refl
has-erase b q (x ∷ xs) d = ground (arith, has-erase b q xs d.1)

pub Distinct-erase : (q : ℕ) (xs : List ℕ) → Distinct xs → Distinct (erase q xs)
Distinct-erase q [] d = tt
Distinct-erase q (x ∷ xs) d = ground (arith, Distinct-erase q xs d.1, has-erase x q xs d.1)

pub length-erase : (q : ℕ) (xs : List ℕ) → has q xs ≡ true → suc (length (erase q xs)) ≡ length xs
length-erase q [] h = absurd (ground arith)
length-erase q (x ∷ xs) h = ground (arith, length-erase q xs)
