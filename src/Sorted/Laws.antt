-- ===== src/Sorted/Laws.antt =====
-- What sorted insertion does to the sequence.
use t_visor.Prelude.{
  ℕ, suc, ◌≤◌, ◌≡◌, refl, true, false, List, [], ◌∷◌, ◌++◌, arith, ◌==◌, ◌||◌, has, length,
  Distinct, erase,
}
use t_visor.Sorted.{before, after, insert_sorted}

module _ (key : ℕ → ℕ) where
  -- No key is less than `k`, from the front on.
  abbrev pub From : ℕ → List ℕ → Type 0
  From k [] = Unit {0}
  From k (x ∷ xs) = (k ≤ key x) × From (key x) xs

  -- The keys do not fall.
  abbrev pub Sorted : List ℕ → Type 0
  Sorted xs = From 0 xs

  From-insert : (j q : ℕ) (xs : List ℕ) → From j xs → j ≤ key q → From j (insert_sorted key q xs)
  unfolding insert_sorted before after
  From-insert j q [] s h = (h, tt)
  From-insert j q (x ∷ xs) s h = ground (arith, From-insert (key x) q xs s.1)

  -- Insertion keeps the order.
  pub insert_sorted-Sorted : (q : ℕ) (xs : List ℕ) → Sorted xs → Sorted (insert_sorted key q xs)
  insert_sorted-Sorted q xs s = From-insert 0 q xs s (omega arith)

  pub before-append-after : (k : ℕ) (xs : List ℕ) → before key k xs ++ after key k xs ≡ xs
  unfolding before after
  before-append-after k [] = refl
  before-append-after k (x ∷ xs) = ground (arith, before-append-after k xs)

  -- It adds exactly the new node.
  pub has-insert_sorted :
      (b q : ℕ) (xs : List ℕ) → has b (insert_sorted key q xs) ≡ (b == q || has b xs)
  unfolding insert_sorted before after
  has-insert_sorted b q [] = refl
  has-insert_sorted b q (x ∷ xs) = ground (arith, has-insert_sorted b q xs)

  pub Distinct-insert_sorted :
      (q : ℕ) (xs : List ℕ) → Distinct xs → has q xs ≡ false → Distinct (insert_sorted key q xs)
  unfolding insert_sorted before after
  Distinct-insert_sorted q [] d o = (refl, tt)
  Distinct-insert_sorted q (x ∷ xs) d o =
      ground (arith, has-insert_sorted x q xs, Distinct-insert_sorted q xs d.1)

  pub length-insert_sorted :
      (q : ℕ) (xs : List ℕ) → length (insert_sorted key q xs) ≡ suc (length xs)
  unfolding insert_sorted before after
  length-insert_sorted q [] = refl
  length-insert_sorted q (x ∷ xs) = ground (arith, length-insert_sorted q xs)

  From-mono : (j k : ℕ) (xs : List ℕ) → From k xs → j ≤ k → From j xs
  From-mono j k [] s h = tt
  From-mono j k (x ∷ xs) s h = (omega arith, s.1)

  From-erase : (j q : ℕ) (xs : List ℕ) → From j xs → From j (erase q xs)
  From-erase j q [] s = tt
  From-erase j q (x ∷ xs) s =
      ground (arith, From-erase (key x) q xs s.1, From-mono j (key x) xs s.1 s.0)

  -- Taking a node out keeps the order.
  pub erase-Sorted : (q : ℕ) (xs : List ℕ) → Sorted xs → Sorted (erase q xs)
  erase-Sorted q xs s = From-erase 0 q xs s

  pub tail-Sorted : (x : ℕ) (xs : List ℕ) → Sorted (x ∷ xs) → Sorted xs
  tail-Sorted x xs s = From-mono 0 (key x) xs s.1 (omega arith)

-- A new key of a node elsewhere does not matter.
pub From-other :
    (key key' : ℕ → ℕ) (j : ℕ) (xs : List ℕ)
    → ((x : ℕ) → has x xs ≡ true → key' x ≡ key x)
    → From key j xs
    → From key' j xs
From-other key key' j [] same s = tt
From-other key key' j (x ∷ xs) same s =
    let e = same x (ground arith) in
    let rest = From-other key key' (key x) xs (λ y h. same y (ground arith)) s.1 in ground arith
