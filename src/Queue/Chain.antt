-- ===== src/Queue/Chain.antt =====
-- What the links between two sentinels of queue.c stand for, and how one insertion or removal
-- changes it.
use t_visor.Prelude.{
  ◌≡◌, ◌≢◌, refl, ◌||◌, ◌==◌, true, false, List, [], ◌∷◌, ◌++◌, arith, has, has-append, ne_of_has,
  Distinct,
}
use t_visor.Queue.{Ptr, null, Heap}

-- From `a` the links lead both ways through `xs` to `z`.
abbrev pub Chain : Heap → Ptr → List Ptr → Ptr → Type 0
Chain h a [] z = (h.next a ≡ z) × (h.prev z ≡ a)
Chain h a (x ∷ xs) z = (h.next a ≡ x) × (h.prev x ≡ a) × Chain h x xs z

-- The node before `z`.
abbrev pub last : Ptr → List Ptr → Ptr
last a [] = a
last a (x ∷ xs) = last x xs

-- A chain reads `next` at its nodes but the end, and `prev` at its nodes but the start.
pub Chain-same :
    (h g : Heap) (a : Ptr) (xs : List Ptr) (z : Ptr)
    → Chain h a xs z
    → ((p : Ptr) → has p (a ∷ xs) ≡ true → g.next p ≡ h.next p)
    → ((p : Ptr) → has p (xs ++ z ∷ []) ≡ true → g.prev p ≡ h.prev p)
    → Chain g a xs z
Chain-same h g a [] z c n p = (ground (arith, n a), ground (arith, p z))
Chain-same h g a (x ∷ xs) z c n p = (
  ground (arith, n a),
  ground (arith, p x),
  Chain-same h g x xs z c.2 (λ q h. n q (ground arith)) (λ q h. p q (ground arith)),
)

pub Chain-split :
    (h : Heap) (a : Ptr) (xs : List Ptr) (n : Ptr) (ys : List Ptr) (z : Ptr)
    → Chain h a (xs ++ n ∷ ys) z
    → Chain h a xs n × Chain h n ys z
Chain-split h a [] n ys z c = ((c.0, c.1), c.2)
Chain-split h a (x ∷ xs) n ys z c = let (l, r) = Chain-split h x xs n ys z c.2 in ((c.0, c.1, l), r)

pub Chain-join :
    (h : Heap) (a : Ptr) (xs : List Ptr) (n : Ptr) (ys : List Ptr) (z : Ptr)
    → Chain h a xs n
    → Chain h n ys z
    → Chain h a (xs ++ n ∷ ys) z
Chain-join h a [] n ys z l r = (l.0, l.1, r)
Chain-join h a (x ∷ xs) n ys z l r = (l.0, l.1, Chain-join h x xs n ys z l.2 r)

-- `g` is `h` with `q` linked in between `p` and `n`.
pub record Inserted (h : Heap) (p q n : Ptr) (g : Heap) : Type 0 where
  pub next_p : g.next p ≡ q
  pub next_q : g.next q ≡ n
  pub prev_n : g.prev n ≡ q
  pub prev_q : g.prev q ≡ p
  pub next_same : (a : Ptr) → a ≢ p → a ≢ q → g.next a ≡ h.next a
  pub prev_same : (a : Ptr) → a ≢ n → a ≢ q → g.prev a ≡ h.prev a
  pub aborts_same : g.aborts ≡ h.aborts

-- `g` is `h` with `q` taken out from between `p` and `n`.
pub record Removed (h : Heap) (p q n : Ptr) (g : Heap) : Type 0 where
  pub next_p : g.next p ≡ n
  pub prev_n : g.prev n ≡ p
  pub next_q : g.next q ≡ null
  pub prev_q : g.prev q ≡ null
  pub next_same : (a : Ptr) → a ≢ p → a ≢ q → g.next a ≡ h.next a
  pub prev_same : (a : Ptr) → a ≢ n → a ≢ q → g.prev a ≡ h.prev a
  pub aborts_same : g.aborts ≡ h.aborts

-- The node after a gap before `ys`.
abbrev pub first : List Ptr → Ptr → Ptr
first [] z = z
first (y ∷ ys) z = y

-- The nodes of a chain, its ends included.
abbrev pub span : Ptr → List Ptr → Ptr → List Ptr
span a xs z = a ∷ (xs ++ z ∷ [])

pub last_in : (a : Ptr) (xs ys : List Ptr) (z : Ptr) → has (last a xs) (span a (xs ++ ys) z) ≡ true
last_in a [] ys z = ground arith
last_in a (x ∷ xs) ys z = ground (arith, last_in x xs ys z)

pub first_in : (xs ys : List Ptr) (z : Ptr) → has (first ys z) ((xs ++ ys) ++ z ∷ []) ≡ true
first_in [] [] z = ground arith
first_in [] (y ∷ ys) z = ground arith
first_in (x ∷ xs) ys z = ground (arith, first_in xs ys z)

pub mid_in :
    (xs : List Ptr) (q : Ptr) (ys : List Ptr) (z : Ptr) → has q ((xs ++ q ∷ ys) ++ z ∷ []) ≡ true
mid_in [] q ys z = ground arith
mid_in (x ∷ xs) q ys z = ground (arith, mid_in xs q ys z)

pub after_in :
    (xs : List Ptr) (q : Ptr) (ys : List Ptr) (z : Ptr)
    → has (first ys z) ((xs ++ q ∷ ys) ++ z ∷ []) ≡ true
after_in [] q [] z = ground arith
after_in [] q (y ∷ ys) z = ground arith
after_in (x ∷ xs) q ys z = ground (arith, after_in xs q ys z)

-- What lies beyond a changed gap before `a` stays.
beyond :
    (h g : Heap) (a : Ptr) (ys : List Ptr) (z p q : Ptr)
    → Chain h a ys z
    → ((b : Ptr) → b ≢ p → b ≢ q → g.next b ≡ h.next b)
    → ((b : Ptr) → b ≢ a → b ≢ q → g.prev b ≡ h.prev b)
    → has a (ys ++ z ∷ []) ≡ false
    → has p (span a ys z) ≡ false
    → has q (span a ys z) ≡ false
    → Chain g a ys z
beyond h g a ys z p q c n v oa op oq =
    Chain-same h g a ys z c
      (λ b i.
        n b (λ e. ground (arith, has-append b ys (z ∷ [])))
          (λ e. ground (arith, has-append b ys (z ∷ []))))
      (λ b i. v b (λ e. ground arith) (λ e. ground arith))

pub Chain-insert :
    (h g : Heap) (a : Ptr) (xs ys : List Ptr) (z q : Ptr)
    → Chain h a (xs ++ ys) z
    → Inserted h (last a xs) q (first ys z) g
    → Distinct (span a (xs ++ ys) z)
    → has q (span a (xs ++ ys) z) ≡ false
    → Chain g a (xs ++ q ∷ ys) z
Chain-insert h g a [] [] z q c i d fresh = (i.next_p, i.prev_q, (i.next_q, i.prev_n))
Chain-insert h g a [] (y ∷ ys) z q c i d fresh = (
  i.next_p,
  i.prev_q,
  (i.next_q, i.prev_n, beyond h g y ys z a q c.2 i.next_same i.prev_same d.1.0 d.0 (ground arith)),
)
Chain-insert h g a (x ∷ xs) ys z q c i d fresh =
    let nl = ne_of_has a (last x xs) (span x (xs ++ ys) z) d.0 (last_in x xs ys z) in
    let nf = ne_of_has x (first ys z) ((xs ++ ys) ++ z ∷ []) d.1.0 (first_in xs ys z) in
    (
      ground (arith, i.next_same a),
      ground (arith, i.prev_same x),
      Chain-insert h g x xs ys z q c.2 i d.1 (ground arith),
    )

pub Chain-remove :
    (h g : Heap) (a : Ptr) (xs ys : List Ptr) (z q : Ptr)
    → Chain h a (xs ++ q ∷ ys) z
    → Removed h (last a xs) q (first ys z) g
    → Distinct (span a (xs ++ q ∷ ys) z)
    → Chain g a (xs ++ ys) z
Chain-remove h g a [] [] z q c r d = (r.next_p, r.prev_n)
Chain-remove h g a [] (y ∷ ys) z q c r d = (
  r.next_p,
  r.prev_n,
  beyond h g y ys z a q c.2.2 r.next_same r.prev_same d.1.1.0 (ground arith) d.1.0,
)
Chain-remove h g a (x ∷ xs) ys z q c r d =
    let nl = ne_of_has a (last x xs) (span x (xs ++ q ∷ ys) z) d.0 (last_in x xs (q ∷ ys) z) in
    let ia = ne_of_has a q (span x (xs ++ q ∷ ys) z) d.0 (mid_in (x ∷ xs) q ys z) in
    let nf = ne_of_has x (first ys z) ((xs ++ q ∷ ys) ++ z ∷ []) d.1.0 (after_in xs q ys z) in
    let ix = ne_of_has x q ((xs ++ q ∷ ys) ++ z ∷ []) d.1.0 (mid_in xs q ys z) in
    (
      ground (arith, r.next_same a),
      ground (arith, r.prev_same x),
      Chain-remove h g x xs ys z q c.2 r d.1,
    )

-- The links over a gap.
pub prev_gap :
    (h : Heap) (a : Ptr) (xs ys : List Ptr) (z : Ptr)
    → Chain h a (xs ++ ys) z
    → h.prev (first ys z) ≡ last a xs
prev_gap h a [] [] z c = c.1
prev_gap h a [] (y ∷ ys) z c = c.1
prev_gap h a (x ∷ xs) ys z c = prev_gap h x xs ys z c.2

pub next_gap :
    (h : Heap) (a : Ptr) (xs ys : List Ptr) (z : Ptr)
    → Chain h a (xs ++ ys) z
    → h.next (last a xs) ≡ first ys z
next_gap h a [] [] z c = c.0
next_gap h a [] (y ∷ ys) z c = c.0
next_gap h a (x ∷ xs) ys z c = next_gap h x xs ys z c.2

-- The nodes with `q` put in, or taken out.
pub has-insert :
    (b : Ptr) (xs : List Ptr) (q : Ptr) (ys : List Ptr) (z : Ptr)
    → has b ((xs ++ q ∷ ys) ++ z ∷ []) ≡ (b == q || has b ((xs ++ ys) ++ z ∷ []))
has-insert b [] q ys z = refl
has-insert b (x ∷ xs) q ys z = ground (arith, has-insert b xs q ys z)

pub Distinct-insert :
    (xs : List Ptr) (q : Ptr) (ys : List Ptr) (z : Ptr)
    → Distinct ((xs ++ ys) ++ z ∷ [])
    → has q ((xs ++ ys) ++ z ∷ []) ≡ false
    → Distinct ((xs ++ q ∷ ys) ++ z ∷ [])
Distinct-insert [] q ys z d f = (f, d)
Distinct-insert (x ∷ xs) q ys z d f =
    (ground (arith, has-insert x xs q ys z), Distinct-insert xs q ys z d.1 (ground arith))

pub Distinct-remove :
    (xs : List Ptr) (q : Ptr) (ys : List Ptr) (z : Ptr)
    → Distinct ((xs ++ q ∷ ys) ++ z ∷ [])
    → Distinct ((xs ++ ys) ++ z ∷ [])
Distinct-remove [] q ys z d = d.1
Distinct-remove (x ∷ xs) q ys z d =
    (ground (arith, has-insert x xs q ys z), Distinct-remove xs q ys z d.1)

pub end_in : (xs : List Ptr) (z : Ptr) → has z (xs ++ z ∷ []) ≡ true
end_in [] z = ground arith
end_in (x ∷ xs) z = ground (arith, end_in xs z)

pub last-ne-end :
    (a : Ptr) (xs ys : List Ptr) (z : Ptr) → Distinct (span a (xs ++ ys) z) → z ≢ last a xs
last-ne-end a [] ys z d = λ e. ground (arith, end_in ys z)
last-ne-end a (x ∷ xs) ys z d = last-ne-end x xs ys z d.1

pub end-ne-mid :
    (xs : List Ptr) (q : Ptr) (ys : List Ptr) (z : Ptr)
    → Distinct ((xs ++ q ∷ ys) ++ z ∷ [])
    → z ≢ q
end-ne-mid [] q ys z d = λ e. ground (arith, end_in ys z)
end-ne-mid (x ∷ xs) q ys z d = end-ne-mid xs q ys z d.1

pub mid-ne-last :
    (a : Ptr) (xs : List Ptr) (q : Ptr) (ys : List Ptr) (z : Ptr)
    → Distinct (span a (xs ++ q ∷ ys) z)
    → q ≢ last a xs
mid-ne-last a [] q ys z d = λ e. ground arith
mid-ne-last a (x ∷ xs) q ys z d = mid-ne-last x xs q ys z d.1

pub mid-ne-first :
    (a : Ptr) (xs : List Ptr) (q : Ptr) (ys : List Ptr) (z : Ptr)
    → Distinct (span a (xs ++ q ∷ ys) z)
    → q ≢ first ys z
mid-ne-first a [] q [] z d = λ e. ground arith
mid-ne-first a [] q (y ∷ ys) z d = λ e. ground arith
mid-ne-first a (x ∷ xs) q ys z d = mid-ne-first x xs q ys z d.1

pub next_mid :
    (h : Heap) (a : Ptr) (xs : List Ptr) (q : Ptr) (ys : List Ptr) (z : Ptr)
    → Chain h a (xs ++ q ∷ ys) z
    → h.next q ≡ first ys z
next_mid h a [] q [] z c = c.2.0
next_mid h a [] q (y ∷ ys) z c = c.2.0
next_mid h a (x ∷ xs) q ys z c = next_mid h x xs q ys z c.2
