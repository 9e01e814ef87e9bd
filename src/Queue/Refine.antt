-- ===== src/Queue/Refine.antt =====
-- The operations of queue.c on a well formed list, against the sequence of its nodes.
use t_visor.Prelude.{
  ◌≡◌, true, false, List, [], ◌∷◌, ◌++◌, arith, has, has-append, ne_of_has, Distinct,
}
use t_visor.Queue.{Ptr, null, Heap, QueueList}
use t_visor.Queue.Chain.{
  Chain, last, first, span, last_in, first_in, mid_in, after_in, Chain-same, Chain-insert,
  Chain-remove, Inserted, Removed, end_in, last-ne-end, end-ne-mid, has-insert, Distinct-insert,
  Distinct-remove,
}

-- All the addresses of a list, its sentinels included.
abbrev pub nodes : QueueList → List Ptr → List Ptr
nodes ls xs = span ls.head xs ls.tail

-- The list between the sentinels of `ls` is `xs`. No address is null, and no two are the same.
pub record IsList (h : Heap) (ls : QueueList) (xs : List Ptr) : Type 0 where
  pub chain : Chain h ls.head xs ls.tail
  pub first_prev : h.prev ls.head ≡ null
  pub last_next : h.next ls.tail ≡ null
  pub not_null : has null (nodes ls xs) ≡ false
  pub distinct : Distinct (nodes ls xs)

-- `g` differs from `h` at most at the nodes `xs`, and nothing was aborted.
pub record SameOutside (xs : List Ptr) (h g : Heap) : Type 0 where
  pub next : (p : Ptr) → has p xs ≡ false → g.next p ≡ h.next p
  pub prev : (p : Ptr) → has p xs ≡ false → g.prev p ≡ h.prev p
  pub aborts : g.aborts ≡ h.aborts

-- A list is not touched by a change elsewhere.
pub IsList-frame :
    (h g : Heap) (ls : QueueList) (xs ts : List Ptr)
    → IsList h ls xs
    → SameOutside ts h g
    → ((p : Ptr) → has p (nodes ls xs) ≡ true → has p ts ≡ false)
    → IsList g ls xs
IsList-frame h g ls xs ts l s apart = record {
  chain =
      Chain-same h g ls.head xs ls.tail l.chain
        (λ p i. s.next p (apart p (ground (arith, has-append p xs (ls.tail ∷ [])))))
        (λ p i. s.prev p (apart p (ground arith)));
  first_prev = ground (arith, s.prev ls.head, apart ls.head);
  last_next = ground (arith, s.next ls.tail, apart ls.tail, has-append ls.tail xs (ls.tail ∷ []));
  not_null = l.not_null;
  distinct = l.distinct;
}

module _ (h g : Heap) (ls : QueueList) (xs : List Ptr) (q : Ptr) (ys : List Ptr) where
  open ls use {head, tail}

  -- `q` was put into a list at a gap.
  pub Inserted-IsList :
      IsList h ls (xs ++ ys)
      → has q (null ∷ nodes ls (xs ++ ys)) ≡ false
      → Inserted h (last head xs) q (first ys tail) g
      → IsList g ls (xs ++ q ∷ ys) × SameOutside (nodes ls (xs ++ q ∷ ys)) h g
  Inserted-IsList l fresh i =
      let hl = last_in head xs ys tail in
      let hf = first_in xs ys tail in
      let nf = ne_of_has head (first ys tail) ((xs ++ ys) ++ tail ∷ []) l.distinct.0 hf in
      let nl = last-ne-end head xs ys tail l.distinct in
      let ht = end_in (xs ++ ys) tail in
      (
        record {
          chain = Chain-insert h g head xs ys tail q l.chain i l.distinct (ground arith);
          first_prev = ground (arith, i.prev_same head);
          last_next = ground (arith, i.next_same tail);
          not_null = ground (arith, has-insert null xs q ys tail);
          distinct = (
            ground (arith, has-insert head xs q ys tail),
            Distinct-insert xs q ys tail l.distinct.1 (ground arith),
          );
        },
        record {
          next = λ p o. ground (arith, i.next_same p, has-insert p xs q ys tail);
          prev = λ p o. ground (arith, i.prev_same p, has-insert p xs q ys tail);
          aborts = i.aborts_same;
        },
      )

  -- `q` was taken out of a list.
  pub Removed-IsList :
      IsList h ls (xs ++ q ∷ ys)
      → Removed h (last head xs) q (first ys tail) g
      → IsList g ls (xs ++ ys) × SameOutside (nodes ls (xs ++ q ∷ ys)) h g
  Removed-IsList l r =
      let hl = last_in head xs (q ∷ ys) tail in
      let hq = mid_in xs q ys tail in
      let hf = after_in xs q ys tail in
      let all = (xs ++ q ∷ ys) ++ tail ∷ [] in
      let nf = ne_of_has head (first ys tail) all l.distinct.0 hf in
      let nq = ne_of_has head q all l.distinct.0 hq in
      let nl = last-ne-end head xs (q ∷ ys) tail l.distinct in
      let tq = end-ne-mid xs q ys tail l.distinct.1 in
      (
        record {
          chain = Chain-remove h g head xs ys tail q l.chain r l.distinct;
          first_prev = ground (arith, r.prev_same head);
          last_next = ground (arith, r.next_same tail);
          not_null = ground (arith, has-insert null xs q ys tail);
          distinct = (
            ground (arith, has-insert head xs q ys tail),
            Distinct-remove xs q ys tail l.distinct.1,
          );
        },
        record {
          next = λ p o. ground (arith, r.next_same p, has-insert p xs q ys tail);
          prev = λ p o. ground (arith, r.prev_same p, has-insert p xs q ys tail);
          aborts = r.aborts_same;
        },
      )
