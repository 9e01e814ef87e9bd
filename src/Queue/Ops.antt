-- ===== src/Queue/Ops.antt =====
-- The operations of queue.c on a well formed list are those of the sequence of its nodes.
use mathlib.Core.List.{append-nil}
use t_visor.Prelude.{
  ℕ, zero, suc, ◌+◌, ◌<◌, ◌≡◌, ◌≢◌, sym, ◌∙◌, subst, false, some, List, [], ◌∷◌, ◌++◌, arith, ◌==◌,
  has, ne_of_has, Distinct, Distinct-append, is_nil, length, ==_of_ne,
}
use t_visor.Queue.{
  Ptr, null, Heap, QueueList, queue_insert, queue_insert_prev, queue_remove, queue_list_enque,
  queue_list_is_empty, queue_list_pop, queue_list_find, find_loop,
}
use t_visor.Queue.Chain.{
  Chain, last, first, last_in, first_in, mid_in, after_in, prev_gap, next_gap, next_mid,
  mid-ne-last, mid-ne-first,
}
use t_visor.Queue.Links.{queue_insert-Inserted, queue_insert_prev-Inserted, queue_remove-Removed}
use t_visor.Queue.Refine.{IsList, SameOutside, nodes, Inserted-IsList, Removed-IsList}

-- A command ends without a fault, with the list `xs`, and changes only the nodes `ts`.
abbrev pub Leaves : Heap → QueueList → List Ptr → List Ptr → Heap → Type 0
Leaves h ls xs ts g = IsList g ls xs × SameOutside ts h g

module _ (h : Heap) (ls : QueueList) (xs : List Ptr) (q : Ptr) (ys : List Ptr) where
  open ls use {head, tail}

  -- queue_insert_prev puts a new node before the node or the sentinel that it is given, and changes
  -- no other list.
  pub queue_insert_prev-IsList :
      IsList h ls (xs ++ ys)
      → has q (null ∷ nodes ls (xs ++ ys)) ≡ false
      → (g : Heap) × (queue_insert_prev q (first ys tail) h ≡ some (tt, g))
        × Leaves h ls (xs ++ q ∷ ys) (nodes ls (xs ++ q ∷ ys)) g
  queue_insert_prev-IsList l fresh =
      let all = nodes ls (xs ++ ys) in
      let hl = last_in head xs ys tail in
      let hf = first_in xs ys tail in
      let vl = ne_of_has null (last head xs) all l.not_null hl in
      let vf = ne_of_has null (first ys tail) all l.not_null (ground arith) in
      let ql = ne_of_has q (last head xs) all (ground arith) hl in
      let qf = ne_of_has q (first ys tail) all (ground arith) (ground arith) in
      let (g, e, i) =
        queue_insert_prev-Inserted h (last head xs) q (first ys tail) (λ e. vl (sym e))
          (ground arith) (λ e. vf (sym e)) ql qf (prev_gap h head xs ys tail l.chain) in
      (g, e, Inserted-IsList h g ls xs q ys l fresh i)

  -- queue_remove takes a node out of the list that holds it.
  pub queue_remove-IsList :
      IsList h ls (xs ++ q ∷ ys)
      → (g : Heap) × (queue_remove q h ≡ some (tt, g))
        × Leaves h ls (xs ++ ys) (nodes ls (xs ++ q ∷ ys)) g
  queue_remove-IsList l =
      let all = nodes ls (xs ++ q ∷ ys) in
      let hl = last_in head xs (q ∷ ys) tail in
      let hq = mid_in xs q ys tail in
      let hf = after_in xs q ys tail in
      let vl = ne_of_has null (last head xs) all l.not_null hl in
      let vf = ne_of_has null (first ys tail) all l.not_null (ground arith) in
      let vq = ne_of_has null q all l.not_null (ground arith) in
      let (g, e, r) =
        queue_remove-Removed h (last head xs) q (first ys tail) (λ e. vl (sym e)) (λ e. vq (sym e))
          (λ e. vf (sym e)) (mid-ne-last head xs q ys tail l.distinct)
          (mid-ne-first head xs q ys tail l.distinct) (prev_gap h head xs (q ∷ ys) tail l.chain)
          (next_mid h head xs q ys tail l.chain) in
      (g, e, Removed-IsList h g ls xs q ys l r)

enque_step :
    (h : Heap) (ls : QueueList) (q p : Ptr)
    → ls.tail ≢ null
    → h.prev ls.tail ≡ p
    → queue_list_enque ls q h ≡ queue_insert q p h
unfolding queue_list_enque
enque_step h ls q p v e = ground arith

-- queue_list_enque adds a new node at the end.
pub queue_list_enque-IsList :
    (h : Heap) (ls : QueueList) (xs : List Ptr) (q : Ptr)
    → IsList h ls xs
    → has q (null ∷ nodes ls xs) ≡ false
    → (g : Heap) × (queue_list_enque ls q h ≡ some (tt, g))
      × Leaves h ls (xs ++ q ∷ []) (nodes ls (xs ++ q ∷ [])) g
unfolding queue_list_enque
queue_list_enque-IsList h ls xs q =
    subst
      (λ zs.
        IsList h ls zs
        → has q (null ∷ nodes ls zs) ≡ false
        → (g : Heap) × (queue_list_enque ls q h ≡ some (tt, g))
          × Leaves h ls (xs ++ q ∷ []) (nodes ls (xs ++ q ∷ [])) g)
      (append-nil xs) at_end
  where
    at_end :
        IsList h ls (xs ++ [])
        → has q (null ∷ nodes ls (xs ++ [])) ≡ false
        → (g : Heap) × (queue_list_enque ls q h ≡ some (tt, g))
          × Leaves h ls (xs ++ q ∷ []) (nodes ls (xs ++ q ∷ [])) g
    at_end l fresh =
        let all = nodes ls (xs ++ []) in
        let hl = last_in ls.head xs [] ls.tail in
        let hf = first_in xs [] ls.tail in
        let vl = ne_of_has null (last ls.head xs) all l.not_null hl in
        let vf = ne_of_has null ls.tail all l.not_null (ground arith) in
        let ql = ne_of_has q (last ls.head xs) all (ground arith) hl in
        let qf = ne_of_has q ls.tail all (ground arith) (ground arith) in
        let back = prev_gap h ls.head xs [] ls.tail l.chain in
        let (g, e, i) =
          queue_insert-Inserted h (last ls.head xs) q ls.tail (λ e. vl (sym e)) (ground arith)
            (λ e. vf (sym e)) ql qf (next_gap h ls.head xs [] ls.tail l.chain) in
        (
          g,
          enque_step h ls q (last ls.head xs) (λ e. vf (sym e)) back ∙ e,
          Inserted-IsList h g ls xs q [] l fresh i,
        )

module _ (h : Heap) (ls : QueueList) where
  -- queue_list_is_empty tells whether the list is empty.
  pub queue_list_is_empty-is_nil :
      (xs : List Ptr) → IsList h ls xs → queue_list_is_empty ls h ≡ some (is_nil xs, h)
  unfolding queue_list_is_empty
  queue_list_is_empty-is_nil [] l = ground (arith, l.chain, l.last_next)
  queue_list_is_empty-is_nil (x ∷ xs) l =
      let all = nodes ls (x ∷ xs) in
      let go = next_gap h ls.head (x ∷ []) xs ls.tail l.chain in
      let hf = first_in (x ∷ []) xs ls.tail in
      let vf = ne_of_has null (first xs ls.tail) all l.not_null (ground arith) in ground arith

  -- queue_list_pop takes the first node.
  pub queue_list_pop-cons :
      (x : Ptr) (xs : List Ptr)
      → IsList h ls (x ∷ xs)
      → (g : Heap) × (queue_list_pop ls h ≡ some (x, g)) × Leaves h ls xs (nodes ls (x ∷ xs)) g
  unfolding queue_list_pop
  queue_list_pop-cons x xs l =
      let (g, e, leaves) = queue_remove-IsList h ls [] x xs l in
      let some_next = ne_of_has null ls.head (nodes ls (x ∷ xs)) l.not_null (ground arith) in
      (g, ground (arith, queue_list_is_empty-is_nil (x ∷ xs) l), leaves)

  -- On the empty list queue_list_pop aborts, gives NULL and changes no link.
  pub queue_list_pop-nil :
      IsList h ls [] → queue_list_pop ls h ≡ some (null, record h { aborts = h.aborts + 1 })
  unfolding queue_list_pop
  queue_list_pop-nil l = ground (arith, queue_list_is_empty-is_nil [] l)

  find_end :
      (fuel : ℕ) (q : Ptr)
      → 1 < fuel
      → q ≢ ls.tail
      → find_loop fuel ls.tail q ls.tail h ≡ some (false, h)
  unfolding find_loop
  find_end zero q f o = absurd (omega arith)
  find_end (suc k) q f o = ground arith

  tail_out :
      (x : Ptr) (xs : List Ptr) → Distinct ((x ∷ xs) ++ ls.tail ∷ []) → has ls.tail (x ∷ xs) ≡ false
  tail_out x xs d = ground (
    arith,
    Distinct-append (x ∷ xs) (ls.tail ∷ []) d,
    (Distinct-append (x ∷ xs) (ls.tail ∷ []) d).2 ls.tail,
  )

  find_loop-has :
      (fuel : ℕ) (q a : Ptr) (xs : List Ptr)
      → Chain h a xs ls.tail
      → has null (nodes ls (a ∷ xs)) ≡ false
      → has ls.tail (a ∷ xs) ≡ false
      → length xs + 1 < fuel
      → (q == ls.tail) ≡ false
      → find_loop fuel ls.tail q a h ≡ some (has q (a ∷ xs), h)
  unfolding find_loop
  find_loop-has zero q a xs c v t f o = absurd (omega arith)
  find_loop-has (suc zero) q a xs c v t f o = absurd (omega arith)
  find_loop-has (suc (suc k)) q a [] c v t f o = ground arith
  find_loop-has (suc (suc k)) q a (x ∷ xs) c v t f o =
      ground (arith, find_loop-has (suc k) q x xs c.2 (ground arith) (ground arith) (omega arith) o)

  -- queue_list_find tells whether a node other than the tail is in the list, in as many rounds as
  -- the list has nodes.
  pub queue_list_find-has :
      (fuel : ℕ) (q : Ptr) (xs : List Ptr)
      → IsList h ls xs
      → length xs + 1 < fuel
      → q ≢ ls.tail
      → queue_list_find fuel ls q h ≡ some (has q xs, h)
  unfolding queue_list_find
  queue_list_find-has fuel q [] l f o = ground (arith, find_end fuel q f o)
  queue_list_find-has fuel q (x ∷ xs) l f o = ground (
    arith,
    find_loop-has fuel q x xs l.chain.2 (ground arith) (tail_out x xs l.distinct.1) (omega arith)
        (==_of_ne q ls.tail o),
  )
