-- ===== src/Sorted/Walk.antt =====
-- The pointer loop of edf_scheduler.c and timer_event.c inserts into the sequence.
use t_visor.Prelude.{
  ℕ, zero, suc, ◌<◌, ◌≡◌, ◌≢◌, sym, subst, false, some, List, [], ◌∷◌, ◌++◌, arith, has, ne_of_has,
  length, Distinct, Distinct-append,
}
use t_visor.Queue.{Ptr, null, Heap, QueueList, queue_insert_prev}
use t_visor.Queue.Chain.{Chain, last, first, last_in, next_gap, span}
use t_visor.Queue.Refine.{IsList, nodes}
use t_visor.Queue.Ops.{Leaves, queue_insert_prev-IsList}
use t_visor.Sorted.{before, after, insert_sorted, walk, list_enque}
use t_visor.Sorted.Laws.{before-append-after}

module _ (key : Ptr → ℕ) (h : Heap) where
  walk-last :
      (fuel k : ℕ) (a : Ptr) (xs : List Ptr) (z : Ptr)
      → Chain h a xs z
      → has null (span a xs z) ≡ false
      → has z xs ≡ false
      → length xs < fuel
      → walk key fuel z k a h ≡ some (last a (before key k xs), h)
  unfolding walk before
  walk-last zero k a xs z c v o f = absurd (omega arith)
  walk-last (suc n) k a [] z c v o f = ground arith
  walk-last (suc n) k a (x ∷ xs) z c v o f =
      ground (arith, walk-last n k x xs z c.2 (ground arith) (ground arith) (omega arith))

  tail_out : (z : Ptr) (xs : List Ptr) → Distinct (xs ++ z ∷ []) → has z xs ≡ false
  tail_out z xs d =
      ground (arith, Distinct-append xs (z ∷ []) d, (Distinct-append xs (z ∷ []) d).2 z)

  enque_step :
      (fuel : ℕ) (ls : QueueList) (q p n : Ptr) (g : Heap)
      → walk key fuel ls.tail (key q) ls.head h ≡ some (p, h)
      → p ≢ null
      → h.next p ≡ n
      → queue_insert_prev q n h ≡ some (tt, g)
      → list_enque key fuel ls q h ≡ some (p, g)
  unfolding list_enque
  enque_step fuel ls q p n g w v e f = ground arith

  -- From a well formed list and a new node the loop ends without a fault, within a round for each
  -- node, and the links stand for the sequence with the node inserted. It gives the head exactly
  -- if the node was put first.
  pub list_enque-IsList :
      (fuel : ℕ) (ls : QueueList) (xs : List Ptr) (q : Ptr)
      → IsList h ls xs
      → has q (null ∷ nodes ls xs) ≡ false
      → length xs < fuel
      → (g : Heap) × (list_enque key fuel ls q h ≡ some (last ls.head (before key (key q) xs), g))
        × Leaves h ls (insert_sorted key q xs) (nodes ls (insert_sorted key q xs)) g
  unfolding insert_sorted
  list_enque-IsList fuel ls xs q l fresh f =
      let bs = before key (key q) xs in
      let rest = after key (key q) xs in
      let cut = sym (before-append-after key (key q) xs) in
      let l' = subst (IsList h ls) cut l in
      let (g, e, leaves) =
        queue_insert_prev-IsList h ls bs q rest l'
          (subst (λ zs. has q (null ∷ nodes ls zs) ≡ false) cut fresh) in
      let v =
        ne_of_has null (last ls.head bs) (nodes ls (bs ++ rest)) l'.not_null
          (last_in ls.head bs rest ls.tail) in
      (
        g,
        enque_step fuel ls q (last ls.head bs) (first rest ls.tail) g
            (walk-last fuel (key q) ls.head xs ls.tail l.chain l.not_null
              (tail_out ls.tail xs l.distinct.1) f)
            (λ e. v (sym e)) (next_gap h ls.head bs rest ls.tail l'.chain) e,
        leaves,
      )
