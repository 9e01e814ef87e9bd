-- ===== src/Queue/Links.antt =====
-- What queue_insert, queue_insert_prev and queue_remove of queue.c do to the links around a node.
use t_visor.Prelude.{◌≡◌, ◌≢◌, refl, some, arith}
use t_visor.Queue.{Ptr, null, Heap, update, queue_insert, queue_insert_prev, queue_remove}
use t_visor.Queue.Chain.{Inserted, Removed}

module _ (h : Heap) (p q n : Ptr) (vp : p ≢ null) (vq : q ≢ null) (vn : n ≢ null) (qp : q ≢ p)
    (qn : q ≢ n) where
  pub queue_insert-Inserted :
      h.next p ≡ n → (g : Heap) × (queue_insert q p h ≡ some (tt, g)) × Inserted h p q n g
  unfolding queue_insert
  queue_insert-Inserted e = (
    record h { next = update (update h.next q n) p q; prev = update (update h.prev n q) q p },
    ground arith,
    record {
      next_p = ground arith;
      next_q = ground arith;
      prev_n = ground arith;
      prev_q = ground arith;
      next_same = λ a x y. ground arith;
      prev_same = λ a x y. ground arith;
      aborts_same = refl;
    },
  )

  pub queue_insert_prev-Inserted :
      h.prev n ≡ p → (g : Heap) × (queue_insert_prev q n h ≡ some (tt, g)) × Inserted h p q n g
  unfolding queue_insert_prev
  queue_insert_prev-Inserted e = (
    record h { prev = update (update h.prev q p) n q; next = update (update h.next p q) q n },
    ground arith,
    record {
      next_p = ground arith;
      next_q = ground arith;
      prev_n = ground arith;
      prev_q = ground arith;
      next_same = λ a x y. ground arith;
      prev_same = λ a x y. ground arith;
      aborts_same = refl;
    },
  )

  pub queue_remove-Removed :
      h.prev q ≡ p
      → h.next q ≡ n
      → (g : Heap) × (queue_remove q h ≡ some (tt, g)) × Removed h p q n g
  unfolding queue_remove
  queue_remove-Removed e f = (
    record h { next = update (update h.next p n) q null; prev = update (update h.prev n p) q null },
    ground arith,
    record {
      next_p = ground arith;
      prev_n = ground arith;
      next_q = ground arith;
      prev_q = ground arith;
      next_same = λ a x y. ground arith;
      prev_same = λ a x y. ground arith;
      aborts_same = refl;
    },
  )
