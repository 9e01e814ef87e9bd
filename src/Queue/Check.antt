-- ===== src/Queue/Check.antt =====
-- queue_list_init and queue_list_check of queue.c.
use t_visor.Prelude.{
  ℕ, zero, suc, ◌+◌, ◌<◌, ◌≡◌, ◌≢◌, refl, true, false, some, List, [], ◌∷◌, ◌++◌, arith, ◌==◌, has,
  ne_of_has, Bool-cases, ◌⊎◌, inl, inr, length,
}
use t_visor.Queue.{
  Ptr, null, Heap, QueueList, queue_list_init, queue_list_check, check_loop, update,
}
use t_visor.Queue.Chain.{Chain, end_in}
use t_visor.Queue.Refine.{IsList, SameOutside, nodes}

module _ (h : Heap) (ls : QueueList) where
  -- queue_list_init makes an empty list of two cells that are not null and not the same.
  pub queue_list_init-IsList :
      ls.head ≢ null
      → ls.tail ≢ null
      → ls.head ≢ ls.tail
      → (g : Heap) × (queue_list_init ls h ≡ some (tt, g))
        × IsList g ls []
        × SameOutside (nodes ls []) h g
  unfolding queue_list_init
  queue_list_init-IsList vh vt o = (
    record h {
      prev = update (update h.prev ls.head null) ls.tail ls.head;
      next = update (update h.next ls.head ls.tail) ls.tail null;
    },
    ground arith,
    record {
      chain = (ground arith, ground arith);
      first_prev = ground arith;
      last_next = ground arith;
      not_null = ground arith;
      distinct = (ground arith, (ground arith, tt));
    },
    record { next = λ p i. ground arith; prev = λ p i. ground arith; aborts = refl },
  )

  check_loop-true :
      (fuel : ℕ) (a : Ptr) (xs : List Ptr)
      → Chain h a xs ls.tail
      → h.next ls.tail ≡ null
      → has null (a ∷ (xs ++ ls.tail ∷ [])) ≡ false
      → length xs + 1 < fuel
      → check_loop fuel ls.tail a h ≡ some (true, h)
  unfolding check_loop
  check_loop-true zero a xs c e v f = absurd (omega arith)
  check_loop-true (suc zero) a xs c e v f = absurd (omega arith)
  check_loop-true (suc (suc k)) a [] c e v f = ground arith
  check_loop-true (suc (suc k)) a (x ∷ xs) c e v f =
      ground (arith, check_loop-true (suc k) x xs c.2 e (ground arith) (omega arith))

  -- queue_list_check accepts every well formed list.
  pub queue_list_check-IsList :
      (fuel : ℕ) (xs : List Ptr)
      → IsList h ls xs
      → length xs + 1 < fuel
      → queue_list_check fuel ls h ≡ some (true, h)
  unfolding queue_list_check
  queue_list_check-IsList fuel xs l f =
      let some_tail =
        ne_of_has null ls.tail (nodes ls xs) l.not_null (ground (arith, end_in xs ls.tail)) in
      ground (arith, check_loop-true fuel ls.head xs l.chain l.last_next l.not_null f)

  check_loop_sound :
      (fuel : ℕ) (a : Ptr) (g : Heap)
      → check_loop fuel ls.tail a h ≡ some (true, g)
      → h.next ls.tail ≡ null
      → ((a ≡ ls.tail) ⊎ ((xs : List Ptr) × Chain h a xs ls.tail))
  unfolding check_loop
  check_loop_sound zero a g e t = absurd (ground arith)
  check_loop_sound (suc k) a g e t = elim (Bool-cases (h.next a == null)) [
    | inl stop ↦ inl (ground arith)
    | inr go ↦ elim (check_loop_sound k (h.next a) g (ground arith) t) [
      | inl at ↦ inr ([], (ground arith, ground arith))
      | inr (xs, c) ↦ inr (h.next a ∷ xs, (refl, ground arith, c))
    ]
  ]

  -- What queue_list_check accepts is chained both ways from the head to the tail, if the two differ.
  pub queue_list_check_sound :
      (fuel : ℕ) (g : Heap)
      → queue_list_check fuel ls h ≡ some (true, g)
      → ls.head ≢ ls.tail
      → (h.prev ls.head ≡ null)
        × (h.next ls.tail ≡ null)
        × ((xs : List Ptr) × Chain h ls.head xs ls.tail)
  unfolding queue_list_check
  queue_list_check_sound fuel g e o =
      let t : h.next ls.tail ≡ null = ground arith in
      let r : check_loop fuel ls.tail ls.head h ≡ some (true, g) = ground arith in
      (
        ground arith,
        t,
        elim (check_loop_sound fuel ls.head g r t) [ inl at ↦ absurd (o at) | inr c ↦ c ],
      )
