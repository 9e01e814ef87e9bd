-- ===== src/Queue/Tests.antt =====
-- A list of two nodes, on which the operations of queue.c run.
use t_visor.Prelude.{◌≡◌, refl, true, some, List, [], ◌∷◌, arith, ◌==◌, if◌then◌else◌}
use t_visor.Queue.{
  Ptr, null, Heap, QueueList, queue_remove, queue_list_find, queue_list_check, check_loop,
}
use t_visor.Queue.Chain.{Chain}
use t_visor.Queue.Refine.{IsList, nodes}
use t_visor.Queue.Ops.{Leaves, queue_remove-IsList, queue_list_find-has}
use t_visor.Queue.Check.{queue_list_check-IsList, queue_list_check_sound}

-- The sentinels 1 and 2, and between them the nodes 3 and 4.
abbrev pub cells : QueueList
cells = record { head = 1; tail = 2 }

abbrev pub two : Heap
two = record {
  prev = λ p. if p == 3 then 1 else if p == 4 then 3 else if p == 2 then 4 else 0;
  next = λ p. if p == 1 then 3 else if p == 3 then 4 else if p == 4 then 2 else 0;
  aborts = 0;
}

pub two-IsList : IsList two cells (3 ∷ 4 ∷ [])
two-IsList = record {
  chain = (refl, refl, (refl, refl, (refl, refl)));
  first_prev = refl;
  last_next = refl;
  not_null = refl;
  distinct = (refl, (refl, (refl, (refl, tt))));
}

queue_remove-IsList_example :
    (g : Heap) × (queue_remove 4 two ≡ some (tt, g))
    × Leaves two cells (3 ∷ []) (nodes cells (3 ∷ 4 ∷ [])) g
queue_remove-IsList_example = queue_remove-IsList two cells (3 ∷ []) 4 [] two-IsList

queue_list_find-has_example : queue_list_find 4 cells 4 two ≡ some (true, two)
queue_list_find-has_example =
    queue_list_find-has two cells 4 4 (3 ∷ 4 ∷ []) two-IsList (omega arith) (omega arith)

queue_list_check-IsList_example : queue_list_check 4 cells two ≡ some (true, two)
queue_list_check-IsList_example =
    queue_list_check-IsList two cells 4 (3 ∷ 4 ∷ []) two-IsList (omega arith)

accepted : queue_list_check 4 cells two ≡ some (true, two)
unfolding queue_list_check check_loop
accepted = refl

queue_list_check_sound_example :
    (two.prev 1 ≡ null) × (two.next 2 ≡ null) × ((xs : List Ptr) × Chain two 1 xs 2)
queue_list_check_sound_example = queue_list_check_sound two cells 4 two accepted (omega arith)
