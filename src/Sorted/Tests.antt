-- ===== src/Sorted/Tests.antt =====
-- A list of two nodes, with their addresses for keys, in which the loop inserts.
use t_visor.Prelude.{◌≡◌, refl, some, [], ◌∷◌, arith, ◌==◌, if◌then◌else◌}
use t_visor.Queue.{Heap, QueueList}
use t_visor.Queue.Refine.{IsList, nodes}
use t_visor.Queue.Ops.{Leaves}
use t_visor.Sorted.{list_enque, before, after, insert_sorted}
use t_visor.Sorted.Walk.{list_enque-IsList}

abbrev cells : QueueList
cells = record { head = 1; tail = 2 }

abbrev two : Heap
two = record {
  prev = λ p. if p == 3 then 1 else if p == 6 then 3 else if p == 2 then 6 else 0;
  next = λ p. if p == 1 then 3 else if p == 3 then 6 else if p == 6 then 2 else 0;
  aborts = 0;
}

two-IsList : IsList two cells (3 ∷ 6 ∷ [])
two-IsList = record {
  chain = (refl, refl, (refl, refl, (refl, refl)));
  first_prev = refl;
  last_next = refl;
  not_null = refl;
  distinct = (refl, (refl, (refl, (refl, tt))));
}

list_enque-IsList_example :
    (g : Heap) × (list_enque (λ q. q) 3 cells 5 two ≡ some (3, g))
    × Leaves two cells (3 ∷ 5 ∷ 6 ∷ []) (nodes cells (3 ∷ 5 ∷ 6 ∷ [])) g
unfolding insert_sorted before after
list_enque-IsList_example =
    list_enque-IsList (λ q. q) two 3 cells (3 ∷ 6 ∷ []) 5 two-IsList refl (omega arith)
