-- ===== src/Sorted.antt =====
-- Insertion by a key into a QUEUE_LIST: `list_enque` of edf_scheduler.c, and the same loop in
-- `timer_event_insert` of timer_event.c. A node goes before the first one with a greater key.
pub mod Laws
pub mod Walk
mod Tests
use t_visor.Prelude.{ℕ, zero, suc, none, List, [], ◌∷◌, ◌++◌, ltb, if◌then◌else◌, ◌==◌}
use t_visor.Queue.{Ptr, QueueList, Cmd, pure, on, ◌>>=◌, ◌>>◌, get_next, queue_insert_prev}

module _ (key : ℕ → ℕ) where
  -- The nodes that the loop passes, and those that it stops before.
  unfoldable pub before : ℕ → List ℕ → List ℕ
  before k [] = []
  before k (x ∷ xs) = if ltb k (key x) then [] else x ∷ before k xs

  unfoldable pub after : ℕ → List ℕ → List ℕ
  after k [] = []
  after k (x ∷ xs) = if ltb k (key x) then x ∷ xs else after k xs

  -- The loop and the insertion, on the sequence of the nodes.
  unfoldable pub insert_sorted : ℕ → List ℕ → List ℕ
  insert_sorted q xs = before (key q) xs ++ q ∷ after (key q) xs

  -- The same on the links: the loop, on fuel, ends at the node to insert behind.
  pub walk : ℕ → Ptr → ℕ → Ptr → Cmd Ptr
  walk zero tail k tmp = λ h. none
  walk (suc n) tail k tmp = do
    next ← get_next tmp
    on (next == tail) (pure tmp) (on (ltb k (key next)) (pure tmp) (walk n tail k next))

  -- Gives the node or sentinel behind which `que` was put.
  pub list_enque : ℕ → QueueList → Ptr → Cmd Ptr
  list_enque fuel ls que = do
    tmp ← walk fuel ls.tail (key que) ls.head
    next ← get_next tmp
    queue_insert_prev que next
    pure tmp
