-- ===== src/Queue.antt =====
-- queue.c and the QUEUE and QUEUE_LIST of include/basic.h: doubly linked lists between two
-- sentinels. A node is an address; the heap gives its two fields. `none` is a fault: a null
-- pointer is dereferenced. `tv_abort` (debug.c) prints and returns, and is counted.
pub mod Chain
pub mod Links
pub mod Check
pub mod Ops
pub mod Refine
mod Tests
use t_visor.Prelude.{
  ℕ, zero, suc, ◌+◌, Bool, true, false, not, ◌||◌, Option, none, some, ◌==◌, if◌then◌else◌,
}

abbrev pub Ptr : Type 0
Ptr = ℕ

abbrev pub null : Ptr
null = 0

pub record Heap : Type 0 where
  pub prev : Ptr → Ptr
  pub next : Ptr → Ptr
  pub aborts : ℕ

-- `QUEUE_LIST`: the addresses of its two sentinels.
pub record QueueList : Type 0 where
  pub head : Ptr
  pub tail : Ptr

abbrev pub Cmd : Type 0 → Type 0
Cmd A = Heap → Option (A × Heap)

abbrev pub pure : {A : Type 0} → A → Cmd A
pure a h = some (a, h)

infixl 5 ◌>>=◌ ◌>>◌
abbrev pub ◌>>=◌ : {A B : Type 0} → Cmd A → (A → Cmd B) → Cmd B
◌>>=◌ m f h = elim (m h) [ none ↦ none | some (a, h') ↦ f a h' ]

abbrev pub ◌>>◌ : {B : Type 0} → Cmd (Unit {0}) → Cmd B → Cmd B
m >> k = m >>= λ _. k

abbrev pub update : (Ptr → Ptr) → Ptr → Ptr → Ptr → Ptr
update f p v q = if p == q then v else f q

-- A null pointer cannot be followed.
abbrev pub deref : {A : Type 0} → Ptr → Option (A × Heap) → Option (A × Heap)
deref p r = elim (p == null) [ true ↦ none | false ↦ r ]

-- `p->prev` and `p->next`, read and written.
abbrev pub get_prev : Ptr → Cmd Ptr
get_prev p h = deref p (some (h.prev p, h))

abbrev pub get_next : Ptr → Cmd Ptr
get_next p h = deref p (some (h.next p, h))

abbrev pub set_prev : Ptr → Ptr → Cmd (Unit {0})
set_prev p v h = deref p (some (tt, record h { prev = update h.prev p v }))

abbrev pub set_next : Ptr → Ptr → Cmd (Unit {0})
set_next p v h = deref p (some (tt, record h { next = update h.next p v }))

-- `if (b) return m; k`
abbrev pub on : {A : Type 0} → Bool → Cmd A → Cmd A → Cmd A
on b m k h = elim b [ true ↦ m h | false ↦ k h ]

abbrev pub abort : Cmd (Unit {0})
abort h = some (tt, record h { aborts = h.aborts + 1 })

pub queue_remove : Ptr → Cmd (Unit {0})
queue_remove que = do
  p ← get_prev que
  n ← get_next que
  set_next p n
  n' ← get_next que
  p' ← get_prev que
  set_prev n' p'
  set_prev que null
  set_next que null

pub queue_insert : Ptr → Ptr → Cmd (Unit {0})
queue_insert que prev = on (que == null || prev == null) abort do
  n ← get_next prev
  set_next que n
  n' ← get_next que
  set_prev n' que
  set_prev que prev
  set_next prev que

pub queue_insert_prev : Ptr → Ptr → Cmd (Unit {0})
queue_insert_prev que next = on (que == null || next == null) abort do
  p ← get_prev next
  set_prev que p
  p' ← get_prev que
  set_next p' que
  set_next que next
  set_prev next que

pub queue_list_init : QueueList → Cmd (Unit {0})
queue_list_init ls = do
  set_prev ls.head null
  set_next ls.head ls.tail
  set_prev ls.tail ls.head
  set_next ls.tail null

pub queue_list_enque : QueueList → Ptr → Cmd (Unit {0})
queue_list_enque ls que = do last ← get_prev ls.tail; queue_insert que last

pub queue_list_is_empty : QueueList → Cmd Bool
queue_list_is_empty ls = do first ← get_next ls.head; n ← get_next first; pure (n == null)

pub queue_list_top : QueueList → Cmd Ptr
queue_list_top ls = do
  empty ← queue_list_is_empty ls
  on empty (abort >> pure null) (get_next ls.head)

pub queue_list_pop : QueueList → Cmd Ptr
queue_list_pop ls = do
  empty ← queue_list_is_empty ls
  on empty (abort >> pure null) do que ← get_next ls.head; queue_remove que; pure que

-- The walk of `queue_list_find`, on fuel; `none` also when the fuel runs out.
find_loop : ℕ → (tail que tmp : Ptr) → Cmd Bool
find_loop zero tail que tmp h = none
find_loop (suc k) tail que tmp h =
    on (tmp == tail) (pure false)
      (on (tmp == que) (pure true) (get_next tmp >>= find_loop k tail que)) h

pub queue_list_find : ℕ → QueueList → Ptr → Cmd Bool
queue_list_find fuel ls que = get_next ls.head >>= find_loop fuel ls.tail que

-- The walk of `queue_list_check`, on fuel.
check_loop : ℕ → (tail tmp : Ptr) → Cmd Bool
check_loop zero tail tmp h = none
check_loop (suc k) tail tmp h =
    (do
      n ← get_next tmp
      on (n == null) (pure (tail == tmp)) do
        p ← get_prev n
        on (not (p == tmp)) (pure false) do
          p' ← get_prev n
          n' ← get_next p'
          on (not (n' == n)) (pure false) (check_loop k tail n))
      h

pub queue_list_check : ℕ → QueueList → Cmd Bool
queue_list_check fuel ls = do
  p ← get_prev ls.head
  n ← get_next ls.tail
  on (not (p == null)) (pure false)
      (on (not (n == null)) (pure false) (check_loop fuel ls.tail ls.head))
