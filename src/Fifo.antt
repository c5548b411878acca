-- ===== src/Fifo.antt =====
-- internal/fifo/queue.go: a FIFO as a linked list of small ring buffers. Pointers to nodes are
-- numbers, and the nodes that were made are in a heap that the queue carries along; nothing else
-- holds a pointer to them.
pub mod Node
pub mod Chain
pub mod Holds
pub mod Extend
pub mod PushBack
pub mod Shrink
pub mod PopFront
use side_eye_go.Prelude.{
  ℕ, ◌+◌, ◌-◌, ◌%◌, Bool, true, false, Option, some, none, ◌==◌, if◌then◌else◌,
}
use side_eye_go.Prelude.{
  Result, ok, trap, panic, M, pure, stop, get, modify, demand, choose, ◌>>=◌, ◌>>◌,
}

abbrev pub queue_node_size : ℕ
queue_node_size = 128

-- `buf` is used at indices below `queue_node_size`.
pub record QueueNode (T : Type 0) : Type 0 where
  pub buf : ℕ → T
  pub head : ℕ
  pub len : ℕ
  pub next : Option ℕ

-- `free` is the head of the free list, `fresh` the next pointer that the allocator returns.
pub record Fifo (T : Type 0) : Type 0 where
  pub len : ℕ
  pub head : Option ℕ
  pub tail : Option ℕ
  pub free : Option ℕ
  pub heap : ℕ → QueueNode T
  pub fresh : ℕ

abbrev pub update {ℓ} : {A : Type ℓ} → (ℕ → A) → ℕ → A → ℕ → A
update f p v q = if p == q then v else f q

module _ {T : Type 0} (zero_value : T) where
  unfoldable pub new_node : QueueNode T
  new_node = record { buf = λ _. zero_value; head = 0; len = 0; next = none }

  unfoldable pub make_fifo : Fifo T
  unfolding new_node
  make_fifo = record {
    len = 0;
    head = none;
    tail = none;
    free = none;
    heap = λ _. new_node;
    fresh = 0;
  }

  -- `freeList.get`. The second assignment reads the field that the first has cleared, so the rest
  -- of the list is dropped.
  unfoldable pub free_get : M (Fifo T) ℕ
  unfolding new_node
  free_get q = elim q.free [
    | none ↦ ok (q.fresh, record q { heap = update q.heap q.fresh new_node; fresh = q.fresh + 1 })
    | some qn ↦
        let cleared : ℕ → QueueNode T = update q.heap qn (record (q.heap qn) { next = none }) in
        ok (qn, record q { heap = cleared; free = (cleared qn).next })
  ]

module _ {T : Type 0} where
  -- `freeList.put`.
  unfoldable pub free_put : ℕ → Fifo T → Fifo T
  free_put qn q = record q {
    heap = update q.heap qn (record (q.heap qn) { head = 0; len = 0; next = q.free });
    free = some qn;
  }

  unfoldable pub node_is_full : QueueNode T → Bool
  node_is_full qn = qn.len == queue_node_size

  unfoldable pub node_push_back : T → QueueNode T → QueueNode T
  node_push_back t qn = record qn {
    buf = update qn.buf ((qn.head + qn.len) % queue_node_size) t;
    len = qn.len + 1;
  }

  unfoldable pub node_peek_front : QueueNode T → T
  node_peek_front qn = qn.buf qn.head

  unfoldable pub node_pop_front : T → QueueNode T → QueueNode T
  node_pop_front zero_value qn = record qn {
    buf = update qn.buf qn.head zero_value;
    head = (qn.head + 1) % queue_node_size;
    len = qn.len - 1;
  }

  unfoldable pub len_of : Fifo T → ℕ
  len_of q = q.len

  unfoldable pub peek_front : M (Fifo T) (Option T)
  unfolding node_peek_front
  peek_front = do
    q ← get
    choose (q.len == 0) (pure none)
        (do head ← demand q.head; pure (some (node_peek_front (q.heap head))))

  -- A change of the node behind a pointer.
  unfoldable pub at_node : ℕ → (QueueNode T → QueueNode T) → Fifo T → Fifo T
  at_node a f q = record q { heap = update q.heap a (f (q.heap a)) }

  unfoldable pub set_ends : ℕ → Fifo T → Fifo T
  set_ends a q = record q { head = some a; tail = some a }

  -- `q.tail.next = newTail; q.tail = newTail`.
  unfoldable pub link : ℕ → ℕ → Fifo T → Fifo T
  link tail new_tail q = record q {
    heap = update q.heap tail (record (q.heap tail) { next = some new_tail });
    tail = some new_tail;
  }

  -- `q.head = oldHead.next; q.freeList.put(oldHead)`.
  unfoldable pub drop_head : ℕ → Fifo T → Fifo T
  unfolding free_put
  drop_head old_head q = free_put old_head (record q { head = (q.heap old_head).next })

  unfoldable pub count_up : Fifo T → Fifo T
  count_up q = record q { len = q.len + 1 }

  unfoldable pub count_down : Fifo T → Fifo T
  count_down q = record q { len = q.len - 1 }

-- A nil pointer panics where it is followed.
module _ {T : Type 0} (zero_value : T) where
  unfoldable pub extend : Option ℕ → M (Fifo T) (Unit {0})
  extend none = do a ← free_get zero_value; modify (set_ends a)
  extend (some _) = do
    q ← get
    tail ← demand q.tail
    choose (node_is_full (q.heap tail))
        (do new_tail ← free_get zero_value; modify (link tail new_tail)) (pure tt)

  unfoldable pub push_back : T → M (Fifo T) (Unit {0})
  push_back t = do
    q ← get
    extend q.head
    modify count_up
    q' ← get
    tail ← demand q'.tail
    modify (at_node tail (node_push_back t))

  -- `len` is not 0 here in a valid queue, so that no count goes below 0.
  unfoldable pub pop_front : M (Fifo T) (Unit {0})
  pop_front = do
    q ← get
    head ← demand q.head
    modify (at_node head (node_pop_front zero_value))
    q' ← get
    choose ((q'.heap head).len == 0) (modify (drop_head head)) (pure tt)
    modify count_down
