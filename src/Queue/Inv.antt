-- ===== src/Queue/Inv.antt =====
-- What holds of the queue of internal/snapshot/queue.go at any time, and that its methods keep it.
use side_eye_go.Prelude.{
  ℕ, ◌≡◌, true, false, List, [], ◌∷◌, ◌++◌, ok, inl, inr, Bool-cases, arith, Keeps, Returns, Result,
  trap, Option, u32, u64, All,
}
use mathlib.Core.List.{append_assoc, append-nil}
use side_eye_go.Framing.{QueueEntry}
use side_eye_go.Fifo.{Fifo}
use side_eye_go.Fifo.Holds.{Holds, make_fifo-Holds}
use side_eye_go.Fifo.PushBack.{push_back-Holds}
use side_eye_go.Queue.{pop, Queue, is_seen, push, should_record, make_queue, no_entry}
use side_eye_go.Queue.Steps.{
  key_of, is_new, mark, entry, record_new, record_old, push_new, push_old, pop_empty, pop_front,
}
use side_eye_go.Queue.Calls.{
  Once, Once-snoc, AllSeen, AllSeen-snoc, AllSeen-more, is_seen-marked, InRange, InRange-snoc,
  entries_of, unseen-DiffersFrom,
}

-- What the queue has handed out and what it holds.
pub record Inv (s : Queue) (handed : List QueueEntry) : Type 0 where
  pub items : List QueueEntry
  pub holds : Holds s.q items
  pub once : Once (handed ++ items)
  pub all_seen : AllSeen s.seen (handed ++ items)
  pub in_range : All InRange (handed ++ items)

is_new-unseen :
    (addr t : ℕ) (s : Queue)
    → is_new addr t s ≡ true
    → (¬ (addr ≡ 0)) × (is_seen (record { addr = addr; t = t }) s.seen ≡ false)
is_new-unseen addr t s e = ground arith

pub mark-Inv :
    (addr t : ℕ) (s : Queue) (handed : List QueueEntry) → Inv s handed → Inv (mark addr t s) handed
mark-Inv addr t s handed v = record {
  items = v.items;
  holds = v.holds;
  once = v.once;
  all_seen = AllSeen-more _ s.seen (handed ++ v.items) v.all_seen;
  in_range = v.in_range;
}

push-Inv :
    (addr t data_len : ℕ) (s : Queue) (handed : List QueueEntry) (q : Fifo QueueEntry)
    (v : Inv s handed)
    → InRange (entry addr t data_len s)
    → is_new addr t s ≡ true
    → Holds q (v.items ++ (entry addr t data_len s ∷ []))
    → Inv (record (mark addr t s) { q = q }) handed
push-Inv addr t data_len s handed q v r e h =
    let new : QueueEntry = entry addr t data_len s in
    let (nz, unseen) = is_new-unseen addr t s e in
    let more : List QueueEntry = handed ++ v.items in
    record {
      items = v.items ++ (new ∷ []);
      holds = h;
      once =
          rw⁻¹ (append_assoc handed v.items (new ∷ []))
            (Once-snoc more new v.once nz (unseen-DiffersFrom s.seen new more unseen v.all_seen));
      all_seen = rw⁻¹ (append_assoc handed v.items (new ∷ [])) (
          AllSeen-snoc (key_of new ∷ s.seen) more new
            (AllSeen-more (key_of new) s.seen more v.all_seen)
            (is_seen-marked (key_of new) s.seen));
      in_range = rw⁻¹ (append_assoc handed v.items (new ∷ [])) (InRange-snoc more new v.in_range r);
    }

pub pop-Inv :
    (s : Queue) (handed : List QueueEntry) (e : QueueEntry) (es : List QueueEntry)
    (q : Fifo QueueEntry)
    → Holds q es
    → Once (handed ++ (e ∷ es))
    → AllSeen s.seen (handed ++ (e ∷ es))
    → All InRange (handed ++ (e ∷ es))
    → Inv (record s { q = q }) (handed ++ (e ∷ []))
pop-Inv s handed e es q h once all_seen in_range = record {
  items = es;
  holds = h;
  once = rw (append_assoc handed (e ∷ []) es) once;
  all_seen = rw (append_assoc handed (e ∷ []) es) all_seen;
  in_range = rw (append_assoc handed (e ∷ []) es) in_range;
}

pub push_lem :
    (addr t data_len : ℕ) (s : Queue) (handed : List QueueEntry)
    → Inv s handed
    → (s' : Queue) × (push addr t data_len s ≡ ok (tt, s')) × Inv s' handed
unfolding push
push_lem addr t data_len s handed v =
    let (a, ty, n) : ℕ × ℕ × ℕ = (u64 addr, u32 t, u32 data_len) in
    elim (Bool-cases (is_new a ty s)) [
      | inl e ↦
          let (q, pushed, h) = push_back-Holds no_entry s.q v.items (entry a ty n s) v.holds in
          (
            _,
            push_new a ty n s q e pushed,
            push-Inv a ty n s handed q v (omega arith, omega arith) e h,
          )
      | inr e ↦ (s, push_old a ty n s e, v)
    ]

pub make_queue-Inv : Inv make_queue []
unfolding make_queue
make_queue-Inv = record {
  items = [];
  holds = make_fifo-Holds no_entry;
  once = tt;
  all_seen = tt;
  in_range = tt;
}

module _ {handed : List QueueEntry} where
  -- The methods that the machine calls.
  pub push-Keeps : (addr t data_len : ℕ) → Keeps (λ s. Inv s handed) (push addr t data_len)
  push-Keeps addr t data_len = record {
    at = λ s v. let (s', ran, v') = push_lem addr t data_len s handed v in rw ran v';
  }

  pub should_record-Keeps : (addr t : ℕ) → Keeps (λ s. Inv s handed) (should_record addr t)
  should_record-Keeps addr t = record {
    at = λ s v. elim (Bool-cases (is_new addr t s)) [
      | inl e ↦ rw (record_new addr t s e) (mark-Inv addr t s handed v)
      | inr e ↦ rw (record_old addr t s e) v
    ];
  }

popped :
    (s : Queue) (handed items : List QueueEntry)
    → Holds s.q items
    → Once (handed ++ items)
    → AllSeen s.seen (handed ++ items)
    → All InRange (handed ++ items)
    → Returns (λ r s'. Inv s' (handed ++ entries_of r)) (pop s)
popped s handed [] h once seen range = rw (pop_empty s h) (
    rw (append-nil handed)
      (record { items = []; holds = h; once = once; all_seen = seen; in_range = range }))
popped s handed (x ∷ es) h once seen range =
    let (q, ran, left) = pop_front s x es h in rw ran (pop-Inv s handed x es q left once seen range)

pub pop_result :
    (s : Queue) (handed : List QueueEntry)
    → Inv s handed
    → Returns (λ r s'. Inv s' (handed ++ entries_of r)) (pop s)
pop_result s handed v = popped s handed v.items v.holds v.once v.all_seen v.in_range

-- A well-formed queue, whatever it has handed out.
pub record Valid (s : Queue) : Type 0 where
  pub handed : List QueueEntry
  pub inv : Inv s handed

pop_handed :
    (handed : List QueueEntry) (r : Result (Option QueueEntry × Queue))
    → Returns (λ e s'. Inv s' (handed ++ entries_of e)) r
    → Returns (λ e s'. Valid s') r
pop_handed handed (ok (e, s)) v = record { handed = handed ++ entries_of e; inv = v }
pop_handed handed (trap t) v = tt

pub pop-Keeps : Keeps Valid pop
pop-Keeps = record { at = λ s v. pop_handed v.handed (pop s) (pop_result s v.handed v.inv) }
