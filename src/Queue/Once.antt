-- ===== src/Queue/Once.antt =====
-- The keys and the entries that the queue of internal/snapshot/queue.go hands out.
use side_eye_go.Prelude.{
  ◌≡◌, refl, ◌∙◌, List, [], ◌∷◌, ◌++◌, ok, pure, inl, inr, Bool-cases, >>=_ok, All,
}
use mathlib.Core.List.{append_assoc, append-nil}
use side_eye_go.Framing.{QueueEntry}
use side_eye_go.Fifo.Holds.{Holds}
use side_eye_go.Queue.{Queue, make_queue}
use side_eye_go.Queue.Steps.{is_new, mark, record_new, record_old, pop_empty, pop_front}
use side_eye_go.Queue.Calls.{
  Call, push_call, record_call, pop_call, call, calls, Once, Once-front, AllSeen, InRange,
}
use side_eye_go.Queue.Inv.{Inv, mark-Inv, pop-Inv, push_lem, make_queue-Inv}

-- A call returns, and what it hands out goes behind what was handed out before.
abbrev Called : Call → Queue → List QueueEntry → Type 0
Called c s handed =
    (es : List QueueEntry) × (s' : Queue) × (call c s ≡ ok (es, s')) × Inv s' (handed ++ es)

pop_lem :
    (s : Queue) (handed items : List QueueEntry)
    → Holds s.q items
    → Once (handed ++ items)
    → AllSeen s.seen (handed ++ items)
    → All InRange (handed ++ items)
    → Called pop_call s handed
unfolding call pure
pop_lem s handed [] h once seen range = (
  [],
  s,
  >>=_ok _ _ (pop_empty s h),
  rw (append-nil handed)
      (record { items = []; holds = h; once = once; all_seen = seen; in_range = range }),
)
pop_lem s handed (x ∷ es) h once seen range =
    let (q, ran, left) = pop_front s x es h in
    (x ∷ [], _, >>=_ok _ _ ran, pop-Inv s handed x es q left once seen range)

call_lem : (c : Call) (s : Queue) (handed : List QueueEntry) → Inv s handed → Called c s handed
unfolding call pure
call_lem (push_call addr t data_len) s handed v =
    let (s', ran, v') = push_lem addr t data_len s handed v in
    ([], s', >>=_ok _ _ ran, rw (append-nil handed) v')
call_lem (record_call addr t) s handed v = elim (Bool-cases (is_new addr t s)) [
  | inl e ↦ (
    [],
    mark addr t s,
    >>=_ok _ _ (record_new addr t s e),
    rw (append-nil handed) (mark-Inv addr t s handed v),
  )
  | inr e ↦ ([], s, >>=_ok _ _ (record_old addr t s e), rw (append-nil handed) v)
]
call_lem pop_call s handed v = pop_lem s handed v.items v.holds v.once v.all_seen v.in_range

calls_lem :
    (cs : List Call) (s : Queue) (handed : List QueueEntry)
    → Inv s handed
    → (es : List QueueEntry) × (s' : Queue) × (calls cs s ≡ ok (es, s')) × Inv s' (handed ++ es)
unfolding calls pure
calls_lem [] s handed v = ([], s, refl, rw (append-nil handed) v)
calls_lem (c ∷ cs) s handed v =
    let (es, s1, ran, v1) = call_lem c s handed v in
    let (es', s2, ran', v2) = calls_lem cs s1 (handed ++ es) v1 in
    (es ++ es', s2, >>=_ok _ _ ran ∙ >>=_ok _ _ ran', rw⁻¹ (append_assoc handed es es') v2)

-- Any sequence of calls on a new queue returns without a panic, and hands out no entry with the
-- address nil and no two entries with the same address and type.
pub calls-Once :
    (cs : List Call)
    → (es : List QueueEntry) × (s : Queue) × (calls cs make_queue ≡ ok (es, s)) × Once es
calls-Once cs =
    let (es, s, ran, v) = calls_lem cs make_queue [] make_queue-Inv in
    (es, s, ran, Once-front es v.items v.once)
