-- ===== src/Tests/Queues.antt =====
-- internal/fifo and internal/snapshot/queue.go on a few entries.
use side_eye_go.Prelude.{ℕ, ◌≡◌, List, [], ◌∷◌, ◌++◌, ok}
use side_eye_go.Framing.{QueueEntry}
use side_eye_go.Fifo.{Fifo, make_fifo, push_back, pop_front}
use side_eye_go.Fifo.Holds.{Holds, make_fifo-Holds}
use side_eye_go.Fifo.PushBack.{push_back-Holds}
use side_eye_go.Fifo.PopFront.{pop_front-Holds}
use side_eye_go.Queue.{Queue, make_queue}
use side_eye_go.Queue.Calls.{Call, push_call, pop_call, calls, Once}
use side_eye_go.Queue.Once.{calls-Once}

push_back-Holds_example :
    (q : Fifo ℕ) × (push_back 0 7 (make_fifo 0) ≡ ok (tt, q)) × Holds q ([] ++ (7 ∷ []))
push_back-Holds_example = push_back-Holds 0 (make_fifo 0) [] 7 (make_fifo-Holds 0)

abbrev one_more : Fifo ℕ
one_more = (push_back-Holds 0 (make_fifo 0) [] 7 (make_fifo-Holds 0)).0

one_more-Holds : Holds one_more (7 ∷ [])
one_more-Holds = (push_back-Holds 0 (make_fifo 0) [] 7 (make_fifo-Holds 0)).2

pop_front-Holds_example : (q : Fifo ℕ) × (pop_front 0 one_more ≡ ok (tt, q)) × Holds q []
pop_front-Holds_example = pop_front-Holds 0 one_more 7 [] one_more-Holds

-- Two pushes of one key, and a push of another.
abbrev some_calls : List Call
some_calls =
    push_call 4096 3 8
    ∷ push_call 4096 3 8
    ∷ pop_call
    ∷ push_call 4096 4 8
    ∷ push_call 0 4 8
    ∷ pop_call
    ∷ pop_call
    ∷ []

calls-Once_example :
    (es : List QueueEntry) × (s : Queue) × (calls some_calls make_queue ≡ ok (es, s)) × Once es
calls-Once_example = calls-Once some_calls
