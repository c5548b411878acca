-- ===== src/Machine/State.antt =====
-- The state of `stackMachine` in internal/snapshot/stack_machine.go, and its access to the parts.
use side_eye_go.Prelude.{ℕ, Bool, List, [], ◌∷◌, Option, some, none}
use side_eye_go.Prelude.{M, get, modify, demand, zoom, ◌>>=◌, ◌>>◌}
use side_eye_go.Framing.{QueueEntry}
use side_eye_go.Program.{SnapshotProgram}
use side_eye_go.OutBuf.{OutBuf}
use side_eye_go.OpDecoder.Decode.{OpDecoder, make_op_decoder}
use side_eye_go.Queue.{Queue, no_entry}
use side_eye_go.Resolver.{GoRuntimeTypeResolver}

pub data ExprType : Type 0 where
  frame pointer : ExprType

-- `stack` has its top first. `b`, `q` and `g` stand behind pointers in the source, and are part of
-- the machine's state here. `frame_header` is an offset into the buffer.
pub record Machine : Type 0 where
  pub stack : List ℕ
  pub offset : ℕ
  pub cfa : ℕ
  pub decoder : OpDecoder
  pub frame_header : Option ℕ
  pub expr_results_offset : ℕ
  pub expr_results_end_offset : ℕ
  pub expr_type : ExprType
  pub root_addr : ℕ
  pub chased_entry : QueueEntry
  pub go_context_offset : ℕ
  pub go_context_capture_bitmask : ℕ
  pub bss_addr_shift : Option ℕ
  pub q : Queue
  pub b : OutBuf
  pub g : GoRuntimeTypeResolver

unfoldable pub new_machine : SnapshotProgram → Queue → OutBuf → GoRuntimeTypeResolver → Machine
unfolding make_op_decoder
new_machine p q b g = record {
  stack = [];
  offset = 0;
  cfa = 0;
  decoder = make_op_decoder p.prog;
  frame_header = none;
  expr_results_offset = 0;
  expr_results_end_offset = 0;
  expr_type = frame;
  root_addr = 0;
  chased_entry = no_entry;
  go_context_offset = 0;
  go_context_capture_bitmask = 0;
  bss_addr_shift = none;
  q = q;
  b = b;
  g = g;
}

-- What the loop of `Run` does after an operation: go on, or return.
pub data Outcome : Type 0 where
  next : Outcome
  returned : Bool → Outcome

unfoldable pub on_buf : {A : Type 0} → M OutBuf A → M Machine A
unfolding zoom
on_buf m = zoom (λ s. s.b) (λ s b. record s { b = b }) m

unfoldable pub on_queue : {A : Type 0} → M Queue A → M Machine A
unfolding zoom
on_queue m = zoom (λ s. s.q) (λ s q. record s { q = q }) m

unfoldable pub on_decoder : {A : Type 0} → M OpDecoder A → M Machine A
unfolding zoom
on_decoder m = zoom (λ s. s.decoder) (λ s d. record s { decoder = d }) m

unfoldable pub on_resolver : {A : Type 0} → M GoRuntimeTypeResolver A → M Machine A
unfolding zoom
on_resolver m = zoom (λ s. s.g) (λ s g. record s { g = g }) m

unfoldable pub top? : List ℕ → Option ℕ
top? [] = none
top? (v ∷ st) = some v

unfoldable pub below : List ℕ → List ℕ
below [] = []
below (v ∷ st) = st

-- `s.stack[len(s.stack)-1]`, which panics at an empty stack.
unfoldable pub top : M Machine ℕ
unfolding top?
top = do s ← get; demand (top? s.stack)

unfoldable pub push_value : ℕ → M Machine (Unit {0})
push_value v = modify (λ s. record s { stack = v ∷ s.stack })

-- `s.stack = s.stack[:len(s.stack)-1]`, which panics at an empty stack too.
unfoldable pub pop_value : M Machine (Unit {0})
unfolding top below
pop_value = do v ← top; modify (λ s. record s { stack = below s.stack })

-- `s.stack[len(s.stack)-1] = v`.
unfoldable pub set_top : ℕ → M Machine (Unit {0})
unfolding pop_value push_value
set_top v = do pop_value; push_value v

unfoldable pub set_offset_to : ℕ → Machine → Machine
set_offset_to v s = record s { offset = v }
