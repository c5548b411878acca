-- ===== src/Machine/Run.antt =====
-- `stackMachine.Run`: the dispatch on the operation codes, and the loop.
use side_eye_go.Prelude.{ℕ, zero, suc, Bool, false}
use side_eye_go.Prelude.{M, pure, modify, choose, ◌>>=◌, ◌>>◌}
use side_eye_go.Memory.{Process}
use side_eye_go.Program.{SnapshotProgram}
use side_eye_go.OpDecoder.OpCode.{OpCode}
use side_eye_go.OpDecoder.Decode.{set_pc, pop_op_code}
use side_eye_go.Machine.State.{Machine, Outcome, next, returned, on_decoder}
use side_eye_go.Machine.Control.{op_call, op_cond_jump, op_decrement, op_jump, op_pop, op_push_imm}
use side_eye_go.Machine.Control.{op_push_offset, op_push_slice_len, op_return, op_set_offset}
use side_eye_go.Machine.Control.{op_advance_offset, op_illegal}
use side_eye_go.Machine.Enqueue.{op_enqueue_empty_interface, op_enqueue_interface}
use side_eye_go.Machine.Enqueue.{op_enqueue_subroutine, op_enqueue_pointer, op_enqueue_slice_header}
use side_eye_go.Machine.Enqueue.{op_enqueue_string_header, op_enqueue_hmap_header}
use side_eye_go.Machine.Enqueue.{op_enqueue_swiss_map, op_enqueue_swiss_map_groups}
use side_eye_go.Machine.Data.{op_copy_from_register, op_prepare_expr_eval, op_save_expr_result}
use side_eye_go.Machine.Data.{op_zero_fill, op_set_presence_bit, op_prepare_pointee_data}
use side_eye_go.Machine.Data.{op_prepare_frame_data, op_conclude_frame_data, op_dereference_ptr}
use side_eye_go.Machine.Data.{op_dereference_cfa_offset}
use side_eye_go.Machine.Context.{op_prepare_go_context}

-- What the operations read and no operation changes: the process, the program, the rounds that the
-- model gives to a walk along a chain of contexts, and two arguments of `Run`.
pub record Env : Type 0 where
  pub process : Process
  pub program : SnapshotProgram
  pub context_fuel : ℕ
  pub entry_pc : ℕ
  pub depth : ℕ

abbrev pub max_steps : ℕ
max_steps = 100000

-- The end of an iteration: the rest of the loop, or its result.
unfoldable pub go_on : Outcome → M Machine Bool → M Machine Bool
go_on next rest = rest
go_on (returned ok) rest = pure ok

module _ (env : Env) where
  open env use {process, program, context_fuel, entry_pc, depth}

  unfoldable pub execute : OpCode → M Machine Outcome
  execute OpCode.invalid = pure (returned false)
  execute OpCode.call = op_call
  execute OpCode.cond_jump = op_cond_jump
  execute OpCode.decrement = op_decrement
  execute OpCode.enqueue_empty_interface = op_enqueue_empty_interface process program
  execute OpCode.enqueue_interface = op_enqueue_interface process program
  execute OpCode.enqueue_pointer = op_enqueue_pointer
  execute OpCode.enqueue_slice_header = op_enqueue_slice_header
  execute OpCode.enqueue_string_header = op_enqueue_string_header
  execute OpCode.enqueue_hmap_header = op_enqueue_hmap_header
  execute OpCode.enqueue_swiss_map = op_enqueue_swiss_map
  execute OpCode.enqueue_swiss_map_groups = op_enqueue_swiss_map_groups
  execute OpCode.enqueue_subroutine = op_enqueue_subroutine process program
  execute OpCode.jump = op_jump
  execute OpCode.pop = op_pop
  execute OpCode.push_imm = op_push_imm
  execute OpCode.push_offset = op_push_offset
  execute OpCode.push_slice_len = op_push_slice_len
  execute OpCode.return = op_return
  execute OpCode.set_offset = op_set_offset
  execute OpCode.advance_offset = op_advance_offset
  execute OpCode.dereference_cfa_offset = op_dereference_cfa_offset process
  execute OpCode.copy_from_register = op_copy_from_register
  execute OpCode.prepare_expr_eval = op_prepare_expr_eval
  execute OpCode.save_expr_result = op_save_expr_result
  execute OpCode.dereference_ptr = op_dereference_ptr process
  execute OpCode.zero_fill = op_zero_fill
  execute OpCode.set_presence_bit = op_set_presence_bit
  execute OpCode.prepare_pointee_data = op_prepare_pointee_data
  execute OpCode.prepare_frame_data = op_prepare_frame_data depth
  execute OpCode.conclude_frame_data = op_conclude_frame_data
  execute OpCode.prepare_go_context = op_prepare_go_context process program context_fuel
  execute OpCode.illegal = op_illegal process entry_pc
  execute _ = pure next

  unfoldable pub step : M Machine Outcome
  step = do op ← on_decoder pop_op_code; execute op

  -- The loop with `n` rounds left.
  unfoldable pub run_loop : ℕ → M Machine Bool
  run_loop zero = pure false
  run_loop (suc n) = do r ← step; go_on r (run_loop n)

  -- `Run(pc, cfa, depth, offset)`; `pc` and `depth` are in `env`.
  unfoldable pub run : ℕ → ℕ → M Machine Bool
  run cfa offset = do
    moved ← on_decoder (set_pc entry_pc)
    choose moved (do modify (λ s. record s { cfa = cfa; offset = offset }); run_loop max_steps)
        (pure false)
