-- ===== src/Machine/Control.antt =====
-- The operations of `stackMachine.Run` that move the program counter or work on the stack alone.
-- Each includes the decoding of its operands.
use side_eye_go.Prelude.{ℕ, ◌/◌, Bool, true, false, Option, some, none, ◌==◌, ltb}
use side_eye_go.Prelude.{if◌then◌else◌, length, add32, sub32, panic}
use side_eye_go.Prelude.{M, pure, stop, get, modify, choose, ◌>>=◌, ◌>>◌}
use side_eye_go.Memory.{Process}
use side_eye_go.OutBuf.Framed.{get_entry_len}
use side_eye_go.OpDecoder.Decode.{set_pc, decode_call, decode_cond_jump, decode_jump}
use side_eye_go.OpDecoder.Decode.{decode_push_imm, decode_push_slice_len, decode_advance_offset}
use side_eye_go.Resolver.{read_word}
use side_eye_go.Machine.State.{Machine, Outcome, next, returned, on_buf, on_decoder, top}
use side_eye_go.Machine.State.{push_value, pop_value, set_top, set_offset_to}

-- `if !s.decoder.SetPC(pc) { return false }`.
unfoldable pub goto : ℕ → M Machine Outcome
goto pc = do moved ← on_decoder (set_pc pc); pure (if moved then next else returned false)

-- `none` is the nil of the source: the machine goes on.
unfoldable pub execute_return : M Machine (Option Bool)
execute_return = do
  s ← get
  choose (length s.stack == 0) (pure (some true)) (do
    pc ← top
    moved ← on_decoder (set_pc pc)
    choose moved (do set_top 0; pop_value; pure none) (pure (some false)))

abbrev pub outcome : Option Bool → Outcome
outcome none = next
outcome (some b) = returned b

unfoldable pub op_call : M Machine Outcome
op_call = do call ← on_decoder decode_call; s ← get; push_value s.decoder.pc; goto call.pc

unfoldable pub op_cond_jump : M Machine Outcome
op_cond_jump = do
  cond_jump ← on_decoder decode_cond_jump
  v ← top
  choose (v == 0) (pure next) (goto cond_jump.pc)

unfoldable pub op_decrement : M Machine Outcome
op_decrement = do v ← top; set_top (sub32 v 1); pure next

unfoldable pub op_jump : M Machine Outcome
op_jump = do jump ← on_decoder decode_jump; goto jump.pc

unfoldable pub op_pop : M Machine Outcome
op_pop = do pop_value; pure next

unfoldable pub op_push_imm : M Machine Outcome
op_push_imm = do push_imm ← on_decoder decode_push_imm; push_value push_imm.value; pure next

unfoldable pub op_push_offset : M Machine Outcome
op_push_offset = do s ← get; push_value s.offset; pure next

-- A division by zero panics.
unfoldable pub op_push_slice_len : M Machine Outcome
op_push_slice_len = do
  push_slice_len ← on_decoder decode_push_slice_len
  s ← get
  entry_len ← on_buf (get_entry_len s.offset)
  choose (push_slice_len.elem_byte_len == 0) (stop panic)
      (do push_value (entry_len / push_slice_len.elem_byte_len); pure next)

unfoldable pub op_return : M Machine Outcome
op_return = do r ← execute_return; pure (outcome r)

unfoldable pub op_set_offset : M Machine Outcome
op_set_offset = do v ← top; modify (set_offset_to v); pure next

unfoldable pub op_advance_offset : M Machine Outcome
op_advance_offset = do
  advance_offset ← on_decoder decode_advance_offset
  modify (λ s. set_offset_to (add32 s.offset advance_offset.increment) s)
  pure next

-- A read at the entry point's value, taken for an address.
unfoldable pub op_illegal : Process → ℕ → M Machine Outcome
op_illegal p entry_pc = do v ← read_word p entry_pc; pure (if ltb 0 v then returned false else next)
