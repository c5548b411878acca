-- ===== src/Machine/Data.antt =====
-- The operations of `stackMachine.Run` that write frames, pointees and expression results.
use side_eye_go.Prelude.{ℕ, ◌+◌, ◌-◌, ◌/◌, ◌%◌, ◌^◌, Bool, false, ltb, ◌==◌}
use side_eye_go.Prelude.{if◌then◌else◌, add32, add64, bit_or}
use side_eye_go.Prelude.{M, pure, get, modify, choose, ◌>>=◌, ◌>>◌}
use side_eye_go.Memory.{Process}
use side_eye_go.OutBuf
use side_eye_go.OutBuf.{load, store, zero_range, copy, ensure_len, truncate, dereference}
use side_eye_go.OutBuf.Framed.{write_queue_entry, reserve_queue_entry, prepare_frame_data}
use side_eye_go.OutBuf.Framed.{conclude_frame_data}
use side_eye_go.OpDecoder.Decode.{decode_dereference_cfa_offset, decode_copy_from_register}
use side_eye_go.OpDecoder.Decode.{decode_save_expr_result, decode_dereference_ptr, decode_zero_fill}
use side_eye_go.OpDecoder.Decode.{decode_set_presence_bit, decode_prepare_frame_data}
use side_eye_go.Machine.State.{Machine, Outcome, next, returned, ExprType, frame, pointer}
use side_eye_go.Machine.State.{on_buf, on_decoder, set_offset_to}
use side_eye_go.Machine.Control.{execute_return, outcome}
use side_eye_go.Machine.Enqueue.{word_behind, set_word}

-- The conversion of an int32 to a uintptr extends the sign.
abbrev pub sign_extend : ℕ → ℕ
sign_extend w = if ltb w (2 ^ 31) then w else w + (2 ^ 64 - 2 ^ 32)

unfoldable pub op_copy_from_register : M Machine Outcome
op_copy_from_register = do
  op ← on_decoder decode_copy_from_register
  s ← get
  room ← on_buf (ensure_len (add32 s.offset op.byte_size))
  choose room (do on_buf (zero_range s.offset op.byte_size); pure next) (pure (returned false))

-- A pointer's root address is written at the end of the buffer, without a test for room.
unfoldable pub write_root : ExprType → M Machine (Unit {0})
write_root frame = pure tt
write_root pointer = do s ← get; set_word s.root_addr

unfoldable pub op_prepare_expr_eval : M Machine Outcome
unfolding write_root
op_prepare_expr_eval = do
  modify (λ s. record s { expr_results_end_offset = OutBuf.len_of s.b; offset = OutBuf.len_of s.b })
  s ← get
  write_root s.expr_type
  pure next

unfoldable pub op_save_expr_result : M Machine Outcome
op_save_expr_result = do
  op ← on_decoder decode_save_expr_result
  s ← get
  let target = add32 s.expr_results_offset op.result_offset
  on_buf (copy s.offset target op.byte_len)
  modify (set_offset_to target)
  on_buf (truncate s.expr_results_end_offset)
  pure next

unfoldable pub op_zero_fill : M Machine Outcome
op_zero_fill = do
  op ← on_decoder decode_zero_fill
  s ← get
  on_buf (zero_range s.offset op.byte_len)
  pure next

unfoldable pub op_set_presence_bit : M Machine Outcome
op_set_presence_bit = do
  op ← on_decoder decode_set_presence_bit
  s ← get
  let at = add32 s.expr_results_offset (op.bit_offset / 8)
  bits ← on_buf (load 1 at)
  on_buf (store 1 at (bit_or bits (2 ^ (op.bit_offset % 8))))
  pure next

unfoldable pub op_prepare_pointee_data : M Machine Outcome
op_prepare_pointee_data = do
  s ← get
  (offset, room) ← on_buf (reserve_queue_entry s.chased_entry)
  choose room
      (do
        modify (λ s. record s {
          expr_type = pointer;
          expr_results_offset = offset;
          root_addr = s.chased_entry.addr;
          offset = offset;
        })
        on_buf (zero_range offset s.chased_entry.len)
        pure next)
      (pure (returned false))

unfoldable pub op_prepare_frame_data : ℕ → M Machine Outcome
op_prepare_frame_data depth = do
  op ← on_decoder decode_prepare_frame_data
  (header, offset, room) ← on_buf (prepare_frame_data op.type_id op.prog_id op.data_byte_len depth)
  choose room
      (do
        modify (λ s. record s {
          frame_header = header;
          expr_type = frame;
          expr_results_offset = offset;
          offset = offset;
        })
        pure next)
      (pure (returned false))

unfoldable pub op_conclude_frame_data : M Machine Outcome
op_conclude_frame_data = do s ← get; on_buf (conclude_frame_data s.frame_header); pure next

module _ (p : Process) where
  unfoldable pub op_dereference_cfa_offset : M Machine Outcome
  op_dereference_cfa_offset = do
    op ← on_decoder decode_dereference_cfa_offset
    s ← get
    let src_addr = add64 (add64 s.cfa (sign_extend op.offset)) op.pointer_bias
    room ← on_buf (ensure_len (add32 s.offset op.byte_len))
    choose room (do done ← on_buf (dereference p s.offset src_addr op.byte_len); pure next)
        (pure (returned false))

  -- A nil pointer has no entry.
  unfoldable pub pointee_entry : ℕ → ℕ → M Machine (ℕ × Bool)
  pointee_entry addr byte_len =
      choose (addr == 0) (pure (0, false))
        (on_buf (write_queue_entry p (record { type_id = 0; len = byte_len; addr = addr })))

  unfoldable pub op_dereference_ptr : M Machine Outcome
  op_dereference_ptr = do
    op ← on_decoder decode_dereference_ptr
    v ← word_behind 0
    (offset, done) ← pointee_entry (add64 v op.bias) op.byte_len
    choose done (do modify (set_offset_to offset); pure next)
        (do
          s ← get
          on_buf (truncate s.expr_results_end_offset)
          r ← execute_return
          pure (outcome r))
