-- ===== src/OpDecoder/RoundTrip/Data.antt =====
-- The other Decode methods.
use side_eye_go.Prelude.{◌+◌, ◌≡◌, arith}
use side_eye_go.Prelude.{ok, ◌>>=◌}
use side_eye_go.OpDecoder.Ops.{
  OpJump, OpPushImm, OpPushSliceLen, OpAdvanceOffset, OpDereferenceCfaOffset, OpCopyFromRegister,
  OpSaveExprResult, OpDereferencePtr, OpZeroFill, OpSetPresenceBit, OpPrepareFrameData,
  OpPrepareGoContext,
}
use side_eye_go.OpDecoder.Decode.{
  OpDecoder, advance, decode_jump, decode_push_imm, decode_push_slice_len, decode_advance_offset,
  decode_dereference_cfa_offset, decode_copy_from_register, decode_save_expr_result,
  decode_dereference_ptr, decode_zero_fill, decode_set_presence_bit, decode_prepare_frame_data,
  decode_prepare_go_context,
}
use side_eye_go.OpDecoder.Encoding.{Operands, Fits}
use side_eye_go.OpDecoder.RoundTrip.Readers.{
  uint32_at_holds, uint16_at_holds, byte_at_holds, first_two, first_four, At,
}

module _ (d : OpDecoder) where
  pub decode_jump-encode :
      (o : OpJump)
      → Fits (Operands.jump o)
      → At d (Operands.jump o)
      → decode_jump d ≡ ok (o, record d { pc = d.pc + 4 })
  unfolding decode_jump advance ◌>>=◌
  decode_jump-encode o f b =
      rw (uint32_at_holds d 0 o.pc (omega arith) f (first_four b.0), decode_jump, ◌>>=◌)
        (ground arith)

  pub decode_push_imm-encode :
      (o : OpPushImm)
      → Fits (Operands.push_imm o)
      → At d (Operands.push_imm o)
      → decode_push_imm d ≡ ok (o, record d { pc = d.pc + 4 })
  unfolding decode_push_imm advance ◌>>=◌
  decode_push_imm-encode o f b =
      rw (uint32_at_holds d 0 o.value (omega arith) f (first_four b.0), decode_push_imm, ◌>>=◌)
        (ground arith)

  pub decode_push_slice_len-encode :
      (o : OpPushSliceLen)
      → Fits (Operands.push_slice_len o)
      → At d (Operands.push_slice_len o)
      → decode_push_slice_len d ≡ ok (o, record d { pc = d.pc + 4 })
  unfolding decode_push_slice_len advance ◌>>=◌
  decode_push_slice_len-encode o f b =
      rw
        (
          uint32_at_holds d 0 o.elem_byte_len (omega arith) f (first_four b.0),
          decode_push_slice_len,
          ◌>>=◌,
        )
        (ground arith)

  pub decode_advance_offset-encode :
      (o : OpAdvanceOffset)
      → Fits (Operands.advance_offset o)
      → At d (Operands.advance_offset o)
      → decode_advance_offset d ≡ ok (o, record d { pc = d.pc + 4 })
  unfolding decode_advance_offset advance ◌>>=◌
  decode_advance_offset-encode o f b =
      rw
        (
          uint32_at_holds d 0 o.increment (omega arith) f (first_four b.0),
          decode_advance_offset,
          ◌>>=◌,
        )
        (ground arith)

  pub decode_dereference_cfa_offset-encode :
      (o : OpDereferenceCfaOffset)
      → Fits (Operands.dereference_cfa_offset o)
      → At d (Operands.dereference_cfa_offset o)
      → decode_dereference_cfa_offset d ≡ ok (o, record d { pc = d.pc + 12 })
  unfolding decode_dereference_cfa_offset advance ◌>>=◌
  decode_dereference_cfa_offset-encode o f b =
      rw
        (
          uint32_at_holds d 0 o.offset (omega arith) f.0 (first_four b.0),
          uint32_at_holds d 4 o.byte_len (omega arith) f.1 (first_four b.0.1.1.1.1),
          uint32_at_holds d 8 o.pointer_bias (omega arith) f.2 (first_four b.0.1.1.1.1.1.1.1.1),
          decode_dereference_cfa_offset,
          ◌>>=◌,
        )
        (ground arith)

  pub decode_copy_from_register-encode :
      (o : OpCopyFromRegister)
      → Fits (Operands.copy_from_register o)
      → At d (Operands.copy_from_register o)
      → decode_copy_from_register d ≡ ok (o, record d { pc = d.pc + 3 })
  unfolding decode_copy_from_register advance ◌>>=◌
  decode_copy_from_register-encode o f b =
      rw
        (
          uint16_at_holds d 0 o.register (omega arith) f.0 (first_two b.0),
          byte_at_holds d 2 o.byte_size (omega arith) (b.0.1.1.0, tt),
          decode_copy_from_register,
          ◌>>=◌,
        )
        (ground arith)

  pub decode_save_expr_result-encode :
      (o : OpSaveExprResult)
      → Fits (Operands.save_expr_result o)
      → At d (Operands.save_expr_result o)
      → decode_save_expr_result d ≡ ok (o, record d { pc = d.pc + 8 })
  unfolding decode_save_expr_result advance ◌>>=◌
  decode_save_expr_result-encode o f b =
      rw
        (
          uint32_at_holds d 0 o.result_offset (omega arith) f.0 (first_four b.0),
          uint32_at_holds d 4 o.byte_len (omega arith) f.1 (first_four b.0.1.1.1.1),
          decode_save_expr_result,
          ◌>>=◌,
        )
        (ground arith)

  pub decode_dereference_ptr-encode :
      (o : OpDereferencePtr)
      → Fits (Operands.dereference_ptr o)
      → At d (Operands.dereference_ptr o)
      → decode_dereference_ptr d ≡ ok (o, record d { pc = d.pc + 8 })
  unfolding decode_dereference_ptr advance ◌>>=◌
  decode_dereference_ptr-encode o f b =
      rw
        (
          uint32_at_holds d 0 o.bias (omega arith) f.0 (first_four b.0),
          uint32_at_holds d 4 o.byte_len (omega arith) f.1 (first_four b.0.1.1.1.1),
          decode_dereference_ptr,
          ◌>>=◌,
        )
        (ground arith)

  pub decode_zero_fill-encode :
      (o : OpZeroFill)
      → Fits (Operands.zero_fill o)
      → At d (Operands.zero_fill o)
      → decode_zero_fill d ≡ ok (o, record d { pc = d.pc + 4 })
  unfolding decode_zero_fill advance ◌>>=◌
  decode_zero_fill-encode o f b =
      rw (uint32_at_holds d 0 o.byte_len (omega arith) f (first_four b.0), decode_zero_fill, ◌>>=◌)
        (ground arith)

  pub decode_set_presence_bit-encode :
      (o : OpSetPresenceBit)
      → Fits (Operands.set_presence_bit o)
      → At d (Operands.set_presence_bit o)
      → decode_set_presence_bit d ≡ ok (o, record d { pc = d.pc + 4 })
  unfolding decode_set_presence_bit advance ◌>>=◌
  decode_set_presence_bit-encode o f b =
      rw
        (
          uint32_at_holds d 0 o.bit_offset (omega arith) f (first_four b.0),
          decode_set_presence_bit,
          ◌>>=◌,
        )
        (ground arith)

  pub decode_prepare_frame_data-encode :
      (o : OpPrepareFrameData)
      → Fits (Operands.prepare_frame_data o)
      → At d (Operands.prepare_frame_data o)
      → decode_prepare_frame_data d ≡ ok (o, record d { pc = d.pc + 12 })
  unfolding decode_prepare_frame_data advance ◌>>=◌
  decode_prepare_frame_data-encode o f b =
      rw
        (
          uint32_at_holds d 0 o.prog_id (omega arith) f.0 (first_four b.0),
          uint32_at_holds d 4 o.data_byte_len (omega arith) f.1 (first_four b.0.1.1.1.1),
          uint32_at_holds d 8 o.type_id (omega arith) f.2 (first_four b.0.1.1.1.1.1.1.1.1),
          decode_prepare_frame_data,
          ◌>>=◌,
        )
        (ground arith)

  pub decode_prepare_go_context-encode :
      (o : OpPrepareGoContext)
      → Fits (Operands.prepare_go_context o)
      → At d (Operands.prepare_go_context o)
      → decode_prepare_go_context d ≡ ok (o, record d { pc = d.pc + 9 })
  unfolding decode_prepare_go_context advance ◌>>=◌
  decode_prepare_go_context-encode o f b =
      rw
        (
          uint32_at_holds d 0 o.data_byte_len (omega arith) f.0 (first_four b.0),
          uint32_at_holds d 4 o.type_id (omega arith) f.1 (first_four b.0.1.1.1.1),
          byte_at_holds d 8 o.capture_count (omega arith) (b.0.1.1.1.1.1.1.1.1.0, tt),
          decode_prepare_go_context,
          ◌>>=◌,
        )
        (ground arith)
