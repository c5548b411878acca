-- ===== src/OpDecoder/RoundTrip.antt =====
-- The Decode methods read back what the wire format writes.
pub mod Readers
pub mod Enqueue
pub mod Data
use side_eye_go.Prelude.{ℕ, ◌+◌, ◌^◌, ◌<◌, ◌≡◌, arith, [], ◌∷◌, length}
use side_eye_go.Prelude.{IsU32, bytes16, bytes32, ok, ◌>>=◌}
use side_eye_go.OpDecoder.OpCode.{OpCode}
use side_eye_go.OpDecoder.Ops.{
  OpCall, OpCondJump, OpEnqueuePointer, OpEnqueueSliceHeader, OpEnqueueStringHeader,
  OpEnqueueHMapHeader, OpEnqueueSwissMap, OpEnqueueSwissMapGroups, OpJump, OpPushImm,
  OpPushSliceLen, OpAdvanceOffset, OpDereferenceCfaOffset, OpCopyFromRegister, OpSaveExprResult,
  OpDereferencePtr, OpZeroFill, OpSetPresenceBit, OpPrepareFrameData, OpPrepareGoContext,
}
use side_eye_go.OpDecoder.Decode.{
  OpDecoder, byte_at, uint16_at, uint32_at, advance, decode_call, decode_cond_jump,
  decode_enqueue_pointer, decode_enqueue_slice_header, decode_enqueue_string_header,
  decode_enqueue_hmap_header, decode_enqueue_swiss_map, decode_enqueue_swiss_map_groups,
  decode_jump, decode_push_imm, decode_push_slice_len, decode_advance_offset,
  decode_dereference_cfa_offset, decode_copy_from_register, decode_save_expr_result,
  decode_dereference_ptr, decode_zero_fill, decode_set_presence_bit, decode_prepare_frame_data,
  decode_prepare_go_context,
}
use side_eye_go.OpDecoder.Encoding.{Operands, decode_operands, encode, Fits, Carries, Holds}
use side_eye_go.OpDecoder.RoundTrip.Readers.{At}
use side_eye_go.OpDecoder.RoundTrip.Enqueue.{
  decode_call-encode, decode_cond_jump-encode, decode_enqueue_pointer-encode,
  decode_enqueue_slice_header-encode, decode_enqueue_string_header-encode,
  decode_enqueue_hmap_header-encode, decode_enqueue_swiss_map-encode,
  decode_enqueue_swiss_map_groups-encode,
}
use side_eye_go.OpDecoder.RoundTrip.Data.{
  decode_jump-encode, decode_push_imm-encode, decode_push_slice_len-encode,
  decode_advance_offset-encode, decode_dereference_cfa_offset-encode,
  decode_copy_from_register-encode, decode_save_expr_result-encode, decode_dereference_ptr-encode,
  decode_zero_fill-encode, decode_set_presence_bit-encode, decode_prepare_frame_data-encode,
  decode_prepare_go_context-encode,
}

-- For every code that carries operands `o`: the Decode methods that `Run` calls for it read `o` back
-- from its bytes, and leave the program counter behind the last of them.
pub decode_operands-encode :
    (code : OpCode) (o : Operands) (d : OpDecoder)
    → Carries code o
    → Fits o
    → At d o
    → decode_operands code d ≡ ok (o, record d { pc = d.pc + length (encode o) })
unfolding decode_operands ◌>>=◌
decode_operands-encode OpCode.call (Operands.call o) d c f b =
    rw (decode_call-encode d o f b, decode_operands, ◌>>=◌)
decode_operands-encode OpCode.call _ d c f b = elim c [ ]
decode_operands-encode OpCode.cond_jump (Operands.cond_jump o) d c f b =
    rw (decode_cond_jump-encode d o f b, decode_operands, ◌>>=◌)
decode_operands-encode OpCode.cond_jump _ d c f b = elim c [ ]
decode_operands-encode OpCode.enqueue_pointer (Operands.enqueue_pointer o) d c f b =
    rw (decode_enqueue_pointer-encode d o f b, decode_operands, ◌>>=◌)
decode_operands-encode OpCode.enqueue_pointer _ d c f b = elim c [ ]
decode_operands-encode OpCode.enqueue_slice_header (Operands.enqueue_slice_header o) d c f b =
    rw (decode_enqueue_slice_header-encode d o f b, decode_operands, ◌>>=◌)
decode_operands-encode OpCode.enqueue_slice_header _ d c f b = elim c [ ]
decode_operands-encode OpCode.enqueue_string_header (Operands.enqueue_string_header o) d c f b =
    rw (decode_enqueue_string_header-encode d o f b, decode_operands, ◌>>=◌)
decode_operands-encode OpCode.enqueue_string_header _ d c f b = elim c [ ]
decode_operands-encode OpCode.enqueue_hmap_header (Operands.enqueue_hmap_header o) d c f b =
    rw (decode_enqueue_hmap_header-encode d o f b, decode_operands, ◌>>=◌)
decode_operands-encode OpCode.enqueue_hmap_header _ d c f b = elim c [ ]
decode_operands-encode OpCode.enqueue_swiss_map (Operands.enqueue_swiss_map o) d c f b =
    rw (decode_enqueue_swiss_map-encode d o f b, decode_operands, ◌>>=◌)
decode_operands-encode OpCode.enqueue_swiss_map _ d c f b = elim c [ ]
decode_operands-encode OpCode.enqueue_swiss_map_groups (Operands.enqueue_swiss_map_groups o) d c f
      b =
    rw (decode_enqueue_swiss_map_groups-encode d o f b, decode_operands, ◌>>=◌)
decode_operands-encode OpCode.enqueue_swiss_map_groups _ d c f b = elim c [ ]
decode_operands-encode OpCode.jump (Operands.jump o) d c f b =
    rw (decode_jump-encode d o f b, decode_operands, ◌>>=◌)
decode_operands-encode OpCode.jump _ d c f b = elim c [ ]
decode_operands-encode OpCode.push_imm (Operands.push_imm o) d c f b =
    rw (decode_push_imm-encode d o f b, decode_operands, ◌>>=◌)
decode_operands-encode OpCode.push_imm _ d c f b = elim c [ ]
decode_operands-encode OpCode.push_slice_len (Operands.push_slice_len o) d c f b =
    rw (decode_push_slice_len-encode d o f b, decode_operands, ◌>>=◌)
decode_operands-encode OpCode.push_slice_len _ d c f b = elim c [ ]
decode_operands-encode OpCode.advance_offset (Operands.advance_offset o) d c f b =
    rw (decode_advance_offset-encode d o f b, decode_operands, ◌>>=◌)
decode_operands-encode OpCode.advance_offset _ d c f b = elim c [ ]
decode_operands-encode OpCode.dereference_cfa_offset (Operands.dereference_cfa_offset o) d c f b =
    rw (decode_dereference_cfa_offset-encode d o f b, decode_operands, ◌>>=◌)
decode_operands-encode OpCode.dereference_cfa_offset _ d c f b = elim c [ ]
decode_operands-encode OpCode.copy_from_register (Operands.copy_from_register o) d c f b =
    rw (decode_copy_from_register-encode d o f b, decode_operands, ◌>>=◌)
decode_operands-encode OpCode.copy_from_register _ d c f b = elim c [ ]
decode_operands-encode OpCode.save_expr_result (Operands.save_expr_result o) d c f b =
    rw (decode_save_expr_result-encode d o f b, decode_operands, ◌>>=◌)
decode_operands-encode OpCode.save_expr_result _ d c f b = elim c [ ]
decode_operands-encode OpCode.dereference_ptr (Operands.dereference_ptr o) d c f b =
    rw (decode_dereference_ptr-encode d o f b, decode_operands, ◌>>=◌)
decode_operands-encode OpCode.dereference_ptr _ d c f b = elim c [ ]
decode_operands-encode OpCode.zero_fill (Operands.zero_fill o) d c f b =
    rw (decode_zero_fill-encode d o f b, decode_operands, ◌>>=◌)
decode_operands-encode OpCode.zero_fill _ d c f b = elim c [ ]
decode_operands-encode OpCode.set_presence_bit (Operands.set_presence_bit o) d c f b =
    rw (decode_set_presence_bit-encode d o f b, decode_operands, ◌>>=◌)
decode_operands-encode OpCode.set_presence_bit _ d c f b = elim c [ ]
decode_operands-encode OpCode.prepare_frame_data (Operands.prepare_frame_data o) d c f b =
    rw (decode_prepare_frame_data-encode d o f b, decode_operands, ◌>>=◌)
decode_operands-encode OpCode.prepare_frame_data _ d c f b = elim c [ ]
decode_operands-encode OpCode.prepare_go_context (Operands.prepare_go_context o) d c f b =
    rw (decode_prepare_go_context-encode d o f b, decode_operands, ◌>>=◌)
decode_operands-encode OpCode.prepare_go_context _ d c f b = elim c [ ]
decode_operands-encode OpCode.invalid Operands.none d c f b = ground arith
decode_operands-encode OpCode.invalid _ d c f b = elim c [ ]
decode_operands-encode OpCode.decrement Operands.none d c f b = ground arith
decode_operands-encode OpCode.decrement _ d c f b = elim c [ ]
decode_operands-encode OpCode.enqueue_empty_interface Operands.none d c f b = ground arith
decode_operands-encode OpCode.enqueue_empty_interface _ d c f b = elim c [ ]
decode_operands-encode OpCode.enqueue_interface Operands.none d c f b = ground arith
decode_operands-encode OpCode.enqueue_interface _ d c f b = elim c [ ]
decode_operands-encode OpCode.pop Operands.none d c f b = ground arith
decode_operands-encode OpCode.pop _ d c f b = elim c [ ]
decode_operands-encode OpCode.push_offset Operands.none d c f b = ground arith
decode_operands-encode OpCode.push_offset _ d c f b = elim c [ ]
decode_operands-encode OpCode.return Operands.none d c f b = ground arith
decode_operands-encode OpCode.return _ d c f b = elim c [ ]
decode_operands-encode OpCode.set_offset Operands.none d c f b = ground arith
decode_operands-encode OpCode.set_offset _ d c f b = elim c [ ]
decode_operands-encode OpCode.illegal Operands.none d c f b = ground arith
decode_operands-encode OpCode.illegal _ d c f b = elim c [ ]
decode_operands-encode OpCode.prepare_event_data Operands.none d c f b = ground arith
decode_operands-encode OpCode.prepare_event_data _ d c f b = elim c [ ]
decode_operands-encode OpCode.conclude_frame_data Operands.none d c f b = ground arith
decode_operands-encode OpCode.conclude_frame_data _ d c f b = elim c [ ]
decode_operands-encode OpCode.chase_pointers Operands.none d c f b = ground arith
decode_operands-encode OpCode.chase_pointers _ d c f b = elim c [ ]
decode_operands-encode OpCode.traverse_go_context Operands.none d c f b = ground arith
decode_operands-encode OpCode.traverse_go_context _ d c f b = elim c [ ]
decode_operands-encode OpCode.conclude_go_context Operands.none d c f b = ground arith
decode_operands-encode OpCode.conclude_go_context _ d c f b = elim c [ ]
decode_operands-encode OpCode.enqueue_subroutine Operands.none d c f b = ground arith
decode_operands-encode OpCode.enqueue_subroutine _ d c f b = elim c [ ]
decode_operands-encode OpCode.prepare_expr_eval Operands.none d c f b = ground arith
decode_operands-encode OpCode.prepare_expr_eval _ d c f b = elim c [ ]
decode_operands-encode OpCode.prepare_pointee_data Operands.none d c f b = ground arith
decode_operands-encode OpCode.prepare_pointee_data _ d c f b = elim c [ ]
decode_operands-encode (OpCode.unknown b) Operands.none d c f b' = ground arith
decode_operands-encode (OpCode.unknown b) _ d c f b' = elim c [ ]
