-- ===== src/OpDecoder/Encoding.antt =====
-- The wire format of the operations, written down apart from the decoder: the operands of each
-- code, the bytes that carry them, and the dispatch from codes to Decode methods that
-- `stackMachine.Run` makes.
use side_eye_go.Prelude.{ℕ, ◌+◌, ◌^◌, ◌<◌, ◌≡◌, List, [], ◌∷◌, ◌++◌, some, get_elem?}
use side_eye_go.Prelude.{IsU32, IsByte, bytes16, bytes32, M, pure, ◌>>=◌}
use side_eye_go.OpDecoder.OpCode.{OpCode}
use side_eye_go.OpDecoder.Ops.{
  OpCall, OpCondJump, OpEnqueuePointer, OpEnqueueSliceHeader, OpEnqueueStringHeader,
  OpEnqueueHMapHeader, OpEnqueueSwissMap, OpEnqueueSwissMapGroups, OpJump, OpPushImm,
  OpPushSliceLen, OpAdvanceOffset, OpDereferenceCfaOffset, OpCopyFromRegister, OpSaveExprResult,
  OpDereferencePtr, OpZeroFill, OpSetPresenceBit, OpPrepareFrameData, OpPrepareGoContext,
}
use side_eye_go.OpDecoder.Decode.{
  OpDecoder, decode_call, decode_cond_jump, decode_enqueue_pointer, decode_enqueue_slice_header,
  decode_enqueue_string_header, decode_enqueue_hmap_header, decode_enqueue_swiss_map,
  decode_enqueue_swiss_map_groups, decode_jump, decode_push_imm, decode_push_slice_len,
  decode_advance_offset, decode_dereference_cfa_offset, decode_copy_from_register,
  decode_save_expr_result, decode_dereference_ptr, decode_zero_fill, decode_set_presence_bit,
  decode_prepare_frame_data, decode_prepare_go_context,
}

-- What a Decode method returns, for any code. `none` is for the codes without operands.
pub data Operands : Type 0 where
  none : Operands
  call : OpCall → Operands
  cond_jump : OpCondJump → Operands
  enqueue_pointer : OpEnqueuePointer → Operands
  enqueue_slice_header : OpEnqueueSliceHeader → Operands
  enqueue_string_header : OpEnqueueStringHeader → Operands
  enqueue_hmap_header : OpEnqueueHMapHeader → Operands
  enqueue_swiss_map : OpEnqueueSwissMap → Operands
  enqueue_swiss_map_groups : OpEnqueueSwissMapGroups → Operands
  jump : OpJump → Operands
  push_imm : OpPushImm → Operands
  push_slice_len : OpPushSliceLen → Operands
  advance_offset : OpAdvanceOffset → Operands
  dereference_cfa_offset : OpDereferenceCfaOffset → Operands
  copy_from_register : OpCopyFromRegister → Operands
  save_expr_result : OpSaveExprResult → Operands
  dereference_ptr : OpDereferencePtr → Operands
  zero_fill : OpZeroFill → Operands
  set_presence_bit : OpSetPresenceBit → Operands
  prepare_frame_data : OpPrepareFrameData → Operands
  prepare_go_context : OpPrepareGoContext → Operands

unfoldable pub decode_operands : OpCode → M OpDecoder Operands
decode_operands OpCode.call = do o ← decode_call; pure (call o)
decode_operands OpCode.cond_jump = do o ← decode_cond_jump; pure (cond_jump o)
decode_operands OpCode.enqueue_pointer = do o ← decode_enqueue_pointer; pure (enqueue_pointer o)
decode_operands OpCode.enqueue_slice_header = do
  o ← decode_enqueue_slice_header
  pure (enqueue_slice_header o)
decode_operands OpCode.enqueue_string_header = do
  o ← decode_enqueue_string_header
  pure (enqueue_string_header o)
decode_operands OpCode.enqueue_hmap_header = do
  o ← decode_enqueue_hmap_header
  pure (enqueue_hmap_header o)
decode_operands OpCode.enqueue_swiss_map = do
  o ← decode_enqueue_swiss_map
  pure (enqueue_swiss_map o)
decode_operands OpCode.enqueue_swiss_map_groups = do
  o ← decode_enqueue_swiss_map_groups
  pure (enqueue_swiss_map_groups o)
decode_operands OpCode.jump = do o ← decode_jump; pure (jump o)
decode_operands OpCode.push_imm = do o ← decode_push_imm; pure (push_imm o)
decode_operands OpCode.push_slice_len = do o ← decode_push_slice_len; pure (push_slice_len o)
decode_operands OpCode.advance_offset = do o ← decode_advance_offset; pure (advance_offset o)
decode_operands OpCode.dereference_cfa_offset = do
  o ← decode_dereference_cfa_offset
  pure (dereference_cfa_offset o)
decode_operands OpCode.copy_from_register = do
  o ← decode_copy_from_register
  pure (copy_from_register o)
decode_operands OpCode.save_expr_result = do o ← decode_save_expr_result; pure (save_expr_result o)
decode_operands OpCode.dereference_ptr = do o ← decode_dereference_ptr; pure (dereference_ptr o)
decode_operands OpCode.zero_fill = do o ← decode_zero_fill; pure (zero_fill o)
decode_operands OpCode.set_presence_bit = do o ← decode_set_presence_bit; pure (set_presence_bit o)
decode_operands OpCode.prepare_frame_data = do
  o ← decode_prepare_frame_data
  pure (prepare_frame_data o)
decode_operands OpCode.prepare_go_context = do
  o ← decode_prepare_go_context
  pure (prepare_go_context o)
decode_operands _ = pure none

-- The bytes of the operands: little-endian words and single bytes, in the order of the fields.
abbrev pub encode : Operands → List ℕ
encode none = []
encode (call o) = bytes32 o.pc
encode (cond_jump o) = bytes32 o.pc
encode (enqueue_pointer o) = bytes32 o.elem_type
encode (enqueue_slice_header o) = bytes32 o.array_type ++ bytes32 o.elem_byte_len
encode (enqueue_string_header o) = bytes32 o.string_data_type
encode (enqueue_hmap_header o) =
    bytes32 o.buckets_array_type
    ++ (bytes32 o.bucket_byte_len
        ++ (o.flags_offset ∷ o.b_offset ∷ o.buckets_offset ∷ o.old_buckets_offset ∷ []))
encode (enqueue_swiss_map o) =
    bytes32 o.table_ptr_slice_type
    ++ (bytes32 o.group_type ++ (o.dir_ptr_offset ∷ o.dir_len_offset ∷ []))
encode (enqueue_swiss_map_groups o) =
    bytes32 o.group_slice_type
    ++ (bytes32 o.group_byte_len ++ (o.data_offset ∷ o.length_mask_offset ∷ []))
encode (jump o) = bytes32 o.pc
encode (push_imm o) = bytes32 o.value
encode (push_slice_len o) = bytes32 o.elem_byte_len
encode (advance_offset o) = bytes32 o.increment
encode (dereference_cfa_offset o) =
    bytes32 o.offset ++ (bytes32 o.byte_len ++ bytes32 o.pointer_bias)
encode (copy_from_register o) = bytes16 o.register ++ (o.byte_size ∷ [])
encode (save_expr_result o) = bytes32 o.result_offset ++ bytes32 o.byte_len
encode (dereference_ptr o) = bytes32 o.bias ++ bytes32 o.byte_len
encode (zero_fill o) = bytes32 o.byte_len
encode (set_presence_bit o) = bytes32 o.bit_offset
encode (prepare_frame_data o) = bytes32 o.prog_id ++ (bytes32 o.data_byte_len ++ bytes32 o.type_id)
encode (prepare_go_context o) =
    bytes32 o.data_byte_len ++ (bytes32 o.type_id ++ (o.capture_count ∷ []))

-- The fields fit their Go types.
abbrev pub Fits : Operands → Type 0
Fits none = Unit {0}
Fits (call o) = IsU32 o.pc
Fits (cond_jump o) = IsU32 o.pc
Fits (enqueue_pointer o) = IsU32 o.elem_type
Fits (enqueue_slice_header o) = IsU32 o.array_type × IsU32 o.elem_byte_len
Fits (enqueue_string_header o) = IsU32 o.string_data_type
Fits (enqueue_hmap_header o) =
    IsU32 o.buckets_array_type
    × IsU32 o.bucket_byte_len
    × IsByte o.flags_offset
    × IsByte o.b_offset
    × IsByte o.buckets_offset
    × IsByte o.old_buckets_offset
Fits (enqueue_swiss_map o) =
    IsU32 o.table_ptr_slice_type
    × IsU32 o.group_type
    × IsByte o.dir_ptr_offset
    × IsByte o.dir_len_offset
Fits (enqueue_swiss_map_groups o) =
    IsU32 o.group_slice_type
    × IsU32 o.group_byte_len
    × IsByte o.data_offset
    × IsByte o.length_mask_offset
Fits (jump o) = IsU32 o.pc
Fits (push_imm o) = IsU32 o.value
Fits (push_slice_len o) = IsU32 o.elem_byte_len
Fits (advance_offset o) = IsU32 o.increment
Fits (dereference_cfa_offset o) = IsU32 o.offset × IsU32 o.byte_len × IsU32 o.pointer_bias
Fits (copy_from_register o) = (o.register < 2 ^ 16) × IsByte o.byte_size
Fits (save_expr_result o) = IsU32 o.result_offset × IsU32 o.byte_len
Fits (dereference_ptr o) = IsU32 o.bias × IsU32 o.byte_len
Fits (zero_fill o) = IsU32 o.byte_len
Fits (set_presence_bit o) = IsU32 o.bit_offset
Fits (prepare_frame_data o) = IsU32 o.prog_id × IsU32 o.data_byte_len × IsU32 o.type_id
Fits (prepare_go_context o) = IsU32 o.data_byte_len × IsU32 o.type_id × IsByte o.capture_count

-- `code` is one whose operands have the form of `o`.
abbrev pub Carries : OpCode → Operands → Type 0
Carries OpCode.call (call _) = Unit {0}
Carries OpCode.call _ = ⊥
Carries OpCode.cond_jump (cond_jump _) = Unit {0}
Carries OpCode.cond_jump _ = ⊥
Carries OpCode.enqueue_pointer (enqueue_pointer _) = Unit {0}
Carries OpCode.enqueue_pointer _ = ⊥
Carries OpCode.enqueue_slice_header (enqueue_slice_header _) = Unit {0}
Carries OpCode.enqueue_slice_header _ = ⊥
Carries OpCode.enqueue_string_header (enqueue_string_header _) = Unit {0}
Carries OpCode.enqueue_string_header _ = ⊥
Carries OpCode.enqueue_hmap_header (enqueue_hmap_header _) = Unit {0}
Carries OpCode.enqueue_hmap_header _ = ⊥
Carries OpCode.enqueue_swiss_map (enqueue_swiss_map _) = Unit {0}
Carries OpCode.enqueue_swiss_map _ = ⊥
Carries OpCode.enqueue_swiss_map_groups (enqueue_swiss_map_groups _) = Unit {0}
Carries OpCode.enqueue_swiss_map_groups _ = ⊥
Carries OpCode.jump (jump _) = Unit {0}
Carries OpCode.jump _ = ⊥
Carries OpCode.push_imm (push_imm _) = Unit {0}
Carries OpCode.push_imm _ = ⊥
Carries OpCode.push_slice_len (push_slice_len _) = Unit {0}
Carries OpCode.push_slice_len _ = ⊥
Carries OpCode.advance_offset (advance_offset _) = Unit {0}
Carries OpCode.advance_offset _ = ⊥
Carries OpCode.dereference_cfa_offset (dereference_cfa_offset _) = Unit {0}
Carries OpCode.dereference_cfa_offset _ = ⊥
Carries OpCode.copy_from_register (copy_from_register _) = Unit {0}
Carries OpCode.copy_from_register _ = ⊥
Carries OpCode.save_expr_result (save_expr_result _) = Unit {0}
Carries OpCode.save_expr_result _ = ⊥
Carries OpCode.dereference_ptr (dereference_ptr _) = Unit {0}
Carries OpCode.dereference_ptr _ = ⊥
Carries OpCode.zero_fill (zero_fill _) = Unit {0}
Carries OpCode.zero_fill _ = ⊥
Carries OpCode.set_presence_bit (set_presence_bit _) = Unit {0}
Carries OpCode.set_presence_bit _ = ⊥
Carries OpCode.prepare_frame_data (prepare_frame_data _) = Unit {0}
Carries OpCode.prepare_frame_data _ = ⊥
Carries OpCode.prepare_go_context (prepare_go_context _) = Unit {0}
Carries OpCode.prepare_go_context _ = ⊥
Carries _ none = Unit {0}
Carries _ _ = ⊥

-- The bytes `bs` stand in the code at `pc + k`.
abbrev pub Holds : List ℕ → ℕ → ℕ → List ℕ → Type 0
Holds buf pc k [] = Unit {0}
Holds buf pc k (b ∷ bs) = (get_elem? buf (pc + k) ≡ some b) × Holds buf pc (k + 1) bs
