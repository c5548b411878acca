-- ===== src/OpDecoder/Decode.antt =====
-- The decoder of internal/stackmachine/op_decoder.go and its Decode methods.
use side_eye_go.Prelude.{ℕ, ◌+◌, Bool, true, false, List}
use side_eye_go.Prelude.{leb, length, get_elem?, u32, add32, le16, le32}
use side_eye_go.Prelude.{M, pure, get, modify, demand, choose, ◌>>=◌, ◌>>◌}
use side_eye_go.OpDecoder.OpCode.{OpCode, op_code}
use side_eye_go.OpDecoder.Ops.{
  OpCall, OpCondJump, OpEnqueuePointer, OpEnqueueSliceHeader, OpEnqueueStringHeader,
  OpEnqueueHMapHeader, OpEnqueueSwissMap, OpEnqueueSwissMapGroups, OpJump, OpPushImm,
  OpPushSliceLen, OpAdvanceOffset, OpDereferenceCfaOffset, OpCopyFromRegister, OpSaveExprResult,
  OpDereferencePtr, OpZeroFill, OpSetPresenceBit, OpPrepareFrameData, OpPrepareGoContext,
}

pub record OpDecoder : Type 0 where
  pub pc : ℕ
  pub op_buf : List ℕ

unfoldable pub make_op_decoder : List ℕ → OpDecoder
make_op_decoder op_buf = record { pc = 0; op_buf = op_buf }

-- The flag says whether the program counter was moved.
unfoldable pub set_pc : ℕ → M OpDecoder Bool
set_pc pc = do
  d ← get
  choose (leb (u32 (length d.op_buf)) pc) (pure false)
      (do modify (λ d. record d { pc = pc }); pure true)

-- `d.opBuf[d.pc+k]`.
unfoldable pub byte_at : ℕ → M OpDecoder ℕ
byte_at k d = demand (get_elem? d.op_buf (add32 d.pc k)) d

-- `binary.LittleEndian.Uint16(d.opBuf[d.pc+k:])`. The slice may be short; the read then panics.
unfoldable pub uint16_at : ℕ → M OpDecoder ℕ
uint16_at k = do
  d ← get
  b0 ← demand (get_elem? d.op_buf (add32 d.pc k))
  b1 ← demand (get_elem? d.op_buf (add32 d.pc k + 1))
  pure (le16 b0 b1)

-- `binary.LittleEndian.Uint32(d.opBuf[d.pc+k:])`.
unfoldable pub uint32_at : ℕ → M OpDecoder ℕ
uint32_at k = do
  d ← get
  b0 ← demand (get_elem? d.op_buf (add32 d.pc k))
  b1 ← demand (get_elem? d.op_buf (add32 d.pc k + 1))
  b2 ← demand (get_elem? d.op_buf (add32 d.pc k + 2))
  b3 ← demand (get_elem? d.op_buf (add32 d.pc k + 3))
  pure (le32 b0 b1 b2 b3)

-- `d.pc += k`.
unfoldable pub advance : ℕ → M OpDecoder (Unit {0})
advance k = modify (λ d. record d { pc = add32 d.pc k })

unfoldable pub pop_op_code : M OpDecoder OpCode
pop_op_code = do b ← byte_at 0; advance 1; pure (op_code b)

unfoldable pub decode_call : M OpDecoder OpCall
decode_call = do pc ← uint32_at 0; advance 4; pure (record { pc = pc })

unfoldable pub decode_cond_jump : M OpDecoder OpCondJump
decode_cond_jump = do pc ← uint32_at 0; advance 4; pure (record { pc = pc })

unfoldable pub decode_enqueue_pointer : M OpDecoder OpEnqueuePointer
decode_enqueue_pointer = do
  elem_type ← uint32_at 0
  advance 4
  pure (record { elem_type = elem_type })

unfoldable pub decode_enqueue_slice_header : M OpDecoder OpEnqueueSliceHeader
decode_enqueue_slice_header = do
  array_type ← uint32_at 0
  elem_byte_len ← uint32_at 4
  advance 8
  pure (record { array_type = array_type; elem_byte_len = elem_byte_len })

unfoldable pub decode_enqueue_string_header : M OpDecoder OpEnqueueStringHeader
decode_enqueue_string_header = do
  string_data_type ← uint32_at 0
  advance 4
  pure (record { string_data_type = string_data_type })

unfoldable pub decode_enqueue_hmap_header : M OpDecoder OpEnqueueHMapHeader
decode_enqueue_hmap_header = do
  buckets_array_type ← uint32_at 0
  bucket_byte_len ← uint32_at 4
  flags_offset ← byte_at 8
  b_offset ← byte_at 9
  buckets_offset ← byte_at 10
  old_buckets_offset ← byte_at 11
  advance 12
  pure (record {
    buckets_array_type = buckets_array_type;
    bucket_byte_len = bucket_byte_len;
    flags_offset = flags_offset;
    b_offset = b_offset;
    buckets_offset = buckets_offset;
    old_buckets_offset = old_buckets_offset;
  })

unfoldable pub decode_enqueue_swiss_map : M OpDecoder OpEnqueueSwissMap
decode_enqueue_swiss_map = do
  table_ptr_slice_type ← uint32_at 0
  group_type ← uint32_at 4
  dir_ptr_offset ← byte_at 8
  dir_len_offset ← byte_at 9
  advance 10
  pure (record {
    table_ptr_slice_type = table_ptr_slice_type;
    group_type = group_type;
    dir_ptr_offset = dir_ptr_offset;
    dir_len_offset = dir_len_offset;
  })

unfoldable pub decode_enqueue_swiss_map_groups : M OpDecoder OpEnqueueSwissMapGroups
decode_enqueue_swiss_map_groups = do
  group_slice_type ← uint32_at 0
  group_byte_len ← uint32_at 4
  data_offset ← byte_at 8
  length_mask_offset ← byte_at 9
  advance 10
  pure (record {
    group_slice_type = group_slice_type;
    group_byte_len = group_byte_len;
    data_offset = data_offset;
    length_mask_offset = length_mask_offset;
  })

unfoldable pub decode_jump : M OpDecoder OpJump
decode_jump = do pc ← uint32_at 0; advance 4; pure (record { pc = pc })

unfoldable pub decode_push_imm : M OpDecoder OpPushImm
decode_push_imm = do value ← uint32_at 0; advance 4; pure (record { value = value })

unfoldable pub decode_push_slice_len : M OpDecoder OpPushSliceLen
decode_push_slice_len = do
  elem_byte_len ← uint32_at 0
  advance 4
  pure (record { elem_byte_len = elem_byte_len })

unfoldable pub decode_advance_offset : M OpDecoder OpAdvanceOffset
decode_advance_offset = do
  increment ← uint32_at 0
  advance 4
  pure (record { increment = increment })

unfoldable pub decode_dereference_cfa_offset : M OpDecoder OpDereferenceCfaOffset
decode_dereference_cfa_offset = do
  offset ← uint32_at 0
  byte_len ← uint32_at 4
  pointer_bias ← uint32_at 8
  advance 12
  pure (record { offset = offset; byte_len = byte_len; pointer_bias = pointer_bias })

unfoldable pub decode_copy_from_register : M OpDecoder OpCopyFromRegister
decode_copy_from_register = do
  register ← uint16_at 0
  byte_size ← byte_at 2
  advance 3
  pure (record { register = register; byte_size = byte_size })

unfoldable pub decode_save_expr_result : M OpDecoder OpSaveExprResult
decode_save_expr_result = do
  result_offset ← uint32_at 0
  byte_len ← uint32_at 4
  advance 8
  pure (record { result_offset = result_offset; byte_len = byte_len })

unfoldable pub decode_dereference_ptr : M OpDecoder OpDereferencePtr
decode_dereference_ptr = do
  bias ← uint32_at 0
  byte_len ← uint32_at 4
  advance 8
  pure (record { bias = bias; byte_len = byte_len })

unfoldable pub decode_zero_fill : M OpDecoder OpZeroFill
decode_zero_fill = do byte_len ← uint32_at 0; advance 4; pure (record { byte_len = byte_len })

unfoldable pub decode_set_presence_bit : M OpDecoder OpSetPresenceBit
decode_set_presence_bit = do
  bit_offset ← uint32_at 0
  advance 4
  pure (record { bit_offset = bit_offset })

unfoldable pub decode_prepare_frame_data : M OpDecoder OpPrepareFrameData
decode_prepare_frame_data = do
  prog_id ← uint32_at 0
  data_byte_len ← uint32_at 4
  type_id ← uint32_at 8
  advance 12
  pure (record { prog_id = prog_id; data_byte_len = data_byte_len; type_id = type_id })

unfoldable pub decode_prepare_go_context : M OpDecoder OpPrepareGoContext
decode_prepare_go_context = do
  data_byte_len ← uint32_at 0
  type_id ← uint32_at 4
  capture_count ← byte_at 8
  advance 9
  pure (record { data_byte_len = data_byte_len; type_id = type_id; capture_count = capture_count })
