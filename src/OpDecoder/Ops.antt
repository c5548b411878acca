-- ===== src/OpDecoder/Ops.antt =====
-- The operand records of internal/stackmachine/op_decoder.go. An operation without operands has
-- the empty record there, and `Unit` here.
use side_eye_go.Prelude.{ℕ}

pub record OpCall : Type 0 where
  pub pc : ℕ

pub record OpCondJump : Type 0 where
  pub pc : ℕ

pub record OpEnqueuePointer : Type 0 where
  pub elem_type : ℕ

pub record OpEnqueueSliceHeader : Type 0 where
  pub array_type : ℕ
  pub elem_byte_len : ℕ

pub record OpEnqueueStringHeader : Type 0 where
  pub string_data_type : ℕ

pub record OpEnqueueHMapHeader : Type 0 where
  pub buckets_array_type : ℕ
  pub bucket_byte_len : ℕ
  pub flags_offset : ℕ
  pub b_offset : ℕ
  pub buckets_offset : ℕ
  pub old_buckets_offset : ℕ

pub record OpEnqueueSwissMap : Type 0 where
  pub table_ptr_slice_type : ℕ
  pub group_type : ℕ
  pub dir_ptr_offset : ℕ
  pub dir_len_offset : ℕ

pub record OpEnqueueSwissMapGroups : Type 0 where
  pub group_slice_type : ℕ
  pub group_byte_len : ℕ
  pub data_offset : ℕ
  pub length_mask_offset : ℕ

pub record OpJump : Type 0 where
  pub pc : ℕ

pub record OpPushImm : Type 0 where
  pub value : ℕ

pub record OpPushSliceLen : Type 0 where
  pub elem_byte_len : ℕ

pub record OpAdvanceOffset : Type 0 where
  pub increment : ℕ

-- `offset` is an int32, kept as its bit pattern.
pub record OpDereferenceCfaOffset : Type 0 where
  pub offset : ℕ
  pub byte_len : ℕ
  pub pointer_bias : ℕ

pub record OpCopyFromRegister : Type 0 where
  pub register : ℕ
  pub byte_size : ℕ

pub record OpSaveExprResult : Type 0 where
  pub result_offset : ℕ
  pub byte_len : ℕ

pub record OpDereferencePtr : Type 0 where
  pub bias : ℕ
  pub byte_len : ℕ

pub record OpZeroFill : Type 0 where
  pub byte_len : ℕ

pub record OpSetPresenceBit : Type 0 where
  pub bit_offset : ℕ

pub record OpPrepareFrameData : Type 0 where
  pub prog_id : ℕ
  pub data_byte_len : ℕ
  pub type_id : ℕ

pub record OpPrepareGoContext : Type 0 where
  pub data_byte_len : ℕ
  pub type_id : ℕ
  pub capture_count : ℕ
