-- ===== src/Program.antt =====
-- internal/snapshotpb: what the snapshot code reads of a `SnapshotProgram`. A message that is
-- always set is a record, one that may be absent an option; a map is a function.
use side_eye_go.Prelude.{ℕ, Bool, List, Option}

pub record GoContextImpl : Type 0 where
  pub context_offset : Option ℕ
  pub key_offset : Option ℕ
  pub value_offset : Option ℕ

pub record GoContextValueType : Type 0 where
  pub index : ℕ
  pub offset : ℕ
  pub type_id : ℕ

pub record TypeInfo : Type 0 where
  pub enqueue_pc : ℕ
  pub byte_len : ℕ
  pub serialize_before_enqueue : Bool
  pub go_context_impl : Option GoContextImpl
  pub go_context_key : Option GoContextValueType
  pub go_context_key_value_type : Option ℕ
  pub go_context_value : Option GoContextValueType

pub record SubroutineClassifier : Type 0 where
  pub unresolved_subroutine_type : ℕ
  pub entry_pc : List ℕ
  pub type_id : List ℕ

pub record PcClassifier : Type 0 where
  pub target_pc : List ℕ
  pub prog_pc : List ℕ

pub record SnapshotProgram : Type 0 where
  pub pc_classifier : PcClassifier
  pub subroutine_classifier : SubroutineClassifier
  pub go_runtime_type_to_type_id : ℕ → Option ℕ
  pub type_info : ℕ → Option TypeInfo
  pub prog : List ℕ
