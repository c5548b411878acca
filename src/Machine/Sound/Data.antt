-- ===== src/Machine/Sound/Data.antt =====
-- The operations of `Machine.Data` are sound.
use side_eye_go.Prelude.{ℕ, List, Keeps, refl}
use side_eye_go.Memory.{Process}
use side_eye_go.Framing.{QueueEntry}
use side_eye_go.OutBuf.Bounds.{
  load-Fits, store-Fits, zero_range-Fits, copy-Fits, ensure_len-Fits, truncate-Fits,
  get_entry_len-Fits, prepare_frame_data-Fits, conclude_frame_data-Fits, reserve_queue_entry-Fits,
  dereference-Fits, write_queue_entry-Fits,
}
use side_eye_go.OpDecoder.Keeps.{decoder_rules}
use side_eye_go.Queue.Inv.{push-Keeps, should_record-Keeps}
use side_eye_go.Machine.State.{set_offset_to}
use side_eye_go.Prelude.{modify}
use side_eye_go.Machine.Sound.{
  Sound, machine_rules, top-Sound, push_value-Sound, pop_value-Sound, set_top-Sound,
}
use side_eye_go.Machine.State.{ExprType, frame, pointer}
use side_eye_go.Machine.Sound.Control.{execute_return-Sound}
use side_eye_go.Machine.Sound.Enqueue.{word_behind-Sound, set_word-Sound}
use side_eye_go.Machine.Data.{
  write_root, pointee_entry, op_dereference_ptr, op_dereference_cfa_offset, op_prepare_frame_data,
  op_copy_from_register, op_prepare_expr_eval, op_save_expr_result, op_zero_fill,
  op_set_presence_bit, op_prepare_pointee_data, op_conclude_frame_data,
}

ruleset op_rules = (
  machine_rules, decoder_rules, top-Sound, push_value-Sound, pop_value-Sound, set_top-Sound,
  push-Keeps, should_record-Keeps, load-Fits, store-Fits, zero_range-Fits, copy-Fits,
  ensure_len-Fits, truncate-Fits, get_entry_len-Fits, prepare_frame_data-Fits,
  conclude_frame_data-Fits, reserve_queue_entry-Fits, dereference-Fits, write_queue_entry-Fits,
  refl,
)

module _ {c : ℕ} {prog : List ℕ} {handed : List QueueEntry} where
  write_root-Sound : (e : ExprType) → Keeps (Sound c prog handed) (write_root e)
  unfolding write_root set_offset_to modify
  write_root-Sound frame = search op_rules
  write_root-Sound pointer = search (op_rules, set_word-Sound) depth 16

  pub op_copy_from_register-Sound : Keeps (Sound c prog handed) (op_copy_from_register)
  unfolding op_copy_from_register set_offset_to modify
  op_copy_from_register-Sound = search (op_rules) depth 24

  pub op_prepare_expr_eval-Sound : Keeps (Sound c prog handed) (op_prepare_expr_eval)
  unfolding op_prepare_expr_eval set_offset_to modify
  op_prepare_expr_eval-Sound = search (op_rules, write_root-Sound, set_word-Sound) depth 24

  pub op_save_expr_result-Sound : Keeps (Sound c prog handed) (op_save_expr_result)
  unfolding op_save_expr_result set_offset_to modify
  op_save_expr_result-Sound = search (op_rules) depth 24

  pub op_zero_fill-Sound : Keeps (Sound c prog handed) (op_zero_fill)
  unfolding op_zero_fill set_offset_to modify
  op_zero_fill-Sound = search (op_rules) depth 24

  pub op_set_presence_bit-Sound : Keeps (Sound c prog handed) (op_set_presence_bit)
  unfolding op_set_presence_bit set_offset_to modify
  op_set_presence_bit-Sound = search (op_rules) depth 24

  pub op_prepare_pointee_data-Sound : Keeps (Sound c prog handed) (op_prepare_pointee_data)
  unfolding op_prepare_pointee_data set_offset_to modify
  op_prepare_pointee_data-Sound = search (op_rules) depth 24

  pub op_conclude_frame_data-Sound : Keeps (Sound c prog handed) (op_conclude_frame_data)
  unfolding op_conclude_frame_data set_offset_to modify
  op_conclude_frame_data-Sound = search (op_rules) depth 24

  pub op_prepare_frame_data-Sound :
      (depth : ℕ) → Keeps (Sound c prog handed) (op_prepare_frame_data depth)
  unfolding op_prepare_frame_data set_offset_to modify
  op_prepare_frame_data-Sound depth = search (op_rules) depth 24

  pub op_dereference_cfa_offset-Sound :
      (p : Process) → Keeps (Sound c prog handed) (op_dereference_cfa_offset p)
  unfolding op_dereference_cfa_offset set_offset_to modify
  op_dereference_cfa_offset-Sound p = search (op_rules) depth 24

  pointee_entry-Sound :
      (p : Process) (addr : ℕ) (byte_len : ℕ)
      → Keeps (Sound c prog handed) (pointee_entry p addr byte_len)
  unfolding pointee_entry set_offset_to modify
  pointee_entry-Sound p addr byte_len = search (op_rules) depth 16

  pub op_dereference_ptr-Sound : (p : Process) → Keeps (Sound c prog handed) (op_dereference_ptr p)
  unfolding op_dereference_ptr set_offset_to modify
  op_dereference_ptr-Sound p =
      search (op_rules, pointee_entry-Sound, word_behind-Sound, execute_return-Sound) depth 30
