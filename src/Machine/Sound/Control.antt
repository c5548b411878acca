-- ===== src/Machine/Sound/Control.antt =====
-- The operations of `Machine.Control` are sound.
use side_eye_go.Prelude.{ℕ, List, Keeps, refl, arith}
use side_eye_go.Memory.{Process}
use side_eye_go.Framing.{QueueEntry}
use side_eye_go.OutBuf.Bounds.{
  load-Fits, store-Fits, zero_range-Fits, copy-Fits, ensure_len-Fits, truncate-Fits,
  get_entry_len-Fits, prepare_frame_data-Fits, conclude_frame_data-Fits, reserve_queue_entry-Fits,
  dereference-Fits, write_queue_entry-Fits,
}
use side_eye_go.OpDecoder.Keeps.{decoder_rules}
use side_eye_go.Queue.Inv.{push-Keeps, should_record-Keeps}
use side_eye_go.Machine.State.{set_offset_to}
use side_eye_go.Prelude.{modify}
use side_eye_go.Machine.Sound.{
  Sound, machine_rules, top-Sound, push_value-Sound, pop_value-Sound, set_top-Sound,
}
use side_eye_go.Machine.Control.{
  goto, execute_return, op_call, op_cond_jump, op_decrement, op_jump, op_pop, op_push_imm,
  op_push_offset, op_push_slice_len, op_return, op_set_offset, op_advance_offset, op_illegal,
}
use side_eye_go.Resolver.{read_word}

ruleset op_rules = (
  machine_rules, decoder_rules, top-Sound, push_value-Sound, pop_value-Sound, set_top-Sound,
  push-Keeps, should_record-Keeps, load-Fits, store-Fits, zero_range-Fits, copy-Fits,
  ensure_len-Fits, truncate-Fits, get_entry_len-Fits, prepare_frame_data-Fits,
  conclude_frame_data-Fits, reserve_queue_entry-Fits, dereference-Fits, write_queue_entry-Fits,
  refl,
)

module _ {c : ℕ} {prog : List ℕ} {handed : List QueueEntry} where
  pub goto-Sound : (pc : ℕ) → Keeps (Sound c prog handed) (goto pc)
  unfolding goto set_offset_to modify
  goto-Sound pc = search (op_rules) depth 16

  pub execute_return-Sound : Keeps (Sound c prog handed) (execute_return)
  unfolding execute_return set_offset_to modify
  execute_return-Sound = search (op_rules) depth 16

  pub op_call-Sound : Keeps (Sound c prog handed) (op_call)
  unfolding op_call set_offset_to modify
  op_call-Sound = search (op_rules, goto-Sound, execute_return-Sound) depth 16

  pub op_cond_jump-Sound : Keeps (Sound c prog handed) (op_cond_jump)
  unfolding op_cond_jump set_offset_to modify
  op_cond_jump-Sound = search (op_rules, goto-Sound, execute_return-Sound) depth 16

  pub op_decrement-Sound : Keeps (Sound c prog handed) (op_decrement)
  unfolding op_decrement set_offset_to modify
  op_decrement-Sound = search (op_rules, goto-Sound, execute_return-Sound) depth 16

  pub op_jump-Sound : Keeps (Sound c prog handed) (op_jump)
  unfolding op_jump set_offset_to modify
  op_jump-Sound = search (op_rules, goto-Sound, execute_return-Sound) depth 16

  pub op_pop-Sound : Keeps (Sound c prog handed) (op_pop)
  unfolding op_pop set_offset_to modify
  op_pop-Sound = search (op_rules, goto-Sound, execute_return-Sound) depth 16

  pub op_push_imm-Sound : Keeps (Sound c prog handed) (op_push_imm)
  unfolding op_push_imm set_offset_to modify
  op_push_imm-Sound = search (op_rules, goto-Sound, execute_return-Sound) depth 16

  pub op_push_offset-Sound : Keeps (Sound c prog handed) (op_push_offset)
  unfolding op_push_offset set_offset_to modify
  op_push_offset-Sound = search (op_rules, goto-Sound, execute_return-Sound) depth 16

  pub op_push_slice_len-Sound : Keeps (Sound c prog handed) (op_push_slice_len)
  unfolding op_push_slice_len set_offset_to modify
  op_push_slice_len-Sound = search (op_rules, goto-Sound, execute_return-Sound) depth 16

  pub op_return-Sound : Keeps (Sound c prog handed) (op_return)
  unfolding op_return set_offset_to modify
  op_return-Sound = search (op_rules, goto-Sound, execute_return-Sound) depth 16

  pub op_set_offset-Sound : Keeps (Sound c prog handed) (op_set_offset)
  unfolding op_set_offset set_offset_to modify
  op_set_offset-Sound = search (op_rules, goto-Sound, execute_return-Sound) depth 16

  pub op_advance_offset-Sound : Keeps (Sound c prog handed) (op_advance_offset)
  unfolding op_advance_offset set_offset_to modify
  op_advance_offset-Sound = search (op_rules, goto-Sound, execute_return-Sound) depth 16

  read_word-Sound : (p : Process) (addr : ℕ) → Keeps (Sound c prog handed) (read_word p addr)
  unfolding read_word
  read_word-Sound p addr = record { at = λ s h. ground arith }

  pub op_illegal-Sound :
      (p : Process) (entry_pc : ℕ) → Keeps (Sound c prog handed) (op_illegal p entry_pc)
  unfolding op_illegal
  op_illegal-Sound p entry_pc = search (op_rules, read_word-Sound) depth 8
