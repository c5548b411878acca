-- ===== src/OpDecoder/Keeps.antt =====
-- The program under the methods of internal/stackmachine/op_decoder.go.
use side_eye_go.Prelude.{ℕ, ◌≡◌, List}
use side_eye_go.Prelude.{Keeps, Keeps-modify, Keeps-demand, keeps_rules}
use side_eye_go.OpDecoder.Decode

abbrev pub Runs : List ℕ → Decode.OpDecoder → Type 0
Runs prog d = d.op_buf ≡ prog

module _ (prog : List ℕ) where
  pub byte_at-Runs : (k : ℕ) → Keeps (Runs prog) (Decode.byte_at k)
  unfolding Decode.byte_at
  byte_at-Runs k = record { at = λ d h. (Keeps-demand _).at d h }

  pub advance-Runs : (k : ℕ) → Keeps (Runs prog) (Decode.advance k)
  unfolding Decode.advance
  advance-Runs k = Keeps-modify _ λ d h. h

  pub uint16_at-Runs : (k : ℕ) → Keeps (Runs prog) (Decode.uint16_at k)
  unfolding Decode.uint16_at
  uint16_at-Runs k = search keeps_rules depth 10

  pub uint32_at-Runs : (k : ℕ) → Keeps (Runs prog) (Decode.uint32_at k)
  unfolding Decode.uint32_at
  uint32_at-Runs k = search keeps_rules depth 14

  pub set_pc-Runs : (pc : ℕ) → Keeps (Runs prog) (Decode.set_pc pc)
  unfolding Decode.set_pc
  set_pc-Runs pc = search (keeps_rules, Keeps-modify) depth 10

ruleset reader_rules = (keeps_rules, byte_at-Runs, advance-Runs, uint16_at-Runs, uint32_at-Runs)

module _ (prog : List ℕ) where
  pub pop_op_code-Runs : Keeps (Runs prog) Decode.pop_op_code
  unfolding Decode.pop_op_code
  pop_op_code-Runs = search reader_rules depth 24

  pub decode_call-Runs : Keeps (Runs prog) Decode.decode_call
  unfolding Decode.decode_call
  decode_call-Runs = search reader_rules depth 24

  pub decode_cond_jump-Runs : Keeps (Runs prog) Decode.decode_cond_jump
  unfolding Decode.decode_cond_jump
  decode_cond_jump-Runs = search reader_rules depth 24

  pub decode_enqueue_pointer-Runs : Keeps (Runs prog) Decode.decode_enqueue_pointer
  unfolding Decode.decode_enqueue_pointer
  decode_enqueue_pointer-Runs = search reader_rules depth 24

  pub decode_enqueue_slice_header-Runs : Keeps (Runs prog) Decode.decode_enqueue_slice_header
  unfolding Decode.decode_enqueue_slice_header
  decode_enqueue_slice_header-Runs = search reader_rules depth 24

  pub decode_enqueue_string_header-Runs : Keeps (Runs prog) Decode.decode_enqueue_string_header
  unfolding Decode.decode_enqueue_string_header
  decode_enqueue_string_header-Runs = search reader_rules depth 24

  pub decode_enqueue_hmap_header-Runs : Keeps (Runs prog) Decode.decode_enqueue_hmap_header
  unfolding Decode.decode_enqueue_hmap_header
  decode_enqueue_hmap_header-Runs = search reader_rules depth 24

  pub decode_enqueue_swiss_map-Runs : Keeps (Runs prog) Decode.decode_enqueue_swiss_map
  unfolding Decode.decode_enqueue_swiss_map
  decode_enqueue_swiss_map-Runs = search reader_rules depth 24

  pub decode_enqueue_swiss_map_groups-Runs :
      Keeps (Runs prog) Decode.decode_enqueue_swiss_map_groups
  unfolding Decode.decode_enqueue_swiss_map_groups
  decode_enqueue_swiss_map_groups-Runs = search reader_rules depth 24

  pub decode_jump-Runs : Keeps (Runs prog) Decode.decode_jump
  unfolding Decode.decode_jump
  decode_jump-Runs = search reader_rules depth 24

  pub decode_push_imm-Runs : Keeps (Runs prog) Decode.decode_push_imm
  unfolding Decode.decode_push_imm
  decode_push_imm-Runs = search reader_rules depth 24

  pub decode_push_slice_len-Runs : Keeps (Runs prog) Decode.decode_push_slice_len
  unfolding Decode.decode_push_slice_len
  decode_push_slice_len-Runs = search reader_rules depth 24

  pub decode_advance_offset-Runs : Keeps (Runs prog) Decode.decode_advance_offset
  unfolding Decode.decode_advance_offset
  decode_advance_offset-Runs = search reader_rules depth 24

  pub decode_dereference_cfa_offset-Runs : Keeps (Runs prog) Decode.decode_dereference_cfa_offset
  unfolding Decode.decode_dereference_cfa_offset
  decode_dereference_cfa_offset-Runs = search reader_rules depth 24

  pub decode_copy_from_register-Runs : Keeps (Runs prog) Decode.decode_copy_from_register
  unfolding Decode.decode_copy_from_register
  decode_copy_from_register-Runs = search reader_rules depth 24

  pub decode_save_expr_result-Runs : Keeps (Runs prog) Decode.decode_save_expr_result
  unfolding Decode.decode_save_expr_result
  decode_save_expr_result-Runs = search reader_rules depth 24

  pub decode_dereference_ptr-Runs : Keeps (Runs prog) Decode.decode_dereference_ptr
  unfolding Decode.decode_dereference_ptr
  decode_dereference_ptr-Runs = search reader_rules depth 24

  pub decode_zero_fill-Runs : Keeps (Runs prog) Decode.decode_zero_fill
  unfolding Decode.decode_zero_fill
  decode_zero_fill-Runs = search reader_rules depth 24

  pub decode_set_presence_bit-Runs : Keeps (Runs prog) Decode.decode_set_presence_bit
  unfolding Decode.decode_set_presence_bit
  decode_set_presence_bit-Runs = search reader_rules depth 24

  pub decode_prepare_frame_data-Runs : Keeps (Runs prog) Decode.decode_prepare_frame_data
  unfolding Decode.decode_prepare_frame_data
  decode_prepare_frame_data-Runs = search reader_rules depth 24

  pub decode_prepare_go_context-Runs : Keeps (Runs prog) Decode.decode_prepare_go_context
  unfolding Decode.decode_prepare_go_context
  decode_prepare_go_context-Runs = search reader_rules depth 24

pub ruleset decoder_rules = (
  set_pc-Runs, pop_op_code-Runs, decode_call-Runs, decode_cond_jump-Runs,
  decode_enqueue_pointer-Runs, decode_enqueue_slice_header-Runs, decode_enqueue_string_header-Runs,
  decode_enqueue_hmap_header-Runs, decode_enqueue_swiss_map-Runs,
  decode_enqueue_swiss_map_groups-Runs, decode_jump-Runs, decode_push_imm-Runs,
  decode_push_slice_len-Runs, decode_advance_offset-Runs, decode_dereference_cfa_offset-Runs,
  decode_copy_from_register-Runs, decode_save_expr_result-Runs, decode_dereference_ptr-Runs,
  decode_zero_fill-Runs, decode_set_presence_bit-Runs, decode_prepare_frame_data-Runs,
  decode_prepare_go_context-Runs,
)
