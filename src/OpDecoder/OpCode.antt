-- ===== src/OpDecoder/OpCode.antt =====
-- The operation codes of internal/stackmachine/op_decoder.go.
use side_eye_go.Prelude.{ℕ, List, [], ◌∷◌, some, get_elem?, Option, none}

-- `OpCode` is a uint8; `unknown` stands for the values that have no name.
pub data OpCode : Type 0 where
  invalid call cond_jump decrement enqueue_empty_interface enqueue_interface enqueue_pointer :
      OpCode
  enqueue_slice_header enqueue_string_header enqueue_hmap_header jump pop push_imm : OpCode
  push_offset push_slice_len return set_offset advance_offset dereference_cfa_offset : OpCode
  copy_from_register zero_fill prepare_frame_data illegal prepare_event_data : OpCode
  conclude_frame_data chase_pointers prepare_go_context traverse_go_context : OpCode
  conclude_go_context set_presence_bit enqueue_swiss_map enqueue_swiss_map_groups : OpCode
  enqueue_subroutine save_expr_result dereference_ptr prepare_expr_eval prepare_pointee_data :
      OpCode
  unknown : ℕ → OpCode

-- The named values from 0 on, in order.
abbrev op_code_table : List OpCode
op_code_table =
    invalid
    ∷ call
    ∷ cond_jump
    ∷ decrement
    ∷ enqueue_empty_interface
    ∷ enqueue_interface
    ∷ enqueue_pointer
    ∷ enqueue_slice_header
    ∷ enqueue_string_header
    ∷ enqueue_hmap_header
    ∷ jump
    ∷ pop
    ∷ push_imm
    ∷ push_offset
    ∷ push_slice_len
    ∷ return
    ∷ set_offset
    ∷ advance_offset
    ∷ unknown 18
    ∷ dereference_cfa_offset
    ∷ copy_from_register
    ∷ zero_fill
    ∷ prepare_frame_data
    ∷ illegal
    ∷ prepare_event_data
    ∷ conclude_frame_data
    ∷ chase_pointers
    ∷ prepare_go_context
    ∷ traverse_go_context
    ∷ conclude_go_context
    ∷ set_presence_bit
    ∷ enqueue_swiss_map
    ∷ enqueue_swiss_map_groups
    ∷ enqueue_subroutine
    ∷ save_expr_result
    ∷ dereference_ptr
    ∷ prepare_expr_eval
    ∷ prepare_pointee_data
    ∷ []

unfoldable pub or_unknown : ℕ → Option OpCode → OpCode
or_unknown b none = unknown b
or_unknown b (some c) = c

-- The conversion `OpCode(b)` of a byte.
unfoldable pub op_code : ℕ → OpCode
unfolding or_unknown
op_code b = or_unknown b (get_elem? op_code_table b)

-- The value of a code.
unfoldable pub code_byte : OpCode → ℕ
code_byte invalid = 0
code_byte call = 1
code_byte cond_jump = 2
code_byte decrement = 3
code_byte enqueue_empty_interface = 4
code_byte enqueue_interface = 5
code_byte enqueue_pointer = 6
code_byte enqueue_slice_header = 7
code_byte enqueue_string_header = 8
code_byte enqueue_hmap_header = 9
code_byte jump = 10
code_byte pop = 11
code_byte push_imm = 12
code_byte push_offset = 13
code_byte push_slice_len = 14
code_byte return = 15
code_byte set_offset = 16
code_byte advance_offset = 17
code_byte dereference_cfa_offset = 19
code_byte copy_from_register = 20
code_byte zero_fill = 21
code_byte prepare_frame_data = 22
code_byte illegal = 23
code_byte prepare_event_data = 24
code_byte conclude_frame_data = 25
code_byte chase_pointers = 26
code_byte prepare_go_context = 27
code_byte traverse_go_context = 28
code_byte conclude_go_context = 29
code_byte set_presence_bit = 30
code_byte enqueue_swiss_map = 31
code_byte enqueue_swiss_map_groups = 32
code_byte enqueue_subroutine = 33
code_byte save_expr_result = 34
code_byte dereference_ptr = 35
code_byte prepare_expr_eval = 36
code_byte prepare_pointee_data = 37
code_byte (unknown b) = b
