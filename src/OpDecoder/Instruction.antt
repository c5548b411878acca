-- ===== src/OpDecoder/Instruction.antt =====
-- A whole instruction, its code and its operands, is read back from its bytes.
use side_eye_go.Prelude.{
  ℕ, ◌+◌, ◌^◌, ◌<◌, ◌≡◌, refl, ap, ◌∙◌, arith, List, [], ◌∷◌, length, ok, some, get_elem?, add32,
}
use mathlib.Core.Path.{ap₂}
use side_eye_go.Prelude.{>>=_ok, demand-some, M, pure, modify, ◌>>=◌}
use side_eye_go.OpDecoder.OpCode.{OpCode, op_code, or_unknown, code_byte}
use side_eye_go.OpDecoder.Decode.{OpDecoder, byte_at, advance, pop_op_code}
use side_eye_go.OpDecoder.Encoding.{Operands, decode_operands, encode, Fits, Carries, Holds}
use side_eye_go.OpDecoder.RoundTrip.{decode_operands-encode}

-- A code with a name.
abbrev pub Named : OpCode → Type 0
Named (OpCode.unknown b) = ⊥
Named _ = Unit {0}

-- The conversion of a code's value is the code.
op_code-code_byte : (code : OpCode) → Named code → op_code (code_byte code) ≡ code
unfolding op_code code_byte or_unknown
op_code-code_byte OpCode.invalid h = refl
op_code-code_byte OpCode.call h = refl
op_code-code_byte OpCode.cond_jump h = refl
op_code-code_byte OpCode.decrement h = refl
op_code-code_byte OpCode.enqueue_empty_interface h = refl
op_code-code_byte OpCode.enqueue_interface h = refl
op_code-code_byte OpCode.enqueue_pointer h = refl
op_code-code_byte OpCode.enqueue_slice_header h = refl
op_code-code_byte OpCode.enqueue_string_header h = refl
op_code-code_byte OpCode.enqueue_hmap_header h = refl
op_code-code_byte OpCode.jump h = refl
op_code-code_byte OpCode.pop h = refl
op_code-code_byte OpCode.push_imm h = refl
op_code-code_byte OpCode.push_offset h = refl
op_code-code_byte OpCode.push_slice_len h = refl
op_code-code_byte OpCode.return h = refl
op_code-code_byte OpCode.set_offset h = refl
op_code-code_byte OpCode.advance_offset h = refl
op_code-code_byte OpCode.dereference_cfa_offset h = refl
op_code-code_byte OpCode.copy_from_register h = refl
op_code-code_byte OpCode.zero_fill h = refl
op_code-code_byte OpCode.prepare_frame_data h = refl
op_code-code_byte OpCode.illegal h = refl
op_code-code_byte OpCode.prepare_event_data h = refl
op_code-code_byte OpCode.conclude_frame_data h = refl
op_code-code_byte OpCode.chase_pointers h = refl
op_code-code_byte OpCode.prepare_go_context h = refl
op_code-code_byte OpCode.traverse_go_context h = refl
op_code-code_byte OpCode.conclude_go_context h = refl
op_code-code_byte OpCode.set_presence_bit h = refl
op_code-code_byte OpCode.enqueue_swiss_map h = refl
op_code-code_byte OpCode.enqueue_swiss_map_groups h = refl
op_code-code_byte OpCode.enqueue_subroutine h = refl
op_code-code_byte OpCode.save_expr_result h = refl
op_code-code_byte OpCode.dereference_ptr h = refl
op_code-code_byte OpCode.prepare_expr_eval h = refl
op_code-code_byte OpCode.prepare_pointee_data h = refl
op_code-code_byte (OpCode.unknown b) h = elim h [ ]

-- What an iteration of `Run` reads: a code, and the operands that its case decodes.
unfoldable pub decode_instruction : M OpDecoder (OpCode × Operands)
decode_instruction = do code ← pop_op_code; o ← decode_operands code; pure (code, o)

pub Holds-shift :
    (buf : List ℕ) (pc k : ℕ) (bs : List ℕ) → Holds buf pc (k + 1) bs → Holds buf (pc + 1) k bs
Holds-shift buf pc k [] h = tt
Holds-shift buf pc k (b ∷ bs) h =
    (ap (get_elem? buf) (omega arith) ∙ h.0, Holds-shift buf pc (k + 1) bs h.1)

-- The decoder stands before an instruction, and its program counter cannot wrap on it.
abbrev pub Before : OpDecoder → OpCode → Operands → Type 0
Before d code o =
    Holds d.op_buf d.pc 0 (code_byte code ∷ encode o) × (d.pc + 1 + length (encode o) < 2 ^ 32)

pub pop_op_code-code_byte :
    (code : OpCode) (d : OpDecoder)
    → Named code
    → get_elem? d.op_buf (d.pc + 0) ≡ some (code_byte code)
    → d.pc + 1 < 2 ^ 32
    → pop_op_code d ≡ ok (code, record d { pc = d.pc + 1 })
unfolding pop_op_code byte_at advance pure modify
pop_op_code-code_byte code d n h room =
    let at : add32 d.pc 0 ≡ d.pc + 0 = omega arith in
    let next : add32 d.pc 1 ≡ d.pc + 1 = omega arith in
    >>=_ok _ _ (demand-some (ap (get_elem? d.op_buf) at ∙ h))
    ∙ >>=_ok _ _ refl
    ∙ ap₂ (λ c pc. ok (c, record d { pc = pc })) (op_code-code_byte code n) next

-- An instruction that stands in the program at the program counter, with operands in the ranges of
-- their Go types, is decoded to its code and its operands, and the program counter ends behind it.
pub decode_instruction-encode :
    (code : OpCode) (o : Operands) (d : OpDecoder)
    → Named code
    → Carries code o
    → Fits o
    → Before d code o
    → decode_instruction d ≡ ok ((code, o), record d { pc = d.pc + 1 + length (encode o) })
unfolding decode_instruction pure
decode_instruction-encode code o d n c f b =
    >>=_ok _ _ (pop_op_code-code_byte code d n b.0.0 (omega arith))
    ∙ >>=_ok _ _ (
        decode_operands-encode code o (record d { pc = d.pc + 1 }) c f
          (Holds-shift d.op_buf d.pc 0 (encode o) b.0.1, b.1))
