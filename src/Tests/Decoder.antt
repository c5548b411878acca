-- ===== src/Tests/Decoder.antt =====
-- internal/stackmachine/op_decoder.go on a small program.
use side_eye_go.Prelude.{◌+◌, ◌≡◌, refl, arith, List, [], ◌∷◌, ok, length, ℕ}
use side_eye_go.OpDecoder.OpCode
use side_eye_go.OpDecoder.Decode.{OpDecoder}
use side_eye_go.OpDecoder.Encoding.{Operands, encode}
use side_eye_go.OpDecoder.Instruction.{decode_instruction, decode_instruction-encode}

-- A zero fill of 300 bytes, behind a return.
abbrev program : List ℕ
program = 15 ∷ 21 ∷ 44 ∷ 1 ∷ 0 ∷ 0 ∷ []

abbrev decoder : OpDecoder
decoder = record { pc = 1; op_buf = program }

abbrev operands : Operands
operands = Operands.zero_fill (record { byte_len = 300 })

decode_instruction-encode_example :
    decode_instruction decoder
    ≡ ok ((OpCode.zero_fill, operands), record decoder { pc = 1 + 1 + length (encode operands) })
unfolding OpCode.code_byte
decode_instruction-encode_example =
    decode_instruction-encode OpCode.zero_fill operands decoder tt tt (omega arith)
      ((refl, (refl, (refl, (refl, (refl, tt))))), omega arith)
