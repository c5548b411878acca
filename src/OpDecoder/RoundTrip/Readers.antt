-- ===== src/OpDecoder/RoundTrip/Readers.antt =====
-- Reads of bytes and words that stand in the program.
use side_eye_go.Prelude.{ℕ, ◌+◌, ◌^◌, ◌<◌, ◌≡◌, arith, [], ◌∷◌, length}
use side_eye_go.Prelude.{IsU32, bytes16, bytes32, ok, ◌>>=◌}
use side_eye_go.OpDecoder.Decode.{OpDecoder, byte_at, uint16_at, uint32_at}
use side_eye_go.OpDecoder.Encoding.{Operands, encode, Holds}

module _ (d : OpDecoder) (k v : ℕ) where
  pub uint32_at_holds :
      d.pc + k + 3 < 2 ^ 32
      → IsU32 v
      → Holds d.op_buf d.pc k (bytes32 v)
      → uint32_at k d ≡ ok (v, d)
  unfolding uint32_at ◌>>=◌
  uint32_at_holds room f b = ground arith

  pub uint16_at_holds :
      d.pc + k + 1 < 2 ^ 32
      → v < 2 ^ 16
      → Holds d.op_buf d.pc k (bytes16 v)
      → uint16_at k d ≡ ok (v, d)
  unfolding uint16_at ◌>>=◌
  uint16_at_holds room f b = ground arith

  pub byte_at_holds : d.pc + k < 2 ^ 32 → Holds d.op_buf d.pc k (v ∷ []) → byte_at k d ≡ ok (v, d)
  unfolding byte_at ◌>>=◌
  byte_at_holds room b = ground arith

pub first_two : {A B C : Type 0} → A × (B × C) → A × (B × Unit {0})
first_two (a, (b, c)) = (a, (b, tt))

pub first_four : {A B C D E : Type 0} → A × (B × (C × (D × E))) → A × (B × (C × (D × Unit {0})))
first_four (a, (b, (c, (d, e)))) = (a, (b, (c, (d, tt))))

-- The decoder stands before the bytes of `o`, and its program counter cannot wrap on them.
abbrev pub At : OpDecoder → Operands → Type 0
At d o = Holds d.op_buf d.pc 0 (encode o) × (d.pc + length (encode o) < 2 ^ 32)
