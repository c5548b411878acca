-- ===== src/Machine/Loops.antt =====
-- Loops of a program: `OpCodeAdvanceOffset`, `OpCodeDecrement` and `OpCodeCondJump` back, as in the walk
-- over the elements of an array.
use side_eye_go.Prelude.{ℕ, ◌+◌, List, ◌∷◌}
use side_eye_go.OpDecoder.OpCode.{OpCode, code_byte}
use side_eye_go.OpDecoder.Encoding.{Operands, encode, Holds}
use side_eye_go.Machine.State.{Machine}

-- An instruction stands in the program.
abbrev pub Stands : List ℕ → ℕ → OpCode → Operands → Type 0
Stands buf pc code o = Holds buf pc 0 (code_byte code ∷ encode o)

-- A loop at `pc`: advance by `inc`, decrement, and jump back to it.
abbrev pub IsWalk : List ℕ → ℕ → ℕ → Type 0
IsWalk buf pc inc =
    Stands buf pc OpCode.advance_offset (Operands.advance_offset (record { increment = inc }))
    × Stands buf (pc + 5) OpCode.decrement Operands.none
    × Stands buf (pc + 6) OpCode.cond_jump (Operands.cond_jump (record { pc = pc }))

-- The machine `s` at a program counter, with an offset and a stack.
abbrev pub at : Machine → ℕ → ℕ → List ℕ → Machine
at s pc o st = record s { stack = st; offset = o; decoder = record s.decoder { pc = pc } }
