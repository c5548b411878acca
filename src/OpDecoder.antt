-- ===== src/OpDecoder.antt =====
-- internal/stackmachine/op_decoder.go: the decoder of the stack machine's byte code.
-- A decoder that reads past the end of the code panics.
pub mod OpCode
pub mod Ops
pub mod Decode
pub mod Encoding
pub mod RoundTrip
pub mod Instruction
pub mod Keeps
