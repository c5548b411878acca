-- ===== src/Unwinder.antt =====
-- internal/snapshot/unwinder.go, with the `adjustCFA` of unwinder_amd64.go and unwinder_arm64.go,
-- and the hash of a stack in internal/snapshot/snapshot.go.
-- The two arrays of the unwinder are lists here: only the parts below `numFrames` are used.
pub mod Walk
use side_eye_go.Prelude.{
  ℕ, zero, suc, ◌+◌, ◌/◌, ◌^◌, Bool, true, false, List, [], ◌∷◌, Option, some, none, map, ◌==◌,
  if◌then◌else◌,
}
use side_eye_go.Prelude.{length, u64, add64, sub64, mul64, bit_xor}
use side_eye_go.Memory.{Process, raw_dereference, word}

pub record CallFrame : Type 0 where
  pub fp : ℕ
  pub pc : ℕ

pub data Arch : Type 0 where
  amd64 arm64 : Arch

abbrev pub max_stack_frames : ℕ
max_stack_frames = 512

-- `adjustCFA` of arm64 sets each entry from the one behind it, in ascending order.
unfoldable pub adjust_cfa_arm64 : List ℕ → ℕ → List ℕ
adjust_cfa_arm64 [] stack_top_sp = []
adjust_cfa_arm64 (fp ∷ []) stack_top_sp = stack_top_sp ∷ []
adjust_cfa_arm64 (fp ∷ next ∷ fps) stack_top_sp =
    add64 next 8 ∷ adjust_cfa_arm64 (next ∷ fps) stack_top_sp

unfoldable pub adjust_cfa : Arch → List ℕ → ℕ → List ℕ
adjust_cfa amd64 fps stack_top_sp = map (λ fp. add64 fp 16) fps
adjust_cfa arm64 fps stack_top_sp = adjust_cfa_arm64 fps stack_top_sp

module _ (p : Process) where
  -- The frame that `Dereference` copies to `frameBuf`.
  unfoldable pub read_frame : ℕ → Option CallFrame
  read_frame addr =
      let (m, done) = raw_dereference p 0 addr 16 (λ i. 0) in
      if done then some (record { fp = word m 0 8; pc = word m 8 8 }) else none

  -- The loop of `walkStack`, with room for `n` frames more.
  unfoldable pub walk_loop : ℕ → ℕ → List CallFrame
  walk_loop zero next_call_frame = []
  walk_loop (suc n) next_call_frame =
      if next_call_frame == 0 then [] else elim (read_frame next_call_frame) [
        | none ↦ []
        | some frame ↦ frame ∷ walk_loop n frame.fp
      ]

  -- The result for a nil frame pointer is not adjusted, as in the source.
  unfoldable pub walk_stack : Arch → ℕ → ℕ → ℕ → ℕ → List ℕ × List ℕ
  walk_stack arch base pc fp stack_top_sp =
      if fp == 0
      then (pc ∷ [], fp ∷ [])
      else let frames : List CallFrame = walk_loop 511 fp in
        (
          map (λ c. sub64 c base) (pc ∷ map (λ f. f.pc) frames),
          adjust_cfa arch (fp ∷ map (λ f. f.fp) frames) stack_top_sp,
        )

-- One round of the loop of `murmur2`.
unfoldable pub murmur2_round : ℕ → ℕ → ℕ
murmur2_round hash pc =
    let m : ℕ = 14313749767032793493 in
    let k : ℕ = mul64 pc m in
    let k2 : ℕ = mul64 (bit_xor k (k / 2 ^ 47)) m in mul64 (bit_xor hash k2) m

unfoldable pub murmur2_loop : List ℕ → ℕ → ℕ
murmur2_loop [] hash = hash
murmur2_loop (pc ∷ stack) hash = murmur2_loop stack (murmur2_round hash pc)

unfoldable pub murmur2 : List ℕ → ℕ → ℕ
murmur2 stack seed =
    murmur2_loop stack (bit_xor seed (mul64 (u64 (length stack)) 14313749767032793493))
