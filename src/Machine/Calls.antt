-- ===== src/Machine/Calls.antt =====
-- `OpCodeCall` and `OpCodeReturn` fit together.
use side_eye_go.Prelude.{
  ℕ, ◌<◌, ◌≤◌, ◌≡◌, refl, ap, ◌∙◌, arith, true, false, List, [], ◌∷◌, length, ok, u32, some, none,
}
use side_eye_go.Prelude.{
  M, >>=_ok, zoom_ok, demand-some, pure, get, modify, choose, ◌>>=◌, ltb, if◌then◌else◌, ◌==◌,
  dec_lt, lt→ltb, le→not_ltb, Result,
}
use side_eye_go.OpDecoder.Ops.{OpCall}
use side_eye_go.OpDecoder.Decode.{OpDecoder, decode_call, set_pc}
use side_eye_go.Machine.State.{
  Machine, Outcome, next, returned, on_decoder, top, top?, below, push_value, pop_value, set_top,
}
use side_eye_go.Machine.Control.{goto, execute_return, op_call, op_return}

pub set_pc_inside :
    (pc : ℕ) (d : OpDecoder)
    → pc < u32 (length d.op_buf)
    → set_pc pc d ≡ ok (true, record d { pc = pc })
unfolding set_pc ◌>>=◌
set_pc_inside pc d h = ground arith

set_pc_outside : (pc : ℕ) (d : OpDecoder) → u32 (length d.op_buf) ≤ pc → set_pc pc d ≡ ok (false, d)
unfolding set_pc ◌>>=◌
set_pc_outside pc d h = ground arith

pub decoder_ok :
    {A : Type 0} (m : M OpDecoder A) (s : Machine) (d : OpDecoder) (a : A)
    → m s.decoder ≡ ok (a, d)
    → on_decoder m s ≡ ok (a, record s { decoder = d })
unfolding on_decoder
decoder_ok m s d a e = zoom_ok (λ s. s.decoder) (λ s d. record s { decoder = d }) m {s = s} e

module _ (s : Machine) (v : ℕ) (st : List ℕ) (e : s.stack ≡ v ∷ st) where
  pub top_ok : top s ≡ ok (v, s)
  unfolding top top? get
  top_ok = >>=_ok _ _ refl ∙ demand-some (ap top? e)

  pop_value_ok : pop_value s ≡ ok (tt, record s { stack = st })
  unfolding pop_value below modify
  pop_value_ok = >>=_ok _ _ top_ok ∙ ap (λ l. ok (tt, record s { stack = l })) (ap below e)

  pub set_top_ok : (w : ℕ) → set_top w s ≡ ok (tt, record s { stack = w ∷ st })
  unfolding set_top push_value modify
  set_top_ok w = >>=_ok _ _ pop_value_ok

  not_empty : length s.stack == 0 ≡ false
  not_empty = rw e (ground arith)

module _ (s : Machine) (pc : ℕ) (st : List ℕ) (e : s.stack ≡ pc ∷ st) where
  abbrev resumed : Machine
  resumed = record s { stack = st; decoder = record s.decoder { pc = pc } }

  execute_inside : pc < u32 (length s.decoder.op_buf) → execute_return s ≡ ok (none, resumed)
  unfolding execute_return pure get choose
  execute_inside inside =
      let moved : Machine = record s { decoder = record s.decoder { pc = pc } } in
      let cleared : Machine = record moved { stack = 0 ∷ st } in
      >>=_ok _ _ refl
      ∙ rw (not_empty s pc st e) (
          >>=_ok _ _ (top_ok s pc st e)
          ∙ >>=_ok _ _ (decoder_ok (set_pc pc) s _ true (set_pc_inside pc s.decoder inside))
          ∙ >>=_ok _ _ (set_top_ok moved pc st e 0)
          ∙ >>=_ok _ _ (pop_value_ok cleared 0 st refl))

  execute_outside : u32 (length s.decoder.op_buf) ≤ pc → execute_return s ≡ ok (some false, s)
  unfolding execute_return pure get choose
  execute_outside outside =
      >>=_ok _ _ refl
      ∙ rw (not_empty s pc st e) (
          >>=_ok _ _ (top_ok s pc st e)
          ∙ >>=_ok _ _ (decoder_ok (set_pc pc) s _ false (set_pc_outside pc s.decoder outside)))

  return_inside : pc < u32 (length s.decoder.op_buf) → op_return s ≡ ok (next, resumed)
  unfolding op_return pure
  return_inside inside = >>=_ok _ _ (execute_inside inside)

  return_outside : u32 (length s.decoder.op_buf) ≤ pc → op_return s ≡ ok (returned false, s)
  unfolding op_return pure
  return_outside outside = >>=_ok _ _ (execute_outside outside)

execute_empty : (s : Machine) → s.stack ≡ [] → execute_return s ≡ ok (some true, s)
unfolding execute_return pure get choose
execute_empty s e = >>=_ok _ _ refl ∙ rw e refl

-- What a return does at a stack.
abbrev pub return_at : Machine → List ℕ → Result (Outcome × Machine)
return_at s [] = ok (returned true, s)
return_at s (pc ∷ st) =
    if ltb pc (u32 (length s.decoder.op_buf))
    then ok (next, record s { stack = st; decoder = record s.decoder { pc = pc } })
    else ok (returned false, s)

return_lem : (s : Machine) (st : List ℕ) → s.stack ≡ st → op_return s ≡ return_at s st
unfolding op_return pure
return_lem s [] e = >>=_ok _ _ (execute_empty s e)
return_lem s (pc ∷ st) e = elim (dec_lt pc (u32 (length s.decoder.op_buf))) [
  | yes inside ↦ rw (lt→ltb _ _ inside) (return_inside s pc st e inside)
  | no outside ↦
      let past : u32 (length s.decoder.op_buf) ≤ pc = omega arith in
      rw (le→not_ltb pc (u32 (length s.decoder.op_buf)) past) (return_outside s pc st e past)
]

-- `OpCodeReturn` takes the address on top of the stack off it and goes on there. With an empty stack
-- the machine stops with success, and with an address outside the program it stops without; it is
-- otherwise as it was.
pub op_return_lem : (s : Machine) → op_return s ≡ return_at s s.stack
op_return_lem s = return_lem s s.stack refl

-- `OpCodeCall` of an address of the program leaves the address behind the instruction on the stack
-- and goes on at its target. `OpCodeReturn` at that stack, in whatever state the machine is
-- otherwise, comes back behind the instruction with the stack as it was before the call.
pub op_return-op_call :
    (s s' : Machine) (call : OpCall) (d : OpDecoder)
    → decode_call s.decoder ≡ ok (call, d)
    → d.pc < u32 (length d.op_buf)
    → call.pc < u32 (length d.op_buf)
    → s'.stack ≡ d.pc ∷ s.stack
    → s'.decoder.op_buf ≡ d.op_buf
    → (op_call s
        ≡ ok (next, record s { stack = d.pc ∷ s.stack; decoder = record d { pc = call.pc } }))
      × (op_return s'
          ≡ ok (next, record s' { stack = s.stack; decoder = record s'.decoder { pc = d.pc } }))
unfolding op_call goto push_value pure get modify
op_return-op_call s s' call d decoded here there stack_is same = (
  >>=_ok _ _ (decoder_ok decode_call s d call decoded)
      ∙ >>=_ok _ _ refl
      ∙ >>=_ok _ _ refl
      ∙ >>=_ok _ _ (
          decoder_ok (set_pc call.pc) (record s { stack = d.pc ∷ s.stack; decoder = d }) _ true
            (set_pc_inside call.pc d there)),
  return_inside s' d.pc s.stack stack_is (rw same here),
)
