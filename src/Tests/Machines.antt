-- ===== src/Tests/Machines.antt =====
-- internal/snapshot/stack_machine.go and the resolver of snapshot.go on a small program.
use side_eye_go.Prelude.{
  ◌≡◌, refl, arith, false, some, none, [], ◌∷◌, ok, if◌then◌else◌, add64, ◌==◌, ◌>>=◌,
}
use side_eye_go.Prelude.{ltb, leb}
use side_eye_go.Memory.{Process, peek_word, all_mapped, peek_at, word}
use side_eye_go.Program.{SnapshotProgram}
use side_eye_go.OutBuf.{OutBuf}
use side_eye_go.Queue.{make_queue}
use side_eye_go.Queue.Inv.{make_queue-Inv}
use side_eye_go.Resolver.{GoRuntimeTypeResolver, ModuledataConfig, resolve_type_address}
use side_eye_go.Resolver.Ranges.{offset_in, resolve_type_address_first}
use side_eye_go.OpDecoder.Decode.{decode_call, uint32_at, advance}
use side_eye_go.Machine.State.{Machine, new_machine, next}
use side_eye_go.Machine.Control.{op_call, op_return}
use side_eye_go.Machine.Calls.{op_return-op_call}
use side_eye_go.Machine.Run.{Env}
use side_eye_go.Machine.Sound.{Sound}
use side_eye_go.Machine.Sound.Run.{new_machine-Sound}

-- The two words of the module data, at 4096 and 4104: types from 8192 to 12288.
abbrev process : Process
process = record {
  peek = λ a.
      if a == 4097
      then some 32
      else if a == 4105
      then some 48
      else if leb 4096 a
      then if ltb a 4112 then some 0 else none
      else none;
  torn = λ src n i. false;
}

abbrev config : ModuledataConfig
config = record { first_moduledata = 4096; types_offset = 0; etypes_offset = 8 }

abbrev resolver : GoRuntimeTypeResolver
resolver = record { cfg = config; cached = record { start = 0; end = 0 } }

-- A call of 6, a return, and at 6: a push of 5, a pop and a return.
abbrev program : SnapshotProgram
program = record {
  pc_classifier = record { target_pc = []; prog_pc = [] };
  subroutine_classifier = record { unresolved_subroutine_type = 0; entry_pc = []; type_id = [] };
  go_runtime_type_to_type_id = λ a. none;
  type_info = λ t. none;
  prog = 1 ∷ 6 ∷ 0 ∷ 0 ∷ 0 ∷ 15 ∷ 12 ∷ 5 ∷ 0 ∷ 0 ∷ 0 ∷ 11 ∷ 15 ∷ [];
}

abbrev buffer : OutBuf
buffer = record { mem = λ j. 0; cap = 64; len = 0; is_full = false }

abbrev machine : Machine
machine = new_machine program make_queue buffer resolver

abbrev env : Env
env = record { process = process; program = program; context_fuel = 10; entry_pc = 0; depth = 0 }

machine-Sound : Sound 64 program.prog [] machine
machine-Sound =
    new_machine-Sound program make_queue buffer resolver 64 []
      (record { capacity = refl; within_cap = omega arith }) make_queue-Inv

-- The machine behind the code of the call, and in the routine.
abbrev caller : Machine
caller = record machine { decoder = record { pc = 1; op_buf = program.prog } }

abbrev callee : Machine
callee = record machine { stack = 5 ∷ []; decoder = record { pc = 13; op_buf = program.prog } }

decoded_call :
    decode_call caller.decoder ≡ ok (record { pc = 6 }, record { pc = 5; op_buf = program.prog })
unfolding decode_call uint32_at advance ◌>>=◌
decoded_call = refl

op_return-op_call_example :
    (op_call caller
      ≡ ok (
        next,
        record caller { stack = 5 ∷ []; decoder = record { pc = 6; op_buf = program.prog } },
      ))
    × (op_return callee
        ≡ ok (
          next,
          record callee { stack = []; decoder = record { pc = 5; op_buf = program.prog } },
        ))
unfolding new_machine
op_return-op_call_example =
    op_return-op_call caller callee (record { pc = 6 }) (record { pc = 5; op_buf = program.prog })
      decoded_call (omega arith) (omega arith) refl refl

-- A walk at 1, behind another code.
abbrev walker : Machine
walker = record machine {
  decoder = record { pc = 0; op_buf = 11 ∷ 17 ∷ 8 ∷ 0 ∷ 0 ∷ 0 ∷ 3 ∷ 2 ∷ 1 ∷ 0 ∷ 0 ∷ 0 ∷ 15 ∷ [] };
}

types_word : peek_word process (add64 4096 0) 8 ≡ some 8192
unfolding peek_word all_mapped peek_at word
types_word = refl

etypes_word : peek_word process (add64 4096 8) 8 ≡ some 12288
unfolding peek_word all_mapped peek_at word
etypes_word = refl

resolve_type_address_first_example :
    (m' : GoRuntimeTypeResolver) × (m'.cached ≡ record { start = 8192; end = 12288 })
    × (resolve_type_address process 8200 resolver ≡ ok (offset_in m'.cached 8200, m'))
    × (resolve_type_address process 20000 m' ≡ ok (offset_in m'.cached 20000, m'))
resolve_type_address_first_example =
    resolve_type_address_first process 8200 20000 8192 12288 resolver refl types_word etypes_word
      (omega arith)
