-- ===== src/Machine/Sound/Run.antt =====
-- Every operation, every step and every run of the machine is sound.
use side_eye_go.Prelude.{
  ℕ, zero, suc, List, Keeps, Keeps-bind, Keeps-pure, Keeps-choose, refl, M, Bool,
}
use side_eye_go.Framing.{QueueEntry}
use side_eye_go.OpDecoder.OpCode.{OpCode}
use side_eye_go.OpDecoder.Keeps.{pop_op_code-Runs, set_pc-Runs}
use side_eye_go.Program.{SnapshotProgram}
use side_eye_go.Queue.{Queue}
use side_eye_go.Queue.Inv.{Inv}
use side_eye_go.OutBuf.{OutBuf}
use side_eye_go.OutBuf.Bounds.{Fits}
use side_eye_go.Resolver.{GoRuntimeTypeResolver}
use side_eye_go.Machine.State.{new_machine, Machine, Outcome, next, returned}
use side_eye_go.Machine.Run.{Env, execute, step, go_on, run_loop, run, max_steps}
use side_eye_go.Machine.Sound.{Sound, on_decoder-Sound, modify-Sound}
use side_eye_go.Machine.Sound.Control
use side_eye_go.Machine.Sound.Enqueue
use side_eye_go.Machine.Sound.Data
use side_eye_go.Machine.Sound.Context

module _ {c : ℕ} {prog : List ℕ} {handed : List QueueEntry} (env : Env) where
  execute-Sound : (code : OpCode) → Keeps (Sound c prog handed) (execute env code)
  unfolding execute
  execute-Sound OpCode.invalid = Keeps-pure _
  execute-Sound OpCode.call = Control.op_call-Sound
  execute-Sound OpCode.cond_jump = Control.op_cond_jump-Sound
  execute-Sound OpCode.decrement = Control.op_decrement-Sound
  execute-Sound OpCode.enqueue_empty_interface =
      Enqueue.op_enqueue_empty_interface-Sound env.process env.program
  execute-Sound OpCode.enqueue_interface =
      Enqueue.op_enqueue_interface-Sound env.process env.program
  execute-Sound OpCode.enqueue_pointer = Enqueue.op_enqueue_pointer-Sound
  execute-Sound OpCode.enqueue_slice_header = Enqueue.op_enqueue_slice_header-Sound
  execute-Sound OpCode.enqueue_string_header = Enqueue.op_enqueue_string_header-Sound
  execute-Sound OpCode.enqueue_hmap_header = Enqueue.op_enqueue_hmap_header-Sound
  execute-Sound OpCode.jump = Control.op_jump-Sound
  execute-Sound OpCode.pop = Control.op_pop-Sound
  execute-Sound OpCode.push_imm = Control.op_push_imm-Sound
  execute-Sound OpCode.push_offset = Control.op_push_offset-Sound
  execute-Sound OpCode.push_slice_len = Control.op_push_slice_len-Sound
  execute-Sound OpCode.return = Control.op_return-Sound
  execute-Sound OpCode.set_offset = Control.op_set_offset-Sound
  execute-Sound OpCode.advance_offset = Control.op_advance_offset-Sound
  execute-Sound OpCode.dereference_cfa_offset = Data.op_dereference_cfa_offset-Sound env.process
  execute-Sound OpCode.copy_from_register = Data.op_copy_from_register-Sound
  execute-Sound OpCode.zero_fill = Data.op_zero_fill-Sound
  execute-Sound OpCode.prepare_frame_data = Data.op_prepare_frame_data-Sound env.depth
  execute-Sound OpCode.illegal = Control.op_illegal-Sound env.process env.entry_pc
  execute-Sound OpCode.prepare_event_data = Keeps-pure _
  execute-Sound OpCode.conclude_frame_data = Data.op_conclude_frame_data-Sound
  execute-Sound OpCode.chase_pointers = Keeps-pure _
  execute-Sound OpCode.prepare_go_context =
      Context.op_prepare_go_context-Sound env.process env.program env.context_fuel
  execute-Sound OpCode.traverse_go_context = Keeps-pure _
  execute-Sound OpCode.conclude_go_context = Keeps-pure _
  execute-Sound OpCode.set_presence_bit = Data.op_set_presence_bit-Sound
  execute-Sound OpCode.enqueue_swiss_map = Enqueue.op_enqueue_swiss_map-Sound
  execute-Sound OpCode.enqueue_swiss_map_groups = Enqueue.op_enqueue_swiss_map_groups-Sound
  execute-Sound OpCode.enqueue_subroutine =
      Enqueue.op_enqueue_subroutine-Sound env.process env.program
  execute-Sound OpCode.save_expr_result = Data.op_save_expr_result-Sound
  execute-Sound OpCode.dereference_ptr = Data.op_dereference_ptr-Sound env.process
  execute-Sound OpCode.prepare_expr_eval = Data.op_prepare_expr_eval-Sound
  execute-Sound OpCode.prepare_pointee_data = Data.op_prepare_pointee_data-Sound
  execute-Sound (OpCode.unknown b) = Keeps-pure _

  go_on-Sound :
      (r : Outcome) (rest : M Machine Bool)
      → Keeps (Sound c prog handed) rest
      → Keeps (Sound c prog handed) (go_on r rest)
  unfolding go_on
  go_on-Sound next rest k = k
  go_on-Sound (returned ok) rest k = Keeps-pure ok

  step-Sound : Keeps (Sound c prog handed) (step env)
  unfolding step
  step-Sound = Keeps-bind _ _ (on_decoder-Sound _ (pop_op_code-Runs prog)) execute-Sound

  run_loop-Sound : (n : ℕ) → Keeps (Sound c prog handed) (run_loop env n)
  unfolding run_loop
  run_loop-Sound zero = Keeps-pure _
  run_loop-Sound (suc n) =
      let rest : Keeps (Sound c prog handed) (run_loop env n) = run_loop-Sound n in
      Keeps-bind _ _ step-Sound λ r. go_on-Sound r _ rest

  pub run-Keeps : (cfa offset : ℕ) → Keeps (Sound c prog handed) (run env cfa offset)
  unfolding run
  run-Keeps cfa offset =
      Keeps-bind _ _ (on_decoder-Sound _ (set_pc-Runs prog env.entry_pc)) λ moved.
        Keeps-choose moved _ _
          (λ e.
            Keeps-bind _ _ (modify-Sound _ λ s. (refl, refl, refl)) λ u. run_loop-Sound max_steps)
          (λ e. Keeps-pure _)

-- A new machine is sound with a buffer within its capacity and a well-formed queue.
pub new_machine-Sound :
    (p : SnapshotProgram) (q : Queue) (b : OutBuf) (g : GoRuntimeTypeResolver) (c : ℕ)
    (handed : List QueueEntry)
    → Fits c b
    → Inv q handed
    → Sound c p.prog handed (new_machine p q b g)
unfolding new_machine
new_machine-Sound p q b g c handed fits v = record { buffer = fits; program = refl; queue = v }
