-- ===== src/Snapshotter.antt =====
-- The snapshotter of internal/snapshot/snapshot.go: a goroutine's stack and frames.
-- The reads of a goroutine's fields are those of internal/allgs/traceback.go.
pub mod Pointers
pub mod Held
pub mod Sane
pub mod Drain
pub mod Ends
pub mod Classify
pub mod Take
pub mod Taken
pub mod Header
use side_eye_go.Prelude.{
  ℕ, zero, suc, ◌+◌, ◌-◌, ◌^◌, Bool, true, false, ◌&&◌, not, List, [], ◌∷◌, ◌++◌, Option, some,
  none, ◌==◌, if◌then◌else◌, ltb, leb,
}
use side_eye_go.Prelude.{length, get_elem?, add32, sub32, add64, bit_and}
use side_eye_go.Prelude.{
  M, ok, trap, fault, stuck, pure, stop, get, modify, demand, choose, on_option, zoom, ◌>>=◌, ◌>>◌,
}
use side_eye_go.Memory.{Process, peek_word, or_zero}
use side_eye_go.Framing.{QueueEntry}
use side_eye_go.Program.{SnapshotProgram, PcClassifier, TypeInfo}
use side_eye_go.Search.{sort_search}
use side_eye_go.OutBuf
use side_eye_go.OutBuf.{OutBuf, load, store}
use side_eye_go.OutBuf.Framed.{write_goroutine_header, write_stack, write_queue_entry}
use side_eye_go.Queue
use side_eye_go.Unwinder.{Arch, walk_stack, murmur2}
use side_eye_go.Machine.State.{Machine, on_buf, on_queue}
use side_eye_go.Machine.Run.{Env, run}

pub record StaticVariable : Type 0 where
  pub type_id : ℕ
  pub address : ℕ

-- `RuntimeConfig` of internal/snapshotpb, where the code reads it: addresses in the program and
-- offsets into the runtime's structures.
pub record RuntimeConfig : Type 0 where
  pub g_go_buf_pc_offset : ℕ
  pub g_go_buf_bp_offset : ℕ
  pub g_goid_offset : ℕ
  pub g_atomicstatus_offset : ℕ
  pub g_stktopsp_offset : ℕ
  pub variable_runtime_dot_allgs : ℕ
  pub moduledata_bss_offset : ℕ
  pub variable_runtime_dot_memstats : ℕ
  pub mstats_last_gc_unix_offset : ℕ
  pub go_runtime_bss_address : ℕ
  pub static_variables : List StaticVariable
  pub dereference_start_pc : ℕ
  pub dereference_end_pc : ℕ
  pub stop_the_world_start_addr : ℕ
  pub start_the_world_start_addr : ℕ

pub record FrameOfInterest : Type 0 where
  pub idx : ℕ
  pub pc : ℕ

-- `stacks` is an association list; the queue, the buffer and the resolver are parts of `sm`.
pub record Snapshotter : Type 0 where
  pub stacks : List (ℕ × List FrameOfInterest)
  pub sm : Machine

-- What does not change: the process, the program, the offsets, the architecture, the address of the
-- text section, and the fuel of the model.
pub record Target : Type 0 where
  pub process : Process
  pub program : SnapshotProgram
  pub config : RuntimeConfig
  pub arch : Arch
  pub base : ℕ
  pub context_fuel : ℕ

unfoldable pub on_machine : {A : Type 0} → M Machine A → M Snapshotter A
on_machine m = zoom (λ s. s.sm) (λ s sm. record s { sm = sm }) m

-- A plain read of `k` bytes of the process.
unfoldable pub read_field : Process → ℕ → ℕ → M Snapshotter ℕ
read_field p k addr s = elim (peek_word p addr k) [ none ↦ trap fault | some v ↦ ok (v, s) ]

-- A map look-up.
unfoldable pub find_stack : ℕ → List (ℕ × List FrameOfInterest) → Option (List FrameOfInterest)
find_stack hash [] = none
find_stack hash ((h, frames) ∷ stacks) =
    let rest = find_stack hash stacks in if h == hash then some frames else rest

unfoldable pub remember_stack : ℕ → List FrameOfInterest → Snapshotter → Snapshotter
remember_stack hash frames s = record s { stacks = (hash, frames) ∷ s.stacks }

-- `snapshotHeader.Statistics.…++`, at the offset of the field in the buffer.
unfoldable pub count_at : ℕ → M Snapshotter (Unit {0})
count_at offset = on_machine (do n ← on_buf (load 4 offset); on_buf (store 4 offset (add32 n 1)))

-- The frames of the stack from index `i` on that the classifier has a program for.
unfoldable pub classify : PcClassifier → ℕ → List ℕ → M Snapshotter (List FrameOfInterest)
classify c i [] = pure []
classify c i (pc ∷ pcs) = do
  let j = sort_search (length c.target_pc) (λ j. leb pc (or_zero (get_elem? c.target_pc j)))
  rest ← classify c (i + 1) pcs
  choose (ltb j (length c.target_pc))
      (do
        prog_pc ← demand (get_elem? c.prog_pc j)
        pure (if prog_pc == 0 then rest else record { idx = i; pc = prog_pc } ∷ rest))
      (pure rest)

unfoldable pub reverse_onto : List FrameOfInterest → List FrameOfInterest → List FrameOfInterest
reverse_onto [] done = done
reverse_onto (f ∷ fs) done = reverse_onto fs (f ∷ done)

-- `*goroutineHeader = framing.GoroutineHeader{…}`.
unfoldable pub fill_header : ℕ → ℕ → ℕ → ℕ → ℕ → ℕ → M OutBuf (Unit {0})
fill_header header goid stack_hash status stack_bytes data_byte_len = do
  store 8 header goid
  store 8 (header + 8) stack_hash
  store 4 (header + 16) status
  store 1 (header + 20) 0
  store 8 (header + 24) 0
  store 4 (header + 32) stack_bytes
  store 4 (header + 36) data_byte_len

module _ (t : Target) where
  open t use {process, program, config, arch, base, context_fuel}

  unfoldable pub env_at : ℕ → ℕ → Env
  env_at entry_pc depth = record {
    process = process;
    program = program;
    context_fuel = context_fuel;
    entry_pc = entry_pc;
    depth = depth;
  }

  -- The loop over the frames of interest, with the last of them first.
  unfoldable pub run_frames : List FrameOfInterest → List ℕ → M Snapshotter (Unit {0})
  run_frames [] fps = pure tt
  run_frames (foi ∷ frames) fps = do
    fp ← demand (get_elem? fps foi.idx)
    s ← get
    done ← on_machine (run (env_at foi.pc foi.idx) fp (OutBuf.len_of s.sm.b))
    choose done (run_frames frames fps) (pure tt)

  -- The frames of interest of a stack and the bytes written for it; nothing where there was no room.
  unfoldable pub frames_for : ℕ → List ℕ → M Snapshotter (Option (List FrameOfInterest × ℕ))
  frames_for hash pcs = do
    s ← get
    on_option (find_stack hash s.stacks)
        (do
          (stack_bytes, done) ← on_machine (on_buf (write_stack pcs))
          choose done
              (do
                frames ← classify program.pc_classifier 0 pcs
                modify (remember_stack hash frames)
                pure (some (frames, stack_bytes)))
              (pure none))
        (λ frames. pure (some (frames, 0)))

  unfoldable pub snapshot_live : ℕ → ℕ → M Snapshotter (Unit {0})
  snapshot_live g status = do
    pc ← read_field process 8 (add64 g config.g_go_buf_pc_offset)
    bp ← read_field process 8 (add64 g config.g_go_buf_bp_offset)
    stktopsp ← read_field process 8 (add64 g config.g_stktopsp_offset)
    let stack = walk_stack process arch base pc bp stktopsp
    let stack_hash = murmur2 stack.0 0
    (header, room) ← on_machine (on_buf write_goroutine_header)
    choose room
        (do
          s ← get
          let after_header = OutBuf.len_of s.sm.b
          found ← frames_for stack_hash stack.0
          on_option found (pure tt) (λ fs. do
            run_frames (reverse_onto fs.0 []) stack.1
            goid ← read_field process 8 (add64 g config.g_goid_offset)
            s ← get
            on_machine (
                on_buf (
                  fill_header header goid stack_hash status fs.1
                    (sub32 (OutBuf.len_of s.sm.b) after_header)))))
        (pure tt)

  -- The two counters of the snapshot header are at offsets 32 and 36 behind its start.
  unfoldable pub snapshot_goroutine : ℕ → ℕ → M Snapshotter (Unit {0})
  snapshot_goroutine snapshot_header g = do
    s ← get
    choose (OutBuf.full s.sm.b) (pure tt) (do
      raw ← read_field process 4 (add64 g config.g_atomicstatus_offset)
      let status = bit_and raw (2 ^ 32 - 1 - 4096)
      choose (status == 6) (count_at (snapshot_header + 36)) (
          choose (status == 2) (pure tt)
            (do count_at (snapshot_header + 32); snapshot_live g status)))
