-- ===== src/Tests/Snapshots.antt =====
-- internal/snapshot/snapshot.go and unwinder.go on a small process.
use side_eye_go.Prelude.{
  ◌≡◌, ◌≤◌, ◌⊎◌, ◌==◌, refl, arith, true, false, some, none, [], ◌∷◌, length, Returns, leb, ltb,
  if◌then◌else◌,
}
use side_eye_go.Memory.{Process}
use side_eye_go.Program.{SnapshotProgram}
use side_eye_go.OutBuf
use side_eye_go.OutBuf.{OutBuf}
use side_eye_go.Queue
use side_eye_go.Queue.{make_queue}
use side_eye_go.Queue.Inv.{make_queue-Inv}
use side_eye_go.Resolver.{GoRuntimeTypeResolver}
use side_eye_go.Unwinder.{arm64, walk_stack}
use side_eye_go.Unwinder.Walk.{walk_stack-bounds}
use side_eye_go.Machine.State.{new_machine}
use side_eye_go.Machine.Sound.Run.{new_machine-Sound}
use side_eye_go.Snapshotter.{Target, Snapshotter}
use side_eye_go.Snapshotter.Pointers.{drain, process_queue}
use side_eye_go.Snapshotter.Sane.{Sane}
use side_eye_go.Snapshotter.Take.{Durations, snapshot}
use side_eye_go.Snapshotter.Header.{Reports, snapshot-Reports}
use side_eye_go.Snapshotter.{classify}
use side_eye_go.Program.{PcClassifier}
use side_eye_go.Snapshotter.Classify.{frames_of, IsFrame, classify_scans}
use side_eye_go.Prelude.{stop, panic}
use side_eye_go.Snapshotter.Ends.{process_queue_ends}
use side_eye_go.Prelude.{◌+◌, ◌^◌, All, ok, List, ℕ}

-- A stack of two frames: 4096 points to 4112, and that to nil; the pages hold zeroes otherwise.
abbrev process : Process
process = record {
  peek = λ a.
      if a == 4096
      then some 16
      else if a == 4097
      then some 16
      else if leb 4096 a
      then if ltb a 8192 then some 0 else none
      else none;
  torn = λ src n i. false;
}

abbrev program : SnapshotProgram
program = record {
  pc_classifier = record { target_pc = []; prog_pc = [] };
  subroutine_classifier = record { unresolved_subroutine_type = 0; entry_pc = []; type_id = [] };
  go_runtime_type_to_type_id = λ a. none;
  type_info = λ t. none;
  prog = 15 ∷ [];
}

abbrev target : Target
target = record {
  process = process;
  program = program;
  config = record {
    g_go_buf_pc_offset = 0;
    g_go_buf_bp_offset = 8;
    g_goid_offset = 16;
    g_atomicstatus_offset = 24;
    g_stktopsp_offset = 32;
    variable_runtime_dot_allgs = 9000;
    moduledata_bss_offset = 16;
    variable_runtime_dot_memstats = 9100;
    mstats_last_gc_unix_offset = 8;
    go_runtime_bss_address = 8900;
    static_variables = [];
    dereference_start_pc = 700;
    dereference_end_pc = 760;
    stop_the_world_start_addr = 1000;
    start_the_world_start_addr = 1200;
  };
  arch = arm64;
  base = 0;
  context_fuel = 10;
}

-- A process whose `.bss` is at 4800, with one waiting goroutine, at 6000.
abbrev bss_process : Process
bss_process = record {
  peek = λ a.
      if a == 4112
      then some 192
      else if a == 4113
      then some 18
      else if a == 5000
      then some 112
      else if a == 5001
      then some 23
      else if a == 5008
      then some 1
      else if a == 6024
      then some 4
      else if a == 6009
      then some 27
      else if a == 6001
      then some 30
      else process.peek a;
  torn = λ src n i. false;
}

abbrev bss_target : Target
bss_target = record target {
  process = bss_process;
  config = record target.config {
    variable_runtime_dot_allgs = 5000;
    go_runtime_bss_address = 4800;
    variable_runtime_dot_memstats = 4900;
  };
}

abbrev buffer : OutBuf
buffer = record { mem = λ j. 0; cap = 1024; len = 56; is_full = false }

abbrev resolver : GoRuntimeTypeResolver
resolver = record {
  cfg = record { first_moduledata = 4096; types_offset = 0; etypes_offset = 8 };
  cached = record { start = 0; end = 0 };
}

abbrev snapshotter : Snapshotter
snapshotter = record { stacks = []; sm = new_machine program make_queue buffer resolver }

snapshotter-Sane : Sane 1024 program.prog snapshotter
snapshotter-Sane = record {
  handed = [];
  sound =
      new_machine-Sound program make_queue buffer resolver 1024 []
        (record { capacity = refl; within_cap = omega arith }) make_queue-Inv;
}

walk_stack-bounds_example :
    (length (walk_stack process arm64 0 77 4096 8000).0
      ≡ length (walk_stack process arm64 0 77 4096 8000).1)
    × (1 ≤ length (walk_stack process arm64 0 77 4096 8000).0)
    × (length (walk_stack process arm64 0 77 4096 8000).0 ≤ 512)
walk_stack-bounds_example = walk_stack-bounds process arm64 0 77 4096 8000

abbrev durations : Durations
durations = record { stacks = 5; pointers = 7; total = 12 }

abbrev classifier : PcClassifier
classifier = record { target_pc = 10 ∷ 20 ∷ 30 ∷ []; prog_pc = 5 ∷ 0 ∷ 7 ∷ [] }

abbrev stack_pcs : List ℕ
stack_pcs = 25 ∷ 15 ∷ 31 ∷ 10 ∷ []

frames_of_stack :
    frames_of classifier 0 stack_pcs ≡ record { idx = 0; pc = 7 } ∷ record { idx = 3; pc = 5 } ∷ []
frames_of_stack = refl

classify_scans_example :
    (classify classifier 0 stack_pcs snapshotter
      ≡ ok (frames_of classifier 0 stack_pcs, snapshotter))
    × All (λ f. IsFrame 0 (length stack_pcs) f) (frames_of classifier 0 stack_pcs)
classify_scans_example =
    classify_scans classifier stack_pcs snapshotter
      ((omega arith, (omega arith, tt)), ((omega arith, tt), (tt, tt))) refl

process_queue_ends_example :
    (process_queue bss_target (2 ^ 96 + 1) snapshotter
      ≡ drain bss_target (stop panic) (2 ^ 96 + 1) snapshotter)
    × Returns
        (λ u s'. (OutBuf.full s'.sm.b ≡ true) ⊎ (Queue.len_of s'.sm.q ≡ 0))
        (process_queue bss_target (2 ^ 96 + 1) snapshotter)
process_queue_ends_example =
    process_queue_ends bss_target 1024 program.prog (2 ^ 96 + 1) snapshotter snapshotter-Sane
      (omega arith) (stop panic)

snapshot-Reports_example :
    Returns
      (λ r s'. Reports (OutBuf.len_of snapshotter.sm.b) r s'.sm.b)
      (snapshot bss_target 4096 3 durations snapshotter)
snapshot-Reports_example =
    snapshot-Reports bss_target 4096 3 1024 durations program.prog snapshotter snapshotter-Sane
      (omega arith)
