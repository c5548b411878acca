-- ===== src/Tests/Worlds.antt =====
-- StopTheWorld at a concrete configuration.
use side_eye_go.Prelude.{ℕ, ◌+◌, ◌≡◌, refl, arith, true, false, some, []}
use side_eye_go.Go.{message, failed}
use side_eye_go.Snapshotter.{RuntimeConfig}
use side_eye_go.StopTheWorld.{
  no_signal_state, Runtime, Exit, recovered, stop_the_world, platform_supported, succeeded,
}
use side_eye_go.StopTheWorld.Laws.{Ready, stop_the_world_restores}

-- An executable in which Dereference starts at 5000.
abbrev config : RuntimeConfig
config = record {
  g_go_buf_pc_offset = 0;
  g_go_buf_bp_offset = 8;
  g_goid_offset = 16;
  g_atomicstatus_offset = 24;
  g_stktopsp_offset = 32;
  variable_runtime_dot_allgs = 9000;
  moduledata_bss_offset = 16;
  variable_runtime_dot_memstats = 9100;
  mstats_last_gc_unix_offset = 8;
  go_runtime_bss_address = 8900;
  static_variables = [];
  dereference_start_pc = 5000;
  dereference_end_pc = 5060;
  stop_the_world_start_addr = 4000;
  start_the_world_start_addr = 4200;
}

abbrev idle : Runtime
idle = record {
  signal = no_signal_state;
  thread_locks = 2;
  mu_locked = false;
  handler_set = false;
  world_stopped = false;
}

-- A function that is cut short, at a pc that depends on what it sees.
abbrev look : Runtime → ℕ → Exit × ℕ
look rt n = (recovered, n + rt.signal.dereference_start)

run_of_look : stop_the_world 4500 (7, 64) config look idle 1 ≡ (recovered, idle, 4501)
unfolding stop_the_world
run_of_look = refl

look_failed : succeeded (stop_the_world 4500 (7, 64) config look idle 1).0 ≡ some false
unfolding stop_the_world
look_failed = refl

unsupported :
    platform_supported true false ≡ failed (message "OS/architecture combination not supported")
unfolding platform_supported
unsupported = refl

stop_the_world_restores_example :
    let r = stop_the_world 4500 (7, 64) config look idle 1 in
    (r.1 ≡ idle) × ((inside : Runtime) × ((r.0, r.2) ≡ look inside 1) × Ready 4500 config inside)
stop_the_world_restores_example =
    stop_the_world_restores 4500 (7, 64) config look idle 1 (omega arith)
      (record { signal_is = refl; mu_is = refl; handler_is = refl; world_is = refl })
