-- ===== src/StopTheWorld.antt =====
-- internal/stoptheworld/stop_the_world.go and platform_supported.go: the state that the signal handler
-- reads, and the order in which StopTheWorld sets things up and undoes them. The assembly of the
-- handler and the Go runtime's own functions are seen by their effect on `Runtime` only.
pub mod Laws
use side_eye_go.Prelude.{
  ℕ, suc, ◌-◌, Bool, true, false, Option, none, some, if◌then◌else◌, add64, sub64, u64,
}
use side_eye_go.Go.{GoError, message, Reply, done, failed, check, ◌>>=◌, ◌>>◌}
use side_eye_go.Snapshotter.{RuntimeConfig}

-- `PlatformSupported`, by what GoVersionSupported and OsArchSupported return.
unfoldable pub platform_supported : Bool → Bool → Reply (Unit {0})
platform_supported version_supported arch_supported = do
  check version_supported (message "go version %s not supported")
  check arch_supported (message "OS/architecture combination not supported")

-- `signalState`, but for its lock and what the assembly alone uses.
pub record SignalState : Type 0 where
  pub dereference_start : ℕ
  pub dereference_end : ℕ
  pub g_ptr : ℕ
  pub recovery_frame_base_offset : ℕ
  pub config : Option RuntimeConfig
  pub stop_the_world_addr : ℕ
  pub start_the_world_addr : ℕ

-- `signalState{}`
abbrev pub no_signal_state : SignalState
no_signal_state = record {
  dereference_start = 0;
  dereference_end = 0;
  g_ptr = 0;
  recovery_frame_base_offset = 0;
  config = none;
  stop_the_world_addr = 0;
  start_the_world_addr = 0;
}

unfoldable pub set_config : RuntimeConfig → ℕ → SignalState → SignalState
set_config config base s = record s {
  config = some config;
  dereference_start = add64 config.dereference_start_pc base;
  dereference_end = add64 config.dereference_end_pc base;
  stop_the_world_addr = add64 config.stop_the_world_start_addr base;
  start_the_world_addr = add64 config.start_the_world_start_addr base;
}

unfoldable pub clear_config : SignalState → SignalState
clear_config s = record s {
  config = none;
  dereference_start = 0;
  dereference_end = 0;
  stop_the_world_addr = 0;
  start_the_world_addr = 0;
}

unfoldable pub clear_recovery_state : SignalState → SignalState
clear_recovery_state s = record s { recovery_frame_base_offset = 0; g_ptr = 0 }

-- What the calls of StopTheWorld change: the state of the package; how often the goroutine is locked
-- to its thread; whether the lock of the state is held, the package's signal handler is set, and the
-- world is stopped.
pub record Runtime : Type 0 where
  pub signal : SignalState
  pub thread_locks : ℕ
  pub mu_locked : Bool
  pub handler_set : Bool
  pub world_stopped : Bool

-- How a function ends: it returns, or the signal handler jumps behind its call in the wrapper, or it
-- panics.
pub data Exit : Type 0 where
  returned recovered panicked : Exit

-- `ComputeTextSectionBaseOffset`, for the address of Dereference.
unfoldable pub compute_text_section_base_offset : ℕ → RuntimeConfig → ℕ
compute_text_section_base_offset dereference_addr config =
    sub64 dereference_addr config.dereference_start_pc

-- Code that changes the runtime and a state of the caller's own.
abbrev pub Body : Type 0 → Type 0
Body S = Runtime → S → Exit × Runtime × S

module _ {S : Type 0} where
  -- A call, and the deferred call that undoes it.
  unfoldable pub deferring : (Runtime → Runtime) → (Runtime → Runtime) → Body S → Body S
  deferring enter leave body rt s = let (exit, rt', s') = body (enter rt) s in (exit, leave rt', s')

  -- `stopTheWorldWrapper`. `recovery` is what setRecoveryState finds out: the goroutine and the offset
  -- of its frame. The function that it calls does not change the runtime.
  unfoldable pub stop_the_world_wrapper : ℕ × ℕ → (Runtime → S → Exit × S) → Body S
  stop_the_world_wrapper recovery f rt s =
      let rt' : Runtime = record rt {
        signal = record rt.signal { g_ptr = recovery.0; recovery_frame_base_offset = recovery.1 };
      } in
      let (exit, s') = f rt' s in (exit, rt', s')

  -- StopTheWorld, where nobody else holds the lock of the state.
  unfoldable pub stop_the_world : ℕ → ℕ × ℕ → RuntimeConfig → (Runtime → S → Exit × S) → Body S
  unfolding compute_text_section_base_offset deferring stop_the_world_wrapper set_config
      clear_config clear_recovery_state
  stop_the_world dereference_addr recovery config f =
      let base = compute_text_section_base_offset dereference_addr config in
      deferring (λ rt. record rt { thread_locks = suc rt.thread_locks })
        (λ rt. record rt { thread_locks = rt.thread_locks - 1 })
        (deferring (λ rt. record rt { mu_locked = true }) (λ rt. record rt { mu_locked = false })
          (deferring (λ rt. record rt { signal = set_config config base rt.signal })
            (λ rt. record rt { signal = clear_config rt.signal })
            (deferring (λ rt. record rt { handler_set = true })
              (λ rt. record rt { handler_set = false })
              (deferring (λ rt. record rt { world_stopped = true })
                (λ rt. record rt { world_stopped = false })
                (deferring (λ rt. rt) (λ rt. record rt { signal = clear_recovery_state rt.signal })
                  (stop_the_world_wrapper recovery f))))))

-- The result of StopTheWorld; `none` where it panics.
abbrev pub succeeded : Exit → Option Bool
succeeded returned = some true
succeeded recovered = some false
succeeded panicked = none
