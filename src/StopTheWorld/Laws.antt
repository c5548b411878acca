-- ===== src/StopTheWorld/Laws.antt =====
-- StopTheWorld of internal/stoptheworld/stop_the_world.go, for any function that it calls.
use side_eye_go.Prelude.{ℕ, suc, ◌-◌, ◌^◌, ◌<◌, ◌≡◌, refl, arith, true, false, some, sub64, add64}
use side_eye_go.Snapshotter.{RuntimeConfig}
use side_eye_go.StopTheWorld.{
  no_signal_state, Runtime, Exit, stop_the_world, compute_text_section_base_offset, deferring,
  stop_the_world_wrapper, set_config, clear_config, clear_recovery_state,
}

-- Nothing is set up.
pub record Idle (rt : Runtime) : Type 0 where
  pub signal_is : rt.signal ≡ no_signal_state
  pub mu_is : rt.mu_locked ≡ false
  pub handler_is : rt.handler_set ≡ false
  pub world_is : rt.world_stopped ≡ false

-- The world is stopped, with the lock held and the handler set, and the handler knows where
-- Dereference begins in this process and how long it is.
pub record Ready (dereference_addr : ℕ) (config : RuntimeConfig) (rt : Runtime) : Type 0 where
  pub mu_is : rt.mu_locked ≡ true
  pub handler_is : rt.handler_set ≡ true
  pub world_is : rt.world_stopped ≡ true
  pub config_is : rt.signal.config ≡ some config
  pub start_is : rt.signal.dereference_start ≡ dereference_addr
  pub length_is :
      sub64 rt.signal.dereference_end rt.signal.dereference_start
      ≡ sub64 config.dereference_end_pc config.dereference_start_pc
  pub stop_is :
      sub64 rt.signal.stop_the_world_addr dereference_addr
      ≡ sub64 config.stop_the_world_start_addr config.dereference_start_pc

restored :
    (rt : Runtime)
    → Idle rt
    → record rt {
      signal = no_signal_state;
      thread_locks = suc rt.thread_locks - 1;
      mu_locked = false;
      handler_set = false;
      world_stopped = false;
    }
      ≡ rt
restored rt idle =
    let locks : suc rt.thread_locks - 1 ≡ rt.thread_locks = omega arith in
    rw (locks, idle.signal_is, idle.mu_is, idle.handler_is, idle.world_is) refl

base_start : (addr pc : ℕ) → addr < 2 ^ 64 → add64 pc (sub64 addr pc) ≡ addr
base_start addr pc h = omega (arith, h)

base_length :
    (addr start pc : ℕ) → addr < 2 ^ 64 → sub64 (add64 pc (sub64 addr start)) addr ≡ sub64 pc start
base_length addr start pc h = omega (arith, h)

-- StopTheWorld runs the function with the world stopped and the signal handler ready, and hands on
-- how it ends and the state that it leaves. Behind it everything is as it was before, whether the
-- function returned, was cut short by the handler, or panicked.
pub stop_the_world_restores :
    {S : Type 0} (dereference_addr : ℕ) (recovery : ℕ × ℕ) (config : RuntimeConfig)
    (f : Runtime → S → Exit × S) (rt : Runtime) (s : S)
    → dereference_addr < 2 ^ 64
    → Idle rt
    → let r = stop_the_world dereference_addr recovery config f rt s in
      (r.1 ≡ rt)
      × ((inside : Runtime) × ((r.0, r.2) ≡ f inside s) × Ready dereference_addr config inside)
unfolding stop_the_world compute_text_section_base_offset deferring stop_the_world_wrapper
    set_config clear_config clear_recovery_state
stop_the_world_restores dereference_addr recovery config f rt s small idle = (
  restored rt idle,
  (
    _,
    refl,
    record {
      mu_is = refl;
      handler_is = refl;
      world_is = refl;
      config_is = refl;
      start_is = base_start dereference_addr config.dereference_start_pc small;
      length_is = omega (arith, small);
      stop_is =
          base_length dereference_addr config.dereference_start_pc config.stop_the_world_start_addr
            small;
    },
  ),
)
