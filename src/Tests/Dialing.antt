-- ===== src/Tests/Dialing.antt =====
-- internal/serverdial and internal/sideeyeconn at concrete inputs.
use side_eye_go.Prelude.{ℕ, ◌≡◌, ◌⊎◌, inl, refl, arith, true, false, none, some, List, [], ◌∷◌, map}
use side_eye_go.Go.{eof, done}
use side_eye_go.Dial.{Wrote, wrote, write_header, new_dialer, wrap_conn, close_all}
use side_eye_go.Dial.Header.{Finished, write_header_ends}
use side_eye_go.Dial.Conn.{close_all_once}
use side_eye_go.Dial.Listener
use side_eye_go.Dial.Listener.{Listener, RunStep, Step, Reach, new_listener, offering}
use side_eye_go.Dial.Listener.Safety.{IsSafe, Reach-IsSafe}
use side_eye_go.Dial.Listener.Blocked.{Quiet, Quiet-not_done, CanEnd, cancelled-CanEnd}
use side_eye_go.Conn
use side_eye_go.Conn.{
  Config, SideEyeConn, new_side_eye_conn, connect, install, new_artifacts_client,
}
use side_eye_go.Conn.Calls.{Attempted, connect-Attempted}
use side_eye_go.Conn.Threads
use side_eye_go.Conn.Threads.{World, new_world, closing}
use side_eye_go.Conn.Threads.Owner.{closing_own}

-- Two calls of Write, and six that are not made.
abbrev writes : List Wrote
writes = wrote 3 ∷ wrote 5 ∷ wrote 1 ∷ wrote 1 ∷ wrote 1 ∷ wrote 1 ∷ wrote 1 ∷ wrote 1 ∷ []

write_header_ends_example : Finished (write_header writes)
write_header_ends_example = write_header_ends writes (omega arith) (omega arith)

close_all_once_example :
    ((close_all (none ∷ some eof ∷ []) wrap_conn).0 ≡ map (λ a. none) (none ∷ some eof ∷ []))
    × ((close_all (none ∷ some eof ∷ []) wrap_conn).1.closes ≡ 1)
    × ((close_all (none ∷ some eof ∷ []) wrap_conn).1.signals ≡ 1)
close_all_once_example = close_all_once none (some eof ∷ [])

-- A listener that has dialed a connection which nobody has accepted, while `Close` waits.
abbrev offered : Listener
offered = record new_listener {
  status = Listener.connected;
  pc = offering 0;
  cancelled = true;
  dialed = 1;
  live = 0 ∷ [];
}

offered-Reach : Reach offered
offered-Reach =
    Reach.next
      (Reach.next
        (Reach.next
          (Reach.next (Reach.next Reach.new (Step.run (RunStep.start refl)))
            (Step.run (RunStep.dial refl)))
          (Step.run (RunStep.connect refl)))
        (Step.run (RunStep.announce 0 refl)))
      Step.cancel

Reach-IsSafe_example : IsSafe offered
Reach-IsSafe_example = Reach-IsSafe offered-Reach

Quiet-not_done_example : offered.is_done ≡ false
Quiet-not_done_example = Quiet-not_done 0 offered-Reach refl Quiet.here

-- A listener that is closed while it waits to dial.
abbrev due_listener : Listener
due_listener = record new_listener {
  status = Listener.connecting;
  pc = Listener.due;
  cancelled = true;
}

due-Reach : Reach due_listener
due-Reach = Reach.next (Reach.next Reach.new (Step.run (RunStep.start refl))) Step.cancel

cancelled-CanEnd_example : CanEnd due_listener
cancelled-CanEnd_example = cancelled-CanEnd due_listener due-Reach refl λ c. ((λ e. cc), (λ e. cc))

abbrev config : Config
config = record {
  tenant_token = "token";
  agent_url = "https://example.org:443";
  environment = "staging";
  program_name = "server";
  error_logger = some 1;
  info_logger = none;
}

abbrev outside : Conn.Outside
outside = record {
  platform_supported = done tt;
  parse_url = λ s. done (record {
    scheme = "https";
    host = "example.org:443";
    hostname = "example.org";
    port = "443";
    path = "";
    raw_query = "";
  });
  new_random = done "id";
  fingerprint = λ id. id;
  parse_addr = λ h. none;
  dial = λ a t. done 7;
}

connect-Attempted_example :
    Attempted outside.platform_supported 0 config new_side_eye_conn
      (connect outside 0 config new_side_eye_conn)
connect-Attempted_example =
    connect-Attempted outside 0 config new_side_eye_conn (inl (refl, refl, refl, refl))

-- The connection is in place behind the checks.
connect_well : (connect outside 0 config new_side_eye_conn).1.listener ≡ some 0
unfolding connect new_dialer new_artifacts_client
connect_well = refl

-- One caller connects, and Serve returns by itself.
abbrev callers : ℕ → Threads.CallerPc
callers =
    Threads.update
      (Threads.update
        (Threads.update (Threads.update (λ i. Threads.idle) 0 (Threads.entering true)) 0
          Threads.preparing)
        0 (Threads.starting 0))
      0 Threads.idle

abbrev served_world : World
served_world = record {
  conn = record (install 0 7 config new_side_eye_conn) { wg = some 0 };
  next_task = 1;
  tasks = Threads.update (Threads.update (λ g. Threads.unborn) 0 Threads.serving) 0 closing;
  callers = callers;
}

served : Threads.Reach 1 served_world
served =
    Threads.Reach.next
      (Threads.Reach.next
        (Threads.Reach.next
          (Threads.Reach.next
            (Threads.Reach.next Threads.Reach.new
              (Threads.Step.call 0 (omega arith) (Threads.CallerStep.call_connect refl)))
            (Threads.Step.call 0 (omega arith) (Threads.CallerStep.skip true refl refl)))
          (Threads.Step.call 0 (omega arith) (Threads.CallerStep.put config 7 refl)))
        (Threads.Step.call 0 (omega arith) (Threads.CallerStep.spawn 0 refl)))
      (Threads.Step.task 0 (Threads.TaskStep.return_serve refl))

closing_own_example : (served_world.conn.listener ≡ some 0) ⊎ (served_world.conn.listener ≡ none)
closing_own_example = closing_own 0 served refl
