-- ===== src/Tests/Servers.antt =====
-- internal/server at concrete inputs.
use Prim.Native.String.{String}
use side_eye_go.Prelude.{
  ℕ, zero, suc, ◌+◌, ◌≡◌, ◌≢◌, inl, refl, arith, true, none, some, List, [], ◌∷◌, ◌++◌, length, map,
  take, All, if◌then◌else◌,
}
use side_eye_go.Go.{
  GoError, eof, external, canceled, wrapped, is_eof, Reply, done, failed, wrap, is_done,
}
use side_eye_go.Server.Fetcher.{
  CachedFetcher, Flight, ran, shared, chunk, broke, new_cached, put, fetch_snapshot_program,
  remote_fetch,
}
use side_eye_go.Server.Fetcher.Cache.{IsValid, Got, fetch-IsValid, fetch_again}
use side_eye_go.Server.Fetcher.Remote.{concat, remote_fetch_chunks}
use side_eye_go.Server.Handlers.{
  SnapshotWorld, SnapshotRequest, setup, snapshot_request, snapshot, get_executable,
}
use side_eye_go.Server.Handlers
use side_eye_go.Server.Handlers.Snapshots.{Takes, taken_by, snapshot-Takes}
use side_eye_go.Server.Handlers.Executable.{read_end, get_executable_sent, get_executable_stops}
use side_eye_go.Server.Info.{
  WatchWorld, Server, new_server, given, watch_all, machina_info, send_info,
}
use side_eye_go.Server.Info.Watch.{Reports, watch_all_once}
use side_eye_go.Server.Handlers.{ip_net}
use side_eye_go.Prelude.{false}
use side_eye_go.Server.Capture
use side_eye_go.Server.Capture.{
  ProfileWorld, TraceWorld, run_cpu_profile, run_execution_trace, read_trace, chunk_size,
}
use side_eye_go.Server.Capture.Stops.{
  is_stop_cpu, is_stop_trace, count_calls, defers_stop, run_cpu_profile_stops,
  run_execution_trace_stops,
}
use side_eye_go.Server.Capture.Payload
use side_eye_go.Server.Capture.Payload.{
  payload, IsChunk, undisturbed, run_cpu_profile_sent, read_trace_whole,
}

-- Programs are numbers here, and `p` is fetched for the key "p" only.
Fetched : String → ℕ → Type 0
Fetched k p = k ≡ "p"

abbrev flights : List (Flight ℕ)
flights = shared (failed canceled) true ∷ ran (done 5) (λ i. 0) ∷ []

fetch-IsValid_example :
    IsValid Fetched 2 (fetch_snapshot_program "p" flights (new_cached 2)).1
    × Got Fetched "p" (fetch_snapshot_program "p" flights (new_cached 2)).0
unfolding Fetched new_cached
fetch-IsValid_example =
    fetch-IsValid Fetched 2 "p" flights (new_cached 2) (tt, (refl, tt))
      (record { capacity = refl; bounded = inl (omega arith); sourced = tt })

abbrev bounced : List (Flight ℕ)
bounced = shared (failed canceled) true ∷ []

abbrev after_fetch : CachedFetcher ℕ
after_fetch = put "p" 5 (λ i. 0) (new_cached 2)

fetch_again_example :
    (fetch_snapshot_program "p" (bounced ++ ran (done 5) (λ i. 0) ∷ []) (new_cached 2)
      ≡ (some (done 5), after_fetch))
    × (fetch_snapshot_program "p" [] after_fetch ≡ (some (done 5), after_fetch))
unfolding new_cached
fetch_again_example = fetch_again "p" bounced [] [] 5 (λ i. 0) (new_cached 2) refl (refl, tt)

abbrev count_bytes : List ℕ → Reply ℕ
count_bytes bytes = done (length bytes)

abbrev pieces : List (List ℕ)
pieces = (1 ∷ 2 ∷ []) ∷ (3 ∷ []) ∷ []

remote_fetch_chunks_example :
    remote_fetch count_bytes (done (map chunk pieces ++ broke eof ∷ []))
    ≡ some (
        if is_eof eof
        then wrap "failed to unmarshal snapshot program" (count_bytes (concat pieces))
        else failed (wrapped "failed to receive chunk" eof))
remote_fetch_chunks_example = remote_fetch_chunks count_bytes pieces eof []

abbrev session : SnapshotWorld ℕ ℕ
session = record {
  first = done (setup "p");
  fetched = λ k. done 5;
  header_sent = done tt;
  second = done snapshot_request;
  taken = λ p. done (p + 1);
  sent = λ o. done tt;
}

snapshot-Takes_example : Takes session (snapshot session)
snapshot-Takes_example = snapshot-Takes session

session_takes : taken_by (snapshot session).0 ≡ 5 ∷ []
unfolding snapshot
session_takes = refl

abbrev open_file : String → Reply (List Handlers.Read)
open_file path = done (map Handlers.read pieces ++ Handlers.broke eof ∷ [])

abbrev take_one : ℕ → Reply (Unit {0})
take_one i = elim i [ zero ↦ done tt | suc k ↦ failed (external 3) ]

get_executable_sent_example :
    get_executable (done "exe") open_file (λ i. done tt) ≡ (pieces, some (read_end eof))
get_executable_sent_example =
    get_executable_sent "exe" open_file (λ i. done tt) pieces eof refl (refl, (refl, tt))

get_executable_stops_example :
    get_executable (done "exe") open_file take_one
    ≡ (take 2 pieces, some (failed (wrapped "failed to send executable" (external 3))))
get_executable_stops_example =
    get_executable_stops "exe" open_file take_one pieces (Handlers.broke eof ∷ []) 1 (external 3)
      refl (omega arith) (refl, refl)

abbrev profile_world : ProfileWorld
profile_world = record {
  started = done tt;
  sends = take_one;
  cancelled = none;
  profile = 1 ∷ 2 ∷ [];
}

run_cpu_profile_stops_example :
    count_calls is_stop_cpu (run_cpu_profile profile_world 3).0
    ≡ (if is_done profile_world.started then 1 else 0)
run_cpu_profile_stops_example = run_cpu_profile_stops profile_world 3

-- The boot time is not known.
abbrev trace_world : TraceWorld
trace_world = record {
  started = done tt;
  boot = failed (external 4);
  start_sent = done tt;
  end = Capture.timed_out (done tt);
}

run_execution_trace_stops_example :
    count_calls is_stop_trace (run_execution_trace trace_world 3).0
    ≡ (if defers_stop trace_world then 1 else 0)
run_execution_trace_stops_example = run_execution_trace_stops trace_world 3

run_cpu_profile_sent_example :
    (payload (run_cpu_profile (undisturbed (1 ∷ 2 ∷ [])) 3).0 ≡ 1 ∷ 2 ∷ [])
    × All (λ c. IsChunk chunk_size c) (run_cpu_profile (undisturbed (1 ∷ 2 ∷ [])) 3).0
    × ((run_cpu_profile (undisturbed (1 ∷ 2 ∷ [])) 3).1 ≡ done tt)
run_cpu_profile_sent_example = run_cpu_profile_sent (1 ∷ 2 ∷ []) 3

-- An error that wraps the end of the pipe.
abbrev wrapped_eof : GoError
wrapped_eof = wrapped "closed" eof

wrapped_eof-other : wrapped_eof ≢ eof
wrapped_eof-other h = absurd (cc)

read_trace_whole_example :
    let r =
      read_trace chunk_size
        (λ i. done tt)
        1
        []
        (map Capture.read pieces ++ Capture.broke eof ∷ Capture.broke eof ∷ []) in
    let r' =
      read_trace chunk_size
        (λ i. done tt)
        1
        []
        (map Capture.read pieces ++ Capture.broke wrapped_eof ∷ []) in
    (payload r.0 ≡ Payload.concat pieces)
    × (r.1 ≡ some (done tt))
    × (r'.1 ≡ some (failed wrapped_eof))
read_trace_whole_example = read_trace_whole pieces wrapped_eof wrapped_eof-other

-- Two calls, the first of which meets an executable that cannot be hashed.
abbrev watching : WatchWorld
watching = record {
  hashed = failed eof;
  executable = done "/bin/app";
  pid = 7;
  args = "app" ∷ [];
  environ = [];
  sent = done tt;
  ctx_err = canceled;
}

abbrev server : Server ℕ
server =
    new_server "agent" "process" "token" "env" "app" 1 false
      (record { error_logger = none; info_logger = some (given 2) })

watch_all_once_example :
    ((watch_all (watching ∷ record watching { hashed = done "h" } ∷ []) server).1.hash.ran ≡ 1)
    × All
        (λ a. All (λ c. Reports server watching.hashed c) a.0)
        (watch_all (watching ∷ record watching { hashed = done "h" } ∷ []) server).0
unfolding new_server
watch_all_once_example =
    watch_all_once watching (record watching { hashed = done "h" } ∷ []) server refl

run_of_machina_info :
    machina_info server "host"
      (ip_net ("127.0.0.1", true) ∷ ip_net ("10.0.0.1", false) ∷ [])
      (failed eof)
      canceled
    ≡ (
      send_info (record {
        fingerprint = "agent";
        version = "0.1";
        tenant_token = "token";
        environment = "env";
        is_library = true;
        hostname = "host";
        ip_addresses = "10.0.0.1" ∷ [];
      })
          ∷ [],
      failed (wrapped "failed to send MachinaInfo" eof),
    )
unfolding machina_info new_server
run_of_machina_info = refl
