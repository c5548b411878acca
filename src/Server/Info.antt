-- ===== src/Server/Info.antt =====
-- MachinaInfo, Events and WatchProcesses of internal/server/server.go, and NewServer. What the process
-- and its machine are is a parameter. A handler that waits ends with the error of its context.
pub mod Watch
use Prim.Native.String.{String}
use side_eye_go.Prelude.{ℕ, Bool, true, Option, none, some, List, [], ◌∷◌}
use side_eye_go.Go.{GoError, message, Reply, done, failed, wrap}
use side_eye_go.Server.Act.{Act, fail, call, then_on, ◌>>=◌, ◌>>◌}
use side_eye_go.Server.Handlers.{BinaryHashOnce, get_binary_hash, Addr, ip_addresses}

-- A logger of the caller's, told apart by a number, or one that does nothing.
pub data Logger : Type 0 where
  silent : Logger
  given : ℕ → Logger

-- A logger that is nil is `none`.
pub record Loggers : Type 0 where
  pub error_logger : Option Logger
  pub info_logger : Option Logger

-- `F` is the type of the fetcher.
pub record Server (F : Type 0) : Type 0 where
  pub agent_fingerprint : String
  pub process_fingerprint : String
  pub tenant_token : String
  pub environment : String
  pub program_name : String
  pub ephemeral_process : Bool
  pub fetcher : F
  pub hash : BinaryHashOnce
  pub loggers : Loggers

abbrev or_silent : Option Logger → Option Logger
or_silent none = some silent
or_silent (some l) = some l

unfoldable pub new_server :
    {F : Type 0}
    → (agent_fingerprint process_fingerprint tenant_token environment program_name : String) → F
    → Bool
    → Loggers
    → Server F
new_server agent_fingerprint process_fingerprint tenant_token environment program_name fetcher
      ephemeral_process loggers =
    record {
      agent_fingerprint = agent_fingerprint;
      process_fingerprint = process_fingerprint;
      tenant_token = tenant_token;
      environment = environment;
      program_name = program_name;
      ephemeral_process = ephemeral_process;
      fetcher = fetcher;
      hash = record { result = none; ran = 0 };
      loggers = record {
        error_logger = or_silent loggers.error_logger;
        info_logger = or_silent loggers.info_logger;
      };
    }

pub record MachinaInfoResponse : Type 0 where
  pub fingerprint : String
  pub version : String
  pub tenant_token : String
  pub environment : String
  pub is_library : Bool
  pub hostname : String
  pub ip_addresses : List String

-- `machinapb.Process`; the start time is empty.
pub record Process : Type 0 where
  pub pid : ℕ
  pub cmd : List String
  pub exe_path : String
  pub env : List String
  pub binary_hash : String
  pub fingerprint : String
  pub environment : String
  pub program : String
  pub labels : List String
  pub ephemeral : Bool

pub data InfoCall : Type 0 where
  send_info : MachinaInfoResponse → InfoCall
  -- An update that adds the processes.
  send_update : List Process → InfoCall
  -- `<-ctx.Done()`
  wait_done : InfoCall

module _ {F : Type 0} where
  unfoldable pub machina_info :
      Server F → String → List Addr → Reply (Unit {0}) → GoError → Act InfoCall (Unit {0})
  unfolding ip_addresses
  machina_info s hostname addrs sent ctx_err = do
    call
        (send_info (record {
          fingerprint = s.agent_fingerprint;
          version = "0.1";
          tenant_token = s.tenant_token;
          environment = s.environment;
          is_library = true;
          hostname = hostname;
          ip_addresses = ip_addresses addrs;
        }))
        (wrap "failed to send MachinaInfo" sent)
    call wait_done (failed ctx_err)

  unfoldable pub events : Server F → Act InfoCall (Unit {0})
  events s = fail (message "side-eye-go does not currently support events")

-- What a call of WatchProcesses meets: what `doHash` would return, what os.Executable, os.Getpid,
-- os.Args and os.Environ do, whether the update is sent, and the end of the context.
pub record WatchWorld : Type 0 where
  pub hashed : Reply String
  pub executable : Reply String
  pub pid : ℕ
  pub args : List String
  pub environ : List String
  pub sent : Reply (Unit {0})
  pub ctx_err : GoError

module _ {F : Type 0} where
  abbrev pub process_of : Server F → WatchWorld → String → String → Process
  process_of s w hash exe_path = record {
    pid = w.pid;
    cmd = w.args;
    exe_path = exe_path;
    env = w.environ;
    binary_hash = hash;
    fingerprint = s.process_fingerprint;
    environment = s.environment;
    program = s.program_name;
    labels = "side-eye-go" ∷ [];
    ephemeral = s.ephemeral_process;
  }

  -- WatchProcesses, from the result of `getBinaryHash` on.
  unfoldable pub watch_with : WatchWorld → Server F → Reply String → Act InfoCall (Unit {0})
  watch_with w s hashed = do
    hash ← ([], wrap "failed to get binary hash" hashed)
    exe_path ← ([], wrap "failed to get executable path" w.executable)
    call (send_update (process_of s w hash exe_path ∷ [])) (wrap "failed to send Update" w.sent)
    call wait_done (failed w.ctx_err)

  unfoldable pub watch_processes : WatchWorld → Server F → Act InfoCall (Unit {0}) × Server F
  unfolding watch_with get_binary_hash
  watch_processes w s =
      let (hashed, once) = get_binary_hash w.hashed s.hash in
      (watch_with w s hashed, record s { hash = once })

  -- Many calls of WatchProcesses on one server.
  unfoldable pub watch_all : List WatchWorld → Server F → List (Act InfoCall (Unit {0})) × Server F
  unfolding watch_processes
  watch_all [] s = ([], s)
  watch_all (w ∷ ws) s =
      let (answer, s') = watch_processes w s in
      let (answers, s'') = watch_all ws s' in (answer ∷ answers, s'')
