-- ===== src/Server/Handlers.antt =====
-- The handlers of internal/server/server.go but Capture. What other packages return is a parameter;
-- texts of errors that hold formatted values are left without them.
pub mod Snapshots
pub mod Executable
use Prim.Native.String.{String}
use text.Mathlib.Text.{◌==◌ as str_eq}
use side_eye_go.Prelude.{
  ℕ, zero, suc, ◌+◌, Bool, true, false, Option, none, some, List, [], ◌∷◌, ◌++◌, take, length,
  if◌then◌else◌,
}
use side_eye_go.Go.{GoError, message, coded, wrapped, is_eof, Reply, done, failed, wrap}
use side_eye_go.Server.Act.{Act, give, fail, call, then_on, ◌>>=◌, ◌>>◌}

-- `codes.Internal` and `codes.PermissionDenied` of gRPC
abbrev pub internal : ℕ
internal = 13

abbrev pub permission_denied : ℕ
permission_denied = 7

-- The requests on the stream of Snapshot: the setup with its key, the snapshot, and any other.
pub data SnapshotRequest : Type 0 where
  setup : String → SnapshotRequest
  snapshot_request other : SnapshotRequest

-- What the handler Snapshot does, over programs `P` and outputs `O`.
pub data SnapshotCall (P O : Type 0) : Type 0 where
  recv : SnapshotCall P O
  fetch : String → SnapshotCall P O
  send_header : SnapshotCall P O
  take_snapshot : P → SnapshotCall P O
  send : O → SnapshotCall P O

pub record SnapshotWorld (P O : Type 0) : Type 0 where
  pub first : Reply SnapshotRequest
  pub fetched : String → Reply P
  pub header_sent : Reply (Unit {0})
  pub second : Reply SnapshotRequest
  pub taken : P → Reply O
  pub sent : O → Reply (Unit {0})

abbrev pub setup_key : SnapshotRequest → Reply String
setup_key (setup key) = done key
setup_key r = failed (message "expected SnapshotRequest_Setup_")

abbrev pub is_snapshot : SnapshotRequest → Reply (Unit {0})
is_snapshot snapshot_request = done tt
is_snapshot r = failed (message "expected SnapshotRequest_Snapshot_")

-- `status.Errorf(codes.Internal, "failed to snapshot: %v", err)`
abbrev pub as_internal {ℓ} : {O : Type ℓ} → Reply O → Reply O
as_internal (done o) = done o
as_internal (failed e) = failed (coded internal "failed to snapshot")

module _ {P O : Type 0} where
  unfoldable pub snapshot : SnapshotWorld P O → Act (SnapshotCall P O) (Unit {0})
  snapshot w = do
    msg ← call recv (wrap "failed to receive SnapshotRequest" w.first)
    key ← ([], setup_key msg)
    program ← call (fetch key) (wrap "failed to fetch snapshot program" (w.fetched key))
    call send_header (wrap "failed to send header" w.header_sent)
    msg' ← call recv (wrap "failed to receive SnapshotRequest" w.second)
    ([], is_snapshot msg')
    output ← call (take_snapshot program) (as_internal (w.taken program))
    call (send output) (wrap "failed to send SnapshotResponse" (w.sent output))

-- `binaryHashOnce`: `ran` counts the runs of `doHash`.
pub record BinaryHashOnce : Type 0 where
  pub result : Option (Reply String)
  pub ran : ℕ

-- `getBinaryHash`, where `doHash` would return `r`.
unfoldable pub get_binary_hash : Reply String → BinaryHashOnce → Reply String × BinaryHashOnce
get_binary_hash r h = elim h.result [
  | some old ↦ (old, h)
  | none ↦ (r, record { result = some r; ran = h.ran + 1 })
]

-- `doHash`, by what os.Executable, os.Open, New64 and io.Copy return; the hash is that of the bytes.
unfoldable pub do_hash :
    Reply String
    → (String → Reply (Unit {0}))
    → Reply (Unit {0})
    → Reply (List ℕ)
    → (List ℕ → String)
    → Reply String
do_hash executable open_file hasher contents hash =
    elim (wrap "failed to get executable path" executable) [
      | failed e ↦ failed e
      | done path ↦ elim (wrap "failed to open executable file" (open_file path)) [
        | failed e ↦ failed e
        | done u ↦ elim (wrap "failed to create hasher" hasher) [
          | failed e ↦ failed e
          | done u ↦ elim (wrap "failed to hash executable" contents) [
            | failed e ↦ failed e
            | done bytes ↦ done (hash bytes)
          ]
        ]
      ]
    ]

-- What `exeFile.Read` returns into the buffer of a chunk.
pub data Read : Type 0 where
  read : List ℕ → Read
  broke : GoError → Read

abbrev pub chunk_size : ℕ
chunk_size = 131072

-- The loop of GetExecutable over the calls of Read, with what the sends return. The first component
-- is what was sent; a call of Read that has not returned gives `none`.
unfoldable pub send_file :
    (ℕ → Reply (Unit {0})) → ℕ → List Read → List (List ℕ) × Option (Reply (Unit {0}))
send_file sends i [] = ([], none)
send_file sends i (broke e ∷ rs) =
    ([], some (if is_eof e then done tt else failed (wrapped "failed to read executable" e)))
send_file sends i (read bytes ∷ rs) =
    let rest = send_file sends (suc i) rs in
    elim (sends i) [
      | failed e ↦ (bytes ∷ [], some (failed (wrapped "failed to send executable" e)))
      | done u ↦ (bytes ∷ rest.0, rest.1)
    ]

-- GetExecutable, by what os.Executable and os.Open return.
unfoldable pub get_executable :
    Reply String
    → (String → Reply (List Read))
    → (ℕ → Reply (Unit {0}))
    → List (List ℕ) × Option (Reply (Unit {0}))
unfolding send_file
get_executable executable open_file sends = elim executable [
  | failed e ↦ ([], some (failed (wrapped "failed to get executable path" e)))
  | done path ↦ elim (open_file path) [
    | failed e ↦ ([], some (failed (wrapped "failed to open executable" e)))
    | done rs ↦ send_file sends 0 rs
  ]
]

-- Addresses of the interfaces: `*net.IPNet`, `*net.IPAddr` and any other, whose `ip` stays nil.
pub data Addr : Type 0 where
  ip_net ip_addr : (String × Bool) → Addr
  other_addr : Addr

-- The text of `ip.String()` at nil.
abbrev pub nil_ip : String
nil_ip = "<nil>"

-- The Boolean of an address is `ip.IsLoopback()`.
unfoldable pub ip_addresses : List Addr → List String
ip_addresses [] = []
ip_addresses (ip_net (ip, loopback) ∷ addrs) =
    let rest = ip_addresses addrs in if loopback then rest else ip ∷ rest
ip_addresses (ip_addr (ip, loopback) ∷ addrs) =
    let rest = ip_addresses addrs in if loopback then rest else ip ∷ rest
ip_addresses (other_addr ∷ addrs) = nil_ip ∷ ip_addresses addrs
