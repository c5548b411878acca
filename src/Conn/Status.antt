-- ===== src/Conn/Status.antt =====
-- `Status` of internal/sideeyeconn/side_eye_conn.go.
use side_eye_go.Prelude.{Option, none, some}
use side_eye_go.Dial.Listener

pub data ConnectionStatus : Type 0 where
  unknown uninitialized connected disconnected connecting : ConnectionStatus

-- `Status`, of the listener of the connection where there is one.
unfoldable pub status_of : Option Listener.ConnectionStatus → ConnectionStatus
status_of none = ConnectionStatus.uninitialized
status_of (some Listener.unknown_status) = ConnectionStatus.unknown
status_of (some Listener.connecting) = ConnectionStatus.connecting
status_of (some Listener.connected) = ConnectionStatus.connected
status_of (some Listener.disconnected) = ConnectionStatus.disconnected
