-- ===== src/Framing.antt =====
-- internal/framing/framing.go: the records of the snapshot's binary format.
use side_eye_go.Prelude.{ℕ}

-- Sizes are those of Go's layout on 64-bit platforms.
abbrev pub queue_entry_size : ℕ
queue_entry_size = 16

abbrev pub frame_header_size : ℕ
frame_header_size = 8

abbrev pub snapshot_header_size : ℕ
snapshot_header_size = 56

abbrev pub goroutine_header_size : ℕ
goroutine_header_size = 40

pub record QueueEntry : Type 0 where
  pub type_id : ℕ
  pub len : ℕ
  pub addr : ℕ
