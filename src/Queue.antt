-- ===== src/Queue.antt =====
-- internal/snapshot/queue.go: the pointers still to be read, each address and type once.
-- The set `seen` is a list.
pub mod Steps
pub mod Calls
pub mod Inv
pub mod Once
pub mod Count
use side_eye_go.Prelude.{
  ℕ, Bool, true, false, ◌&&◌, ◌||◌, List, [], ◌∷◌, Option, some, none, ◌==◌, u32, u64,
}
use side_eye_go.Prelude.{M, pure, get, modify, demand, choose, zoom, ◌>>=◌, ◌>>◌}
use side_eye_go.Framing.{QueueEntry}
use side_eye_go.Fifo
use side_eye_go.Fifo.{Fifo}

pub record QueueEntryKey : Type 0 where
  pub addr : ℕ
  pub t : ℕ

pub record Queue : Type 0 where
  pub seen : List QueueEntryKey
  pub q : Fifo QueueEntry

-- `framing.QueueEntry{}`.
abbrev pub no_entry : QueueEntry
no_entry = record { type_id = 0; len = 0; addr = 0 }

unfoldable pub make_queue : Queue
make_queue = record { seen = []; q = Fifo.make_fifo no_entry }

-- A look-up in the map.
unfoldable pub is_seen : QueueEntryKey → List QueueEntryKey → Bool
is_seen key [] = false
is_seen key (k ∷ seen) = (k.addr == key.addr && k.t == key.t) || is_seen key seen

unfoldable pub on_fifo : {A : Type 0} → M (Fifo QueueEntry) A → M Queue A
on_fifo m = zoom (λ s. s.q) (λ s q. record s { q = q }) m

unfoldable pub len_of : Queue → ℕ
len_of s = Fifo.len_of s.q

-- The entry and the flag of the source are an option here.
unfoldable pub pop : M Queue (Option QueueEntry)
pop = do
  s ← get
  choose (len_of s == 0) (pure none) (do
    front ← on_fifo Fifo.peek_front
    r ← demand front
    on_fifo (Fifo.pop_front no_entry)
    pure (some r))

unfoldable pub should_record : ℕ → ℕ → M Queue Bool
should_record addr t = do
  s ← get
  let key : QueueEntryKey = record { addr = addr; t = t }
  choose (addr == 0) (pure false) (
      choose (is_seen key s.seen) (pure false)
        (do modify (λ s. record s { seen = key ∷ s.seen }); pure true))

-- The result is always true in the source, and is left out.
unfoldable pub push_words : ℕ → ℕ → ℕ → M Queue (Unit {0})
push_words addr t data_len = do
  record_it ← should_record addr t
  choose record_it
      (on_fifo (Fifo.push_back no_entry (record { type_id = t; len = data_len; addr = addr })))
      (pure tt)

-- The parameters of Push are words of 64 and 32 bits.
unfoldable pub push : ℕ → ℕ → ℕ → M Queue (Unit {0})
unfolding push_words
push addr t data_len = push_words (u64 addr) (u32 t) (u32 data_len)
