-- ===== src/Dial/Listener.antt =====
-- The listener of internal/serverdial/server_dial.go: the goroutine of `run` with its deferred calls,
-- `Accept`, `Close`, and the connections that it dials, interleaved in any order. Connections are
-- numbered in the order in which they are dialed.
pub mod Inv
pub mod Safety
pub mod Blocked
use side_eye_go.Prelude.{
  ℕ, suc, ◌+◌, ◌<◌, ◌≡◌, Bool, true, false, List, [], ◌∷◌, ◌==◌, if◌then◌else◌, Option, none, some,
}

pub data ConnectionStatus : Type 0 where
  unknown_status connected disconnected connecting : ConnectionStatus

-- Where the goroutine stands: before `setConnectionStatus(Connecting)`; at the top of the loop, `soon`
-- if the last dial is less than an interval ago; in DialContext; behind it with a connection; at the
-- send on `dialChan`; in the select behind it; behind the select, where the connection was closed;
-- before the deferred call that sets the status; before the one that closes `done`; ended.
pub data RunPc : Type 0 where
  starting soon due dialing parted stopping finishing ended : RunPc
  arrived offering serving : ℕ → RunPc

pub record Listener : Type 0 where
  pub status : ConnectionStatus
  pub pc : RunPc
  -- `cancelDialing` was called.
  pub cancelled : Bool
  -- The channel `done` is closed.
  pub is_done : Bool
  pub dialed : ℕ
  -- The connections that Accept returned, and the dialed ones whose Close has not closed `onClose`,
  -- the newest first.
  pub accepted : List ℕ
  pub live : List ℕ

-- `NewListener`
abbrev pub new_listener : Listener
new_listener = record {
  status = unknown_status;
  pc = starting;
  cancelled = false;
  is_done = false;
  dialed = 0;
  accepted = [];
  live = [];
}

abbrev pub contains : List ℕ → ℕ → Bool
contains [] c = false
contains (x ∷ xs) c = if x == c then true else contains xs c

abbrev pub remove : ℕ → List ℕ → List ℕ
remove c [] = []
remove c (x ∷ xs) = if x == c then remove c xs else x ∷ remove c xs

-- The steps of the goroutine of `run`.
pub data RunStep (l : Listener) : Listener → Type 0 where
  start : l.pc ≡ starting → RunStep l (record l { status = connecting; pc = due })
  -- `<-ctx.Done()` in the wait for the interval
  give_up : l.pc ≡ soon → l.cancelled ≡ true → RunStep l (record l { pc = stopping })
  wait : l.pc ≡ soon → RunStep l (record l { pc = due })
  dial : l.pc ≡ due → RunStep l (record l { pc = dialing })
  -- DialContext fails; the interval may have passed meanwhile.
  fail_soon : l.pc ≡ dialing → RunStep l (record l { pc = soon })
  fail_late : l.pc ≡ dialing → RunStep l (record l { pc = due })
  connect :
      l.pc ≡ dialing
      → RunStep l
          (record l { pc = arrived l.dialed; dialed = suc l.dialed; live = l.dialed ∷ l.live })
  announce :
      (c : ℕ) → l.pc ≡ arrived c → RunStep l (record l { status = connected; pc = offering c })
  -- `<-ctx.Done()` behind the send
  leave : (c : ℕ) → l.pc ≡ serving c → l.cancelled ≡ true → RunStep l (record l { pc = stopping })
  -- `<-onClose`
  part :
      (c : ℕ) → l.pc ≡ serving c → contains l.live c ≡ false → RunStep l (record l { pc = parted })
  -- The status, within an interval of the last dial or later
  again_soon : l.pc ≡ parted → RunStep l (record l { status = connecting; pc = soon })
  again_late : l.pc ≡ parted → RunStep l (record l { status = connecting; pc = due })
  -- The deferred calls: the status, then `done`.
  stop : l.pc ≡ stopping → RunStep l (record l { status = disconnected; pc = finishing })
  finish : l.pc ≡ finishing → RunStep l (record l { pc = ended; is_done = true })

pub data Step (l : Listener) : Listener → Type 0 where
  run : {l' : Listener} → RunStep l l' → Step l l'
  -- A call of Accept receives from `dialChan`.
  accept :
      (c : ℕ) → l.pc ≡ offering c → Step l (record l { pc = serving c; accepted = c ∷ l.accepted })
  -- Who accepted a connection closes it, perhaps more than once.
  close_conn : (c : ℕ) → contains l.accepted c ≡ true → Step l (record l { live = remove c l.live })
  -- The first line of `Close`. The second one returns when `done` is closed.
  cancel : Step l (record l { cancelled = true })

pub data Reach : Listener → Type 0 where
  new : Reach new_listener
  next : {l l' : Listener} → Reach l → Step l l' → Reach l'
