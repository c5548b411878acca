-- ===== src/Conn/Threads.antt =====
-- Callers of Connect and Close of internal/sideeyeconn/side_eye_conn.go, and the goroutines that serve,
-- interleaved. A step is what one critical section or one call that blocks does.
pub mod Inv
pub mod Owner
use side_eye_go.Prelude.{
  ℕ, suc, ◌<◌, ◌≡◌, ◌≢◌, Bool, true, false, Option, none, some, ◌==◌, if◌then◌else◌,
}
use side_eye_go.Conn.{Config, SideEyeConn, new_side_eye_conn, close_inner, install}

-- The goroutine that serves a connection: not started; in Serve; in its deferred closeInner; in the
-- deferred `wg.Done()`; ended.
pub data TaskPc : Type 0 where
  unborn serving closing leaving ended : TaskPc

-- A caller. Close: before `listener()`, before closeInner, in `wg.Wait()`, each with whether it runs
-- within Connect. Connect: behind Close; behind the assignments under the lock.
pub data CallerPc : Type 0 where
  idle : CallerPc
  entering inner : Bool → CallerPc
  waiting : ℕ → Bool → CallerPc
  preparing : CallerPc
  starting : ℕ → CallerPc

-- Where a call of Close returns to.
abbrev pub after_close : Bool → CallerPc
after_close true = preparing
after_close false = idle

pub record World : Type 0 where
  pub conn : SideEyeConn
  -- The number of the next goroutine.
  pub next_task : ℕ
  pub tasks : ℕ → TaskPc
  pub callers : ℕ → CallerPc

abbrev pub update {ℓ} : {A : Type ℓ} → (ℕ → A) → ℕ → A → ℕ → A
update f i v j = if i == j then v else f j

abbrev pub new_world : World
new_world = record {
  conn = new_side_eye_conn;
  next_task = 0;
  tasks = λ g. unborn;
  callers = λ i. idle;
}

pub data CallerStep (w : World) (i : ℕ) : World → Type 0 where
  -- Calls of Close, and of Connect on a platform that is supported.
  call_close :
      w.callers i ≡ idle
      → CallerStep w i (record w { callers = update w.callers i (entering false) })
  call_connect :
      w.callers i ≡ idle
      → CallerStep w i (record w { callers = update w.callers i (entering true) })
  -- `listener()` is nil, or not.
  skip :
      (b : Bool)
      → w.callers i ≡ entering b
      → w.conn.listener ≡ none
      → CallerStep w i (record w { callers = update w.callers i (after_close b) })
  enter :
      (b : Bool) (l : ℕ)
      → w.callers i ≡ entering b
      → w.conn.listener ≡ some l
      → CallerStep w i (record w { callers = update w.callers i (inner b) })
  -- closeInner, and the read of `wg`
  stop :
      (b : Bool) (g : ℕ)
      → w.callers i ≡ inner b
      → w.conn.wg ≡ some g
      → CallerStep w i
          (record w { conn = close_inner w.conn; callers = update w.callers i (waiting g b) })
  wait :
      (b : Bool) (g : ℕ)
      → w.callers i ≡ waiting g b
      → w.tasks g ≡ ended
      → CallerStep w i (record w { callers = update w.callers i (after_close b) })
  -- Connect fails behind Close.
  refuse : w.callers i ≡ preparing → CallerStep w i (record w { callers = update w.callers i idle })
  put :
      (cfg : Config) (c : ℕ)
      → w.callers i ≡ preparing
      → CallerStep w i (record w {
        conn = install w.next_task c cfg w.conn;
        next_task = suc w.next_task;
        callers = update w.callers i (starting w.next_task);
      })
  spawn :
      (g : ℕ)
      → w.callers i ≡ starting g
      → CallerStep w i (record w {
        conn = record w.conn { wg = some g };
        tasks = update w.tasks g serving;
        callers = update w.callers i idle;
      })

pub data TaskStep (w : World) (g : ℕ) : World → Type 0 where
  -- Serve returns, since the server was stopped or by itself.
  return_serve : w.tasks g ≡ serving → TaskStep w g (record w { tasks = update w.tasks g closing })
  close_task :
      w.tasks g ≡ closing
      → TaskStep w g (record w { conn = close_inner w.conn; tasks = update w.tasks g leaving })
  end_task : w.tasks g ≡ leaving → TaskStep w g (record w { tasks = update w.tasks g ended })

-- With `n` callers.
pub data Step (n : ℕ) (w : World) : World → Type 0 where
  call : {w' : World} (i : ℕ) → i < n → CallerStep w i w' → Step n w w'
  task : {w' : World} (g : ℕ) → TaskStep w g w' → Step n w w'

pub data Reach (n : ℕ) : World → Type 0 where
  new : Reach n new_world
  next : {w w' : World} → Reach n w → Step n w w' → Reach n w'
