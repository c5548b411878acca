-- ===== src/Machine/Sound.antt =====
-- What no operation of the machine changes: the output buffer stays within its backing array, the
-- program is the one that the decoder was made with, and the queue is well-formed.
pub mod Control
pub mod Enqueue
pub mod Data
pub mod Context
pub mod Run
use side_eye_go.Prelude.{
  ℕ, List, Keeps, Keeps-zoom, Keeps-any, Keeps-bind, Keeps-modify, Keeps-demand, keeps_rules, M,
}
use side_eye_go.Prelude.{modify, ◌≡◌, refl}
use side_eye_go.Framing.{QueueEntry}
use side_eye_go.OutBuf.{OutBuf}
use side_eye_go.OutBuf.Bounds.{Fits}
use side_eye_go.OpDecoder.Decode.{OpDecoder}
use side_eye_go.OpDecoder.Keeps.{Runs}
use side_eye_go.Queue.{Queue}
use side_eye_go.Queue.Inv.{Inv}
use side_eye_go.Resolver.{GoRuntimeTypeResolver}
use side_eye_go.Machine.State.{
  Machine, on_buf, on_queue, on_decoder, on_resolver, top, push_value, pop_value, set_top,
  set_offset_to,
}

pub record Sound (c : ℕ) (prog : List ℕ) (handed : List QueueEntry) (s : Machine) : Type 0 where
  pub buffer : Fits c s.b
  pub program : Runs prog s.decoder
  pub queue : Inv s.q handed

module _ {c : ℕ} {prog : List ℕ} {handed : List QueueEntry} where
  pub on_buf-Sound :
      {A : Type 0} (m : M OutBuf A) → Keeps (Fits c) m → Keeps (Sound c prog handed) (on_buf m)
  unfolding on_buf
  on_buf-Sound m k =
      Keeps-zoom (Fits c) _ _ m (λ s h. h.buffer)
        (λ s t h f. record { buffer = f; program = h.program; queue = h.queue }) k

  pub on_decoder-Sound :
      {A : Type 0} (m : M OpDecoder A)
      → Keeps (Runs prog) m
      → Keeps (Sound c prog handed) (on_decoder m)
  unfolding on_decoder
  on_decoder-Sound m k =
      Keeps-zoom (Runs prog) _ _ m (λ s h. h.program)
        (λ s t h f. record { buffer = h.buffer; program = f; queue = h.queue }) k

  pub on_queue-Sound :
      {A : Type 0} (m : M Queue A)
      → Keeps (λ q. Inv q handed) m
      → Keeps (Sound c prog handed) (on_queue m)
  unfolding on_queue
  on_queue-Sound m k =
      Keeps-zoom (λ q. Inv q handed) _ _ m (λ s h. h.queue)
        (λ s t h f. record { buffer = h.buffer; program = h.program; queue = f }) k

  pub on_resolver-Sound :
      {A : Type 0} (m : M GoRuntimeTypeResolver A) → Keeps (Sound c prog handed) (on_resolver m)
  unfolding on_resolver
  on_resolver-Sound m =
      Keeps-zoom (λ g. Unit {0}) _ _ m (λ s h. tt)
        (λ s t h f. record { buffer = h.buffer; program = h.program; queue = h.queue })
        (Keeps-any m)

  -- A change of the other fields.
  pub modify-Sound :
      (f : Machine → Machine)
      → ((s : Machine) → ((f s).b ≡ s.b) × ((f s).decoder ≡ s.decoder) × ((f s).q ≡ s.q))
      → Keeps (Sound c prog handed) (modify f)
  modify-Sound f same = Keeps-modify f λ s h. record {
    buffer = rw (same s).0 h.buffer;
    program = rw (same s).1 h.program;
    queue = rw (same s).2 h.queue;
  }

pub ruleset machine_rules =
    (keeps_rules, on_buf-Sound, on_decoder-Sound, on_queue-Sound, on_resolver-Sound, modify-Sound)

module _ {c : ℕ} {prog : List ℕ} {handed : List QueueEntry} where
  pub top-Sound : Keeps (Sound c prog handed) top
  unfolding top
  top-Sound = search machine_rules depth 8

  pub push_value-Sound : (v : ℕ) → Keeps (Sound c prog handed) (push_value v)
  unfolding push_value
  push_value-Sound v = modify-Sound _ λ s. (refl, refl, refl)

  pub pop_value-Sound : Keeps (Sound c prog handed) pop_value
  unfolding pop_value
  pop_value-Sound = Keeps-bind _ _ top-Sound λ v. modify-Sound _ λ s. (refl, refl, refl)

  pub set_top-Sound : (v : ℕ) → Keeps (Sound c prog handed) (set_top v)
  unfolding set_top
  set_top-Sound v = search (machine_rules, pop_value-Sound, push_value-Sound) depth 8
