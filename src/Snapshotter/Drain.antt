-- ===== src/Snapshotter/Drain.antt =====
-- How processQueue of internal/snapshot/snapshot.go ends.
use side_eye_go.Prelude.{
  ℕ, zero, suc, ◌≡◌, ◌⊎◌, inl, inr, refl, arith, true, Option, some, none, Returns, Returns-bind,
  Returns-zoom, Returns-choose, Returns-next, pure, stop, stuck, get, on_option, ◌>>◌,
}
use side_eye_go.Framing.{QueueEntry}
use side_eye_go.OutBuf
use side_eye_go.Queue
use side_eye_go.Queue.{Queue}
use side_eye_go.Machine.State.{Machine, on_queue}
use side_eye_go.Snapshotter.{Snapshotter, Target, on_machine}
use side_eye_go.Snapshotter.Pointers.{process_entry, drain, process_queue}

-- Nothing is Popped of an empty queue only.
EmptyIfNone : Option QueueEntry → Queue → Type 0
EmptyIfNone none q = Queue.len_of q ≡ 0
EmptyIfNone (some e) q = Unit {0}

pop-EmptyIfNone : (q : Queue) → Returns EmptyIfNone (Queue.pop q)
unfolding Queue.pop EmptyIfNone get pure
pop-EmptyIfNone q =
    Returns-bind (λ a s. a ≡ s) EmptyIfNone _ _ q refl
      λ a s same.
        Returns-choose EmptyIfNone _ _ _ s (λ e. ground (arith, same))
          λ e. Returns-next EmptyIfNone _ _ s λ front s1.
            Returns-next EmptyIfNone _ _ s1 λ r s2. Returns-next EmptyIfNone _ _ s2 λ v s3. tt

Popped : Option QueueEntry → Snapshotter → Type 0
Popped r s = EmptyIfNone r s.sm.q

pop-Popped : (s : Snapshotter) → Returns Popped (on_machine (on_queue Queue.pop) s)
unfolding Popped on_machine on_queue
pop-Popped s =
    Returns-zoom (λ r (m : Machine). EmptyIfNone r m.q) Popped (λ s. s.sm)
      (λ s sm. record s { sm = sm }) (on_queue Queue.pop) s
      (Returns-zoom EmptyIfNone (λ r (m : Machine). EmptyIfNone r m.q) (λ m. m.q)
        (λ m q. record m { q = q }) Queue.pop s.sm (pop-EmptyIfNone s.sm.q) λ r q h. h)
      λ r m h. h

-- Why the loop ends.
Done : Unit {0} → Snapshotter → Type 0
Done u s = (OutBuf.full s.sm.b ≡ true) ⊎ (Queue.len_of s.sm.q ≡ 0)

after :
    (t : Target) (fuel : ℕ) (front : Option QueueEntry) (s : Snapshotter)
    → Popped front s
    → ((s' : Snapshotter) → Returns Done (drain t (stop stuck) fuel s'))
    → Returns Done (
        on_option front
          (pure tt)
          (λ entry. do
            on_option (t.program.type_info entry.type_id) (pure tt) (λ ti. process_entry t entry ti)
            drain t (stop stuck) fuel)
          s)
unfolding on_option pure Popped EmptyIfNone Done
after t fuel none s h rest = inr h
after t fuel (some entry) s h rest = Returns-next Done _ _ s λ v s'. rest s'

drain-Done : (t : Target) (fuel : ℕ) (s : Snapshotter) → Returns Done (drain t (stop stuck) fuel s)
unfolding drain stop get pure on_option Popped EmptyIfNone Done
drain-Done t zero s = tt
drain-Done t (suc fuel) s =
    Returns-bind (λ a s'. a ≡ s') Done _ _ s refl
      λ a s1 same.
        Returns-choose Done _ _ _ s1 (λ e. inl (rw⁻¹ same e))
          λ e.
            Returns-bind Popped Done _ _ s1 (pop-Popped s1)
              λ front s2 h. after t fuel front s2 h (drain-Done t fuel)

pub process_queue-Done :
    (t : Target) (fuel : ℕ) (s : Snapshotter)
    → Returns
        (λ u s'. (OutBuf.full s'.sm.b ≡ true) ⊎ (Queue.len_of s'.sm.q ≡ 0))
        (process_queue t fuel s)
unfolding process_queue Done
process_queue-Done t fuel s = drain-Done t fuel s
