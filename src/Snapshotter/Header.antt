-- ===== src/Snapshotter/Header.antt =====
-- The length that Snapshot of internal/snapshot/snapshot.go writes into the header.
use side_eye_go.Prelude.{
  ltb, ℕ, ◌+◌, ◌^◌, ◌<◌, ◌≤◌, ◌≡◌, refl, ◌∙◌, arith, Bool, true, false, inl, inr, Bool-cases, leb,
  List, M, ok, trap, Returns, Result, ap, Returns-bind, Returns-zoom, Returns-choose, Returns-next,
  modify, pure, get, choose, ◌>>=◌, ◌>>◌,
}
use side_eye_go.Memory.{word}
use side_eye_go.Framing.{snapshot_header_size}
use side_eye_go.Memory.Words.{word-poke_32, word-poke_apart}
use side_eye_go.OutBuf
use side_eye_go.OutBuf.{OutBuf, store}
use side_eye_go.OutBuf.Framed.{write_snapshot_header}
use side_eye_go.Machine.State.{Machine, on_buf}
use side_eye_go.Snapshotter.{Snapshotter, Target, on_machine}
use side_eye_go.OutBuf.Bounds.{write_snapshot_header-Fits}
use side_eye_go.Snapshotter.Sane.{Sane, on_machine-Sane, on_buf-Sane}
use side_eye_go.Snapshotter.Taken.{stopped-Sane}
use side_eye_go.Snapshotter.Take.{
  Durations, Outcome, no_header, no_goroutines, taken, conclude, snapshot,
}

-- The word at the header says how long the slice is.
abbrev SaysLength : ℕ → OutBuf → Type 0
SaysLength header b = word b.mem header 4 ≡ b.len

on_buf-Returns :
    {A : Type 0} (Q : A → OutBuf → Type 0) (m : M OutBuf A) (s : Snapshotter)
    → Returns Q (m s.sm.b)
    → Returns (λ a s'. Q a s'.sm.b) (on_machine (on_buf m) s)
unfolding on_machine on_buf
on_buf-Returns Q m s h =
    Returns-zoom (λ a (m : Machine). Q a m.b) (λ a (s : Snapshotter). Q a s.sm.b) (λ s. s.sm)
      (λ s sm. record s { sm = sm }) (on_buf m) s
      (Returns-zoom Q (λ a (m : Machine). Q a m.b) (λ m. m.b) (λ m b. record m { b = b }) m s.sm h
        λ a b q. q)
      λ a m q. q

store_length :
    (header n : ℕ) (b : OutBuf)
    → n ≡ OutBuf.len_of b
    → b.len < 2 ^ 32
    → Returns (λ u b'. SaysLength header b') (store 4 header n b)
unfolding store OutBuf.len_of
store_length header n b is_len small = elim (Bool-cases (leb (header + 4) b.cap)) [
  | inl e ↦ rw e (word-poke_32 b.mem header n (omega arith) ∙ omega arith)
  | inr e ↦ rw e tt
]

store_behind :
    (header v : ℕ) (b : OutBuf)
    → SaysLength header b
    → Returns (λ u b'. SaysLength header b') (store 8 (header + 24) v b)
unfolding store
store_behind header v b h = elim (Bool-cases (leb (header + 24 + 8) b.cap)) [
  | inl e ↦ rw e (word-poke_apart b.mem (header + 24) 8 v header 4 (inl (omega arith)) ∙ h)
  | inr e ↦ rw e tt
]

-- Nothing is said where no snapshot was taken.
abbrev pub Reports : ℕ → Outcome → OutBuf → Type 0
Reports header no_header b = Unit {0}
Reports header no_goroutines b = Unit {0}
Reports header (taken shift) b = SaysLength header b

module _ (t : Target) (first_moduledata : ℕ) (d : Durations) where
  conclude-Reports :
      (header : ℕ) (r : Outcome) (s : Snapshotter)
      → s.sm.b.len < 2 ^ 32
      → Returns (λ r s'. Reports header r s'.sm.b) (conclude t first_moduledata header d r s)
  unfolding conclude pure get
  conclude-Reports header no_header s small = tt
  conclude-Reports header no_goroutines s small = tt
  conclude-Reports header (taken shift) s small =
      Returns-bind (λ a (s' : Snapshotter). (a ≡ s') × (s'.sm.b.len < 2 ^ 32))
        (λ r (s' : Snapshotter). Reports header r s'.sm.b) get _ s (refl, small)
        λ a s1 (same, small1).
          Returns-bind (λ u (s' : Snapshotter). SaysLength header s'.sm.b)
            (λ r (s' : Snapshotter). Reports header r s'.sm.b) _ _ s1
            (on_buf-Returns (λ u b. SaysLength header b) (store 4 header (OutBuf.len_of a.sm.b)) s1
              (store_length header (OutBuf.len_of a.sm.b) s1.sm.b
                (ap (λ (s' : Snapshotter). OutBuf.len_of s'.sm.b) same) small1))
            λ u s2 h2.
              Returns-bind (λ u (s' : Snapshotter). SaysLength header s'.sm.b)
                (λ r (s' : Snapshotter). Reports header r s'.sm.b) _ _ s2
                (on_buf-Returns (λ u b. SaysLength header b) (store 8 (header + 24) d.total) s2
                  (store_behind header d.total s2.sm.b h2))
                λ u s3 h3. h3

both :
    {S A : Type 0} (Q R : A → S → Type 0) (r : Result (A × S))
    → Returns Q r
    → Returns R r
    → Returns (λ a s. Q a s × R a s) r
both Q R (ok (a, s)) q r = (q, r)
both Q R (trap t) q r = tt

-- The header starts where the slice ended.
AtEnd : OutBuf → ℕ × Bool → OutBuf → Type 0
AtEnd b (header, room) b' = (room ≡ true) → header ≡ OutBuf.len_of b

header_at : (b : OutBuf) → Returns (AtEnd b) (write_snapshot_header b)
unfolding write_snapshot_header AtEnd get pure choose ◌>>=◌
header_at b =
    let grown = b.len + snapshot_header_size in
    Returns-choose (AtEnd b) (ltb b.cap grown) (modify OutBuf.set_full >> pure (0, false))
      (OutBuf.reslice grown >> pure (OutBuf.len_of b, true)) b
      (λ e.
        Returns-next (AtEnd b) (modify OutBuf.set_full) (λ u. pure (0, false)) b
          λ u s1 (no : false ≡ true). ground arith)
      λ e.
        Returns-next (AtEnd b) (OutBuf.reslice grown) (λ u. pure (OutBuf.len_of b, true)) b
          λ u s1 yes. refl

below_cap :
    {c : ℕ} {prog : List ℕ} (s : Snapshotter) → Sane c prog s → c < 2 ^ 32 → s.sm.b.len < 2 ^ 32
below_cap {c = c} s h small = let within : s.sm.b.len ≤ c = h.sound.buffer.within_cap in omega arith

-- A snapshot that is taken, on a slice of a buffer of less than 4 GiB, says in the first word of its
-- header, which stands where the slice ended before, how long the slice is when it returns.
pub snapshot-Reports :
    (t : Target) (first_moduledata fuel c : ℕ) (d : Durations) (prog : List ℕ) (s : Snapshotter)
    → Sane c prog s
    → c < 2 ^ 32
    → Returns
        (λ r s'. Reports (OutBuf.len_of s.sm.b) r s'.sm.b)
        (snapshot t first_moduledata fuel d s)
unfolding snapshot AtEnd pure
snapshot-Reports t first_moduledata fuel c d prog s h small =
    let end = OutBuf.len_of s.sm.b in
    let R : Outcome → Snapshotter → Type 0 = λ r s'. Reports end r s'.sm.b in
    let At : ℕ × Bool → Snapshotter → Type 0 = λ a s'. AtEnd s.sm.b a s'.sm.b in
    let Kept : Snapshotter → Type 0 = Sane c prog in
    Returns-bind (λ a s'. At a s' × Kept s') R _ _ s
      (both At (λ a s'. Kept s') _
        (on_buf-Returns (AtEnd s.sm.b) write_snapshot_header s (header_at s.sm.b))
        ((on_machine-Sane _ (on_buf-Sane _ write_snapshot_header-Fits)).at s h))
      λ (header, room) s1 (at_end, h1).
        Returns-choose R room _ _ s1
          (λ e.
            Returns-bind (λ r s'. Kept s') R _ _ s1
              ((stopped-Sane t first_moduledata fuel header d).at s1 h1)
              λ r s2 h2.
                rw⁻¹ (at_end e)
                  (conclude-Reports t first_moduledata d header r s2 (below_cap s2 h2 small)))
          λ e. tt
