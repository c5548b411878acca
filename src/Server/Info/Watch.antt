-- ===== src/Server/Info/Watch.antt =====
-- WatchProcesses of internal/server/server.go, called any number of times.
use Prim.Native.String.{String}
use mathlib.Core.Path.{subst}
use side_eye_go.Prelude.{◌≡◌, refl, sym, ap, arith, none, some, inl, inr, List, [], ◌∷◌, All}
use side_eye_go.Go.{Reply, done, failed, Reply-cases}
use side_eye_go.Server.Act.{Act}
use side_eye_go.Server.Handlers.{get_binary_hash}
use side_eye_go.Server.Info.{
  Server, InfoCall, send_info, send_update, wait_done, WatchWorld, watch_with, watch_processes,
  watch_all,
}

-- Every process in the updates is this server's, with the hash.
abbrev pub Reports : {F : Type 0} → Server F → Reply String → InfoCall → Type 0
Reports s h (send_info r) = Unit {0}
Reports s h (send_update ps) =
    All
      (λ p.
        (h ≡ done p.binary_hash)
        × (p.fingerprint ≡ s.process_fingerprint)
        × (p.program ≡ s.program_name)
        × (p.ephemeral ≡ s.ephemeral_process))
      ps
Reports s h wait_done = Unit {0}

module _ {F : Type 0} where
  watch_with-Reports :
      (w : WatchWorld) (s : Server F) (h : Reply String)
      → All (λ c. Reports s h c) (watch_with w s h).0
  unfolding watch_with
  watch_with-Reports w s (failed e) = tt
  watch_with-Reports w s (done hash) = elim (Reply-cases w.executable) [
    | inr (x, e) ↦ rw e tt
    | inl (exe_path, e) ↦ rw e (elim (Reply-cases w.sent) [
      | inl (u, f) ↦ rw f ((((refl, refl, refl, refl), tt)), (tt, tt))
      | inr (x, f) ↦ rw f ((((refl, refl, refl, refl), tt)), tt)
    ])
  ]

  watch_all_cons :
      (w : WatchWorld) (ws : List WatchWorld) (s s' : Server F) (a : Act InfoCall (Unit {0}))
      → watch_processes w s ≡ (a, s')
      → watch_all (w ∷ ws) s ≡ (a ∷ (watch_all ws s').0, (watch_all ws s').1)
  unfolding watch_all
  watch_all_cons w ws s s' a e = ap (λ r. (r.0 ∷ (watch_all ws r.1).0, (watch_all ws r.1).1)) e

  -- On a server that has its hash.
  watch_hashed :
      (w : WatchWorld) (s : Server F) (h : Reply String)
      → s.hash.result ≡ some h
      → watch_processes w s ≡ (watch_with w s h, s)
  unfolding watch_processes get_binary_hash
  watch_hashed w s h e = ground (arith, e)

  -- What calls leave and do on a server that has its hash.
  abbrev Known : Server F → Reply String → List (Act InfoCall (Unit {0})) × Server F → Type 0
  Known s h r = (r.1 ≡ s) × All (λ a. All (λ c. Reports s h c) a.0) r.0

  watch_all-Known :
      (ws : List WatchWorld) (s : Server F) (h : Reply String)
      → s.hash.result ≡ some h
      → Known s h (watch_all ws s)
  unfolding watch_all
  watch_all-Known [] s h e = (refl, tt)
  watch_all-Known (w ∷ ws) s h e =
      let (same, all) = watch_all-Known ws s h e in
      subst (λ r. Known s h r) (sym (watch_all_cons w ws s s _ (watch_hashed w s h e)))
        (same, (watch_with-Reports w s h, all))

  -- However often WatchProcesses is called on a new server, the executable is hashed once, and every
  -- process that is reported is the server's own, with the hash of the first call; where that failed,
  -- none is ever reported.
  pub watch_all_once :
      (w : WatchWorld) (ws : List WatchWorld) (s : Server F)
      → s.hash ≡ record { result = none; ran = 0 }
      → ((watch_all (w ∷ ws) s).1.hash.ran ≡ 1)
        × All (λ a. All (λ c. Reports s w.hashed c) a.0) (watch_all (w ∷ ws) s).0
  unfolding watch_all watch_processes get_binary_hash
  watch_all_once w ws s e =
      let s' : Server F = record s { hash = record { result = some w.hashed; ran = 1 } } in
      let (same, all) = watch_all-Known ws s' w.hashed refl in
      rw e (rw same refl, (watch_with-Reports w s w.hashed, all))
