-- ===== src/Server/Handlers/Snapshots.antt =====
-- The handler Snapshot of internal/server/server.go.
use Prim.Native.String.{String}
use side_eye_go.Prelude.{◌≡◌, ◌⊎◌, refl, arith, false, List, [], ◌∷◌, inl, inr}
use side_eye_go.Go.{GoError, done, failed, wrap, is_done, Reply-cases}
use side_eye_go.Server.Act.{Act}
use side_eye_go.Server.Handlers.{
  SnapshotRequest, setup, snapshot_request, other, SnapshotCall, recv, fetch, send_header,
  take_snapshot, send, SnapshotWorld, snapshot,
}

module _ {P O : Type 0} where
  -- A session that goes well, with its key, program and output.
  pub record GoesWell (w : SnapshotWorld P O) (key : String) (p : P) (o : O) : Type 0 where
    pub first_is : w.first ≡ done (setup key)
    pub fetched_is : w.fetched key ≡ done p
    pub header_is : w.header_sent ≡ done tt
    pub second_is : w.second ≡ done snapshot_request
    pub taken_is : w.taken p ≡ done o

  abbrev pub calls_of : String → P → O → List (SnapshotCall P O)
  calls_of key p o = recv ∷ fetch key ∷ send_header ∷ recv ∷ take_snapshot p ∷ send o ∷ []

  snapshot_well :
      (w : SnapshotWorld P O) (key : String) (p : P) (o : O)
      → GoesWell w key p o
      → snapshot w ≡ (calls_of key p o, wrap "failed to send SnapshotResponse" (w.sent o))
  unfolding snapshot
  snapshot_well w key p o g = ground arith

  -- The programs by which snapshots were taken.
  abbrev pub taken_by : List (SnapshotCall P O) → List P
  taken_by [] = []
  taken_by (take_snapshot p ∷ cs) = p ∷ taken_by cs
  taken_by (c ∷ cs) = taken_by cs

  -- What has to come before a snapshot by the program `p`.
  abbrev pub Allowed : SnapshotWorld P O → String → P → Type 0
  Allowed w key p =
      (w.first ≡ done (setup key))
      × (w.fetched key ≡ done p)
      × (w.header_sent ≡ done tt)
      × (w.second ≡ done snapshot_request)

  -- No snapshot, and an error in its place.
  abbrev pub TakesNone : Act (SnapshotCall P O) (Unit {0}) → Type 0
  TakesNone m = (taken_by m.0 ≡ []) × (is_done m.1 ≡ false)

  -- No snapshot, or one by a program for which it is allowed.
  abbrev pub Takes : SnapshotWorld P O → Act (SnapshotCall P O) (Unit {0}) → Type 0
  Takes w m =
      TakesNone m ⊎ ((key : String) × ((p : P) × ((taken_by m.0 ≡ p ∷ []) × Allowed w key p)))

  no_take_first :
      (w : SnapshotWorld P O) (e : GoError) → w.first ≡ failed e → TakesNone (snapshot w)
  unfolding snapshot
  no_take_first w e h = (ground arith, ground arith)

  no_take_key :
      (w : SnapshotWorld P O) (r : SnapshotRequest)
      → w.first ≡ done r
      → ((key : String) × (r ≡ setup key)) ⊎ (TakesNone (snapshot w))
  unfolding snapshot
  no_take_key w (setup key) h = inl (key, refl)
  no_take_key w snapshot_request h = inr (ground arith, ground arith)
  no_take_key w other h = inr (ground arith, ground arith)

  no_take_fetch :
      (w : SnapshotWorld P O) (key : String) (e : GoError)
      → w.first ≡ done (setup key)
      → w.fetched key ≡ failed e
      → TakesNone (snapshot w)
  unfolding snapshot
  no_take_fetch w key e h f = (ground arith, ground arith)

  -- Behind the program that was fetched.
  fetched-Takes :
      (w : SnapshotWorld P O) (key : String) (p : P)
      → w.first ≡ done (setup key)
      → w.fetched key ≡ done p
      → Takes w (snapshot w)
  unfolding snapshot
  fetched-Takes w key p h f = elim (Reply-cases w.header_sent) [
    | inr (e, s) ↦ inl (ground arith, ground arith)
    | inl (u, s) ↦ elim (Reply-cases w.second) [
      | inr (e, r) ↦ inl (ground arith, ground arith)
      | inl (snapshot_request, r) ↦ elim (Reply-cases (w.taken p)) [
        | inr (e, t) ↦ inr (key, (p, (ground arith, (h, f, s, r))))
        | inl (o, t) ↦ inr (key, (p, (ground arith, (h, f, s, r))))
      ]
      | inl (setup k, r) ↦ inl (ground arith, ground arith)
      | inl (other, r) ↦ inl (ground arith, ground arith)
    ]
  ]

  -- The handler returns an error and stops the world for no snapshot, or it stops the world for one:
  -- where the first message is a setup, by the program that was fetched for its key, and behind a
  -- header that was sent and a second message that asks for the snapshot.
  pub snapshot-Takes : (w : SnapshotWorld P O) → Takes w (snapshot w)
  snapshot-Takes w = elim (Reply-cases w.first) [
    | inr (e, h) ↦ inl (no_take_first w e h)
    | inl (r, h) ↦ elim (no_take_key w r h) [
      | inr n ↦ inl n
      | inl (key, k) ↦
          let h' : w.first ≡ done (setup key) = cc in
          elim (Reply-cases (w.fetched key)) [
            | inr (e, f) ↦ inl (no_take_fetch w key e h' f)
            | inl (p, f) ↦ fetched-Takes w key p h' f
          ]
    ]
  ]
