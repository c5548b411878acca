-- ===== src/Server/Fetcher.antt =====
-- internal/server/fetcher.go: the cache of snapshot programs, and the fetcher behind it.
pub mod Cache
pub mod Remote
use Prim.Native.String.{String}
use text.Mathlib.Text.{◌==◌ as str_eq}
use side_eye_go.Prelude.{
  ℕ, zero, suc, ◌+◌, ◌%◌, Bool, true, false, Option, none, some, List, [], ◌∷◌, ◌++◌, length, ltb,
  if◌then◌else◌,
}
use side_eye_go.Go.{GoError, wrapped, is_eof, is_context_error, Reply, done, failed, wrap}

-- A program is whatever `proto.Unmarshal` makes of the bytes.
pub record CachedFetcher (P : Type 0) : Type 0 where
  pub max_capacity : ℕ
  pub cache : List (String × P)

-- One call of `g.Do`: it ran the function itself, or got the result of another call for the key.
-- The Boolean is whether the context of the caller has no error then.
pub data Flight (P : Type 0) : Type 0 where
  ran : Reply P → (ℕ → ℕ) → Flight P
  shared : Reply P → Bool → Flight P

-- What `chunks.Recv` returns.
pub data Recv : Type 0 where
  chunk : List ℕ → Recv
  broke : GoError → Recv

-- `newCachedSnapshotFetcher`
unfoldable pub new_cached : {P : Type 0} → ℕ → CachedFetcher P
new_cached max_capacity = record { max_capacity = max_capacity; cache = [] }

-- The loop that receives; `none` where a call of Recv has not returned.
unfoldable pub receive : List ℕ → List Recv → Option (Reply (List ℕ))
receive buf [] = none
receive buf (chunk bytes ∷ rs) = receive (buf ++ bytes) rs
receive buf (broke e ∷ rs) =
    some (if is_eof e then done buf else failed (wrapped "failed to receive chunk" e))

module _ {P : Type 0} where
  abbrev pub lookup : String → List (String × P) → Option P
  lookup k [] = none
  lookup k ((j, p) ∷ m) = if str_eq j k then some p else lookup k m

  -- `cache[key] = p`
  abbrev pub insert : String → P → List (String × P) → List (String × P)
  insert k p [] = (k, p) ∷ []
  insert k p ((j, q) ∷ m) = if str_eq j k then (k, p) ∷ m else (j, q) ∷ insert k p m

  abbrev pub remove_at : ℕ → List (String × P) → List (String × P)
  remove_at i [] = []
  remove_at zero (e ∷ m) = m
  remove_at (suc i) (e ∷ m) = e ∷ remove_at i m

  -- The loop that evicts. The entry that `range` comes upon first is any one: `choose` names it. The
  -- counter is the length of the cache, which falls by one in each round.
  unfoldable pub evict : ℕ → (ℕ → ℕ) → ℕ → List (String × P) → List (String × P)
  evict max choose zero m = m
  evict max choose (suc n) m =
      let rest = evict max choose n (remove_at (choose n % suc n) m) in
      if ltb (length m) max then m else rest

  -- What the function given to `g.Do` does under the lock.
  unfoldable pub put : String → P → (ℕ → ℕ) → CachedFetcher P → CachedFetcher P
  unfolding evict
  put key p choose s = record s {
    cache = insert key p (evict s.max_capacity choose (length s.cache) s.cache);
  }

  -- The test `retry` for a result that is shared.
  abbrev pub should_retry : Reply P → Bool → Bool
  should_retry (done p) alive = false
  should_retry (failed e) alive = if alive then is_context_error e else false

  -- The loop of FetchSnapshotProgram over its calls of `g.Do`. The result is `none` where the last of
  -- these calls has not returned.
  unfoldable pub fetch_loop :
      String → List (Flight P) → CachedFetcher P → Option (Reply P) × CachedFetcher P
  unfolding put
  fetch_loop key [] s = (none, s)
  fetch_loop key (ran (done p) choose ∷ fs) s = (some (done p), put key p choose s)
  fetch_loop key (ran (failed e) choose ∷ fs) s = (some (failed e), s)
  fetch_loop key (shared r alive ∷ fs) s =
      let rest = fetch_loop key fs s in if should_retry r alive then rest else (some r, s)

  unfoldable pub fetch_snapshot_program :
      String → List (Flight P) → CachedFetcher P → Option (Reply P) × CachedFetcher P
  unfolding fetch_loop
  fetch_snapshot_program key fs s = elim (lookup key s.cache) [
    | some p ↦ (some (done p), s)
    | none ↦ fetch_loop key fs s
  ]

  abbrev pub unmarshalled : (List ℕ → Reply P) → Option (Reply (List ℕ)) → Option (Reply P)
  unmarshalled unmarshal none = none
  unmarshalled unmarshal (some (failed e)) = some (failed e)
  unmarshalled unmarshal (some (done buf)) =
      some (wrap "failed to unmarshal snapshot program" (unmarshal buf))

  -- `remoteSnapshotFetcher.FetchSnapshotProgram`, by what GetArtifact and the calls of Recv return.
  unfoldable pub remote_fetch : (List ℕ → Reply P) → Reply (List Recv) → Option (Reply P)
  unfolding receive
  remote_fetch unmarshal (failed e) = some (failed (wrapped "failed to get snapshot program" e))
  remote_fetch unmarshal (done rs) = unmarshalled unmarshal (receive [] rs)
