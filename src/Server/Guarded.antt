-- ===== src/Server/Guarded.antt =====
-- Handlers with a variable `stop` and a deferred function that calls it where it is not nil.
use side_eye_go.Prelude.{Bool, false, List, [], ◌∷◌, ◌++◌, if◌then◌else◌}
use side_eye_go.Go.{Reply, done, failed}
use side_eye_go.Server.Act.{Act, give, finally}

-- The Boolean says whether `stop` is not nil.
abbrev pub Guarded : Type 0 → Type 0 → Type 0
Guarded E A = Bool → Act E A × Bool

module _ {E : Type 0} where
  abbrev pub lift : {A : Type 0} → Act E A → Guarded E A
  lift m stop = (m, stop)

  -- `stop := …`, and `stop = nil`
  abbrev pub set_stop : Bool → Guarded E (Unit {0})
  set_stop new stop = (give tt, new)

  abbrev pub then_guarded : {A B : Type 0} → List E → Reply A → (A → Guarded E B) → Guarded E B
  then_guarded es (done a) f stop = let r = f a stop in ((es ++ r.0.0, r.0.1), r.1)
  then_guarded es (failed x) f stop = ((es, failed x), stop)

  infixl 5 ◌>>=◌ ◌>>◌
  abbrev pub ◌>>=◌ : {A B : Type 0} → Guarded E A → (A → Guarded E B) → Guarded E B
  ◌>>=◌ m f stop = let r = m stop in then_guarded r.0.0 r.0.1 f r.1

  abbrev pub ◌>>◌ : {B : Type 0} → Guarded E (Unit {0}) → Guarded E B → Guarded E B
  m >> k = m >>= λ _. k

  -- The body, and `defer func() { if stop != nil { stop() } }`, where `stop` is the call `c`. Before
  -- its declaration it counts as nil.
  abbrev pub with_deferred : {A : Type 0} → E → Guarded E A → Act E A
  with_deferred c m = let r = m false in if r.1 then finally r.0 (c ∷ []) else r.0
