-- ===== src/Prelude/Effects.antt =====
-- Code that may stop: a Go run-time panic, or an access through an unsafe pointer that leaves the
-- memory it was made for. `stuck` is the model's own: a loop ran out of the fuel that it was given.
-- `M S` is such code over a state `S`.
pub mod Keeps
use mathlib.Core.Path.{◌≡◌, refl}
use mathlib.Core.Bool.{Bool, true, false}
use mathlib.Core.Option.{Option, none, some}

pub data Trap : Type 0 where
  panic fault stuck : Trap

pub data Result {ℓ} (A : Type ℓ) : Type ℓ where
  ok : A → Result A
  trap : Trap → Result A

abbrev pub M : Type 0 → Type 0 → Type 0
M S A = S → Result (A × S)

module _ {S : Type 0} where
  unfoldable pub pure : {A : Type 0} → A → M S A
  pure a s = ok (a, s)

  unfoldable pub stop : {A : Type 0} → Trap → M S A
  stop t s = trap t

  unfoldable pub get : M S S
  get s = ok (s, s)

  unfoldable pub modify : (S → S) → M S (Unit {0})
  modify f s = ok (tt, f s)

  -- The value of an index or lookup that panics when there is none.
  unfoldable pub demand : {A : Type 0} → Option A → M S A
  demand none s = trap panic
  demand (some a) s = ok (a, s)

  pub demand-some :
      {A : Type 0} {o : Option A} {a : A} {s : S} → o ≡ some a → demand o s ≡ ok (a, s)
  unfolding demand
  demand-some e = rw e refl

  -- The statement `if b { m } else { k }`.
  unfoldable pub choose : {A : Type 0} → Bool → M S A → M S A → M S A
  choose true m k = m
  choose false m k = k

  -- A nil test: `m` at nil, and `f` of the value otherwise.
  unfoldable pub on_option : {A B : Type 0} → Option A → M S B → (A → M S B) → M S B
  on_option none m f = m
  on_option (some a) m f = f a

  infixl 5 ◌>>=◌ ◌>>◌
  -- Opening this opens the operations above too.
  unfoldable pub ◌>>=◌ : {A B : Type 0} → M S A → (A → M S B) → M S B
  unfolding pure stop get modify demand choose on_option
  ◌>>=◌ m f s = elim (m s) [ ok (a, s') ↦ f a s' | trap t ↦ trap t ]

  -- A step that returns hands its value and state on.
  pub >>=_ok :
      {A B : Type 0} (m : M S A) (f : A → M S B) {s s' : S} {a : A}
      → m s ≡ ok (a, s')
      → (m >>= f) s ≡ f a s'
  unfolding ◌>>=◌
  >>=_ok m f e = rw (e, ◌>>=◌)

  pub >>=_trap :
      {A B : Type 0} (m : M S A) (f : A → M S B) {s : S} {t : Trap}
      → m s ≡ trap t
      → (m >>= f) s ≡ trap t
  unfolding ◌>>=◌
  >>=_trap m f e = rw (e, ◌>>=◌)

  abbrev pub ◌>>◌ : {B : Type 0} → M S (Unit {0}) → M S B → M S B
  m >> k = m >>= λ _. k

-- Code over a part of the state: `get_part` reads the part, `set_part` puts it back.
unfoldable pub zoom : {S T A : Type 0} → (S → T) → (S → T → S) → M T A → M S A
zoom get_part set_part m s = elim (m (get_part s)) [
  | ok (a, t) ↦ ok (a, set_part s t)
  | trap t ↦ trap t
]

pub zoom_ok :
    {S T A : Type 0} (get_part : S → T) (set_part : S → T → S) (m : M T A) {s : S} {t : T} {a : A}
    → m (get_part s) ≡ ok (a, t)
    → zoom get_part set_part m s ≡ ok (a, set_part s t)
unfolding zoom
zoom_ok get_part set_part m e = rw (e, zoom) refl
