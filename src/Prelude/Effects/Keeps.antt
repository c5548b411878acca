-- ===== src/Prelude/Effects/Keeps.antt =====
-- Invariants of code that may stop, with one rule for each way to build it.
use mathlib.Core.Path.{◌≡◌, refl}
use mathlib.Core.Bool.{Bool, true, false}
use mathlib.Core.Option.{Option, none, some}
use side_eye_go.Prelude.Effects.{
  M, ok, trap, Trap, Result, pure, stop, get, modify, demand, choose, on_option, zoom, ◌>>=◌,
}

-- What holds of a result: `Q` of a value and a state, nothing of a stop.
abbrev pub Returns {ℓ} : {S A : Type 0} → (A → S → Type ℓ) → Result (A × S) → Type ℓ
Returns Q (ok (a, s)) = Q a s
Returns Q (trap t) = Unit {ℓ}

-- `m` keeps `P` wherever it returns.
pub record Keeps {ℓ} {S A : Type 0} (P : S → Type ℓ) (m : M S A) : Type ℓ where
  pub at : (s : S) → P s → Returns (λ a s'. P s') (m s)

module _ {ℓ} {S A : Type 0} {P : S → Type ℓ} where
  pub Keeps-pure : (a : A) → Keeps P (pure a)
  unfolding pure
  Keeps-pure a = record { at = λ s h. h }

  pub Keeps-stop : (t : Trap) → Keeps P (stop {A = A} t)
  unfolding stop
  Keeps-stop t = record { at = λ s h. tt }

  pub Keeps-demand : (o : Option A) → Keeps P (demand o)
  unfolding demand
  Keeps-demand none = record { at = λ s h. tt }
  Keeps-demand (some a) = record { at = λ s h. h }

  pub Keeps-choose :
      (b : Bool) (m k : M S A)
      → (b ≡ true → Keeps P m)
      → (b ≡ false → Keeps P k)
      → Keeps P (choose b m k)
  unfolding choose
  Keeps-choose true m k hm hk = hm refl
  Keeps-choose false m k hm hk = hk refl

module _ {ℓ} {S : Type 0} {P : S → Type ℓ} where
  pub Keeps-get : Keeps P get
  unfolding get
  Keeps-get = record { at = λ s h. h }

  pub Keeps-modify : (f : S → S) → ((s : S) → P s → P (f s)) → Keeps P (modify f)
  unfolding modify
  Keeps-modify f h = record { at = h }

module _ {ℓ} {S A B : Type 0} {P : S → Type ℓ} where
  bind_result :
      (f : A → M S B) (r : Result (A × S))
      → ((a : A) → Keeps P (f a))
      → Returns (λ a s'. P s') r
      → Returns
          (λ b s'. P s')
          (elim r as (λ _. Result (B × S)) [ ok (a, s') ↦ f a s' | trap t ↦ trap t ])
  bind_result f (ok (a, s)) kf h = (kf a).at s h
  bind_result f (trap t) kf h = tt

  pub Keeps-bind :
      (m : M S A) (f : A → M S B) → Keeps P m → ((a : A) → Keeps P (f a)) → Keeps P (m >>= f)
  unfolding ◌>>=◌
  Keeps-bind m f km kf = record { at = λ s h. bind_result f (m s) kf (km.at s h) }

  pub Keeps-option :
      (o : Option A) (m : M S B) (f : A → M S B)
      → Keeps P m
      → ((a : A) → Keeps P (f a))
      → Keeps P (on_option o m f)
  unfolding on_option
  Keeps-option none m f km kf = km
  Keeps-option (some a) m f km kf = kf a

module _ {ℓ ℓ'} {S T A : Type 0} where
  zoom_result :
      (P : S → Type ℓ) (Q : T → Type ℓ') (set_part : S → T → S) (s : S) (r : Result (A × T))
      → ((t : T) → Q t → P (set_part s t))
      → Returns (λ a t. Q t) r
      → Returns
          (λ a s'. P s')
          (elim r as (λ _. Result (A × S)) [ ok (a, t) ↦ ok (a, set_part s t) | trap t ↦ trap t ])
  zoom_result P Q set_part s (ok (a, t)) put h = put t h
  zoom_result P Q set_part s (trap t) put h = tt

  -- Code over a part keeps what it keeps of the part.
  pub Keeps-zoom :
      {P : S → Type ℓ} (Q : T → Type ℓ') (get_part : S → T) (set_part : S → T → S) (m : M T A)
      → ((s : S) → P s → Q (get_part s))
      → ((s : S) (t : T) → P s → Q t → P (set_part s t))
      → Keeps Q m
      → Keeps P (zoom get_part set_part m)
  unfolding zoom
  Keeps-zoom {P = P} Q get_part set_part m part put km = record {
    at = λ s h.
        zoom_result P Q set_part s (m (get_part s)) (λ t. put s t h)
          (km.at (get_part s) (part s h));
  }

module _ {S A : Type 0} where
  any_result : (r : Result (A × S)) → Returns (λ a s'. Unit {0}) r
  any_result (ok (a, s)) = tt
  any_result (trap t) = tt

  pub Keeps-any : (m : M S A) → Keeps (λ s. Unit {0}) m
  Keeps-any m = record { at = λ s h. any_result (m s) }

module _ {ℓ ℓ'} {S A B : Type 0} (Q : A → S → Type ℓ) (R : B → S → Type ℓ') where
  bind-Returns :
      (f : A → M S B) (r : Result (A × S))
      → Returns Q r
      → ((a : A) (s : S) → Q a s → Returns R (f a s))
      → Returns R (elim r as (λ _. Result (B × S)) [ ok (a, s') ↦ f a s' | trap t ↦ trap t ])
  bind-Returns f (ok (a, s)) h k = k a s h
  bind-Returns f (trap t) h k = tt

  -- What holds of a result of two steps, from what holds of the first one's.
  pub Returns-bind :
      (m : M S A) (f : A → M S B) (s : S)
      → Returns Q (m s)
      → ((a : A) (s' : S) → Q a s' → Returns R (f a s'))
      → Returns R ((m >>= f) s)
  unfolding ◌>>=◌
  Returns-bind m f s h k = bind-Returns f (m s) h k

module _ {ℓ ℓ'} {S T A : Type 0} (Q : A → T → Type ℓ) (R : A → S → Type ℓ') where
  zoom-Returns :
      (set_part : S → T → S) (s : S) (r : Result (A × T))
      → Returns Q r
      → ((a : A) (t : T) → Q a t → R a (set_part s t))
      → Returns R
          (elim r as (λ _. Result (A × S)) [ ok (a, t) ↦ ok (a, set_part s t) | trap t ↦ trap t ])
  zoom-Returns set_part s (ok (a, t)) h k = k a t h
  zoom-Returns set_part s (trap t) h k = tt

  pub Returns-zoom :
      (get_part : S → T) (set_part : S → T → S) (m : M T A) (s : S)
      → Returns Q (m (get_part s))
      → ((a : A) (t : T) → Q a t → R a (set_part s t))
      → Returns R (zoom get_part set_part m s)
  unfolding zoom
  Returns-zoom get_part set_part m s h k = zoom-Returns set_part s (m (get_part s)) h k

pub Returns-choose :
    {S A : Type 0} (R : A → S → Type 0) (b : Bool) (m k : M S A) (s : S)
    → (b ≡ true → Returns R (m s))
    → (b ≡ false → Returns R (k s))
    → Returns R (choose b m k s)
unfolding choose
Returns-choose R true m k s hm hk = hm refl
Returns-choose R false m k s hm hk = hk refl

-- A step of which nothing is needed.
pub Returns-next :
    {S A B : Type 0} (R : B → S → Type 0) (m : M S A) (f : A → M S B) (s : S)
    → ((a : A) (s' : S) → Returns R (f a s'))
    → Returns R ((m >>= f) s)
Returns-next R m f s k =
    Returns-bind (λ a s'. Unit {0}) R m f s ((Keeps-any m).at s tt) λ a s' u. k a s'

pub ruleset keeps_rules =
    (Keeps-pure, Keeps-stop, Keeps-demand, Keeps-choose, Keeps-get, Keeps-bind, Keeps-option)
