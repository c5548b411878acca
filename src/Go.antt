-- ===== src/Go.antt =====
-- Errors of Go, and code that returns one beside a state: what the server and the connection share.
-- The texts of the errors are those of the source; the verbs of a format are left as they stand.
use Prim.Native.String.{String}
use side_eye_go.Prelude.{ℕ, ◌≡◌, ◌⊎◌, inl, inr, refl, Bool, true, false}

pub data GoError : Type 0 where
  -- An error of code outside of the repository.
  external : ℕ → GoError
  eof canceled deadline_exceeded : GoError
  -- `fmt.Errorf(text)`, with an error for `%w`, and `status.Errorf(code, text)`.
  message : String → GoError
  wrapped : String → GoError → GoError
  coded : ℕ → String → GoError

-- `errors.Is` at a sentinel: the error itself, or one that it wraps.
abbrev pub is_eof : GoError → Bool
is_eof eof = true
is_eof (wrapped t e) = is_eof e
is_eof e = false

abbrev pub is_context_error : GoError → Bool
is_context_error canceled = true
is_context_error deadline_exceeded = true
is_context_error (wrapped t e) = is_context_error e
is_context_error e = false

pub data Reply {ℓ} (A : Type ℓ) : Type ℓ where
  done : A → Reply A
  failed : GoError → Reply A

-- `if err != nil { return fmt.Errorf("text: %w", err) }`
abbrev pub wrap {ℓ} : {A : Type ℓ} → String → Reply A → Reply A
wrap t (done a) = done a
wrap t (failed e) = failed (wrapped t e)

infixl 5 ◌>>=◌ ◌>>◌
abbrev pub ◌>>=◌ {ℓ κ} : {A : Type ℓ} {B : Type κ} → Reply A → (A → Reply B) → Reply B
done a >>= f = f a
failed e >>= f = failed e

abbrev pub ◌>>◌ {ℓ} : {B : Type ℓ} → Reply (Unit {0}) → Reply B → Reply B
m >> k = m >>= λ _. k

-- `if !b { return err }`
abbrev pub check : Bool → GoError → Reply (Unit {0})
check true e = done tt
check false e = failed e

abbrev pub is_done {ℓ} : {A : Type ℓ} → Reply A → Bool
is_done (done a) = true
is_done (failed e) = false

pub Reply-cases {ℓ} :
    {A : Type ℓ} (r : Reply A) → ((a : A) × (r ≡ done a)) ⊎ ((e : GoError) × (r ≡ failed e))
Reply-cases (done a) = inl (a, refl)
Reply-cases (failed e) = inr (e, refl)
