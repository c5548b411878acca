-- ===== src/Server/Act.antt =====
-- Handlers: the calls that one makes, in order, and what it returns.
use side_eye_go.Prelude.{List, [], ◌∷◌, ◌++◌}
use side_eye_go.Go.{GoError, Reply, done, failed}

abbrev pub Act : Type 0 → Type 0 → Type 0
Act E A = List E × Reply A

module _ {E : Type 0} where
  abbrev pub give : {A : Type 0} → A → Act E A
  give a = ([], done a)

  abbrev pub fail : {A : Type 0} → GoError → Act E A
  fail e = ([], failed e)

  -- A call of code outside, and what it returns.
  abbrev pub call : {A : Type 0} → E → Reply A → Act E A
  call e r = (e ∷ [], r)

  abbrev pub then_on : {A B : Type 0} → List E → Reply A → (A → Act E B) → Act E B
  then_on es (done a) f = (es ++ (f a).0, (f a).1)
  then_on es (failed x) f = (es, failed x)

  infixl 5 ◌>>=◌ ◌>>◌
  abbrev pub ◌>>=◌ : {A B : Type 0} → Act E A → (A → Act E B) → Act E B
  m >>= f = then_on m.0 m.1 f

  abbrev pub ◌>>◌ : {B : Type 0} → Act E (Unit {0}) → Act E B → Act E B
  m >> k = m >>= λ _. k

  -- `defer`: the calls of `last` behind those of `m`, whatever it returns.
  abbrev pub finally : {A : Type 0} → Act E A → List E → Act E A
  finally m last = (m.0 ++ last, m.1)
