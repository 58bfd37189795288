-- ===== src/Platform/Exec.antt =====
-- Go functions that return `(value, error)` and change a store: actions over a state. An error
-- undoes no write, so every result has the state that was reached.
use octo_doc.Base.{String, Bool, true, false, Option, none, some, ◌≡◌, refl, arith, if◌then◌else◌}
use octo_doc.Platform.Errors.{AppError}

-- an application error, or a driver's error passed up with no wrapping
pub data Error : Type 0 where
  app : AppError → Error
  driver : String → Error

pub data Result {ℓ} (A : Type ℓ) : Type ℓ where
  ok : A → Result A
  err : Error → Result A

abbrev pub Exec : Type 0 → Type 0 → Type 0
Exec S A = S → Result A × S

-- the rest of a function behind `if err != nil { return err }`
abbrev pub then_on : {S A B : Type 0} → (A → Exec S B) → Result A × S → Result B × S
then_on rest (ok value, state) = rest value state
then_on rest (err e, state) = (err e, state)

-- An action that ends with a value ran both of its parts to a value.
pub then_on-ok :
    {S A B : Type 0} (first : Result A × S) (rest : A → Exec S B) (b : B) (s : S)
    → then_on rest first ≡ (ok b, s)
    → (a : A) × (between : S) × (first ≡ (ok a, between)) × (rest a between ≡ (ok b, s))
then_on-ok (ok a, between) rest b s h = (a, between, refl, h)
then_on-ok (err e, between) rest b s h = absurd (ground arith)

infixl 10 ◌>>=◌ ◌>>◌
abbrev pub ◌>>=◌ : {S A B : Type 0} → Exec S A → (A → Exec S B) → Exec S B
first >>= rest = λ state. then_on rest (first state)

abbrev pub ◌>>◌ : {S A B : Type 0} → Exec S A → Exec S B → Exec S B
first >> second = first >>= (λ _. second)

abbrev pub pure : {S A : Type 0} → A → Exec S A
pure value = λ state. (ok value, state)

abbrev pub raise : {S A : Type 0} → Error → Exec S A
raise e = λ state. (err e, state)

-- `return nil, apperr.…`
abbrev pub fail : {S A : Type 0} → AppError → Exec S A
fail e = raise (app e)

-- the text of an error, as a cause
abbrev pub text_of : Error → String
text_of (app e) = e.msg
text_of (driver s) = s

abbrev pub wrapped : {A : Type 0} → (String → AppError) → Result A → Result A
wrapped wrap (ok a) = ok a
wrapped wrap (err e) = err (app (wrap (text_of e)))

-- `if err != nil { return apperr.Upstream(msg, code, err) }`
abbrev pub or_upstream : {S A : Type 0} → (String → AppError) → Exec S A → Exec S A
or_upstream wrap m s = let (r, s') = m s in (wrapped wrap r, s')

abbrev pub kept : {A : Type 0} → Result A → Option A
kept (ok a) = some a
kept (err e) = none

-- `if err := m; err != nil { log }`: the value if there is one, and no stop
abbrev pub attempt : {S A : Type 0} → Exec S A → Exec S (Option A)
attempt m s = let (r, s') = m s in (ok (kept r), s')

-- A check in front of an action that ends with a value let it run.
pub guard-ok :
    {S A : Type 0} (stops : Bool) (e : AppError) (m : Exec S A) (a : A) (s s' : S)
    → (if stops then fail e else m) s ≡ (ok a, s')
    → m s ≡ (ok a, s')
guard-ok true e m a s s' h = absurd (ground arith)
guard-ok false e m a s s' h = h
