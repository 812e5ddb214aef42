-- ===== src/Http.antt =====
-- The HTTP exceptions that the backend's services throw, and handlers that read and write a state
-- and may throw. What was written before a throw stays written.
pub mod Keeps
pub mod Stays
pub mod After
use better_pingvin_share.Prelude.{ℕ, String, Option, Bool, true, false, ◌≡◌, ◌⊎◌, inl, inr, refl}

-- `BadRequestException` and the others, with the message and the error code where there is one.
-- `prisma_error` is a known request error of the database client, with its code; `type_error` is
-- JavaScript's, for a property read of null, `system_error` the file system's, with its code,
-- and `error_page` an exception that leads to a page, with the key of its message.
-- `unexpected_chunk` is a `BadRequestException` that carries the index of the chunk expected.
pub data HttpError : Type 0 where
  bad_request : String → HttpError
  unauthorized : String → HttpError
  forbidden : String → Option String → HttpError
  not_found : String → Option String → HttpError
  payload_too_large : String → HttpError
  too_many_requests : String → HttpError
  internal_server_error : String → HttpError
  prisma_error : String → HttpError
  type_error : HttpError
  unexpected_chunk : ℕ → HttpError
  system_error : String → HttpError
  error_page : String → HttpError

pub data Outcome {ℓ} (A : Type ℓ) : Type ℓ where
  done : A → Outcome A
  throw : HttpError → Outcome A

abbrev pub Handler {ℓ} : Type ℓ → Type ℓ → Type ℓ
Handler S A = S → Outcome A × S

module _ {ℓ} {S A : Type ℓ} where
  abbrev pub pure : A → Handler S A
  pure a s = (done a, s)

  abbrev pub raise : HttpError → Handler S A
  raise e s = (throw e, s)

  abbrev pub gets : (S → A) → Handler S A
  gets f s = (done (f s), s)

  abbrev pub lift : Outcome A → Handler S A
  lift r s = (r, s)

abbrev pub modify {ℓ} : {S : Type ℓ} → (S → S) → Handler S Unit
modify f s = (done tt, f s)

module _ {ℓ} {S A B : Type ℓ} where
  abbrev pub continue : Outcome A → (A → Handler S B) → Handler S B
  continue (done a) f s = f a s
  continue (throw e) f s = (throw e, s)

  infixl 10 ◌>>=◌ ◌>>◌
  abbrev pub ◌>>=◌ : Handler S A → (A → Handler S B) → Handler S B
  ◌>>=◌ m f s = let (r, s') = m s in continue r f s'

  abbrev pub ◌>>◌ : Handler S A → Handler S B → Handler S B
  m >> n = m >>= λ _. n

-- `if (b) throw e;`
abbrev pub throw_if {ℓ} : {S : Type ℓ} → Bool → HttpError → Handler S Unit
throw_if true e s = (throw e, s)
throw_if false e s = (done tt, s)

-- An error passes the rest by.
abbrev pub and_then {ℓ κ} : {A : Type ℓ} {B : Type κ} → Outcome A → (A → Outcome B) → Outcome B
and_then (throw e) f = throw e
and_then (done a) f = f a

pub Outcome-cases {ℓ} :
    {A : Type ℓ} (r : Outcome A) → ((e : HttpError) × (r ≡ throw e)) ⊎ ((a : A) × (r ≡ done a))
Outcome-cases (throw e) = inl (e, refl)
Outcome-cases (done a) = inr (a, refl)

-- What a predicate says of the value of an outcome; nothing of an error.
abbrev pub Ensures {ℓ κ} : {A : Type ℓ} → (A → Type κ) → Outcome A → Type κ
Ensures Q (throw e) = Unit
Ensures Q (done a) = Q a

pub Ensures-and_then {ℓ κ μ} :
    {A : Type ℓ} {B : Type κ} (Q : B → Type μ) (m : Outcome A) (f : A → Outcome B)
    → ((a : A) → m ≡ done a → Ensures Q (f a))
    → Ensures Q (and_then m f)
Ensures-and_then Q (throw e) f h = tt
Ensures-and_then Q (done a) f h = h a refl
