-- ===== src/Http/After.antt =====
-- What a handler brings about: on every path, or where it returns.
use better_pingvin_share.Prelude.{◌≡◌, Bool, true, false, if◌then◌else◌}
use better_pingvin_share.Http.{Outcome, done, throw, HttpError, Handler, raise, continue, ◌>>=◌}
use better_pingvin_share.Http.Stays.{Stays}

-- Before `m` holds `I`, after it `J`, whether it returns or throws.
pub record After {ℓ} {S A : Type ℓ} (I J : S → Type ℓ) (m : Handler S A) : Type ℓ where
  pub at : (s : S) → I s → J (m s).1

-- Where `m` returns, `J` holds.
pub record Returns {ℓ} {S A : Type ℓ} (J : S → Type ℓ) (m : Handler S A) : Type ℓ where
  pub at : (s : S) (a : A) → (m s).0 ≡ done a → J (m s).1

module _ {ℓ} {S A B : Type ℓ} {I J : S → Type ℓ} where
  continue-After :
      (r : Outcome A) (f : A → Handler S B) (s : S)
      → ((t : S) → I t → J t)
      → ((a : A) → After I J (f a))
      → I s
      → J (continue r f s).1
  continue-After (done a) f s weaken after h = (after a).at s h
  continue-After (throw e) f s weaken after h = weaken s h

  -- `m` keeps `I`, and what comes after it brings about `J`.
  pub After-bind :
      (m : Handler S A) (f : A → Handler S B)
      → ((t : S) → I t → J t)
      → Stays I m
      → ((a : A) → After I J (f a))
      → After I J (m >>= f)
  After-bind m f weaken km after = record {
    at = λ s h. continue-After (m s).0 f (m s).1 weaken after (km.at s h);
  }

module _ {ℓ} {S A B : Type ℓ} {J : S → Type ℓ} where
  continue-Stays :
      (r : Outcome A) (f : A → Handler S B) (s : S)
      → ((a : A) → Stays J (f a))
      → J s
      → J (continue r f s).1
  continue-Stays (done a) f s kept h = (kept a).at s h
  continue-Stays (throw e) f s kept h = h

  -- `m` brings about `J`, and what comes after it keeps it.
  pub After-then :
      {I : S → Type ℓ} (m : Handler S A) (f : A → Handler S B)
      → After I J m
      → ((a : A) → Stays J (f a))
      → After I J (m >>= f)
  After-then m f after kept = record {
    at = λ s h. continue-Stays (m s).0 f (m s).1 kept (after.at s h);
  }

  continue-Returns :
      (r : Outcome A) (f : A → Handler S B) (s : S) (b : B)
      → ((a : A) → Returns J (f a))
      → (continue r f s).0 ≡ done b
      → J (continue r f s).1
  continue-Returns (done a) f s b returns e = (returns a).at s b e
  continue-Returns (throw e') f s b returns e = cc

  pub Returns-bind :
      (m : Handler S A) (f : A → Handler S B) → ((a : A) → Returns J (f a)) → Returns J (m >>= f)
  Returns-bind m f returns = record { at = λ s b e. continue-Returns (m s).0 f (m s).1 b returns e }

module _ {ℓ} {S A : Type ℓ} {J : S → Type ℓ} where
  pub Returns-raise : (e : HttpError) → Returns J (raise {S = S} {A = A} e)
  Returns-raise e = record { at = λ s a h. cc }

  pub Returns-if :
      (b : Bool) (m n : Handler S A) → Returns J m → Returns J n → Returns J (if b then m else n)
  Returns-if true m n rm rn = rm
  Returns-if false m n rm rn = rn

module _ {ℓ} {S A : Type ℓ} {I J : S → Type ℓ} where
  pub After-raise : (e : HttpError) → ((t : S) → I t → J t) → After I J (raise {S = S} {A = A} e)
  After-raise e weaken = record { at = weaken }

  pub After-if :
      (b : Bool) (m n : Handler S A) → After I J m → After I J n → After I J (if b then m else n)
  After-if true m n am an = am
  After-if false m n am an = an

pub ruleset after_rules = (After-raise, After-if, After-bind)

pub ruleset returns_rules = (Returns-raise, Returns-if, Returns-bind)
