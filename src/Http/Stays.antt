-- ===== src/Http/Stays.antt =====
-- Handlers after which an invariant holds that held before, whether they return or throw.
use better_pingvin_share.Prelude.{Bool, true, false, ◌≡◌, refl, if◌then◌else◌}
use better_pingvin_share.Http.{
  Outcome, done, throw, HttpError, Handler, pure, raise, gets, lift, continue, ◌>>=◌,
}
use better_pingvin_share.Http.Keeps.{Keeps}

pub record Stays {ℓ} {S A : Type ℓ} (I : S → Type ℓ) (m : Handler S A) : Type ℓ where
  pub at : (s : S) → I s → I (m s).1

module _ {ℓ} {S A : Type ℓ} {I : S → Type ℓ} where
  pub Stays-pure : (a : A) → Stays I (pure {S = S} a)
  Stays-pure a = record { at = λ s h. h }

  pub Stays-raise : (e : HttpError) → Stays I (raise {S = S} {A = A} e)
  Stays-raise e = record { at = λ s h. h }

  pub Stays-gets : (f : S → A) → Stays I (gets f)
  Stays-gets f = record { at = λ s h. h }

  pub Stays-lift : (r : Outcome A) → Stays I (lift {S = S} r)
  Stays-lift r = record { at = λ s h. h }

  pub Stays-if :
      (b : Bool) (m n : Handler S A) → Stays I m → Stays I n → Stays I (if b then m else n)
  Stays-if true m n km kn = km
  Stays-if false m n km kn = kn

module _ {ℓ} {S A B : Type ℓ} {I : S → Type ℓ} where
  continue-Stays :
      (r : Outcome A) (f : A → Handler S B) (s : S)
      → ((a : A) → Stays I (f a))
      → I s
      → I (continue r f s).1
  continue-Stays (done a) f s kf h = (kf a).at s h
  continue-Stays (throw e) f s kf h = h

  pub Stays-bind :
      (m : Handler S A) (f : A → Handler S B)
      → Stays I m
      → ((a : A) → Stays I (f a))
      → Stays I (m >>= f)
  Stays-bind m f km kf = record {
    at = λ s h. let (r, s') = m s in continue-Stays r f s' kf (km.at s h);
  }

-- A check that changes nothing, before a handler that relies on it
module _ {ℓ} {S A B : Type ℓ} where
  after_check :
      (I : S → Type ℓ) (r : Outcome A) (f : A → Handler S B) (s : S)
      → ((a : A) → r ≡ done a → I (f a s).1)
      → I s
      → I (continue r f s).1
  after_check I (done a) f s kept h = kept a refl
  after_check I (throw e) f s kept h = h

  pub Stays-check :
      (I : S → Type ℓ) (m : Handler S A) (f : A → Handler S B)
      → ((s : S) → (m s).1 ≡ s)
      → ((s : S) (a : A) → (m s).0 ≡ done a → I s → I (f a s).1)
      → Stays I (m >>= f)
  Stays-check I m f same kept = record {
    at = λ s h. rw (same s) (after_check I (m s).0 f s (λ a e. kept s a e h) h);
  }

  -- What is returned at the end does not change the state.
  pub continue-pure : (r : Outcome A) (b : B) (s : S) → (continue r (λ a. pure {S = S} b) s).1 ≡ s
  continue-pure (done a) b s = refl
  continue-pure (throw e) b s = refl

-- What a handler leaves alone, it breaks no invariant of.
pub Stays-Keeps :
    {S X A : Type 0} (part : S → X) (J : X → Type 0) (m : Handler S A)
    → Keeps part m
    → Stays (λ s. J (part s)) m
Stays-Keeps part J m k = record { at = λ s h. rw (k.at s) h }

pub ruleset stays_rules = (Stays-pure, Stays-raise, Stays-gets, Stays-lift, Stays-if, Stays-bind)
