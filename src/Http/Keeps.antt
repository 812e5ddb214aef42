-- ===== src/Http/Keeps.antt =====
-- Handlers that leave a part of the state as it is, whether they return or throw.
use better_pingvin_share.Prelude.{Bool, true, false, ◌≡◌, refl, ◌∙◌, if◌then◌else◌}
use better_pingvin_share.Http.{
  Outcome, done, throw, HttpError, Handler, pure, raise, gets, lift, throw_if, continue, ◌>>=◌,
}

-- `part` reads the part of the state that `m` keeps.
pub record Keeps {ℓ} {S X A : Type ℓ} (part : S → X) (m : Handler S A) : Type ℓ where
  pub at : (s : S) → part (m s).1 ≡ part s

module _ {ℓ} {S X A : Type ℓ} {part : S → X} where
  pub Keeps-pure : (a : A) → Keeps part (pure {S = S} a)
  Keeps-pure a = record { at = λ s. refl }

  pub Keeps-raise : (e : HttpError) → Keeps part (raise {S = S} {A = A} e)
  Keeps-raise e = record { at = λ s. refl }

  pub Keeps-gets : (f : S → A) → Keeps part (gets f)
  Keeps-gets f = record { at = λ s. refl }

  pub Keeps-lift : (r : Outcome A) → Keeps part (lift {S = S} r)
  Keeps-lift r = record { at = λ s. refl }

  pub Keeps-if :
      (b : Bool) (m n : Handler S A) → Keeps part m → Keeps part n → Keeps part (if b then m else n)
  Keeps-if true m n km kn = km
  Keeps-if false m n km kn = kn

module _ {S X : Type 0} {part : S → X} where
  pub Keeps-throw_if : (b : Bool) (e : HttpError) → Keeps part (throw_if {S = S} b e)
  Keeps-throw_if true e = record { at = λ s. refl }
  Keeps-throw_if false e = record { at = λ s. refl }

module _ {ℓ} {S X A B : Type ℓ} {part : S → X} where
  continue-Keeps :
      (r : Outcome A) (f : A → Handler S B) (s : S)
      → ((a : A) → Keeps part (f a))
      → part (continue r f s).1 ≡ part s
  continue-Keeps (done a) f s kf = (kf a).at s
  continue-Keeps (throw e) f s kf = refl

  pub Keeps-bind :
      (m : Handler S A) (f : A → Handler S B)
      → Keeps part m
      → ((a : A) → Keeps part (f a))
      → Keeps part (m >>= f)
  Keeps-bind m f km kf = record {
    at = λ s. let (r, s') = m s in continue-Keeps r f s' kf ∙ km.at s;
  }

pub ruleset keeps_rules =
    (Keeps-pure, Keeps-raise, Keeps-gets, Keeps-lift, Keeps-throw_if, Keeps-if, Keeps-bind)
