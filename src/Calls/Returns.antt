-- ===== src/Calls/Returns.antt =====
-- Postconditions of calls: what holds of the value that a call returns, whenever it returns one.
use mathlib.Core.Path.{subst}
use limnopulse.Prelude.{◌≡◌, refl}
use limnopulse.Calls.{Outcome, returned, raised, Call, ◌>>=◌, pure, raise}

pub record Returns {W A : Type 0} (m : Call W A) (P : A → Type 0) : Type 0 where
  pub at : (w : W) (a : A) → (m w).0 ≡ returned a → P a

returned-injective : {A : Type 0} (P : A → Type 0) (a b : A) → returned a ≡ returned b → P a → P b
returned-injective P a b h p = subst P (cc h) p

module _ {W A : Type 0} {P : A → Type 0} where
  pub Returns-pure : (a : A) → P a → Returns {W = W} (pure a) P
  Returns-pure a p = record { at = λ w b h. returned-injective P a b h p }

  pub Returns-raise : Returns {W = W} {A = A} raise P
  Returns-raise = record { at = λ w b h. cc h }

module _ {W A B : Type 0} {P : A → Type 0} {Q : B → Type 0} where
  continue_at :
      (f : A → Call W B)
      → ((a : A) → P a → Returns (f a) Q)
      → (r : Outcome A) → ((a : A) → r ≡ returned a → P a)
      → (w : W) (b : B)
      → (elim r as (λ _. Outcome B × W) [ returned a ↦ f a w | raised ↦ (raised, w) ]).0
        ≡ returned b
      → Q b
  continue_at f next (returned a) p w b h = (next a (p a refl)).at w b h
  continue_at f next raised p w b h = cc h

  pub Returns-bind :
      (m : Call W A) (f : A → Call W B)
      → Returns m P
      → ((a : A) → P a → Returns (f a) Q)
      → Returns (m >>= f) Q
  Returns-bind m f first next = record {
    at = λ w b h. continue_at f next (m w).0 (λ a. first.at w a) (m w).1 b h;
  }
