-- ===== src/Prelude/Deliver.antt =====
-- Deliveries of an operation that is idempotent and whose order does not matter: the result depends
-- on which items were delivered, and on nothing else.
use mathlib.Core.Path.{◌≡◌, refl, sym, ap, ◌∙◌}
use mathlib.Core.Logic.{◌⊎◌, inl, inr}
use mathlib.Core.List.{List, [], ◌∷◌}
use limnopulse.Prelude.Lists.{All}

-- the items, the last delivery first
abbrev pub deliver {ℓ κ} : {A : Type ℓ} {S : Type κ} → (A → S → S) → List A → S → S
deliver f [] s = s
deliver f (x ∷ xs) s = f x (deliver f xs s)

-- `x` is one of the items.
abbrev pub Among : {A : Type 0} → A → List A → Type 0
Among x [] = ⊥
Among x (y ∷ ys) = (x ≡ y) ⊎ Among x ys

-- An operation whose order does not matter and that may be repeated.
pub record Mergeable {A S : Type 0} (f : A → S → S) : Type 0 where
  pub comm : (x y : A) (s : S) → f x (f y s) ≡ f y (f x s)
  pub idem : (x : A) (s : S) → f x (f x s) ≡ f x s

module _ {A S : Type 0} (f : A → S → S) (ok : Mergeable f) where
  deliver-past : (x : A) (ys : List A) (s : S) → f x (deliver f ys s) ≡ deliver f ys (f x s)
  deliver-past x [] s = refl
  deliver-past x (y ∷ ys) s = ok.comm x y (deliver f ys s) ∙ ap (f y) (deliver-past x ys s)

  deliver_comm :
      (xs ys : List A) (s : S) → deliver f xs (deliver f ys s) ≡ deliver f ys (deliver f xs s)
  deliver_comm [] ys s = refl
  deliver_comm (x ∷ xs) ys s = ap (f x) (deliver_comm xs ys s) ∙ deliver-past x ys (deliver f xs s)

  deliver-absorbs :
      (x : A) (ys : List A) (s : S) → Among x ys → f x (deliver f ys s) ≡ deliver f ys s
  deliver-absorbs x [] s h = elim h [ ]
  deliver-absorbs x (y ∷ ys) s (inl same) =
      ap (λ z. f x (f z (deliver f ys s))) (sym same)
      ∙ ok.idem x (deliver f ys s)
      ∙ ap (λ z. f z (deliver f ys s)) same
  deliver-absorbs x (y ∷ ys) s (inr h) =
      ok.comm x y (deliver f ys s) ∙ ap (f y) (deliver-absorbs x ys s h)

  deliver-subset :
      (xs ys : List A) (s : S)
      → All (λ x. Among x ys) xs
      → deliver f xs (deliver f ys s) ≡ deliver f ys s
  deliver-subset [] ys s h = refl
  deliver-subset (x ∷ xs) ys s h =
      ap (f x) (deliver-subset xs ys s h.1) ∙ deliver-absorbs x ys s h.0

  -- Two lists that deliver the same items, in any order and any number, give the same state.
  pub deliver-same :
      (xs ys : List A) (s : S)
      → All (λ x. Among x ys) xs
      → All (λ y. Among y xs) ys
      → deliver f xs s ≡ deliver f ys s
  deliver-same xs ys s there back =
      sym (deliver-subset ys xs s back) ∙ deliver_comm ys xs s ∙ deliver-subset xs ys s there
