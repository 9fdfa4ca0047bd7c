-- ===== src/Prelude/Bags.antt =====
-- Lists of records up to order: a quotient by how many elements pass each test.
use Prim.Native.Nat.{ℕ, ◌+◌}
use mathlib.Core.Path.{◌≡◌}
use mathlib.Core.Bool.{Bool}
use mathlib.Core.List.{List, [], ◌∷◌}
use mathlib.Core.Quot
use mathlib.Core.Quot.{Quot}
use dvf.Prelude.Tests.{if◌then◌else◌}

module _ {ℓ} {A : Type ℓ} where
  abbrev pub tally : (A → Bool) → List A → ℕ
  tally p [] = 0
  tally p (x ∷ xs) = (if p x then 1 else 0) + tally p xs

  abbrev pub SameItems : List A → List A → Type ℓ
  SameItems xs ys = (p : A → Bool) → tally p xs ≡ tally p ys

abbrev pub Bag {ℓ} : Type ℓ → Type ℓ
Bag A = Quot (SameItems {A = A})

abbrev pub bag_of {ℓ} : {A : Type ℓ} → List A → Bag A
bag_of = Quot.mk

pub bag_of-same {ℓ} : {A : Type ℓ} (xs ys : List A) → SameItems xs ys → bag_of xs ≡ bag_of ys
bag_of-same xs ys h = Quot.sound h
