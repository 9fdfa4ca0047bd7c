-- ===== src/Prelude/Lists.antt =====
-- Lists measured by native numbers, and lists of names seen as multisets through `count`.
use Prim.Native.Nat.{ℕ, suc, ◌+◌, ◌≤◌, ◌<◌}
use Prim.Native.String.{String}
use mathlib.Core.Path.{◌≡◌, refl, sym, ap}
use mathlib.Core.Logic.{◌≢◌}
use mathlib.Core.List.{List, [], ◌∷◌, ◌++◌}
use native.Mathlib.Omega.{arith}
use dvf.Prelude.Names.{◌==◌, String-discrete}
use dvf.Prelude.Tests.{if◌then◌else◌}

module _ {ℓ} {A : Type ℓ} where
  abbrev pub length : List A → ℕ
  length [] = 0
  length (x ∷ xs) = suc (length xs)

  pub length-append : (xs ys : List A) → length (xs ++ ys) ≡ length xs + length ys
  length-append [] ys = omega arith
  length-append (x ∷ xs) ys = omega (arith, length-append xs ys)

-- A predicate holds of each element.
abbrev pub All {ℓ} : {A : Type ℓ} → (A → Type 0) → List A → Type 0
All P [] = Unit {0}
All P (x ∷ xs) = P x × All P xs

-- How often a name stands in a list.
abbrev pub count : String → List String → ℕ
count k [] = 0
count k (x ∷ xs) = (if x == k then 1 else 0) + count k xs

pub count-append : (k : String) (xs ys : List String) → count k (xs ++ ys) ≡ count k xs + count k ys
count-append k [] ys = omega arith
count-append k (x ∷ xs) ys = omega (arith, count-append k xs ys)

pub count_self : (k : String) (xs : List String) → count k (k ∷ xs) ≡ suc (count k xs)
count_self k xs = ground arith

pub count_other : (k x : String) (xs : List String) → x ≢ k → count k (x ∷ xs) ≡ count k xs
count_other k x xs h = ground arith

-- A list without the first occurrence of a name.
pub remove : String → List String → List String
remove k [] = []
remove k (x ∷ xs) = if x == k then xs else x ∷ remove k xs

pub count-remove :
    (k j : String) (xs : List String)
    → 0 < count k xs
    → count j xs ≡ (if k == j then 1 else 0) + count j (remove k xs)
unfolding remove
count-remove k j [] h = absurd (omega arith)
count-remove k j (x ∷ xs) h = ground (arith, count-remove k j xs)

length-remove :
    (k : String) (xs : List String) → 0 < count k xs → length xs ≡ suc (length (remove k xs))
unfolding remove
length-remove k [] h = absurd (omega arith)
length-remove k (x ∷ xs) h = ground (arith, length-remove k xs)

-- A list that holds each name at most as often as another is no longer.
pub length-le_of_count :
    (xs ys : List String) → ((k : String) → count k xs ≤ count k ys) → length xs ≤ length ys
length-le_of_count [] ys h = omega arith
length-le_of_count (x ∷ xs) ys h =
    let there : 0 < count x ys = omega (arith, h x, count_self x xs) in
    omega (
      arith,
      length-remove x ys there,
      length-le_of_count xs (remove x ys) (λ k. omega (arith, h k, count-remove x k ys there)),
    )

-- And if it is as long, it holds each name as often.
pub count-eq_of_length :
    (xs ys : List String)
    → ((k : String) → count k xs ≤ count k ys)
    → length xs ≡ length ys
    → (k : String) → count k xs ≡ count k ys
count-eq_of_length [] [] h e k = refl
count-eq_of_length [] (y ∷ ys) h e k = absurd (omega arith)
count-eq_of_length (x ∷ xs) ys h e k =
    let there : 0 < count x ys = omega (arith, h x, count_self x xs) in
    omega (
      arith,
      count-remove x k ys there,
      count-eq_of_length xs (remove x ys) (λ j. omega (arith, h j, count-remove x j ys there))
          (omega (arith, length-remove x ys there)) k,
    )

-- The sum over a list of names.
abbrev pub total : (String → ℕ) → List String → ℕ
total f [] = 0
total f (k ∷ ks) = f k + total f ks

total-remove :
    (f : String → ℕ) (k : String) (ks : List String)
    → 0 < count k ks
    → total f ks ≡ f k + total f (remove k ks)
unfolding remove
total-remove f k [] h = absurd (omega arith)
total-remove f k (x ∷ ks) h = elim (String-discrete x k) [
  | yes e ↦ ground (arith, ap f e)
  | no n ↦ ground (arith, total-remove f k ks)
]

count_none :
    (ks : List String) → ((k : String) → count k ks ≡ 0) → (f : String → ℕ) → total f ks ≡ 0
count_none [] h f = refl
count_none (k ∷ ks) h f = absurd (omega (arith, h k, count_self k ks))

-- Two lists that hold each name as often have the same sum.
pub total-same :
    (f : String → ℕ) (ks js : List String)
    → ((k : String) → count k ks ≡ count k js)
    → total f ks ≡ total f js
total-same f [] js h = sym (count_none js (λ k. sym (h k)) f)
total-same f (k ∷ ks) js h =
    let there : 0 < count k js = omega (arith, h k, count_self k ks) in
    omega (
      arith,
      total-remove f k js there,
      total-same f ks (remove k js) (λ j. omega (arith, h j, count-remove k j js there)),
    )

pub total-ext :
    (f g : String → ℕ) (ks : List String)
    → ((k : String) → 0 < count k ks → f k ≡ g k)
    → total f ks ≡ total g ks
total-ext f g [] e = refl
total-ext f g (k ∷ ks) e =
    omega (
      arith,
      e k (omega (arith, count_self k ks)),
      total-ext f g ks (λ j h. e j (omega (arith, h))),
    )
