-- ===== src/Prelude/Dict.antt =====
-- Go maps with text keys: the value at each key, and the keys in the order of insertion.
-- The order that a `range` over a map visits its keys in is the language runtime's choice.
use Prim.Native.Nat.{ℕ}
use Prim.Native.String.{String}
use mathlib.Core.Path.{◌≡◌}
use mathlib.Core.Bool.{Bool, true, false}
use mathlib.Core.List.{List, [], ◌∷◌, ◌++◌}
use mathlib.Core.Option.{Option, none, some}
use native.Mathlib.Omega.{arith}
use dvf.Prelude.Names.{◌==◌}
use dvf.Prelude.Tests.{if◌then◌else◌}
use dvf.Prelude.Lists.{count, count-append, remove, count-remove}

pub record Dict {ℓ} (V : Type ℓ) : Type ℓ where
  pub keys : List String
  pub get : String → Option V

abbrev pub is_some {ℓ} : {V : Type ℓ} → Option V → Bool
is_some none = false
is_some (some _) = true

abbrev pub update {ℓ} : {V : Type ℓ} → (String → V) → String → V → String → V
update f k v j = if k == j then v else f j

module _ {ℓ} {V : Type ℓ} where
  abbrev pub empty : Dict V
  empty = record { keys = []; get = λ _. none }

  -- `m[k] = v`
  abbrev pub insert : String → V → Dict V → Dict V
  insert k v m = record {
    keys = if is_some (m.get k) then m.keys else m.keys ++ k ∷ [];
    get = update m.get k (some v);
  }

  -- `delete(m, k)`
  abbrev pub erase : String → Dict V → Dict V
  erase k m = record { keys = remove k m.keys; get = λ j. if k == j then none else m.get j }

  -- The keys listed are those that have a value, each once.
  abbrev pub IsMap : Dict V → Type 0
  IsMap m = (k : String) → count k m.keys ≡ (if is_some (m.get k) then 1 else 0)

  pub insert-IsMap : (k : String) (v : V) (m : Dict V) → IsMap m → IsMap (insert k v m)
  insert-IsMap k v m h j = ground (arith, h j, h k, count-append j m.keys (k ∷ []))

  pub erase-IsMap :
      (k : String) (m : Dict V) → is_some (m.get k) ≡ true → IsMap m → IsMap (erase k m)
  erase-IsMap k m e h j = ground (arith, h j, h k, count-remove k j m.keys)

-- What Go documents of `for k := range m`: it visits each key of the map once, in an order that
-- is not specified. The number tells one `range` statement of a function from another.
pub record MapRange : Type 0 where
  pub visit : ℕ → List String → List String
  pub visits : (n : ℕ) (keys : List String) (k : String) → count k (visit n keys) ≡ count k keys
