-- ===== src/Engine/Suites/Parts.antt =====
-- The last part that splitPath (core/execution_engine.go) finds in a path.
use Prim.Native.String.{len, slice}
use dvf.Prelude.{
  ℕ, zero, suc, ◌+◌, ◌≤◌, ◌<◌, ◌≡◌, ◌≢◌, ◌⊎◌, inl, inr, refl, sym, ◌∙◌, ap, String, List, [], ◌∷◌,
  some, Bool, true, false, ◌&&◌, ltb, if◌then◌else◌, arith, Bool-cases,
}
use dvf.Prelude.Texts.{len_positive, len_text, slice_rest, slice_middle, text_assoc}
use dvf.Engine.Execute.{text}
use dvf.Engine.Suites.{ends_at, split_loop, split_path, last}

-- Nothing, or a text with a slash at its end.
abbrev pub IsFolder : String → Type 0
IsFolder prefix = (prefix ≡ "") ⊎ ((parent : String) × (prefix ≡ text parent "/"))

-- No position of a path from the given one on has a slash.
abbrev pub HasNoSlash : String → ℕ → Type 0
HasNoSlash p a = (i : ℕ) → a ≤ i → i < len p → slice p i (suc i) ≢ "/"

last-cons : (s : String) (ss : List String) (t : String) → last ss ≡ some t → last (s ∷ ss) ≡ some t
last-cons s [] t e = absurd (ground (arith, e))
last-cons s (x ∷ xs) t e = e

last-if :
    (b : Bool) (s : String) (ss : List String) (t : String)
    → last ss ≡ some t
    → last (if b then s ∷ ss else ss) ≡ some t
last-if true s ss t e = last-cons s ss t e
last-if false s ss t e = e

module _ (p : String) (a : ℕ) (below : a < len p) (no_slash : HasNoSlash p a) where
  -- From the begin of the last part on, the loop finds that part alone.
  in_part : (n i : ℕ) → a ≤ i → i + n ≡ len p → split_loop (suc n) p i a ≡ slice p a (len p) ∷ []
  unfolding split_loop
  in_part zero i l e =
      let at_end : i ≡ len p = omega (arith, e) in
      let ends : ends_at p i ≡ true = ground (arith, at_end) in
      let after : ltb a i ≡ true = ground (arith, at_end, below) in
      rw (ends, after) (ap (λ k. slice p a k ∷ []) at_end)
  in_part (suc n) i l e =
      let inside : i < len p = omega (arith, e) in
      let goes_on : ends_at p i ≡ false = ground (arith, no_slash i l inside, inside) in
      rw goes_on (in_part n (suc i) (omega (arith, l)) (omega (arith, e)))

  -- So it does from any position up to the slash before that part.
  up_to_slash :
      (b : ℕ)
      → a ≡ suc b
      → slice p b (suc b) ≡ "/"
      → (n i start : ℕ) → i ≤ b
      → i + n ≡ len p
      → last (split_loop (suc n) p i start) ≡ some (slice p a (len p))
  unfolding split_loop
  up_to_slash b f slash zero i start l e = absurd (omega (arith, f, l, e, below))
  up_to_slash b f slash (suc n) i start l e = elim (Bool-cases (ltb i b)) [
    | inr z ↦
        let here : i ≡ b = ground (arith, z, l) in
        let ends : ends_at p i ≡ true = ground (arith, ap (λ k. slice p k (suc k)) here ∙ slash) in
        let next : suc i ≡ a = omega (arith, here, f) in
        rw ends (
          last-if (ltb start i) (slice p start i) _ _ (
            ap (λ k. last (split_loop (suc n) p k k)) next
            ∙ ap last (in_part n a (omega arith) (omega (arith, e, next)))))
    | inl z ↦
        let before : i < b = ground (arith, z) in
        last-if (ends_at p i && ltb start i) (slice p start i) _ _ (
          up_to_slash b f slash n (suc i) (if ends_at p i then suc i else start)
            (omega (arith, before)) (omega (arith, e)))
  ]

-- The last part of a path is what follows its last slash.
pub last-split_path :
    (prefix part : String)
    → part ≢ ""
    → IsFolder prefix
    → HasNoSlash (text prefix part) (len prefix)
    → last (split_path (text prefix part)) ≡ some part
unfolding split_path
last-split_path prefix part named folder no_slash = elim folder [
  | inl e ↦
      let first : len prefix ≡ 0 = ap len e in
      ap (λ k. last (split_loop (suc (len p)) p k k)) (sym first)
      ∙ ap last (
          in_part p (len prefix) below no_slash (len p) (len prefix) (omega arith)
            (omega (arith, first)))
      ∙ ap some (slice_rest prefix part (len prefix) refl)
  | inr (parent, e) ↦
      let a : len prefix ≡ suc (len parent) = ap len e ∙ len_text parent "/" ∙ omega arith in
      let whole : p ≡ text parent (text "/" part) =
        ap (λ s. text s part) e ∙ text_assoc parent "/" part in
      let slash : slice p (len parent) (suc (len parent)) ≡ "/" =
        ap (λ s. slice s (len parent) (suc (len parent))) whole
        ∙ slice_middle parent "/" part (len parent) (suc (len parent)) refl (omega arith) in
      up_to_slash p (len prefix) below no_slash (len parent) a slash (len p) 0 0 (omega arith)
        (omega arith)
      ∙ ap some (slice_rest prefix part (len prefix) refl)
]
  where
    p : String
    p = text prefix part

    below : len prefix < len p
    below = omega (arith, len_text prefix part, len_positive part named)
