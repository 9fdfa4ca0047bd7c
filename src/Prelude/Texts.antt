-- ===== src/Prelude/Texts.antt =====
-- Lengths and parts of texts.
use Prim.Native.Nat.{ℕ, ◌+◌, ◌<◌}
use Prim.Native.String.{String, [], ◌∷◌, len, slice, ◌++◌}
use Prim.Native.String.append
use Prim.Native.String.len
use mathlib.Core.Path.{◌≡◌, refl, sym, ap, ◌∙◌}
use mathlib.Core.Logic.{◌≢◌}
use text.Mathlib.TextPositions.{
  len_utf8-pos, len-append, slice-append_left, slice-append_middle, slice-append_right,
}
use text.Mathlib.TextLemmas.{append_assoc}
use native.Mathlib.Omega.{arith}

pub len_positive : (s : String) → s ≢ "" → 0 < len s
len_positive [] h = absurd (h refl)
len_positive (c ∷ s) h = omega (arith, len.cons c s, (len_utf8-pos c).1)

pub len_text : (s t : String) → len (s ++ t) ≡ len s + len t
len_text = len-append

-- The first part of two texts, and what is behind it.
pub slice_first : (s t : String) (n : ℕ) → len s ≡ n → slice (s ++ t) 0 n ≡ s
slice_first s t n e = ap (λ k. slice (s ++ t) 0 k) (sym e) ∙ slice-append_left s t

pub slice_rest : (s t : String) (n : ℕ) → len s ≡ n → slice (s ++ t) n (len (s ++ t)) ≡ t
slice_rest s t n e =
    ap (λ k. slice (s ++ t) k (len (s ++ t))) (sym e)
    ∙ ap (λ k. slice (s ++ t) (len s) k) (len-append s t)
    ∙ slice-append_right s t

pub text_assoc : (s t u : String) → (s ++ t) ++ u ≡ s ++ (t ++ u)
text_assoc = append_assoc

pub text_nil : (s : String) → "" ++ s ≡ s
text_nil s = append.nil s

pub slice_middle :
    (s t u : String) (a b : ℕ) → len s ≡ a → len s + len t ≡ b → slice (s ++ (t ++ u)) a b ≡ t
slice_middle s t u a b e f =
    ap (λ k. slice (s ++ (t ++ u)) k b) (sym e)
    ∙ ap (λ k. slice (s ++ (t ++ u)) (len s) k) (sym f)
    ∙ slice-append_middle s t u
