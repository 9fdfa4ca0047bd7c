-- ===== src/Prelude/Names.antt =====
-- Texts as keys: a decision of their equality, and the test `==` that branches on it.
use Prim.Native.String.{String}
use mathlib.Core.Path.{◌≡◌, refl, sym, ◌∙◌}
use mathlib.Core.Bool.{Bool, true, false, false≢true}
use text.Mathlib.Text.{◌==◌ as text_eq}
use text.Mathlib.TextEquality.{eq_iff}

decide_by : (s t : String) (b : Bool) → text_eq s t ≡ b → Dec (s ≡ t)
decide_by s t true e = yes ((eq_iff s t).0 e)
decide_by s t false e = no (λ p. false≢true (sym e ∙ (eq_iff s t).1 p))

unfoldable pub String-discrete : Discrete String
unfolding decide_by
String-discrete s t = decide_by s t (text_eq s t) refl

infix 50 ◌==◌
abbrev pub ◌==◌ : String → String → Bool
s == t = elim (String-discrete s t) [ yes _ ↦ true | no _ ↦ false ]
