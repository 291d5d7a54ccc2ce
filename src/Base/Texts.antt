-- ===== src/Base/Texts.antt =====
-- Equality of texts.
use Prim.Native.Nat.{ℕ, zero, suc, Ordering, compare}
use Prim.Native.Char.{code}
use Prim.Native.String.{String, then}
use Prim.Native.String as Text
use Prim.Native.Nat.compare as Laws
use Prim.Native.String.compare as TextLaws
use mathlib.Core.Path.{◌≡◌, refl, ◌∙◌}
use mathlib.Core.Bool.{true}
use text.Mathlib.Text.{◌==◌}

compare_same : (n : ℕ) → compare n n ≡ Ordering.eq
compare_same zero = λ i. Laws.zero-zero i
compare_same (suc n) = (λ i. Laws.suc-suc n n i) ∙ compare_same n

text-compare_same : (s : String) → Text.compare s s ≡ Ordering.eq
text-compare_same String.[] = λ i. TextLaws.nil-nil i
text-compare_same (String.◌∷◌ c s) =
    (λ i. TextLaws.cons-cons c c s s i) ∙ rw (compare_same (code c), then) (text-compare_same s)

pub str_eq_refl : (s : String) → (s == s) ≡ true
str_eq_refl s = rw (text-compare_same s) refl
