-- ===== src/Base/Text.antt =====
-- A text as the list of its code points, so that it can be walked, cut and joined.
use Prim.Native.Char.{code}
use Prim.Native.String.{String}
use Prim.Native.Nat.{ℕ, zero, suc, ◌+◌, ◌/◌, ◌%◌}
use mathlib.Core.Path.{◌≡◌, refl}
use mathlib.Core.Logic.{◌↔◌}
use mathlib.Core.Bool.{Bool, true, false, ◌&&◌, ◌||◌}
use mathlib.Core.List.{List, [], ◌∷◌, ◌++◌}
use native.Mathlib.Omega.{arith}
use accrue.Base.Tests.{◌==◌, if◌then◌else◌}

abbrev pub Text : Type 0
Text = List ℕ

-- The code points of a literal.
abbrev pub text : String → Text
text String.[] = []
text (String.◌∷◌ c s) = code c ∷ text s

-- `parts.join(separator)`
abbrev pub join : Text → List Text → Text
join separator [] = []
join separator (part ∷ []) = part
join separator (part ∷ next ∷ rest) = part ++ (separator ++ join separator (next ∷ rest))

-- `===` on strings
unfoldable pub same_text : Text → Text → Bool
same_text [] [] = true
same_text [] (d ∷ ds) = false
same_text (c ∷ cs) [] = false
same_text (c ∷ cs) (d ∷ ds) = (c == d) && same_text cs ds

pub same_text_iff : (s t : Text) → (same_text s t ≡ true) ↔ (s ≡ t)
unfolding same_text
same_text_iff [] [] = (λ h. refl, λ h. refl)
same_text_iff [] (d ∷ ds) = (λ h. cc, λ h. cc)
same_text_iff (c ∷ cs) [] = (λ h. cc, λ h. cc)
same_text_iff (c ∷ cs) (d ∷ ds) =
    let rest = same_text_iff cs ds in (λ h. ground (arith, rest), λ h. ground (arith, rest))

-- The digits of a number before what follows them, as many as there is fuel for.
digits : ℕ → ℕ → Text → Text
digits zero n after = after
digits (suc fuel) n after =
    let more = digits fuel (n / 10) ((48 + n % 10) ∷ after) in
    if n / 10 == 0 then (48 + n % 10) ∷ after else more

-- A whole number as a template prints it.
unfoldable pub decimal : ℕ → Text
unfolding digits
decimal n = digits (suc n) n []

unfoldable pub starts_with : Text → Text → Bool
starts_with said [] = true
starts_with [] (c ∷ cs) = false
starts_with (d ∷ ds) (c ∷ cs) = d == c && starts_with ds cs

-- `said.includes(phrase)`
unfoldable pub includes : Text → Text → Bool
unfolding starts_with
includes [] phrase = starts_with [] phrase
includes (d ∷ ds) phrase = starts_with (d ∷ ds) phrase || includes ds phrase
