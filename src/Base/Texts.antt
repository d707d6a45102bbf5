-- ===== src/Base/Texts.antt =====
-- Decidable equality of texts, and membership in a list of texts.
use Prim.Native.String.{String, ◌++◌ as ◌<>◌}
use mathlib.Core.Path.{◌≡◌}
use mathlib.Core.Logic.{ite, dite, ◌≢◌}
use mathlib.Core.Bool.{Bool, true, false, ◌||◌, Bool-discrete}
use mathlib.Core.List.{List, [], ◌∷◌}
use native.Mathlib.Omega.{arith}
use text.Mathlib.Text
use text.Mathlib.TextEquality.{eq_iff}

-- Shut in proofs, where a split on it yields the equation or its negation.
unfoldable pub string_dec : Discrete String
string_dec s t =
    dite (Bool-discrete (Text.◌==◌ s t) true) (λ same. yes ((eq_iff s t).0 same))
      (λ differ. no (λ p. differ ((eq_iff s t).1 p)))

-- `s == t` on Go strings.
abbrev pub eqs : String → String → Bool
eqs s t = ite (string_dec s t) true false

-- `slices.Contains`
abbrev pub contains : List String → String → Bool
contains [] s = false
contains (x ∷ xs) s = eqs x s || contains xs s

pub eqs_refl : (s : String) → eqs s s ≡ true
eqs_refl s = ground arith

pub eqs→eq : (s t : String) → eqs s t ≡ true → s ≡ t
eqs→eq s t h = ground arith

-- `strings.Join`
unfoldable pub join : List String → String → String
join [] sep = ""
join (x ∷ []) sep = x
join (x ∷ y ∷ rest) sep = x <> (sep <> join (y ∷ rest) sep)

pub eqs→ne : (s t : String) → eqs s t ≡ false → s ≢ t
eqs→ne s t h = ground arith
