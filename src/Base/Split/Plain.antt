-- ===== src/Base/Split/Plain.antt =====
-- Texts without white space, which Go's strings.TrimSpace leaves alone.
use Prim.Native.Char.{Char, code}
use Prim.Native.String.{String, ◌++◌ as ◌<>◌}
use Prim.Native.String.append
use mathlib.Core.Path.{◌≡◌, refl, ◌∙◌, ap}
use mathlib.Core.Bool.{Bool, false, ◌||◌}
use mathlib.Core.List.{List, [], ◌∷◌}
use native.Mathlib.Omega.{arith}
use device_mounter.Base.Texts.{join}
use device_mounter.Base.Lists.{All}
use device_mounter.Base.Split.{is_space, trim_left, trim_right, trim_space, join_cons}

unfoldable pub has_space : String → Bool
has_space String.[] = false
has_space (String.◌∷◌ c s) = is_space (code c) || has_space s

first_plain :
    (c : Char) (s : String)
    → has_space (String.◌∷◌ c s) ≡ false
    → (is_space (code c) ≡ false) × (has_space s ≡ false)
unfolding has_space
first_plain c s h = both (is_space (code c)) (has_space s) h
  where
    both : (a b : Bool) → (a || b) ≡ false → (a ≡ false) × (b ≡ false)
    both a b h = (ground arith, ground arith)

trim_left_plain : (s : String) → has_space s ≡ false → trim_left s ≡ s
unfolding trim_left
trim_left_plain String.[] h = refl
trim_left_plain (String.◌∷◌ c s) h = rw (first_plain c s h).0 refl

trim_right_plain : (s : String) → has_space s ≡ false → trim_right s ≡ s
unfolding trim_right
trim_right_plain String.[] h = refl
trim_right_plain (String.◌∷◌ c String.[]) h = rw (first_plain c "" h).0 refl
trim_right_plain (String.◌∷◌ c (String.◌∷◌ d s)) h =
    rw (trim_right_plain (String.◌∷◌ d s) (first_plain c (String.◌∷◌ d s) h).1) refl

pub trim_space_plain : (s : String) → has_space s ≡ false → trim_space s ≡ s
unfolding trim_space
trim_space_plain s h = ap trim_right (trim_left_plain s h) ∙ trim_right_plain s h

pub has_space-append :
    (s t : String) → has_space s ≡ false → has_space t ≡ false → has_space (s <> t) ≡ false
unfolding has_space
has_space-append String.[] t hs ht = ap has_space (append.nil t) ∙ ht
has_space-append (String.◌∷◌ c s) t hs ht =
    ap has_space (append.cons c s t)
    ∙ rw ((first_plain c s hs).0, has_space-append s t (first_plain c s hs).1 ht) refl

-- Texts without white space joined by a separator that is none.
pub has_space-join :
    (sep : Char) (xs : List String)
    → is_space (code sep) ≡ false
    → All (λ s. has_space s ≡ false) xs
    → has_space (join xs (String.◌∷◌ sep "")) ≡ false
unfolding has_space join
has_space-join sep [] plain h = refl
has_space-join sep (x ∷ []) plain h = h.0
has_space-join sep (x ∷ y ∷ xs) plain h =
    ap has_space (join_cons sep x y xs)
    ∙ has_space-append x (String.◌∷◌ sep (join (y ∷ xs) (String.◌∷◌ sep ""))) h.0
        (rw (plain, has_space-join sep (y ∷ xs) plain h.1) refl)
