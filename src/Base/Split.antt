-- ===== src/Base/Split.antt =====
-- Go's strings.Split, strings.Contains for a one-letter text, strings.TrimSpace, strings.EqualFold,
-- and prefixes of texts.
pub mod Plain
use Prim.Native.Char.{Char, code}
use Prim.Native.Nat.{ℕ, zero, suc, ◌+◌, ◌-◌, ◌*◌}
use Prim.Native.String.{String, ◌++◌ as ◌<>◌}
use Prim.Native.String.append
use mathlib.Core.Path.{◌≡◌, refl, ◌∙◌, ap}
use mathlib.Core.Bool.{Bool, true, false, ◌||◌, ◌&&◌}
use mathlib.Core.Option.{Option, none, some}
use mathlib.Core.List.{List, [], ◌∷◌}
use native.Mathlib.Omega.{arith}
use device_mounter.Base.Tests.{ltb, leb, ◌==◌, if◌then◌else◌}
use device_mounter.Base.Texts.{join}
use device_mounter.Base.Lists.{All}
use device_mounter.Base.Int.{ℤ, pos, negsuc}

-- A letter in front of the first text of a list.
abbrev pub push : Char → List String → List String
push c [] = String.◌∷◌ c "" ∷ []
push c (x ∷ xs) = String.◌∷◌ c x ∷ xs

-- `strings.Split(s, sep)` for a separator of one letter.
unfoldable pub split : Char → String → List String
split sep String.[] = "" ∷ []
split sep (String.◌∷◌ c s) =
    let rest = split sep s in if code c == code sep then "" ∷ rest else push c rest

-- `strings.Contains(s, sep)` for a text of one letter.
unfoldable pub has_letter : Char → String → Bool
has_letter sep String.[] = false
has_letter sep (String.◌∷◌ c s) = (code c == code sep) || has_letter sep s

neither : (a b : Bool) → (a || b) ≡ false → (a ≡ false) × (b ≡ false)
neither a b h = (ground arith, ground arith)

pub split_plain : (sep : Char) (s : String) → has_letter sep s ≡ false → split sep s ≡ s ∷ []
unfolding split has_letter
split_plain sep String.[] h = refl
split_plain sep (String.◌∷◌ c s) h =
    let (first, rest) = neither (code c == code sep) (has_letter sep s) h in
    rw (first, split_plain sep s rest) refl

-- A text without the separator in front of a separator.
split_first :
    (sep : Char) (s rest : String)
    → has_letter sep s ≡ false
    → split sep (s <> String.◌∷◌ sep rest) ≡ s ∷ split sep rest
unfolding split has_letter
split_first sep String.[] rest h =
    ap (split sep) (append.nil (String.◌∷◌ sep rest)) ∙ rw (same (code sep)) refl
  where
    same : (n : ℕ) → (n == n) ≡ true
    same n = ground arith
split_first sep (String.◌∷◌ c s) rest h =
    let (first, others) = neither (code c == code sep) (has_letter sep s) h in
    ap (split sep) (append.cons c s (String.◌∷◌ sep rest))
    ∙ rw (first, split_first sep s rest others) refl

join_cons :
    (sep : Char) (x y : String) (xs : List String)
    → join (x ∷ y ∷ xs) (String.◌∷◌ sep "")
      ≡ x <> String.◌∷◌ sep (join (y ∷ xs) (String.◌∷◌ sep ""))
unfolding join
join_cons sep x y xs =
    let rest = join (y ∷ xs) (String.◌∷◌ sep "") in
    ap (λ t. x <> t) (append.cons sep "" rest ∙ ap (λ t. String.◌∷◌ sep t) (append.nil rest))

-- Texts without the separator, joined by it, are the parts of the joined text.
pub split-join :
    (sep : Char) (x : String) (xs : List String)
    → All (λ s. has_letter sep s ≡ false) (x ∷ xs)
    → split sep (join (x ∷ xs) (String.◌∷◌ sep "")) ≡ x ∷ xs
unfolding join
split-join sep x [] h = split_plain sep x h.0
split-join sep x (y ∷ xs) h =
    ap (split sep) (join_cons sep x y xs)
    ∙ split_first sep x (join (y ∷ xs) (String.◌∷◌ sep "")) h.0
    ∙ ap (λ l. x ∷ l) (split-join sep y xs h.1)

has_letter-append :
    (c : Char) (s t : String) → has_letter c (s <> t) ≡ (has_letter c s || has_letter c t)
unfolding has_letter
has_letter-append c String.[] t = ap (has_letter c) (append.nil t)
has_letter-append c (String.◌∷◌ d s) t =
    ap (has_letter c) (append.cons d s t)
    ∙ rw (has_letter-append c s t) (or_assoc (code d == code c) (has_letter c s) (has_letter c t))
  where
    or_assoc : (a b d : Bool) → (a || (b || d)) ≡ ((a || b) || d)
    or_assoc true b d = refl
    or_assoc false b d = refl

-- A letter that neither the texts nor the separator have is not in the joined text.
pub has_letter-join :
    (c sep : Char) (xs : List String)
    → (code sep == code c) ≡ false
    → All (λ s. has_letter c s ≡ false) xs
    → has_letter c (join xs (String.◌∷◌ sep "")) ≡ false
unfolding join has_letter
has_letter-join c sep [] other h = refl
has_letter-join c sep (x ∷ []) other h = h.0
has_letter-join c sep (x ∷ y ∷ xs) other h =
    ap (has_letter c) (join_cons sep x y xs)
    ∙ has_letter-append c x (String.◌∷◌ sep (join (y ∷ xs) (String.◌∷◌ sep "")))
    ∙ rw (h.0, other, has_letter-join c sep (y ∷ xs) other h.1) refl

-- The separator is in the joined text of two texts or more.
pub has_letter-joined :
    (sep : Char) (x y : String) (xs : List String)
    → has_letter sep (join (x ∷ y ∷ xs) (String.◌∷◌ sep "")) ≡ true
unfolding join has_letter
has_letter-joined sep x y xs =
    ap (has_letter sep) (join_cons sep x y xs)
    ∙ has_letter-append sep x (String.◌∷◌ sep (join (y ∷ xs) (String.◌∷◌ sep "")))
    ∙ rw (same (code sep)) (or_true (has_letter sep x))
  where
    same : (n : ℕ) → (n == n) ≡ true
    same n = ground arith

    or_true : (b : Bool) → (b || true) ≡ true
    or_true true = refl
    or_true false = refl

-- The letters that `unicode.IsSpace` takes for white space.
abbrev pub is_space : ℕ → Bool
is_space c =
    (leb 9 c && leb c 13)
    || (c == 32)
    || (c == 133)
    || (c == 160)
    || (c == 5760)
    || (leb 8192 c && leb c 8202)
    || (c == 8232)
    || (c == 8233)
    || (c == 8239)
    || (c == 8287)
    || (c == 12288)

unfoldable trim_left : String → String
trim_left String.[] = ""
trim_left (String.◌∷◌ c s) =
    let rest = trim_left s in if is_space (code c) then rest else String.◌∷◌ c s

abbrev trim_end : Char → String → String
trim_end c String.[] = if is_space (code c) then "" else String.◌∷◌ c ""
trim_end c (String.◌∷◌ d s) = String.◌∷◌ c (String.◌∷◌ d s)

unfoldable trim_right : String → String
trim_right String.[] = ""
trim_right (String.◌∷◌ c s) = trim_end c (trim_right s)

-- `strings.TrimSpace`
unfoldable pub trim_space : String → String
unfolding trim_left trim_right
trim_space s = trim_right (trim_left s)

abbrev fold : ℕ → ℕ
fold c = if leb b'A' c && leb c b'Z' then c + 32 else c

-- `strings.EqualFold(s, t)` for a text `t` of letters that only fold among the ASCII ones.
unfoldable pub equal_fold : String → String → Bool
equal_fold String.[] String.[] = true
equal_fold String.[] (String.◌∷◌ d t) = false
equal_fold (String.◌∷◌ c s) String.[] = false
equal_fold (String.◌∷◌ c s) (String.◌∷◌ d t) = (fold (code c) == fold (code d)) && equal_fold s t

-- `strings.HasPrefix(s, prefix)` with `strings.TrimPrefix(s, prefix)` if it holds.
unfoldable pub strip_prefix : String → String → Option String
strip_prefix s String.[] = some s
strip_prefix String.[] (String.◌∷◌ d prefix) = none
strip_prefix (String.◌∷◌ c s) (String.◌∷◌ d prefix) =
    let rest = strip_prefix s prefix in if code c == code d then rest else none
