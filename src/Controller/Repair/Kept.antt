-- ===== src/Controller/Repair/Kept.antt =====
-- The keys of a repaired copy hold what a second repair would give them (handleMetadataFix of
-- pkg/controller/pod_controller.go).
use device_mounter.Base.{
  String, true, false, Option, none, some, List, [], ◌∷◌, ◌≡◌, refl, ◌∙◌, sym, ap, arith, eqs,
  eqs_refl, contains, not, ◌||◌, All, if◌then◌else◌, Bool-cases, inl, inr,
}
use mathlib.Core.Option.{some-injective}
use device_mounter.Base.Dict.{Dict, lookup, insert, at_key}
use device_mounter.Controller.Repair.{
  is_nil, note, compare_loop, comparable_keys, copy_all, copy_map,
}
use device_mounter.Controller.Repair.Fixed.{repaired, lookup-repaired}

pub is_nil-insert : (k v : String) (m : Dict String) → is_nil (insert k v m) ≡ false
unfolding insert
is_nil-insert k v [] = refl
is_nil-insert k v ((j, w) ∷ m) = ground arith

is_nil-copy_all : (src dst : Dict String) → is_nil dst ≡ false → is_nil (copy_all src dst) ≡ false
unfolding copy_all
is_nil-copy_all [] dst h = h
is_nil-copy_all ((k, v) ∷ src) dst h = is_nil-insert k v (copy_all src dst)

is_nil-copy_map : (src dst m : Dict String) → copy_map src dst ≡ some m → is_nil m ≡ is_nil dst
unfolding copy_map
is_nil-copy_map [] dst m e = ap is_nil (sym (some-injective _ _ e))
is_nil-copy_map (x ∷ src) [] m e = absurd (ground arith)
is_nil-copy_map (x ∷ src) (d ∷ dst) m e =
    ap is_nil (sym (some-injective _ _ e)) ∙ is_nil-copy_all (x ∷ src) (d ∷ dst) refl

-- The values of the keys are in place: nothing is to be noted.
abbrev pub IsKept : Dict String → Dict String → String → Type 0
IsKept old m k =
    (v : String) → lookup k old ≡ some v → (is_nil m || not (eqs (at_key k m) v)) ≡ false

note-kept :
    (m result : Dict String) (k : String) (old : Option String)
    → ((v : String) → old ≡ some v → (is_nil m || not (eqs (at_key k m) v)) ≡ false)
    → note m result k old ≡ result
note-kept m result k none h = refl
note-kept m result k (some v) h = rw (h v refl) refl

compare_loop-kept :
    (old m result : Dict String) (keys : List String)
    → All (IsKept old m) keys
    → compare_loop old m result keys ≡ result
unfolding compare_loop
compare_loop-kept old m result [] h = refl
compare_loop-kept old m result (k ∷ keys) h =
    ap (λ r. compare_loop old m r keys) (note-kept m result k (lookup k old) h.0)
    ∙ compare_loop-kept old m result keys h.1

pub comparable_keys-kept :
    (old m : Dict String) (keys : List String)
    → All (IsKept old m) keys
    → comparable_keys old m [] keys ≡ []
comparable_keys-kept [] m keys h = refl
comparable_keys-kept (e ∷ old) m keys h = compare_loop-kept (e ∷ old) m [] keys h

-- What is found at a protected key that has an old value.
repaired-old :
    (keys : List String) (old new : Dict String) (k v : String)
    → contains keys k ≡ true
    → lookup k old ≡ some v
    → repaired keys old new k
      ≡ (if is_nil new || not (eqs (at_key k new) v) then some v else lookup k new)
repaired-old keys old new k v among was = rw (among, was) refl

abbrev or_empty : Option String → String
or_empty o = elim o [ none ↦ "" | some v ↦ v ]

value-kept :
    (new : Dict String) (k v : String) (found : Option String)
    → found ≡ (if not (eqs (at_key k new) v) then some v else lookup k new)
    → not (eqs (or_empty found) v) ≡ false
value-kept new k v found e = elim (Bool-cases (eqs (at_key k new) v)) [
  | inl there ↦
      let same : found ≡ lookup k new = e ∙ rw there refl in
      ap (λ o. not (eqs (or_empty o) v)) same ∙ ap not there
  | inr other ↦
      let same : found ≡ some v = e ∙ rw other refl in
      ap (λ o. not (eqs (or_empty o) v)) same ∙ ap not (eqs_refl v)
]

-- The value at a protected key that has an old value is in place in a copy.
pub copy-IsKept :
    (old new m : Dict String) (keys : List String) (k : String)
    → contains keys k ≡ true
    → copy_map (comparable_keys old new [] keys) new ≡ some m
    → IsKept old m k
unfolding lookup
copy-IsKept old new m keys k among e v was =
    in_place m new k v (is_nil-copy_map (comparable_keys old new [] keys) new m e)
      (lookup-repaired old new m keys k e ∙ repaired-old keys old new k v among was)
  where
    in_place :
        (m new : Dict String) (k v : String)
        → is_nil m ≡ is_nil new
        → lookup k m ≡ (if is_nil new || not (eqs (at_key k new) v) then some v else lookup k new)
        → (is_nil m || not (eqs (at_key k m) v)) ≡ false
    in_place [] [] k v same e = absurd (ground arith)
    in_place [] (d ∷ new) k v same e = absurd (ground arith)
    in_place (x ∷ m) [] k v same e = absurd (ground arith)
    in_place (x ∷ m) (d ∷ new) k v same e = value-kept (d ∷ new) k v (lookup k (x ∷ m)) e
