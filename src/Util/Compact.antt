-- ===== src/Util/Compact.antt =====
-- `DeleteSliceFunc` of pkg/util/util.go, which filters a slice in place.
use device_mounter.Base.{
  ℕ, suc, ◌+◌, Bool, some, List, [], ◌∷◌, ◌++◌, ◌≡◌, refl, ◌∙◌, sym, ap, arith, set, get_elem?,
  length, keep, take, Bool-cases, inl, inr, append-nil, append_assoc, length-append,
}
use device_mounter.Util.{compact, delete_slice_func}

module _ {A : Type 0} where
  get_elem?-append :
      (xs : List A) (e : A) (ys : List A) → get_elem? (xs ++ e ∷ ys) (length xs) ≡ some e
  get_elem?-append [] e ys = refl
  get_elem?-append (x ∷ xs) e ys = get_elem?-append xs e ys

  set-append :
      (xs : List A) (x v : A) (ys : List A) → set (xs ++ x ∷ ys) (length xs) v ≡ xs ++ v ∷ ys
  set-append [] x v ys = refl
  set-append (y ∷ xs) x v ys = ap (λ l. y ∷ l) (set-append xs x v ys)

  take-append : (xs ys : List A) → take (length xs) (xs ++ ys) ≡ xs
  take-append [] ys = refl
  take-append (x ∷ xs) ys = ap (λ l. x ∷ l) (take-append xs ys)

  -- A write behind the elements kept moves the gap between them and the rest.
  set-gap :
      (kept mid : List A) (e : A) (rest : List A)
      → (mid' : List A) × (set (kept ++ (mid ++ e ∷ rest)) (length kept) e
          ≡ (kept ++ e ∷ []) ++ (mid' ++ rest))
        × (length mid' ≡ length mid)
  set-gap kept [] e rest =
      ([], set-append kept e e rest ∙ sym (append_assoc kept (e ∷ []) rest), refl)
  set-gap kept (m ∷ mid) e rest = (
    mid ++ e ∷ [],
    set-append kept m e (mid ++ e ∷ rest)
        ∙ ap (λ l. kept ++ e ∷ l) (sym (append_assoc mid (e ∷ []) rest))
        ∙ sym (append_assoc kept (e ∷ []) ((mid ++ e ∷ []) ++ rest)),
    omega (arith, length-append mid (e ∷ [])),
  )

module _ {A : Type 0} (filter : A → Bool) where
  -- The array is what was kept, a gap, and what is still to be read.
  compact-keep :
      (rest kept mid array : List A) (i j : ℕ)
      → i ≡ length kept + length mid
      → j ≡ length kept
      → array ≡ kept ++ (mid ++ rest)
      → let (j', array') = compact filter (length rest) i j array in
        take j' array' ≡ kept ++ keep filter rest
  unfolding compact
  compact-keep [] kept mid array i j at_i at_j shape =
      rw (at_j, shape) (take-append kept (mid ++ [])) ∙ sym (append-nil kept)
  compact-keep (e ∷ rest) kept mid array i j at_i at_j shape =
      let read : get_elem? array i ≡ some e =
        rw (at_i, shape, ← append_assoc kept mid (e ∷ rest), ← length-append kept mid)
          (get_elem?-append (kept ++ mid) e rest) in
      elim (Bool-cases (filter e)) [
        | inl passes ↦
            let (mid', moved, same) = set-gap kept mid e rest in
            rw (read, passes, compact)
              (compact-keep rest (kept ++ e ∷ []) mid' (set array j e) (suc i) (suc j)
                  (omega (arith, at_i, same, length-append kept (e ∷ [])))
                  (omega (arith, at_j, length-append kept (e ∷ [])))
                  (ap (λ k. set array k e) at_j ∙ ap (λ l. set l (length kept) e) shape ∙ moved)
                ∙ append_assoc kept (e ∷ []) (keep filter rest))
        | inr drops ↦
            rw (read, drops, compact)
              (compact-keep rest kept (mid ++ e ∷ []) array (suc i) j
                (omega (arith, at_i, length-append mid (e ∷ []))) at_j
                (shape ∙ ap (λ l. kept ++ l) (sym (append_assoc mid (e ∷ []) rest))))
      ]

-- The slice that `DeleteSliceFunc` returns has the elements that pass the filter, in their order,
-- although the loop overwrites the array that it reads.
pub delete_slice_func-keep :
    {A : Type 0} (filter : A → Bool) (array : List A)
    → delete_slice_func filter array ≡ keep filter array
unfolding delete_slice_func
delete_slice_func-keep filter array = compact-keep filter array [] [] array 0 0 refl refl refl
