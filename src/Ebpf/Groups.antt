-- ===== src/Ebpf/Groups.antt =====
-- Cutting a program into groups behind its exits, and putting the groups together again.
use mathlib.Core.List.{flatten}
use mathlib.Core.Bool.{false≢true}
use device_mounter.Base.{
  ℕ, Bool, true, false, not, ◌&&◌, List, [], ◌∷◌, ◌++◌, ◌≡◌, refl, ◌∙◌, ap, arith, All,
  append_assoc, Bool-cases, inl, inr,
}
use device_mounter.Ebpf.{Instruction, Rule, is_exit, groups, groups_from, insert_block}

-- A group ends in its only exit.
abbrev pub is_group : List Instruction → Bool
is_group [] = false
is_group (i ∷ []) = is_exit i
is_group (i ∷ j ∷ rest) = not (is_exit i) && is_group (j ∷ rest)

flatten-groups_from :
    (tmp insts : List Instruction) → flatten (groups_from tmp insts) ≡ tmp ++ insts
unfolding groups_from flatten
flatten-groups_from [] [] = refl
flatten-groups_from (t ∷ tmp) [] = refl
flatten-groups_from [] (i ∷ insts) = elim (Bool-cases (is_exit i)) [
  | inl e ↦ rw e (ap (λ l. i ∷ l) (flatten-groups_from [] insts))
  | inr e ↦ rw e (flatten-groups_from (i ∷ []) insts)
]
flatten-groups_from (t ∷ tmp) (i ∷ insts) = elim (Bool-cases (is_exit i)) [
  | inl e ↦ rw (e, flatten-groups_from [] insts) (ap (λ l. t ∷ l) (append_assoc tmp (i ∷ []) insts))
  | inr e ↦ rw e (
      flatten-groups_from (t ∷ tmp ++ i ∷ []) insts
      ∙ ap (λ l. t ∷ l) (append_assoc tmp (i ∷ []) insts))
]

-- No instruction is lost or moved by cutting a program into groups.
pub flatten-groups : (insts : List Instruction) → flatten (groups insts) ≡ insts
unfolding groups
flatten-groups insts = flatten-groups_from [] insts

groups_from-append :
    (tmp g insts : List Instruction)
    → is_group g ≡ true
    → groups_from tmp (g ++ insts) ≡ (tmp ++ g) ∷ groups_from [] insts
unfolding groups_from
groups_from-append tmp [] insts h = absurd (false≢true h)
groups_from-append tmp (i ∷ []) insts h = rw h
groups_from-append tmp (i ∷ j ∷ g) insts h = elim (Bool-cases (is_exit i)) [
  | inl e ↦ absurd (false≢true (rw e at h))
  | inr e ↦ rw e (
      groups_from-append (tmp ++ i ∷ []) (j ∷ g) insts (rw e at h)
      ∙ ap (λ l. l ∷ groups_from [] insts) (append_assoc tmp (i ∷ []) (j ∷ g)))
]

-- A program put together from groups is cut into the same groups.
pub groups-flatten :
    (gs : List (List Instruction)) → All (λ g. is_group g ≡ true) gs → groups (flatten gs) ≡ gs
unfolding groups flatten
groups-flatten [] h = refl
groups-flatten (g ∷ gs) h =
    groups_from-append [] g (flatten gs) h.0 ∙ ap (λ l. g ∷ l) (groups-flatten gs h.1)

pub insert_block-is_group :
    (type access : ℕ) (rule : Rule) → is_group (insert_block type access rule) ≡ true
unfolding insert_block
insert_block-is_group type access rule = ground arith
