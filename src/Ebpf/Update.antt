-- ===== src/Ebpf/Update.antt =====
-- `AppendRule` seen as an update of a list of rules.
use mathlib.Core.List.{flatten}
use mathlib.Core.Option
use mathlib.Core.Bool.{false≢true}
use device_mounter.Base.{
  ℕ, zero, suc, ◌+◌, Bool, true, ◌&&◌, Option, none, some, List, [], ◌∷◌, ◌++◌, ◌≡◌, refl, ap,
  arith, All, if◌then◌else◌, Option-cases, map, ◌==◌, ltb, inl, inr, length, set, get_elem?,
  length-append, sym, ◌∙◌,
}
use device_mounter.Base.Int.{eqz, is_nonneg, int32}
use device_mounter.Ebpf.{
  Instruction, Rule, has_rule, find_group, place, insert_block, append_checked,
}
use device_mounter.Ebpf.Machine.{is_other}
use device_mounter.Ebpf.Groups.{is_group, groups-flatten, insert_block-is_group}

-- A rule with the device type and the access bits that `AppendRule` computes for it, and the
-- instructions that stand in its group before its block. The first group of a filter begins with
-- the prologue that loads the registers; the others begin with their blocks.
pub record Entry : Type 0 where
  pub prologue : List Instruction
  pub type : ℕ
  pub access : ℕ
  pub rule : Rule

abbrev pub block : Entry → List Instruction
block e = e.prologue ++ insert_block e.type e.access e.rule

abbrev pub compile : List Entry → List Instruction
compile es = flatten (map block es)

abbrev pub size : Entry → ℕ
size e =
    length e.prologue
    + ((if e.access == 7 then 0 else 3)
        + ((if is_nonneg e.rule.major then 1 else 0) + (if is_nonneg e.rule.minor then 1 else 0)))

-- The new rule `e` is found to concern the device of the old rule `o`.
abbrev pub same_device : Entry → Entry → Bool
same_device e o =
    o.type == e.type
    && ((is_nonneg o.rule.major && eqz (int32 o.rule.major) e.rule.major)
        && (is_nonneg o.rule.minor && eqz (int32 o.rule.minor) e.rule.minor))

abbrev pub find_entry : Entry → List Entry → Option ℕ
find_entry e [] = none
find_entry e (o ∷ es) = elim (find_entry e es) [
  | some i ↦ some (suc i)
  | none ↦ if same_device e o then some 0 else none
]

-- The last rule for the same device is replaced unless it is longer than the new one. Otherwise
-- the new rule goes to the end.
abbrev pub update_entries : Entry → List Entry → List Entry
update_entries e es = elim (find_entry e es) [
  | none ↦ es ++ e ∷ []
  | some i ↦ elim (get_elem? es i) [
    | none ↦ es ++ e ∷ []
    | some old ↦ if ltb (size e) (size old) then es ++ e ∷ [] else set es i e
  ]
]

-- What stands before a block does nothing that `AppendRule` or a jump could mistake for its part.
abbrev pub IsLoading : Entry → Type 0
IsLoading e = All (λ i. is_other i ≡ true) e.prologue

length-insert_block :
    (e : Entry) → length (insert_block e.type e.access e.rule) + length e.prologue ≡ size e + 3
unfolding insert_block
length-insert_block e = ground arith

length-block : (e : Entry) → length (block e) ≡ size e + 3
length-block e =
    omega
      (arith, length-append e.prologue (insert_block e.type e.access e.rule), length-insert_block e)

has_rule-insert_block :
    (e o : Entry) → has_rule e.type e.rule (insert_block o.type o.access o.rule) ≡ same_device e o
unfolding insert_block has_rule
has_rule-insert_block e o = ground arith

scan-loading :
    (e : Entry) (prologue insts : List Instruction)
    → All (λ i. is_other i ≡ true) prologue
    → has_rule e.type e.rule (prologue ++ insts) ≡ has_rule e.type e.rule insts
unfolding has_rule
scan-loading e [] insts h = refl
scan-loading e (i ∷ prologue) insts h = ground (arith, scan-loading e prologue insts h.1)

has_rule-block : (e o : Entry) → IsLoading o → has_rule e.type e.rule (block o) ≡ same_device e o
has_rule-block e o h =
    scan-loading e o.prologue (insert_block o.type o.access o.rule) h ∙ has_rule-insert_block e o

is_group-loading :
    (prologue insts : List Instruction)
    → All (λ i. is_other i ≡ true) prologue
    → is_group insts ≡ true
    → is_group (prologue ++ insts) ≡ true
is_group-loading [] insts h g = g
is_group-loading (i ∷ []) [] h g = absurd (false≢true g)
is_group-loading (i ∷ []) (j ∷ insts) h g = ground arith
is_group-loading (i ∷ k ∷ prologue) insts h g =
    ground (arith, is_group-loading (k ∷ prologue) insts h.1 g)

find_group-map :
    (e : Entry) (es : List Entry)
    → All IsLoading es
    → find_group e.type e.rule (map block es) ≡ find_entry e es
unfolding find_group
find_group-map e [] h = refl
find_group-map e (o ∷ es) h = ground (arith, find_group-map e es h.1, has_rule-block e o h.0)

map-append_one :
    (e : Entry) (es : List Entry) → map block es ++ block e ∷ [] ≡ map block (es ++ e ∷ [])
map-append_one e [] = refl
map-append_one e (o ∷ es) = ap (λ l. block o ∷ l) (map-append_one e es)

map-set :
    (e : Entry) (es : List Entry) (i : ℕ) → set (map block es) i (block e) ≡ map block (set es i e)
map-set e [] i = refl
map-set e (o ∷ es) zero = refl
map-set e (o ∷ es) (suc i) = ap (λ l. block o ∷ l) (map-set e es i)

get_elem?-map-none :
    (es : List Entry) (i : ℕ) → get_elem? es i ≡ none → get_elem? (map block es) i ≡ none
get_elem?-map-none [] i h = refl
get_elem?-map-none (o ∷ es) zero h = ground arith
get_elem?-map-none (o ∷ es) (suc i) h = get_elem?-map-none es i h

get_elem?-map-some :
    (es : List Entry) (i : ℕ) (o : Entry)
    → get_elem? es i ≡ some o
    → get_elem? (map block es) i ≡ some (block o)
get_elem?-map-some [] i o h = ground arith
get_elem?-map-some (a ∷ es) zero o h = ap (Option.map block) h
get_elem?-map-some (a ∷ es) (suc i) o h = get_elem?-map-some es i o h

place-map :
    (e : Entry) (es : List Entry)
    → place (find_entry e es) (block e) (map block es) ≡ map block (update_entries e es)
unfolding place
place-map e es = elim (Option-cases (find_entry e es)) [
  | inl new ↦ rw (new, update_entries) (map-append_one e es)
  | inr (i, found) ↦ elim (Option-cases (get_elem? es i)) [
    | inl out ↦ ground (arith, get_elem?-map-none es i out, map-append_one e es)
    | inr (o, at_i) ↦ ground (
      arith,
      get_elem?-map-some es i o at_i,
      length-block e,
      length-block o,
      map-append_one e es,
      map-set e es i,
    )
  ]
]

All-is_group : (es : List Entry) → All IsLoading es → All (λ g. is_group g ≡ true) (map block es)
All-is_group [] h = tt
All-is_group (e ∷ es) h = (
  is_group-loading e.prologue _ h.0 (insert_block-is_group e.type e.access e.rule),
  All-is_group es h.1,
)

-- On a program that rules were compiled to, with a prologue or not, `AppendRule` computes the
-- program of the updated rules.
pub append_checked-compile :
    (e : Entry) (es : List Entry)
    → e.prologue ≡ []
    → All IsLoading es
    → append_checked e.type e.access e.rule (compile es) ≡ compile (update_entries e es)
unfolding append_checked
append_checked-compile e es bare h =
    rw (groups-flatten (map block es) (All-is_group es h), find_group-map e es h)
      (ap (λ b. flatten (place (find_entry e es) b (map block es)))
          (ap (λ l. l ++ insert_block e.type e.access e.rule) (sym bare))
        ∙ ap flatten (place-map e es))
