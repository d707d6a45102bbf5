-- ===== src/Ebpf/Program.antt =====
-- pkg/util/cgroupv2.go, the edit of the filter program in `loadAttachCgroupDeviceFilter`: the
-- program is loaded, the rules are appended one after another, and it is finalised.
use mathlib.Core.Path.{subst}
use device_mounter.Base.{
  sym, ℕ, zero, suc, ◌⊎◌, Bool-cases, ◌<◌, Option, none, some, List, [], ◌∷◌, ◌++◌, ◌≡◌, refl, ◌∙◌,
  ap, arith, All, if◌then◌else◌, Option-cases, inl, inr, set, get_elem?, ltb, All-append, length,
  true, ◌≤◌,
}
use device_mounter.Ebpf.{
  Instruction, Rule, Checked, ok, err, RuleError, check_rule, append_rule, finalize,
  load_instructions, Loaded, loaded, empty_program, panic,
}
use device_mounter.Ebpf.Machine.{Regs, run, run_from, step, loads, is_other}
use device_mounter.Ebpf.Block.{Request, Holds, Accepted}
use device_mounter.Ebpf.Update.{
  Entry, IsLoading, same_device, compile, update_entries, find_entry, size, append_checked-compile,
}
use device_mounter.Ebpf.Filter.{
  decide, IsAccepted, IsBare, default_deny, run-filter, finalize-compile, load_instructions-compile,
}

Checked-cases :
    {A : Type 0} (c : Checked A) → ((e : RuleError) × (c ≡ err e)) ⊎ ((a : A) × (c ≡ ok a))
Checked-cases (err e) = inl (e, refl)
Checked-cases (ok a) = inr (a, refl)

Checked_ok : {A : Type 0} {a b : A} → ok a ≡ ok b → a ≡ b
Checked_ok e = cc

-- The loop over the rules; a nil rule is passed over.
unfoldable pub append_rules : List (Option Rule) → List Instruction → Checked (List Instruction)
append_rules [] insts = ok insts
append_rules (none ∷ rules) insts = append_rules rules insts
append_rules (some rule ∷ rules) insts = elim (append_rule rule insts) [
  | err e ↦ err e
  | ok insts' ↦ append_rules rules insts'
]

-- The new program, `none` where the code panics or the loaded program is nil.
pub data Edited : Type 0 where
  edited : List Instruction → Edited
  rejected : RuleError → Edited
  no_program crashed : Edited

abbrev pub finalized : Option (List Instruction) → Edited
finalized none = crashed
finalized (some insts) = edited insts

abbrev pub finish : Checked (List Instruction) → Edited
finish (err e) = rejected e
finish (ok insts) = finalized (finalize insts)

abbrev pub edit_loaded : List (Option Rule) → Loaded → Edited
edit_loaded rules empty_program = no_program
edit_loaded rules panic = crashed
edit_loaded rules (loaded insts) = finish (append_rules rules insts)

unfoldable pub edit_program : List (Option Rule) → Option (List Instruction) → Edited
edit_program rules current = edit_loaded rules (load_instructions current)

abbrev pub entry_of : Rule → ℕ × ℕ → Entry
entry_of rule (type, access) = record { prologue = []; type = type; access = access; rule = rule }

-- The list of rules after some more, or the first error.
unfoldable pub add_rules : List (Option Rule) → List Entry → Checked (List Entry)
add_rules [] es = ok es
add_rules (none ∷ rules) es = add_rules rules es
add_rules (some rule ∷ rules) es = elim (check_rule rule) [
  | err e ↦ err e
  | ok c ↦ add_rules rules (update_entries (entry_of rule c) es)
]

abbrev pub compile_checked : Checked (List Entry) → Checked (List Instruction)
compile_checked (ok es) = ok (compile es)
compile_checked (err e) = err e

update_entries-cases :
    (e : Entry) (es : List Entry)
    → (update_entries e es ≡ es ++ e ∷ []) ⊎ ((i : ℕ) × (update_entries e es ≡ set es i e))
update_entries-cases e es = elim (Option-cases (find_entry e es)) [
  | inl new ↦ inl (ground arith)
  | inr (i, found) ↦ elim (Option-cases (get_elem? es i)) [
    | inl out ↦ inl (ground arith)
    | inr (o, at_i) ↦ elim (Bool-cases (ltb (size e) (size o))) [
      | inl longer ↦ inl (ground arith)
      | inr fits ↦ inr (i, ground arith)
    ]
  ]
]

All-set :
    (P : Entry → Type 0) (es : List Entry) (i : ℕ) (e : Entry) → P e → All P es → All P (set es i e)
All-set P [] i e a h = tt
All-set P (o ∷ es) zero e a h = (a, h.1)
All-set P (o ∷ es) (suc i) e a h = (h.0, All-set P es i e a h.1)

All-update_entries :
    (P : Entry → Type 0) (e : Entry) (es : List Entry)
    → P e
    → All P es
    → All P (update_entries e es)
All-update_entries P e es a h = elim (update_entries-cases e es) [
  | inl at_end ↦ subst (All P) (sym at_end) (All-append P es (e ∷ []) h (a, tt))
  | inr (i, at_i) ↦ subst (All P) (sym at_i) (All-set P es i e a h)
]

-- Appending rules to a compiled program, with a prologue or not, compiles the updated list of
-- rules, or fails alike.
pub append_rules-compile :
    (rules : List (Option Rule)) (es : List Entry)
    → All IsLoading es
    → append_rules rules (compile es) ≡ compile_checked (add_rules rules es)
unfolding append_rules add_rules append_rule
append_rules-compile [] es h = refl
append_rules-compile (none ∷ rules) es h = append_rules-compile rules es h
append_rules-compile (some rule ∷ rules) es h = elim (Checked-cases (check_rule rule)) [
  | inl (e, bad) ↦ ground arith
  | inr (c, good) ↦ ground (
    arith,
    append_checked-compile (entry_of rule c) es refl h,
    append_rules-compile rules (update_entries (entry_of rule c) es)
        (All-update_entries IsLoading (entry_of rule c) es tt h),
  )
]

check_rule-Accepted :
    (rule : Rule) (type access : ℕ)
    → check_rule rule ≡ ok (type, access)
    → Accepted type access rule
unfolding check_rule
check_rule-Accepted rule type access h = ground arith

find_entry-zero :
    (n e : Entry) (es : List Entry) → find_entry n (e ∷ es) ≡ some 0 → same_device n e ≡ true
find_entry-zero n e es h = ground arith

-- A rule for one device is shorter than a first group with a prologue of five instructions.
head-longer :
    (n e : Entry)
    → IsBare n
    → 5 ≤ length e.prologue
    → same_device n e ≡ true
    → ltb (size n) (size e) ≡ true
head-longer n e bare long same = ground (arith, ap length bare)

-- So the first group stays, and the new rule goes to the end or in the place of a later one.
update_entries-head :
    (n e : Entry) (es : List Entry)
    → IsBare n
    → 5 ≤ length e.prologue
    → (update_entries n (e ∷ es) ≡ e ∷ (es ++ n ∷ []))
      ⊎ ((i : ℕ) × (update_entries n (e ∷ es) ≡ e ∷ set es i n))
update_entries-head n e es bare long = elim (Option-cases (find_entry n (e ∷ es))) [
  | inl new ↦ inl (rw (new, update_entries))
  | inr (zero, found) ↦
      inl (rw (found, head-longer n e bare long (find_entry-zero n e es found), update_entries))
  | inr (suc i, found) ↦ elim (Option-cases (get_elem? es i)) [
    | inl out ↦ inl (rw (found, out, update_entries))
    | inr (o, at_i) ↦ elim (Bool-cases (ltb (size n) (size o))) [
      | inl longer ↦ inl (rw (found, at_i, longer, update_entries))
      | inr fits ↦ inr (i, rw (found, at_i, fits, update_entries))
    ]
  ]
]

-- What the entries behind the first one are.
abbrev IsLater : Entry → Type 0
IsLater e = IsAccepted e × IsBare e

update_entries-IsLater :
    (n e : Entry) (es : List Entry)
    → IsLater n
    → 5 ≤ length e.prologue
    → All IsLater es
    → (rest : List Entry) × (update_entries n (e ∷ es) ≡ e ∷ rest) × All IsLater rest
update_entries-IsLater n e es a long h = elim (update_entries-head n e es a.1 long) [
  | inl at_end ↦ (es ++ n ∷ [], at_end, All-append IsLater es (n ∷ []) h (a, tt))
  | inr (i, at_i) ↦ (set es i n, at_i, All-set IsLater es i n a h)
]

add_rules-IsLater :
    (rules : List (Option Rule)) (e : Entry) (es es' : List Entry)
    → 5 ≤ length e.prologue
    → All IsLater es
    → add_rules rules (e ∷ es) ≡ ok es'
    → (rest : List Entry) × (es' ≡ e ∷ rest) × All IsLater rest
unfolding add_rules
add_rules-IsLater [] e es es' long h added = (es, sym (Checked_ok added), h)
add_rules-IsLater (none ∷ rules) e es es' long h added =
    add_rules-IsLater rules e es es' long h added
add_rules-IsLater (some rule ∷ rules) e es es' long h added =
    elim (Checked-cases (check_rule rule)) [
      | inl (e', bad) ↦ absurd (ground arith)
      | inr (c, good) ↦
          let n : Entry = entry_of rule c in
          let (rest, shape, later) =
            update_entries-IsLater n e es (check_rule-Accepted rule c.0 c.1 good, refl) long h in
          add_rules-IsLater rules e rest es' long later
            (ap (add_rules rules) (sym shape) ∙ (rw (good, add_rules) at added))
    ]

All-both : (P Q : Entry → Type 0) (es : List Entry) → All (λ e. P e × Q e) es → All P es × All Q es
All-both P Q [] h = (tt, tt)
All-both P Q (e ∷ es) h = let (p, q) = All-both P Q es h.1 in ((h.0.0, p), (h.0.1, q))

All-pair : (P Q : Entry → Type 0) (es : List Entry) → All P es → All Q es → All (λ e. P e × Q e) es
All-pair P Q [] p q = tt
All-pair P Q (e ∷ es) p q = ((p.0, q.0), All-pair P Q es p.1 q.1)

IsBare-IsLoading : (es : List Entry) → All IsBare es → All IsLoading es
IsBare-IsLoading [] h = tt
IsBare-IsLoading (e ∷ es) h =
    (subst (All (λ i. is_other i ≡ true)) (sym h.0) tt, IsBare-IsLoading es h.1)

run-default_deny :
    (load : Instruction → Regs → Regs) (regs : Regs) → run load default_deny regs ≡ some 0
unfolding run_from step
run-default_deny load regs = refl

-- A filter whose first group begins with a prologue of at least five instructions is loaded,
-- accepted rules are appended and it is finalised. If the prologue loads a request into the
-- registers, the edited program returns the verdict of the first of the updated rules that covers
-- the request, and denies a request that no rule covers.
pub edit_program-decides :
    (load : Instruction → Regs → Regs) (rules : List (Option Rule)) (e : Entry)
    (es es' : List Entry) (q : Request) (regs : Regs)
    → IsLoading e
    → 5 ≤ length e.prologue
    → All IsAccepted (e ∷ es)
    → All IsBare es
    → add_rules rules (e ∷ es) ≡ ok es'
    → q.major < 4294967296
    → q.minor < 4294967296
    → Holds q (loads load e.prologue regs)
    → (edit_program rules (some (compile (e ∷ es) ++ default_deny))
        ≡ edited (compile es' ++ default_deny))
      × (run load (compile es' ++ default_deny) regs ≡ some (if decide es' q then 1 else 0))
unfolding edit_program
edit_program-decides load rules e es es' q regs loading long ac bare added major_fits minor_fits
      hold =
    let (rest, shape, later) =
      add_rules-IsLater rules e es es' long (All-pair IsAccepted IsBare es ac.1 bare) added in
    let (accepted, plain) = All-both IsAccepted IsBare rest later in
    (
      ap (edit_loaded rules) (load_instructions-compile e es)
          ∙ ap finish (
              append_rules-compile rules (e ∷ es) (loading, IsBare-IsLoading es bare)
              ∙ ap compile_checked (added ∙ ap ok shape))
          ∙ ap finalized (finalize-compile e rest)
          ∙ ap (λ l. edited (compile l ++ default_deny)) (sym shape),
      ap (λ l. run load (compile l ++ default_deny) regs) shape
          ∙ run-filter load e rest q default_deny regs loading (ac.0, accepted) plain major_fits
              minor_fits hold (λ regs' _. run-default_deny load regs')
          ∙ ap (λ l. some (if decide l q then 1 else 0)) (sym shape),
    )
