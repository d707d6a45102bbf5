-- ===== src/Ebpf/Filter.antt =====
-- A compiled program runs as its list of rules, and the two ends of an edit, `LoadInstructions`
-- and `Finalize`, take off and put on its default verdict.
use mathlib.Core.List.{flatten, reverse, reverse-append}
use device_mounter.Base.{
  ◌<◌, Bool, true, false, some, List, [], ◌∷◌, ◌++◌, ◌≡◌, refl, ◌∙◌, ap, arith, All, if◌then◌else◌,
  get_elem?, append_assoc, append-nil, sym,
}
use device_mounter.Base.Int.{pos}
use device_mounter.Ebpf.{
  Instruction, finalize, has_end_exit, end_exit, load_instructions, loaded, drop_last_two,
  insert_block, mov32, return_inst,
}
use device_mounter.Ebpf.Machine.{Regs, run, loads, run-prologue}
use device_mounter.Ebpf.Block.{
  Request, Holds, Accepted, covers, after_block, after_block-Holds, run-block,
}
use device_mounter.Ebpf.Update.{Entry, IsLoading, block, compile}

-- The first entry that covers the request decides; no entry means no.
abbrev pub decide : List Entry → Request → Bool
decide [] q = false
decide (e ∷ es) q = if covers e.type e.rule q then e.rule.allow else decide es q

abbrev pub IsAccepted : Entry → Type 0
IsAccepted e = Accepted e.type e.access e.rule

abbrev pub IsBare : Entry → Type 0
IsBare e = e.prologue ≡ []

-- What stands before the block of an entry that has no prologue.
block-bare : (e : Entry) → IsBare e → block e ≡ insert_block e.type e.access e.rule
block-bare e bare = ap (λ l. l ++ insert_block e.type e.access e.rule) bare

run-compile :
    (load : Instruction → Regs → Regs) (es : List Entry) (q : Request) (rest : List Instruction)
    (regs : Regs)
    → All IsAccepted es
    → All IsBare es
    → q.major < 4294967296
    → q.minor < 4294967296
    → Holds q regs
    → ((regs' : Regs) → Holds q regs' → run load rest regs' ≡ some 0)
    → run load (compile es ++ rest) regs ≡ some (if decide es q then 1 else 0)
unfolding flatten
run-compile load [] q rest regs ac bare h k hold end = end regs hold
run-compile load (e ∷ es) q rest regs ac bare h k hold end =
    rw (append_assoc (block e) (compile es) rest) (
      ap (λ b. run load (b ++ (compile es ++ rest)) regs) (block-bare e bare.0)
      ∙ run-block load e.type e.access e.rule q (compile es ++ rest) regs ac.0 h k hold
      ∙ ground (
        arith,
        run-compile load es q rest (after_block e.type e.access regs) ac.1 bare.1 h k
            (after_block-Holds e.type e.access q regs hold) end,
      ))

-- The same for a program with a prologue in front of its first block, which loads the request.
pub run-filter :
    (load : Instruction → Regs → Regs) (e : Entry) (es : List Entry) (q : Request)
    (rest : List Instruction) (regs : Regs)
    → IsLoading e
    → All IsAccepted (e ∷ es)
    → All IsBare es
    → q.major < 4294967296
    → q.minor < 4294967296
    → Holds q (loads load e.prologue regs)
    → ((regs' : Regs) → Holds q regs' → run load rest regs' ≡ some 0)
    → run load (compile (e ∷ es) ++ rest) regs ≡ some (if decide (e ∷ es) q then 1 else 0)
unfolding flatten
run-filter load e es q rest regs loading ac bare h k hold end =
    let plain : Entry = record e { prologue = [] } in
    ap (λ l. run load l regs)
      (append_assoc (block e) (compile es) rest
        ∙ append_assoc e.prologue (block plain) (compile es ++ rest))
    ∙ run-prologue load e.prologue (block plain ++ (compile es ++ rest)) regs loading
    ∙ ap (λ l. run load l (loads load e.prologue regs))
        (sym (append_assoc (block plain) (compile es) rest))
    ∙ run-compile load (plain ∷ es) q rest (loads load e.prologue regs) ac (refl, bare) h k hold end

-- The last three instructions of a block: a jump, the verdict and the exit.
end_exit-insert_block :
    (e : Entry) (rest : List Instruction)
    → end_exit (reverse (insert_block e.type e.access e.rule) ++ rest) ≡ some false
unfolding insert_block end_exit
end_exit-insert_block e rest = ground arith

reverse-block :
    (e : Entry) (rest : List Instruction)
    → reverse (block e) ++ rest
      ≡ reverse (insert_block e.type e.access e.rule) ++ (reverse e.prologue ++ rest)
reverse-block e rest =
    ap (λ l. l ++ rest) (reverse-append e.prologue (insert_block e.type e.access e.rule))
    ∙ append_assoc (reverse (insert_block e.type e.access e.rule)) (reverse e.prologue) rest

end_exit-append-block :
    (pre : List Instruction) (e : Entry) → end_exit (reverse (pre ++ block e)) ≡ some false
end_exit-append-block pre e =
    ap end_exit (reverse-append pre (block e) ∙ reverse-block e (reverse pre))
    ∙ end_exit-insert_block e _

-- A program that ends in a block does not end in a default verdict.
has_end_exit-compile :
    (pre : List Instruction) (e : Entry) (es : List Entry)
    → has_end_exit (pre ++ compile (e ∷ es)) ≡ some false
unfolding has_end_exit flatten
has_end_exit-compile pre e [] = rw append-nil (end_exit-append-block pre e)
has_end_exit-compile pre e (e' ∷ es) =
    rw (← append_assoc pre (block e) (compile (e' ∷ es)))
      (has_end_exit-compile (pre ++ block e) e' es)

abbrev pub default_deny : List Instruction
default_deny = mov32 0 (pos 0) ∷ return_inst ∷ []

-- `Finalize` puts the default denial behind a program compiled from at least one rule.
pub finalize-compile :
    (e : Entry) (es : List Entry)
    → finalize (compile (e ∷ es)) ≡ some (compile (e ∷ es) ++ default_deny)
unfolding finalize
finalize-compile e es = rw (has_end_exit-compile [] e es, finalize)

last-insert_block :
    (e : Entry) (rest : List Instruction)
    → get_elem? (reverse (insert_block e.type e.access e.rule) ++ rest) 0 ≡ some return_inst
unfolding insert_block
last-insert_block e rest = ground arith

last-block :
    (e : Entry) (rest : List Instruction)
    → get_elem? (reverse (block e) ++ rest) 0 ≡ some return_inst
last-block e rest = ap (λ l. get_elem? l 0) (reverse-block e rest) ∙ last-insert_block e _

last-compile :
    (pre : List Instruction) (e : Entry) (es : List Entry)
    → get_elem? (reverse (pre ++ compile (e ∷ es))) 0 ≡ some return_inst
unfolding flatten
last-compile pre e [] =
    rw append-nil (ap (λ l. get_elem? l 0) (reverse-append pre (block e)) ∙ last-block e _)
last-compile pre e (e' ∷ es) =
    rw (← append_assoc pre (block e) (compile (e' ∷ es))) (last-compile (pre ++ block e) e' es)

drop_last_two-append :
    (xs : List Instruction) (a b : Instruction) → drop_last_two (xs ++ a ∷ b ∷ []) ≡ xs
drop_last_two-append [] a b = refl
drop_last_two-append (x ∷ []) a b = refl
drop_last_two-append (x ∷ y ∷ []) a b = refl
drop_last_two-append (x ∷ y ∷ z ∷ xs) a b = ap (λ l. x ∷ l) (drop_last_two-append (y ∷ z ∷ xs) a b)

end_exit-default :
    (xs : List Instruction)
    → get_elem? (reverse xs) 0 ≡ some return_inst
    → end_exit (reverse (xs ++ default_deny)) ≡ some true
unfolding end_exit
end_exit-default xs h = rw (reverse-append xs default_deny) (ground arith)

-- `LoadInstructions` takes the default denial off a program compiled from at least one rule.
pub load_instructions-compile :
    (e : Entry) (es : List Entry)
    → load_instructions (some (compile (e ∷ es) ++ default_deny)) ≡ loaded (compile (e ∷ es))
unfolding load_instructions has_end_exit flatten
load_instructions-compile e es =
    rw (end_exit-default (compile (e ∷ es)) (last-compile [] e es), load_instructions)
      (ap loaded (drop_last_two-append (compile (e ∷ es)) _ _))
