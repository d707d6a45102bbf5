-- ===== src/CgroupV2/Attach/Replaced.antt =====
-- What loadAttachCgroupDeviceFilter and its rollback (pkg/util/cgroupv2.go) leave attached.
use device_mounter.Base.{
  ℕ, String, Bool, true, false, not, ◌==◌, Option, none, some, List, [], ◌∷◌, ◌++◌, keep, ◌≡◌, refl,
  ◌∙◌, ap, sym, arith, if◌then◌else◌,
}
use mathlib.Core.Path.{subst}
use device_mounter.Ebpf.{Instruction, Rule}
use device_mounter.Ebpf.Program.{Edited, edited, rejected, no_program, crashed, edit_program}
use device_mounter.Api.{GoError, Result, ok, err}
use device_mounter.CgroupV2.Attach.{
  Kernel, find_attached_cgroup_device_filters, stop, on_attached, replaced, on_program, on_edited,
  on_instructions, on_programs, rollback_failed, nil_closer, Loading,
  load_attach_cgroup_device_filter, roll_back,
}

-- What the kernel documents of the programs attached to the cgroup.
pub record Attaches {K : Type 0} (kernel : Kernel K) (attached : K → List ℕ) : Type 0 where
  -- The new program takes the place of the only one.
  pub replaces :
      (k : K) (new old : ℕ)
      → attached k ≡ old ∷ []
      → (kernel.attach k new (some old)).0 ≡ none
      → attached (kernel.attach k new (some old)).1 ≡ new ∷ []
  pub adds :
      (k : K) (new : ℕ)
      → (kernel.attach k new none).0 ≡ none
      → attached (kernel.attach k new none).1 ≡ attached k ++ new ∷ []
  pub detaches :
      (k : K) (old : ℕ)
      → (kernel.detach k old).0 ≡ none
      → attached (kernel.detach k old).1 ≡ keep (λ p. not (p == old)) (attached k)
  pub loads :
      (k : K) (insts : List Instruction) → attached (kernel.new_program k insts).1 ≡ attached k
  -- A call that fails changes nothing.
  pub attach_fails :
      (k : K) (new : ℕ) (old : Option ℕ) (e : GoError)
      → (kernel.attach k new old).0 ≡ some e
      → attached (kernel.attach k new old).1 ≡ attached k
  pub detach_fails :
      (k : K) (old : ℕ) (e : GoError)
      → (kernel.detach k old).0 ≡ some e
      → attached (kernel.detach k old).1 ≡ attached k

module _ {K : Type 0} (kernel : Kernel K) (attached : K → List ℕ)
    (attaches : Attaches kernel attached) where
  pub rollback_failed-kernel :
      (action : String) (outer : Option GoError) (r : Option GoError × K)
      → (rollback_failed kernel action outer r).1 ≡ r.1
  rollback_failed-kernel action outer (none, k) = refl
  rollback_failed-kernel action outer (some e, k) = refl

  pub rollback_failed-none :
      (action : String) (outer : Option GoError) (r : Option GoError × K)
      → (rollback_failed kernel action outer r).0 ≡ none
      → r.0 ≡ none
  rollback_failed-none action outer (none, k) h = refl
  rollback_failed-none action outer (some e, k) h = absurd (ground arith)

  -- A rollback that ends without an error leaves the given programs attached.
  abbrev RollsBackTo : List ℕ → Option (Loading K) → Type 0
  RollsBackTo programs none = Unit
  RollsBackTo programs (some l) =
      (roll_back kernel l.rollback l.kernel).0 ≡ none
      → attached (roll_back kernel l.rollback l.kernel).1 ≡ programs

  stop-RollsBackTo :
      (e : GoError) (k : K) (programs : List ℕ)
      → attached k ≡ programs
      → RollsBackTo programs (stop kernel e k)
  unfolding roll_back
  stop-RollsBackTo e k programs h = λ _. h

  on_attached-RollsBackTo :
      (k : K) (old new : ℕ) (r : Option GoError × K)
      → attached k ≡ old ∷ []
      → kernel.attach k new (some old) ≡ r
      → RollsBackTo (old ∷ []) (on_attached kernel old new true r)
  unfolding roll_back
  on_attached-RollsBackTo k old new (some e, k') h made = λ _.
      ap (λ r. attached r.1) (sym made)
      ∙ attaches.attach_fails k new (some old) e (ap (λ r. r.0) made)
      ∙ h
  on_attached-RollsBackTo k old new (none, k') h made =
      let now : attached k' ≡ new ∷ [] =
        ap (λ r. attached r.1) (sym made) ∙ attaches.replaces k new old h (ap (λ r. r.0) made) in
      λ done.
        ap attached (rollback_failed-kernel "BPF_F_REPLACE" none (kernel.attach k' old (some new)))
        ∙ attaches.replaces k' old new now
            (rollback_failed-none "BPF_F_REPLACE" none (kernel.attach k' old (some new)) done)

  on_program-RollsBackTo :
      (k : K) (old : ℕ) (r : Result ℕ × K)
      → kernel.have_prog_replace ≡ true
      → attached r.1 ≡ old ∷ []
      → RollsBackTo (old ∷ []) (on_program kernel old r)
  on_program-RollsBackTo k old (err e, k') replaces h = stop-RollsBackTo e k' (old ∷ []) h
  on_program-RollsBackTo k old (ok new, k') replaces h =
      subst
        (λ b.
          RollsBackTo (old ∷ [])
            (on_attached kernel old new b (kernel.attach k' new (replaced kernel old b))))
        (sym replaces) (on_attached-RollsBackTo k' old new (kernel.attach k' new (some old)) h refl)

  on_edited-RollsBackTo :
      (k : K) (old : ℕ) (current : List Instruction) (new : Edited)
      → kernel.have_prog_replace ≡ true
      → attached k ≡ old ∷ []
      → RollsBackTo (old ∷ []) (on_edited kernel k old current new)
  unfolding roll_back
  on_edited-RollsBackTo k old current (edited new) replaces h = go (kernel.deep_equal new current)
    where
      go :
          (same : Bool)
          → RollsBackTo (old ∷ []) (
              if same
              then some (record { rollback = nil_closer; error = none; kernel = k })
              else on_program kernel old (kernel.new_program k new))
      go true = λ _. h
      go false =
          on_program-RollsBackTo k old (kernel.new_program k new) replaces
            (attaches.loads k new ∙ h)
  on_edited-RollsBackTo k old current (rejected e) replaces h = λ _. h
  on_edited-RollsBackTo k old current no_program replaces h = λ _. h
  on_edited-RollsBackTo k old current crashed replaces h = tt

  on_instructions-RollsBackTo :
      (k : K) (old : ℕ) (rules : List (Option Rule)) (insts : Result (List Instruction))
      → kernel.have_prog_replace ≡ true
      → attached k ≡ old ∷ []
      → RollsBackTo (old ∷ []) (on_instructions kernel k old rules insts)
  on_instructions-RollsBackTo k old rules (err e) replaces h = stop-RollsBackTo e k (old ∷ []) h
  on_instructions-RollsBackTo k old rules (ok current) replaces h =
      on_edited-RollsBackTo k old current (edit_program rules (some current)) replaces h

  on_programs-RollsBackTo :
      (k : K) (rules : List (Option Rule)) (found : Result (List ℕ))
      → kernel.have_prog_replace ≡ true
      → found ≡ ok (attached k)
      → RollsBackTo (attached k) (on_programs kernel k rules found)
  unfolding roll_back
  on_programs-RollsBackTo k rules (err e) replaces h = absurd (ground arith)
  on_programs-RollsBackTo k rules (ok []) replaces h = λ _. refl
  on_programs-RollsBackTo k rules (ok (old ∷ [])) replaces h =
      let only : attached k ≡ old ∷ [] = ok-injective _ _ (sym h) in
      subst (λ l. RollsBackTo l (on_programs kernel k rules (ok (old ∷ [])))) (sym only)
        (on_instructions-RollsBackTo k old rules (kernel.instructions k old) replaces only)
    where
      ok-injective : (a b : List ℕ) → ok a ≡ ok b → a ≡ b
      ok-injective a b e = ap (λ r. elim r [ ok l ↦ l | err x ↦ a ]) e
  on_programs-RollsBackTo k rules (ok (old ∷ second ∷ rest)) replaces h = λ _. refl

  -- Where the kernel can replace a program, and lists the programs that are attached: whether the
  -- load of new rules succeeds or fails, the rollback that it returns, if it ends without an
  -- error, leaves exactly the programs attached that were attached before the load.
  pub roll_back-load_attach :
      (k : K) (rules : List (Option Rule)) (l : Loading K)
      → kernel.have_prog_replace ≡ true
      → find_attached_cgroup_device_filters kernel k ≡ ok (attached k)
      → load_attach_cgroup_device_filter kernel k rules ≡ some l
      → (roll_back kernel l.rollback l.kernel).0 ≡ none
      → attached (roll_back kernel l.rollback l.kernel).1 ≡ attached k
  unfolding load_attach_cgroup_device_filter
  roll_back-load_attach k rules l replaces lists loaded done =
      subst (RollsBackTo (attached k)) loaded
        (on_programs-RollsBackTo k rules (find_attached_cgroup_device_filters kernel k) replaces
          lists)
        done
