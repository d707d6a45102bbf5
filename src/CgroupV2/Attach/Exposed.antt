-- ===== src/CgroupV2/Attach/Exposed.antt =====
-- The rollback of loadAttachCgroupDeviceFilter (pkg/util/cgroupv2.go) on a kernel that cannot replace
-- a program.
use mathlib.Core.Path.{subst}
use mathlib.Core.Option.{some-ne-none}
use device_mounter.Base.{
  ℕ, Bool, true, false, not, ◌==◌, Option, none, some, List, [], ◌∷◌, ◌++◌, keep, ◌≡◌, refl, ◌∙◌,
  ap, sym, arith, if◌then◌else◌,
}
use device_mounter.Ebpf.{Instruction, Rule}
use device_mounter.Ebpf.Program.{Edited, edited, rejected, no_program, crashed, edit_program}
use device_mounter.Api.{GoError, Result, ok, err}
use device_mounter.CgroupV2.Attach.{
  Kernel, find_attached_cgroup_device_filters, stop, on_detached, on_attached, replaced, on_program,
  on_edited, on_instructions, on_programs, nil_closer, detach_new, Loading,
  load_attach_cgroup_device_filter, roll_back,
}
use device_mounter.CgroupV2.Attach.Replaced.{Attaches, rollback_failed-kernel, rollback_failed-none}

detach_nil : (new : ℕ) (outer : Option GoError) → ¬ (nil_closer ≡ detach_new new outer)
detach_nil new outer e = ground (arith, e)

keep_none :
    (old new : ℕ) → keep (λ p. not (p == new)) (keep (λ p. not (p == old)) (old ∷ new ∷ [])) ≡ []
keep_none old new = ground arith

module _ {K : Type 0} (kernel : Kernel K) (attached : K → List ℕ)
    (attaches : Attaches kernel attached) where
  -- After a load without an error, a rollback that detaches the new program leaves none attached.
  abbrev LeavesNone : Option (Loading K) → Type 0
  LeavesNone none = Unit
  LeavesNone (some l) =
      (new : ℕ) (outer : Option GoError)
      → l.error ≡ none
      → l.rollback ≡ detach_new new outer
      → (roll_back kernel l.rollback l.kernel).0 ≡ none
      → attached (roll_back kernel l.rollback l.kernel).1 ≡ []

  stop-LeavesNone : (e : GoError) (k : K) → LeavesNone (stop kernel e k)
  stop-LeavesNone e k = λ new outer failed. absurd (some-ne-none _ failed)

  on_detached-LeavesNone :
      (k : K) (old new : ℕ) (r : Option GoError × K)
      → attached k ≡ old ∷ new ∷ []
      → kernel.detach k old ≡ r
      → LeavesNone (on_detached kernel new r)
  unfolding roll_back
  on_detached-LeavesNone k old new (some e, k') h made =
      λ _ _ failed. absurd (some-ne-none _ failed)
  on_detached-LeavesNone k old new (none, k') h made = λ _ _ ends rolls done.
      ap attached (
        rollback_failed-kernel kernel attached attaches "BPF_PROG_DETACH" none
          (kernel.detach k' new))
      ∙ attaches.detaches k' new (
          rollback_failed-none kernel attached attaches "BPF_PROG_DETACH" none
            (kernel.detach k' new) done)
      ∙ ap (keep (λ p. not (p == new))) (
          ap (λ r. attached r.1) (sym made)
          ∙ attaches.detaches k old (ap (λ r. r.0) made)
          ∙ ap (keep (λ p. not (p == old))) h)
      ∙ keep_none old new

  on_attached-LeavesNone :
      (k : K) (old new : ℕ) (r : Option GoError × K)
      → attached k ≡ old ∷ []
      → kernel.attach k new none ≡ r
      → LeavesNone (on_attached kernel old new false r)
  on_attached-LeavesNone k old new (some e, k') h made =
      λ _ _ failed. absurd (some-ne-none _ failed)
  on_attached-LeavesNone k old new (none, k') h made =
      on_detached-LeavesNone k' old new (kernel.detach k' old)
        (ap (λ r. attached r.1) (sym made)
          ∙ attaches.adds k new (ap (λ r. r.0) made)
          ∙ ap (λ l. l ++ new ∷ []) h)
        refl

  on_program-LeavesNone :
      (k : K) (old : ℕ) (r : Result ℕ × K)
      → kernel.have_prog_replace ≡ false
      → attached r.1 ≡ old ∷ []
      → LeavesNone (on_program kernel old r)
  on_program-LeavesNone k old (err e, k') adds h = stop-LeavesNone e k'
  on_program-LeavesNone k old (ok new, k') adds h =
      subst
        (λ b.
          LeavesNone (on_attached kernel old new b (kernel.attach k' new (replaced kernel old b))))
        (sym adds) (on_attached-LeavesNone k' old new (kernel.attach k' new none) h refl)

  on_edited-LeavesNone :
      (k : K) (old : ℕ) (current : List Instruction) (new : Edited)
      → kernel.have_prog_replace ≡ false
      → attached k ≡ old ∷ []
      → LeavesNone (on_edited kernel k old current new)
  on_edited-LeavesNone k old current (edited new) adds h = go (kernel.deep_equal new current)
    where
      go :
          (same : Bool)
          → LeavesNone (
              if same
              then some (record { rollback = nil_closer; error = none; kernel = k })
              else on_program kernel old (kernel.new_program k new))
      go true = λ p q ends rolls. absurd (detach_nil p q rolls)
      go false =
          on_program-LeavesNone k old (kernel.new_program k new) adds (attaches.loads k new ∙ h)
  on_edited-LeavesNone k old current (rejected e) adds h =
      λ p q failed. absurd (some-ne-none _ failed)
  on_edited-LeavesNone k old current no_program adds h =
      λ p q failed. absurd (some-ne-none _ failed)
  on_edited-LeavesNone k old current crashed adds h = tt

  on_programs-LeavesNone :
      (k : K) (rules : List (Option Rule)) (found : Result (List ℕ))
      → kernel.have_prog_replace ≡ false
      → found ≡ ok (attached k)
      → LeavesNone (on_programs kernel k rules found)
  on_programs-LeavesNone k rules (err e) adds h = stop-LeavesNone e k
  on_programs-LeavesNone k rules (ok []) adds h = λ p q failed. absurd (some-ne-none _ failed)
  on_programs-LeavesNone k rules (ok (old ∷ [])) adds h = go (kernel.instructions k old)
    where
      only : attached k ≡ old ∷ []
      only = ap (λ r. elim r [ ok l ↦ l | err x ↦ [] ]) (sym h)

      go :
          (insts : Result (List Instruction))
          → LeavesNone (on_instructions kernel k old rules insts)
      go (err e) = stop-LeavesNone e k
      go (ok current) =
          on_edited-LeavesNone k old current (edit_program rules (some current)) adds only
  on_programs-LeavesNone k rules (ok (old ∷ second ∷ rest)) adds h =
      λ p q failed. absurd (some-ne-none _ failed)

  -- Where the kernel cannot replace a program, and lists the programs that are attached: if the load
  -- of new rules has changed the programs without an error, its rollback, if it ends without
  -- an error, leaves no program attached, so that every device is allowed.
  pub roll_back-detach_new :
      (k : K) (rules : List (Option Rule)) (l : Loading K) (new : ℕ) (outer : Option GoError)
      → kernel.have_prog_replace ≡ false
      → find_attached_cgroup_device_filters kernel k ≡ ok (attached k)
      → load_attach_cgroup_device_filter kernel k rules ≡ some l
      → l.error ≡ none
      → l.rollback ≡ detach_new new outer
      → (roll_back kernel l.rollback l.kernel).0 ≡ none
      → attached (roll_back kernel l.rollback l.kernel).1 ≡ []
  unfolding load_attach_cgroup_device_filter
  roll_back-detach_new k rules l new outer adds lists loaded ends rolls done =
      subst LeavesNone loaded
        (on_programs-LeavesNone k rules (find_attached_cgroup_device_filters kernel k) adds lists)
        new outer ends rolls done
