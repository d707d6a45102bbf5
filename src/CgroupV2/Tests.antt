-- ===== src/CgroupV2/Tests.antt =====
-- Failures to load the program for two lists of rules, and loads into a small kernel.
use device_mounter.Base.{
  ℕ, suc, Bool, true, false, not, Option, none, some, List, [], ◌∷◌, ◌++◌, keep, ◌==◌, ◌≡◌, refl,
  ◌∙◌, ap, arith, every, if◌then◌else◌,
}
use device_mounter.Ebpf.{Instruction, mov32, return_inst, load_instructions, finalize, has_end_exit}
use device_mounter.Ebpf.Program.{append_rules, edit_program}
use device_mounter.CgroupV2.Attach.{
  Kernel, attached_ids, program, find_attached_cgroup_device_filters, Loading, replace_back,
  detach_new, load_attach_cgroup_device_filter, roll_back,
}
use device_mounter.CgroupV2.Attach.Replaced.{Attaches, roll_back-load_attach}
use device_mounter.CgroupV2.Attach.Exposed.{roll_back-detach_new}
use device_mounter.Base.Int.{pos}
use device_mounter.Ebpf.{Rule}
use device_mounter.Api.{GoError, other_error, ok}
use device_mounter.CgroupV2.{can_skip_ebpf_error, set_device_rules_by_cgroupv2}
use device_mounter.CgroupV2.Skip.{
  permits_all, can_skip_ebpf_error-every, set_device_rules_by_cgroupv2-failed,
}

abbrev whole : Rule
whole = record { type = b'c'; major = pos 195; minor = pos 0; permissions = "mrw"; allow = true }

abbrev reading : Rule
reading = record whole { permissions = "r" }

abbrev no_permission : GoError
no_permission = other_error "operation not permitted"

can_skip_ebpf_error-every_example :
    can_skip_ebpf_error (whole ∷ reading ∷ []) ≡ every permits_all (whole ∷ reading ∷ [])
can_skip_ebpf_error-every_example = can_skip_ebpf_error-every (whole ∷ reading ∷ [])

set_device_rules_by_cgroupv2-failed_example :
    let outcome =
      set_device_rules_by_cgroupv2 false "/x" true
        (λ rules. (false, some no_permission))
        (reading ∷ []) in
    (outcome.closes ≡ true)
    × (outcome.error ≡ (if every permits_all (reading ∷ []) then none else some no_permission))
set_device_rules_by_cgroupv2-failed_example =
    set_device_rules_by_cgroupv2-failed "/x" (λ rules. (false, some no_permission)) (reading ∷ [])
      no_permission refl

-- A cgroup with a list of programs, and the number of the next one.
record Programs : Type 0 where
  progs : List ℕ
  next : ℕ

abbrev replace_in : ℕ → ℕ → List ℕ → List ℕ
replace_in new old [] = []
replace_in new old (p ∷ ps) = (if p == old then new else p) ∷ replace_in new old ps

-- A small filter program that ends with the default denial.
abbrev filter : List Instruction
filter = mov32 0 (pos 0) ∷ mov32 0 (pos 0) ∷ mov32 0 (pos 0) ∷ return_inst ∷ []

-- A kernel in which every call succeeds.
abbrev kernel : Bool → Kernel Programs
kernel replaces = record {
  query = λ k size. attached_ids k.progs;
  open_program = λ k id. program id;
  instructions = λ k id. ok filter;
  deep_equal = λ a b. false;
  show_rule_error = λ e. "rule";
  have_prog_replace = replaces;
  new_program = λ k insts. (ok k.next, record k { next = suc k.next });
  attach = λ k new old. elim old [
    | none ↦ (none, record k { progs = k.progs ++ new ∷ [] })
    | some p ↦ (none, record k { progs = replace_in new p k.progs })
  ];
  detach = λ k p. (none, record k { progs = keep (λ q. not (q == p)) k.progs });
}

replace_in_only : (new old : ℕ) → replace_in new old (old ∷ []) ≡ new ∷ []
replace_in_only new old = ground arith

kernel-Attaches : (replaces : Bool) → Attaches (kernel replaces) (λ k. k.progs)
kernel-Attaches replaces = record {
  replaces = λ k new old h ends. ap (replace_in new old) h ∙ replace_in_only new old;
  adds = λ k new ends. refl;
  detaches = λ k old ends. refl;
  loads = λ k insts. refl;
  attach_fails = λ k new old e failed. succeeds k new old e failed;
  detach_fails = λ k old e failed. absurd (ground arith);
}
  where
    succeeds :
        (k : Programs) (new : ℕ) (old : Option ℕ) (e : GoError)
        → ((kernel replaces).attach k new old).0 ≡ some e
        → ((kernel replaces).attach k new old).1.progs ≡ k.progs
    succeeds k new none e h = absurd (ground arith)
    succeeds k new (some p) e h = absurd (ground arith)

abbrev one_program : Programs
one_program = record { progs = 3 ∷ []; next = 8 }

abbrev replaced_loading : Loading Programs
replaced_loading = record {
  rollback = replace_back 3 8;
  error = none;
  kernel = record { progs = 8 ∷ []; next = 9 };
}

abbrev detached_loading : Loading Programs
detached_loading = record {
  rollback = detach_new 8 none;
  error = none;
  kernel = record { progs = 8 ∷ []; next = 9 };
}

lists_one :
    (replaces : Bool)
    → find_attached_cgroup_device_filters (kernel replaces) one_program ≡ ok (3 ∷ [])
unfolding find_attached_cgroup_device_filters
lists_one replaces = refl

loads_replaced :
    load_attach_cgroup_device_filter (kernel true) one_program [] ≡ some replaced_loading
unfolding load_attach_cgroup_device_filter edit_program append_rules load_instructions finalize
    has_end_exit
loads_replaced = refl

loads_detached :
    load_attach_cgroup_device_filter (kernel false) one_program [] ≡ some detached_loading
unfolding load_attach_cgroup_device_filter edit_program append_rules load_instructions finalize
    has_end_exit
loads_detached = refl

roll_back-load_attach_example :
    (roll_back (kernel true) (replace_back 3 8) (record { progs = 8 ∷ []; next = 9 })).1.progs
    ≡ 3 ∷ []
unfolding roll_back
roll_back-load_attach_example =
    roll_back-load_attach (kernel true) (λ k. k.progs) (kernel-Attaches true) one_program []
      replaced_loading refl (lists_one true) loads_replaced refl

roll_back-detach_new_example :
    (roll_back (kernel false) (detach_new 8 none) (record { progs = 8 ∷ []; next = 9 })).1.progs
    ≡ []
unfolding roll_back
roll_back-detach_new_example =
    roll_back-detach_new (kernel false) (λ k. k.progs) (kernel-Attaches false) one_program []
      detached_loading 8 none refl (lists_one false) loads_detached refl refl refl
