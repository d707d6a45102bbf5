-- ===== src/Ebpf/Block.antt =====
-- What one block does when it runs: it returns the rule's verdict on a request that the rule
-- covers, and passes any other request on to what follows.
use Prim.Native.Nat.{bit_and, bit_or}
use Prim.Native.Char.{code}
use device_mounter.Base.{
  ℕ, ◌+◌, ◌<◌, ◌%◌, String, Bool, true, false, not, ◌&&◌, ◌||◌, some, List, ◌++◌, ◌≡◌, refl, ◌∙◌,
  arith, ltb, ◌==◌, if◌then◌else◌,
}
use device_mounter.Base.Int.{ℤ, pos, negsuc, eqz, is_nonneg, exceeds, int32}
use device_mounter.Ebpf.{Instruction, Rule, ok, bpf_type, access_loop, insert_block}
use device_mounter.Ebpf.Machine.{Regs, write, step, run, run_from}

-- A request: whether it asks to read, write and make nodes, and for which device.
pub record Request : Type 0 where
  pub type : ℕ
  pub read : Bool
  pub write : Bool
  pub mknod : Bool
  pub major : ℕ
  pub minor : ℕ

-- The kernel's encoding of the access that is asked for.
abbrev pub access_bits : Bool → Bool → Bool → ℕ
access_bits r w m = (if m then 1 else 0) + ((if r then 2 else 0) + (if w then 4 else 0))

abbrev pub mentions : ℕ → String → Bool
mentions ch String.[] = false
mentions ch (String.◌∷◌ c rest) = code c == ch || mentions ch rest

-- Whether the text of a rule's permissions covers what is asked.
abbrev pub permits : String → Request → Bool
permits perms q =
    (not q.read || mentions b'r' perms)
    && ((not q.write || mentions b'w' perms) && (not q.mknod || mentions b'm' perms))

-- A number of a rule: the number itself, or every number if it is negative. The constant of a
-- comparison is sign-extended, so a number from 2^31 on equals no number of a device.
abbrev pub covers_number : ℤ → ℕ → Bool
covers_number (pos n) x = ltb n 2147483648 && x == n
covers_number (negsuc n) x = true

abbrev pub covers : ℕ → Rule → Request → Bool
covers type rule q =
    q.type == type
    && (permits rule.permissions q
        && (covers_number rule.major q.major && covers_number rule.minor q.minor))

-- The registers of a request, as the prologue of the filter loads them.
pub record Holds (q : Request) (regs : Regs) : Type 0 where
  pub r2 : regs 2 ≡ q.type
  pub r3 : regs 3 ≡ access_bits q.read q.write q.mknod
  pub r4 : regs 4 ≡ q.major
  pub r5 : regs 5 ≡ q.minor

or_bits :
    (r w m : Bool)
    → (bit_or (access_bits r w m) 2 ≡ access_bits true w m)
      × (bit_or (access_bits r w m) 4 ≡ access_bits r true m)
      × (bit_or (access_bits r w m) 1 ≡ access_bits r w true)
or_bits true true true = (refl, refl, refl)
or_bits true true false = (refl, refl, refl)
or_bits true false true = (refl, refl, refl)
or_bits true false false = (refl, refl, refl)
or_bits false true true = (refl, refl, refl)
or_bits false true false = (refl, refl, refl)
or_bits false false true = (refl, refl, refl)
or_bits false false false = (refl, refl, refl)

or_true : (b : Bool) → (b || true) ≡ true
or_true b = ground arith

-- The loop over the permissions adds the bits of the letters that it reads.
access_loop-eq-ok :
    (perms : String) (r w m : Bool) (access : ℕ)
    → access_loop perms (access_bits r w m) ≡ ok access
    → access
      ≡ access_bits (r || mentions b'r' perms) (w || mentions b'w' perms) (m || mentions b'm' perms)
access_loop-eq-ok String.[] r w m access h = ground arith
access_loop-eq-ok (String.◌∷◌ c rest) r w m access h = ground (
  arith,
  or_bits r w m,
  access_loop-eq-ok rest true w m access,
  access_loop-eq-ok rest r true m access,
  access_loop-eq-ok rest r w true access,
)

and_bits :
    (a b c r w m : Bool)
    → (bit_and (access_bits a b c % 4294967296 % 4294967296) (access_bits r w m % 4294967296)
        == access_bits a b c)
      ≡ ((not a || r) && ((not b || w) && (not c || m)))
and_bits a b c r w m = ground arith

-- The registers that a request leaves behind when it passes the block.
abbrev pub after_block : ℕ → ℕ → Regs → Regs
after_block type access regs =
    if regs 2 == type && not (access == 7)
    then write (write regs 6 (regs 3 % 4294967296)) 6
        (bit_and (regs 3 % 4294967296 % 4294967296) (access % 4294967296))
    else regs

-- The test of the access bits, which a mask of all bits skips.
abbrev access_test : ℕ → Regs → Bool
access_test access regs =
    access == 7 || bit_and (regs 3 % 4294967296 % 4294967296) (access % 4294967296) == regs 3

module _ (load : Instruction → Regs → Regs) (type access : ℕ) (perms : String) (allow : Bool)
    (rest : List Instruction) (regs : Regs) where
  run-insert_block :
      (major minor : ℤ)
      → let rule : Rule = record {
        type = 0;
        major = major;
        minor = minor;
        permissions = perms;
        allow = allow;
      } in
        run load (insert_block type access rule ++ rest) regs ≡ (
          if regs 2 == type
            && (access_test access regs
                && ((not (is_nonneg major) || eqz (pos (regs 4)) (int32 major))
                    && (not (is_nonneg minor) || eqz (pos (regs 5)) (int32 minor))))
          then some (if allow then 1 else 0)
          else run load rest (after_block type access regs))
  unfolding insert_block step run_from
  run-insert_block (pos major) (pos minor) = ground arith
  run-insert_block (pos major) (negsuc minor) = ground arith
  run-insert_block (negsuc major) (pos minor) = ground arith
  run-insert_block (negsuc major) (negsuc minor) = ground arith

-- A rule that `AppendRule` accepts, with the type and the access bits that it computes.
pub record Accepted (type access : ℕ) (rule : Rule) : Type 0 where
  pub type_known : bpf_type rule.type ≡ some type
  pub major_fits : exceeds rule.major 4294967295 ≡ false
  pub minor_fits : exceeds rule.minor 4294967295 ≡ false
  pub access_known : access_loop rule.permissions 0 ≡ ok access

int32_covers :
    (n : ℤ) (x : ℕ)
    → exceeds n 4294967295 ≡ false
    → x < 4294967296
    → (not (is_nonneg n) || eqz (pos x) (int32 n)) ≡ covers_number n x
unfolding int32
int32_covers (pos n) x fits h = ground arith
int32_covers (negsuc n) x fits h = refl

all_bits : (r w m : Bool) → (access_bits r w m == 7) ≡ (r && (w && m))
all_bits r w m = ground arith

-- The tests of the access bits decide whether the permissions cover the request.
access_covers :
    (a b c r w m : Bool)
    → (access_bits r w m == 7
        || bit_and (access_bits a b c % 4294967296 % 4294967296) (access_bits r w m % 4294967296)
          == access_bits a b c)
      ≡ ((not a || r) && ((not b || w) && (not c || m)))
access_covers a b c r w m = rw (and_bits a b c r w m, all_bits r w m) (ground arith)

pub after_block-Holds :
    (type access : ℕ) (q : Request) (regs : Regs)
    → Holds q regs
    → Holds q (after_block type access regs)
after_block-Holds type access q regs h = ground arith

tests-eq-covers :
    (type access : ℕ) (rule : Rule) (q : Request) (regs : Regs)
    → Accepted type access rule
    → q.major < 4294967296
    → q.minor < 4294967296
    → Holds q regs
    → (regs 2 == type
        && (access_test access regs
            && ((not (is_nonneg rule.major) || eqz (pos (regs 4)) (int32 rule.major))
                && (not (is_nonneg rule.minor) || eqz (pos (regs 5)) (int32 rule.minor)))))
      ≡ covers type rule q
tests-eq-covers type access rule q regs ac major_fits minor_fits h = rw (
  h.r2,
  h.r3,
  h.r4,
  h.r5,
  access_loop-eq-ok rule.permissions false false false access ac.access_known,
  access_covers q.read q.write q.mknod _ _ _,
  int32_covers rule.major q.major ac.major_fits major_fits,
  int32_covers rule.minor q.minor ac.minor_fits minor_fits,
)

-- A block decides the requests that its rule covers, and hands on every other request.
pub run-block :
    (load : Instruction → Regs → Regs) (type access : ℕ) (rule : Rule) (q : Request)
    (rest : List Instruction) (regs : Regs)
    → Accepted type access rule
    → q.major < 4294967296
    → q.minor < 4294967296
    → Holds q regs
    → run load (insert_block type access rule ++ rest) regs ≡ (
        if covers type rule q
        then some (if rule.allow then 1 else 0)
        else run load rest (after_block type access regs))
unfolding insert_block
run-block load type access rule q rest regs ac major_fits minor_fits h =
    run-insert_block load type access rule.permissions rule.allow rest regs rule.major rule.minor
    ∙ rw (tests-eq-covers type access rule q regs ac major_fits minor_fits h)
