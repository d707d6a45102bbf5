-- ===== src/Server/World.antt =====
-- What a handler has done so far. Everything outside the repository answers a call as an arbitrary
-- function of this history, so a theorem holds whatever the cluster, the kernel and the other
-- processes do. The clock counts the calls, so two calls of one kind may be answered differently.
use device_mounter.Base.{ℕ, suc, String, Bool, List, ◌∷◌, Option, none, some}
use device_mounter.Api.{ObjectKey, GoError, Result, ok, err}
use device_mounter.Ebpf.{Rule}

-- The calls that change something, the newest first in a trace.
pub data Event : Type 0 where
  pod_created : ObjectKey → Event
  pdb_created : ObjectKey → Event
  pod_deleted : ObjectKey → Event
  -- New rules for a cgroup, and whether there is anything to restore.
  rules_set : String → List Rule → Bool → Event
  rules_restored : String → Event
  fd_opened fd_closed : String → Event
  file_made : ℕ → String → Event
  file_removed : ℕ → String → Event
  processes_killed : ℕ → List ℕ → Event
  -- The plugin's own actions behind a mount and an unmount.
  post_mount post_unmount : Event
  event_recorded : String → Event

pub record World : Type 0 where
  pub clock : ℕ
  pub trace : List Event

-- A call that only asks.
abbrev pub tick : World → World
tick w = record w { clock = suc w.clock }

-- A call that does something.
abbrev pub log : Event → World → World
log e w = record { clock = suc w.clock; trace = e ∷ w.trace }

abbrev pub Exec : Type 0 → Type 0
Exec A = World → Result A × World

unfoldable pub pure : {A : Type 0} → A → Exec A
pure a w = (ok a, w)

unfoldable pub raise : {A : Type 0} → GoError → Exec A
raise e w = (err e, w)

unfoldable pub lift : {A : Type 0} → Result A → Exec A
lift r w = (r, w)

-- An answer that depends on the history.
unfoldable pub ask : {A : Type 0} → (World → Result A) → Exec A
ask f w = (f w, tick w)

-- `if err := f(); err != nil { return err }`
abbrev pub or_none : Option GoError → Result (Unit {0})
or_none none = ok tt
or_none (some e) = err e

abbrev pub and_then : {A B : Type 0} → (A → Exec B) → Result A × World → Result B × World
and_then f (ok a, w) = f a w
and_then f (err e, w) = (err e, w)

-- Shut in proofs, so that a block keeps its shape.
infixl 5 ◌>>=◌ ◌>>◌
unfoldable pub ◌>>=◌ : {A B : Type 0} → Exec A → (A → Exec B) → Exec B
◌>>=◌ m f w = and_then f (m w)

abbrev pub ◌>>◌ : {B : Type 0} → Exec (Unit {0}) → Exec B → Exec B
m >> k = m >>= λ _. k
