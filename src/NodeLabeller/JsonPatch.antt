-- ===== src/NodeLabeller/JsonPatch.antt =====
-- The patches of pkg/watchdog/node_labeller.go at the API server, which applies a JSON patch (RFC 6902)
-- as a whole or not at all.
use device_mounter.Base.{
  String, Bool, true, false, Option, none, some, List, [], ◌∷◌, ◌++◌, ◌≡◌, refl, ap, ◌∙◌, eqs,
  eqs→eq, Bool-cases, inl, inr, arith, contains, All, if◌then◌else◌, ◌||◌, eqs_refl, sym,
}
use device_mounter.Base.Dict.{Dict, lookup, has_key}
use device_mounter.Base.Split.{has_letter}
use device_mounter.NodeLabeller.{Operation, add, replace, remove, label_path, operations}

-- The API server's labels behind one operation, or none if it rejects the operation.
pub record Patching : Type 0 where
  pub apply : Operation → Dict String → Option (Dict String)

abbrev pub IsKey : String → Type 0
IsKey key = has_letter "~" key ≡ false

-- The operation is accepted and changes one label.
abbrev pub Sets : Option (Dict String) → String → Option String → Dict String → Type 0
Sets answer key v labels =
    (labels' : Dict String) × (answer ≡ some labels')
    × ((j : String) → lookup j labels' ≡ (if eqs j key then v else lookup j labels))

-- A JSON patch of the label at a path (RFC 6902); a key has no tilde. What `replace` and `remove` name
-- must exist, or the patch is rejected.
pub record Patches (patching : Patching) : Type 0 where
  pub adds :
      (key value : String) (labels : Dict String)
      → IsKey key
      → Sets (patching.apply (add (label_path key) value) labels) key (some value) labels
  pub replaces :
      (key value : String) (labels : Dict String)
      → IsKey key
      → has_key key labels ≡ true
      → Sets (patching.apply (replace (label_path key) value) labels) key (some value) labels
  pub removes :
      (key : String) (labels : Dict String)
      → IsKey key
      → has_key key labels ≡ true
      → Sets (patching.apply (remove (label_path key)) labels) key none labels
  pub replaces_absent :
      (key value : String) (labels : Dict String)
      → IsKey key
      → has_key key labels ≡ false
      → patching.apply (replace (label_path key) value) labels ≡ none
  pub removes_absent :
      (key : String) (labels : Dict String)
      → IsKey key
      → has_key key labels ≡ false
      → patching.apply (remove (label_path key)) labels ≡ none

module _ (patching : Patching) where
  -- A patch is accepted as a whole or not at all.
  abbrev pub and_then :
      (Dict String → Option (Dict String)) → Option (Dict String) → Option (Dict String)
  and_then continue none = none
  and_then continue (some labels) = continue labels

  abbrev pub apply_all : List Operation → Dict String → Option (Dict String)
  apply_all [] labels = some labels
  apply_all (op ∷ ops) labels = and_then (apply_all ops) (patching.apply op labels)

  pub and_then-and_then :
      (xs ys : List Operation)
      → ((labels : Dict String)
          → apply_all (xs ++ ys) labels ≡ and_then (apply_all ys) (apply_all xs labels))
      → (answer : Option (Dict String))
      → and_then (apply_all (xs ++ ys)) answer
        ≡ and_then (apply_all ys) (and_then (apply_all xs) answer)
  and_then-and_then xs ys rest none = refl
  and_then-and_then xs ys rest (some labels) = rest labels

  pub apply_all-append :
      (xs ys : List Operation) (labels : Dict String)
      → apply_all (xs ++ ys) labels ≡ and_then (apply_all ys) (apply_all xs labels)
  apply_all-append [] ys labels = refl
  apply_all-append (op ∷ xs) ys labels =
      and_then-and_then xs ys (apply_all-append xs ys) (patching.apply op labels)

-- The keys of a Go map.
abbrev pub HasUniqueKeys : Dict String → Type 0
HasUniqueKeys [] = Unit
HasUniqueKeys ((key, value) ∷ labels) = (has_key key labels ≡ false) × HasUniqueKeys labels

abbrev pub IsDistinct : List String → Type 0
IsDistinct [] = Unit
IsDistinct (key ∷ keys) = (contains keys key ≡ false) × IsDistinct keys

pub or_right : (a b : Bool) → b ≡ true → (a || b) ≡ true
or_right true b e = refl
or_right false b e = e

pub All-contains :
    (P : String → Type 0) (keys : List String)
    → ((j : String) → contains keys j ≡ true → P j)
    → All P keys
All-contains P [] h = tt
All-contains P (key ∷ keys) h = (
  h key (rw (eqs_refl key) refl),
  All-contains P keys (λ j there. h j (or_right (eqs key j) (contains keys j) there)),
)

pub All-both :
    (P Q R : String → Type 0) (keys : List String)
    → ((j : String) → P j → Q j → R j)
    → All P keys
    → All Q keys
    → All R keys
All-both P Q R [] h p q = tt
All-both P Q R (key ∷ keys) h p q = (h key p.0 q.0, All-both P Q R keys h p.1 q.1)

abbrev pub ArePresent : Dict String → List String → Type 0
ArePresent labels keys = All (λ key. has_key key labels ≡ true) keys

-- A key that is there under labels of which another was set, or removed.
pub present-set :
    (b : Bool) (j value : String) (labels labels' : Dict String)
    → lookup j labels' ≡ (if b then some value else lookup j labels)
    → has_key j labels ≡ true
    → has_key j labels' ≡ true
present-set true j value labels labels' e there =
    ap (λ o. elim o [ none ↦ false | some x ↦ true ]) e
present-set false j value labels labels' e there =
    ap (λ o. elim o [ none ↦ false | some x ↦ true ]) e ∙ there

pub present-removed :
    (j key : String) (labels labels' : Dict String)
    → ((i : String) → lookup i labels' ≡ (if eqs i key then none else lookup i labels))
    → eqs j key ≡ false
    → has_key j labels ≡ true
    → has_key j labels' ≡ true
present-removed j key labels labels' e other there =
    ap (λ o. elim o [ none ↦ false | some x ↦ true ]) (e j) ∙ rw other there

pub fresh :
    (key : String) (keys : List String)
    → contains keys key ≡ false
    → All (λ j. eqs j key ≡ false) keys
fresh key keys h =
    All-contains (λ j. eqs j key ≡ false) keys
      λ j there. elim (Bool-cases (eqs j key)) [
        | inl same ↦
            let e : false ≡ true = sym h ∙ ap (contains keys) (sym (eqs→eq j key same)) ∙ there in
            absurd (ground (arith, e))
        | inr other ↦ other
      ]

-- What several operations of one kind need of the labels that are left, and how one of them keeps it.
abbrev pub Keeps :
    Patching → (List String → Dict String → Type 0) → (String → Operation) → Option String → Type 0
Keeps patching Ready make v =
    (key : String) (keys : List String) (labels : Dict String)
    → Ready (key ∷ keys) labels
    → (labels' : Dict String) × (patching.apply (make (label_path key)) labels ≡ some labels')
      × ((j : String) → lookup j labels' ≡ (if eqs j key then v else lookup j labels))
      × Ready keys labels'

abbrev pub AddReady : List String → Dict String → Type 0
AddReady keys labels = All IsKey keys

abbrev pub ReplaceReady : List String → Dict String → Type 0
ReplaceReady keys labels = All IsKey keys × ArePresent labels keys

abbrev pub RemoveReady : List String → Dict String → Type 0
RemoveReady keys labels = All IsKey keys × IsDistinct keys × ArePresent labels keys

module _ (patching : Patching) (laws : Patches patching) where
  pub add-Keeps : Keeps patching AddReady (λ path. add path "true") (some "true")
  add-Keeps key keys labels h =
      let (labels', e, looked) = laws.adds key "true" labels h.0 in (labels', e, looked, h.1)

  pub replace-Keeps : Keeps patching ReplaceReady (λ path. replace path "true") (some "true")
  replace-Keeps key keys labels (names, there) =
      let (labels', e, looked) = laws.replaces key "true" labels names.0 there.0 in
      (
        labels',
        e,
        looked,
        (
          names.1,
          All-both (λ j. has_key j labels ≡ true) (λ j. has_key j labels ≡ true)
              (λ j. has_key j labels' ≡ true) keys
              (λ j p q. present-set (eqs j key) j "true" labels labels' (looked j) p) there.1
              there.1,
        ),
      )

  pub remove-Keeps : Keeps patching RemoveReady remove none
  remove-Keeps key keys labels (names, distinct, there) =
      let (labels', e, looked) = laws.removes key labels names.0 there.0 in
      (
        labels',
        e,
        looked,
        (
          names.1,
          distinct.1,
          All-both (λ j. eqs j key ≡ false) (λ j. has_key j labels ≡ true)
              (λ j. has_key j labels' ≡ true) keys
              (λ j other p. present-removed j key labels labels' looked other p)
              (fresh key keys distinct.0) there.1,
        ),
      )

-- Operations that are all accepted, and what they make of the labels.
abbrev pub Makes : Option (Dict String) → (String → Option String) → Type 0
Makes answer f =
    (labels' : Dict String) × (answer ≡ some labels') × ((j : String) → lookup j labels' ≡ f j)

module _ (to_lower : String → String) (types : List String) where
  -- One kind of operation on several keys, each of which gets the value `v`.
  pub lookup-operations :
      (patching : Patching) (Ready : List String → Dict String → Type 0) (make : String → Operation)
      (v : Option String)
      → Keeps patching Ready make v
      → (keys : List String) (labels : Dict String) → Ready keys labels
      → Makes
          (apply_all patching (operations to_lower types make keys) labels)
          (λ j. if contains keys j then v else lookup j labels)
  lookup-operations patching Ready make v keeps [] labels h = (labels, refl, λ j. refl)
  lookup-operations patching Ready make v keeps (key ∷ keys) labels h =
      let (labels', e, looked, h') = keeps key keys labels h in
      let (labels'', e', looked') = lookup-operations patching Ready make v keeps keys labels' h' in
      (
        labels'',
        ap (and_then patching (apply_all patching (operations to_lower types make keys))) e ∙ e',
        λ j. looked' j ∙ ground (arith, looked j),
      )
