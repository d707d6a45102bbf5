-- ===== src/NodeLabeller/Converges.antt =====
-- What the patch of pkg/watchdog/node_labeller.go makes of the labels of the node.
use device_mounter.Base.{String, Option, none, some, List, if◌then◌else◌}
use device_mounter.Base.Dict.{Dict, lookup}
use device_mounter.NodeLabeller.{has_prefix, contains_device_types}

module _ (to_lower : String → String) (types : List String) where
  -- The label that the node is to have under a key: the types of the mounter, and nothing else with
  -- its prefix.
  abbrev pub wanted : String → Dict String → Option String
  wanted j labels =
      if contains_device_types to_lower types types j
      then some "true"
      else if has_prefix j
      then none
      else lookup j labels
