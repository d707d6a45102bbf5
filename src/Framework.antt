-- ===== src/Framework.antt =====
-- pkg/framework/mounter.go: the registry of the device plugins. A function that creates a plugin is
-- what it answers when it is called.
mod Tests
use device_mounter.Base.{
  String, Option, none, some, List, [], ◌∷◌, ◌++◌, eqs, ◌≡◌, refl, ◌∙◌, ap, if◌then◌else◌,
}
use device_mounter.Base.Dict.{Dict, lookup, insert, lookup-insert}
use device_mounter.Api.{GoError, Result, ok, err}
use device_mounter.Server.Cluster.{DeviceMounter}

-- `registerDeviceMounter` and `addDeviceMounterFuncs`.
pub record Registry : Type 0 where
  pub mounters : Dict DeviceMounter
  pub create_funcs : List (Result DeviceMounter)

-- `AddDeviceMounterFuncs`; none is a nil function.
abbrev pub add_device_mounter_funcs : Option (Result DeviceMounter) → Registry → Registry
add_device_mounter_funcs none registry = registry
add_device_mounter_funcs (some create) registry = record registry {
  create_funcs = registry.create_funcs ++ create ∷ [];
}

-- `GetDeviceMounterTypes`
abbrev types_of : Dict DeviceMounter → List String
types_of [] = []
types_of ((key, mounter) ∷ mounters) = mounter.device_type ∷ types_of mounters

abbrev pub get_device_mounter_types : Registry → List String
get_device_mounter_types registry = types_of registry.mounters

-- `GetDeviceMounter`
unfoldable pub get_device_mounter : Registry → String → Option DeviceMounter
get_device_mounter registry dev_type = lookup dev_type registry.mounters

-- `strings.ToUpper` is a parameter.
module _ (to_upper : String → String) where
  -- The loop of `RegisrtyDeviceMounter`; a plugin that cannot be created is passed over.
  unfoldable pub register_all :
      List (Result DeviceMounter) → Dict DeviceMounter → Dict DeviceMounter
  register_all [] mounters = mounters
  register_all (err e ∷ create_funcs) mounters = register_all create_funcs mounters
  register_all (ok mounter ∷ create_funcs) mounters =
      register_all create_funcs (insert (to_upper mounter.device_type) mounter mounters)

  -- `RegisrtyDeviceMounter`
  unfoldable pub registry_device_mounter : Registry → Registry
  unfolding register_all
  registry_device_mounter registry = record registry {
    mounters = register_all registry.create_funcs registry.mounters;
  }

  -- The last plugin created for a type in upper case, and else the one given.
  abbrev pub last_created :
      String → List (Result DeviceMounter) → Option DeviceMounter → Option DeviceMounter
  last_created dev_type [] before = before
  last_created dev_type (err e ∷ create_funcs) before = last_created dev_type create_funcs before
  last_created dev_type (ok mounter ∷ create_funcs) before =
      last_created dev_type create_funcs
        (if eqs dev_type (to_upper mounter.device_type) then some mounter else before)

  lookup-register_all :
      (dev_type : String) (create_funcs : List (Result DeviceMounter))
      (mounters : Dict DeviceMounter)
      → lookup dev_type (register_all create_funcs mounters)
        ≡ last_created dev_type create_funcs (lookup dev_type mounters)
  unfolding register_all
  lookup-register_all dev_type [] mounters = refl
  lookup-register_all dev_type (err e ∷ create_funcs) mounters =
      lookup-register_all dev_type create_funcs mounters
  lookup-register_all dev_type (ok mounter ∷ create_funcs) mounters =
      lookup-register_all dev_type create_funcs
        (insert (to_upper mounter.device_type) mounter mounters)
      ∙ ap (last_created dev_type create_funcs)
          (lookup-insert dev_type (to_upper mounter.device_type) mounter mounters)

  -- Behind the registration a type in upper case has the plugin that was created last for it, and
  -- the plugin that it had before if none was created.
  pub get_device_mounter-registry :
      (registry : Registry) (dev_type : String)
      → get_device_mounter (registry_device_mounter registry) dev_type
        ≡ last_created dev_type registry.create_funcs (get_device_mounter registry dev_type)
  unfolding get_device_mounter registry_device_mounter
  get_device_mounter-registry registry dev_type =
      lookup-register_all dev_type registry.create_funcs registry.mounters
