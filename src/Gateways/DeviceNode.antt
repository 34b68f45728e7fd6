-- ===== src/Gateways/DeviceNode.antt =====
-- gateway/devicenode/devicenode.cpp, devicenodelogic.cpp and devicenodegateway.cpp.
-- The list holds shared pointers that nothing else keeps, so its devices are values here.
pub mod Modes
pub mod Teardown
use softwarecontainer.Common.{
  ℕ, suc, ◌*◌, Bool, true, false, Option, none, some, List, [], ◌∷◌, ◌++◌, not, if◌then◌else◌,
}
use softwarecontainer.Common.Bytes.{Bytes, bytes, ◌==◌}
use softwarecontainer.Common.Int.{ℤ, pos, negsuc, ◌+ℤ◌, tdiv, tmod, ltb_ℤ, leb_ℤ, eqb_ℤ, neg}
use softwarecontainer.Common.Throwing.{M, Result, ok, throw, ◌>>=◌, pure, and_then, for_each}
use softwarecontainer.Json.{Jansson, read_string, read_int}
use softwarecontainer.ContainerInterface.{ContainerInterface, chmod}
use softwarecontainer.Gateway.{Own, Gateway, GatewayMethods, new_gateway}

pub record Device : Type 0 where
  pub name : Bytes
  pub mode : ℤ
  pub is_configured : Bool

-- The three decimal digits of a mode, as the code takes them.
unfoldable pub owner_digit : ℤ → ℤ
unfolding tdiv
owner_digit mode = tdiv mode 100

unfoldable pub group_digit : ℤ → ℤ
unfolding tdiv tmod
group_digit mode = tmod (tdiv mode 10) 10

unfoldable pub other_digit : ℤ → ℤ
unfolding tmod
other_digit mode = tmod mode 10

-- `n * m` for a digit `n` and the weight `m` of its place.
unfoldable pub scale : ℤ → ℕ → ℤ
scale (pos n) m = pos (n * m)
scale (negsuc n) m = neg (suc n * m)

-- `(applied >= stored) ? applied : stored`
unfoldable pub permissive : ℤ → ℤ → ℤ
permissive applied stored = if leb_ℤ stored applied then applied else stored

unfoldable pub mode_result : ℤ → ℤ → ℤ
mode_result applied stored =
    if eqb_ℤ stored applied
    then stored
    else scale (permissive (owner_digit applied) (owner_digit stored)) 100
      +ℤ scale (permissive (group_digit applied) (group_digit stored)) 10
      +ℤ permissive (other_digit applied) (other_digit stored)

unfoldable pub calculate_device_mode : ℤ → Device → Device
calculate_device_mode applied d =
    let result = mode_result applied d.mode in
    if ltb_ℤ d.mode result then record d { mode = result; is_configured = false } else d

-- `findDeviceByName` and the rest of `updateDeviceList`: the first device of that name changes, or
-- the copy constructor puts a device at the end.
unfoldable pub update_device_list : Device → List Device → List Device
update_device_list dev [] = record dev { is_configured = false } ∷ []
update_device_list dev (d ∷ rest) =
    if d.name == dev.name
    then calculate_device_mode dev.mode d ∷ rest
    else d ∷ update_device_list dev rest

module _ {Json : Type 0} ⦃j : Jansson Json⦄ where
  -- `parse` on a new device: no value stands for the result `false`.
  unfoldable pub parse : Json → Option Device
  parse element =
      let (name_read, name) = read_string element (bytes "name") [] in
      if not name_read then none else elim (j.object_get element (bytes "mode")) [
        | none ↦ some (record { name = name; mode = negsuc 0; is_configured = false })
        | some _ ↦
            let (mode_read, mode) = read_int element (bytes "mode") (negsuc 0) in
            if mode_read
            then some (record { name = name; mode = mode; is_configured = false })
            else none
      ]

  unfoldable pub read_config_element : Json → M (List Device) Bool
  read_config_element element devices = elim (parse element) [
    | none ↦ (ok false, devices)
    | some dev ↦ (ok true, update_device_list dev devices)
  ]

module _ {C : Type 0} (container : ContainerInterface C) where
  -- Whether the job that sets the mode, if there is one to set, ends well.
  unfoldable pub set_mode : Device → M C Bool
  set_mode d =
      if eqb_ℤ d.mode (negsuc 0)
      then pure true
      else (container.run_job (chmod d.name d.mode) >>= λ status. pure (eqb_ℤ status (pos 0)))

  unfoldable pub activate_device : M (Device × C) Bool
  unfolding set_mode
  activate_device (d, c) =
      if d.is_configured
      then (ok true, (d, c))
      else let (r, c') = and_then (container.mount_device d.name) (set_mode d) c in
        (r, (after r, c'))
    where
      after : Result Bool → Device
      after (ok true) = record d { is_configured = true }
      after _ = d

  unfoldable pub activate_gateway : M (Own (List Device) × C) Bool
  activate_gateway (own, c) = elim (own.fields) [
    | [] ↦ (ok false, (own, c))
    | d ∷ rest ↦
        let (r, (devices, c')) = for_each activate_device (d ∷ rest) c in
        (r, (record own { fields = devices }, c'))
  ]

  unfoldable pub device_node_gateway :
      {Json : Type 0} ⦃j : Jansson Json⦄ → GatewayMethods Json C (List Device)
  device_node_gateway = record {
    read_config_element = read_config_element;
    activate_gateway = activate_gateway;
    teardown_gateway = pure true;
  }

abbrev pub new_device_node_gateway : Gateway (List Device)
new_device_node_gateway = new_gateway (bytes "devicenode") true []
