-- ===== src/Gateways/Network/Activation.antt =====
-- gateway/network/networkgateway.cpp
use softwarecontainer.Common.{
  ℕ, Bool, true, false, not, Option, none, some, List, [], ◌∷◌, ◌++◌, if◌then◌else◌,
}
use softwarecontainer.Common.Bytes.{Bytes, bytes, is_empty}
use softwarecontainer.Common.Int.{ℤ, pos, eqb_ℤ}
use softwarecontainer.Common.Throwing.{M, Result, ok, throw, and_then, pure}
use softwarecontainer.Json.{Jansson}
use softwarecontainer.ContainerInterface.{
  ContainerInterface, bring_up_ethernet, set_default_gateway, take_down_ethernet, insert_commands,
}
use softwarecontainer.Gateway.{Own, Gateway, GatewayMethods, new_gateway}
use softwarecontainer.Netlink.{AddressInfo}
use softwarecontainer.Gateways.Network.{generate_ip}
use softwarecontainer.Gateways.Network.IpTables.{IpTableEntry, commands}
use softwarecontainer.Gateways.Network.Parser.{parse_network_gateway_configuration}

-- What the gateway asks the Netlink object of the host: the index of a link, the addresses of an
-- index, and whether an address is among them. InContainer fills it with an object's cache.
pub record HostNetlink : Type 0 where
  pub find_link : Bytes → Option ℤ
  pub find_addresses : ℤ → Bool × List AddressInfo
  pub has_address : List AddressInfo → Bytes → Bool

-- What the constructor stores and nothing changes. `uninitialized` stands for what the local
-- variable of `isBridgeAvailable` holds, `pton` for inet_pton, `to_string` for std::to_string.
pub record NetworkSettings : Type 0 where
  pub netmask : ℕ
  pub gateway : Bytes
  pub bridge_device : Bytes
  pub container_id : ℕ
  pub host : HostNetlink
  pub uninitialized : ℤ
  pub pton : Bytes → Option ℕ
  pub to_string : ℤ → Bytes

pub record Network : Type 0 where
  pub entries : List IpTableEntry
  pub interface_initialized : Bool
  pub ip : ℕ

abbrev pub new_network : Network
new_network = record { entries = []; interface_initialized = false; ip = 0 }

abbrev pub link_index : ℤ → Option ℤ → ℤ
link_index uninitialized none = uninitialized
link_index uninitialized (some index) = index

-- It goes on when the link or its addresses are not found.
unfoldable pub is_bridge_available : NetworkSettings → Bool
is_bridge_available settings =
    let index =
      link_index settings.uninitialized (settings.host.find_link settings.bridge_device) in
    let (found, addresses) = settings.host.find_addresses index in
    settings.host.has_address addresses settings.gateway

unfoldable pub read_config_element :
    {Json : Type 0} ⦃j : Jansson Json⦄ → NetworkSettings → Json → M Network Bool
read_config_element settings element n =
    let (r, e) = parse_network_gateway_configuration settings.to_string element in
    elim r [
      | ok true ↦ (ok true, record n { entries = n.entries ++ (e ∷ []) })
      | ok false ↦ (ok false, n)
      | throw x ↦ (throw x, n)
    ]

module _ {C : Type 0} (container : ContainerInterface C) where
  -- Whether a job ends with SUCCESS.
  abbrev pub succeeded : Result ℤ × C → Result Bool × C
  succeeded (ok status, c) = (ok (eqb_ℤ status (pos 0)), c)
  succeeded (throw e, c) = (throw e, c)

  unfoldable pub set_gateway : NetworkSettings → M C Bool
  set_gateway settings c = succeeded (container.run_job (set_default_gateway settings.gateway) c)

  -- The `switch` of `up`: every status but SUCCESS gives `false`.
  unfoldable pub after_bring_up :
      NetworkSettings → Network → Result Bool × C → Result Bool × (Network × C)
  after_bring_up settings n (ok true, c) =
      let (r, c') = set_gateway settings c in (r, (record n { interface_initialized = true }, c'))
  after_bring_up settings n (ok false, c) = (ok false, (n, c))
  after_bring_up settings n (throw e, c) = (throw e, (n, c))

  unfoldable pub up : NetworkSettings → M (Network × C) Bool
  up settings (n, c) =
      if n.interface_initialized
      then (ok true, (n, c))
      else after_bring_up settings n
          (succeeded (container.run_job (bring_up_ethernet n.ip settings.netmask) c))

  unfoldable pub down : M C Bool
  down c = succeeded (container.run_job take_down_ethernet c)

  -- The loop over the entries: each is applied in the container by a job.
  unfoldable pub apply_entries : List IpTableEntry → M C Bool
  apply_entries [] c = (ok true, c)
  apply_entries (e ∷ rest) c =
      and_then (λ d. succeeded (container.run_job (insert_commands (commands e)) d))
        (apply_entries rest) c

  abbrev pub apply_all : M (Network × C) Bool
  apply_all (n, c) = let (r, c') = apply_entries n.entries c in (r, (n, c'))

  -- The part of `activateGateway` after the address.
  unfoldable pub activate_with : NetworkSettings → Result ℕ → M (Network × C) Bool
  activate_with settings (throw e) (n, c) = (ok false, (n, c))
  activate_with settings (ok ip) (n, c) = and_then (up settings) apply_all (record n { ip = ip }, c)

  unfoldable pub activate_gateway : NetworkSettings → M (Own Network × C) Bool
  activate_gateway settings (own, c) =
      let ip = generate_ip settings.pton settings.netmask settings.gateway settings.container_id in
      let (r, (n, c')) = activate_with settings ip (own.fields, c) in
      if is_empty settings.gateway
      then (ok true, (own, c))
      else if not (is_bridge_available settings)
      then (ok false, (own, c))
      else (r, (record own { fields = n }, c'))

  unfoldable pub network_gateway :
      {Json : Type 0} ⦃j : Jansson Json⦄ → NetworkSettings → GatewayMethods Json C Network
  network_gateway settings = record {
    read_config_element = read_config_element settings;
    activate_gateway = activate_gateway settings;
    teardown_gateway = pure true;
  }

abbrev pub new_network_gateway : Gateway Network
new_network_gateway = new_gateway (bytes "network") false new_network
