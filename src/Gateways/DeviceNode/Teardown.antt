-- ===== src/Gateways/DeviceNode/Teardown.antt =====
-- Whether the gateway of device nodes ever counts as activated.
use softwarecontainer.Common.{◌≡◌, refl, false, List, arith}
use softwarecontainer.Json.{Jansson}
use softwarecontainer.ContainerInterface.{ContainerInterface}
use softwarecontainer.Gateway.{Own, is_activated, new_gateway}
use softwarecontainer.Gateway.Lifecycle.{Call, run, KeepsActivatedOnce, never_activated}
use softwarecontainer.Gateways.DeviceNode.{
  Device, device_node_gateway, new_device_node_gateway, activate_gateway,
}

module _ {C : Type 0} (container : ContainerInterface C) where
  activate_keeps :
      (o : Own (List Device)) (c : C)
      → ((activate_gateway container (o, c)).1).0.activated_once ≡ o.activated_once
  unfolding activate_gateway
  activate_keeps o c = ground arith

module _ {Json C : Type 0} ⦃j : Jansson Json⦄ (container : ContainerInterface C) where
  device_node_keeps : KeepsActivatedOnce (device_node_gateway container {Json = Json})
  unfolding device_node_gateway
  device_node_keeps = record {
    activate_keeps = activate_keeps container;
    teardown_keeps = λ o c. refl;
  }

  -- Whatever calls it gets, the gateway never counts as activated: `isActivated` asks for
  -- `m_activatedOnce`, since the gateway is dynamic, and no method of it sets that.
  device_node_never_activated :
      (calls : List (Call Json)) (c : C)
      → is_activated (run (device_node_gateway container) calls (new_device_node_gateway, c)).0
        ≡ false
  unfolding new_gateway
  device_node_never_activated calls c =
      never_activated (device_node_gateway container) device_node_keeps calls
        new_device_node_gateway c refl refl
