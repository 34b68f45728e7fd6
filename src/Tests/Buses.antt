-- ===== src/Tests/Buses.antt =====
-- Runs of the theorems on the D-Bus gateway.
use softwarecontainer.Common.{ℕ, suc, true, false, some, none, [], ltb, ◌==◌, if◌then◌else◌}
use softwarecontainer.Common.Bytes.{Bytes, bytes}
use softwarecontainer.Common.Int.{pos}
use softwarecontainer.Gateway.{Own, Gateway, configured, activate as activate_base}
use softwarecontainer.Gateways.DBus.Proxy.{
  ProxyType, session_proxy, system_proxy, Host, Instance, new_instance,
}
use softwarecontainer.Gateways.DBus.{DBusGateway, session_methods}
use softwarecontainer.Tests.Values.{Value, nil, value_jansson, counting}

-- A host with a clock: the first write works, and sockets appear at the time 2.
abbrev clock : Host ℕ
clock = record {
  sleep = λ c. suc c;
  access = λ socket c. ltb 1 c;
  getenv = λ name c. some (bytes "unix:path=/run/bus");
  spawn = λ command env c. (some (pos 100, pos 3), c);
  write = λ pipe config c. (if c == 1 then some 1 else none, suc c);
  kill_and_wait = λ pid c. c;
  unlink = λ path c. (true, c);
  close = λ pipe c. c;
}

abbrev instance_of : ProxyType → Instance Value
instance_of bus = new_instance (λ a b. b) nil bus (bytes "/tmp") (bytes "SC-0")

abbrev configured_instance : ProxyType → Gateway (Instance Value)
configured_instance bus = record {
  own = record { activated_once = false; fields = instance_of bus };
  id = bytes "dbus-bus-instance";
  is_dynamic = true;
  state = configured;
}

abbrev both : DBusGateway Value
both = record {
  session = configured_instance session_proxy;
  system = configured_instance system_proxy;
}

abbrev no_dump : ProxyType → Value → Bytes
no_dump bus config = []

abbrev after_session : Gateway (Instance Value) × ℕ
after_session =
    (activate_base (session_methods counting clock (λ a b. b) no_dump) (both.session, 0)).1

abbrev active : Own (Instance Value)
active = record { activated_once = true; fields = instance_of session_proxy }
