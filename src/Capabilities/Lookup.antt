-- ===== src/Capabilities/Lookup.antt =====
-- Which capabilities a container gets (agent/src/capability).
use softwarecontainer.Common.{◌≡◌, some}
use softwarecontainer.Common.Bytes.{Bytes}
use softwarecontainer.Common.OrdMap.{lookup, bytes_key}
use softwarecontainer.Common.Throwing.{after}
use softwarecontainer.GatewayConfig.{GatewayConfiguration}
use softwarecontainer.Capabilities.{ConfigStore}

-- Every capability that `before` defines stands in `after` as it was.
abbrev pub Extends : {Json : Type 0} → ConfigStore Json → ConfigStore Json → Type 0
Extends {Json} before after =
    (name : Bytes) (conf : GatewayConfiguration Json)
    → lookup name before ≡ some conf
    → lookup name after ≡ some conf
