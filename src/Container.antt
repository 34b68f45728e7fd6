-- ===== src/Container.antt =====
-- libsoftwarecontainer/src/container.{h,cpp}: a container of LXC: its state and the helpers
-- of its methods, which are in the child modules. The functions that log a text are left out, and
-- `toString`, which only logs use.
pub mod Creation
pub mod Running
pub mod Execution
pub mod BindMount
pub mod Interface
pub mod Handle
pub mod Calls
pub mod Binding
pub mod Making
pub mod Life
pub mod Transitions
pub mod Variables
use softwarecontainer.Common.{
  ℕ, ◌+◌, Bool, true, false, ◌&&◌, not, Option, none, some, List, [], ◌∷◌, ◌++◌, if◌then◌else◌, ltb,
  ◌==◌, leb, is_some,
}
use softwarecontainer.Common.Bytes.{Bytes, bytes, is_empty}
use softwarecontainer.Common.Int.{ℤ, negsuc, eqb_ℤ}
use softwarecontainer.Common.OrdMap.{OrdMap}
use softwarecontainer.Common.Throwing.{
  M, Result, ok, throw, continue, and_then, pure, software_container_error, undefined,
}
use softwarecontainer.OperatingSystem.{Os}
use softwarecontainer.Lxc.{Lxc, LxcState, stopped, running}
use softwarecontainer.FileToolkit.{
  Toolkit, finish, leave, add_create_dir, create_shared_mount_point, overlay_mount, destroy_toolkit,
}
use softwarecontainer.FileToolkit.CreateDir.{create_directory, roll_back}

-- `Container::ContainerState`, and its values.
pub data ContainerState : Type 0 where
  default prepared destroyed created started frozen : ContainerState

abbrev pub rank : ContainerState → ℕ
rank default = 0
rank prepared = 1
rank destroyed = 2
rank created = 3
rank started = 4
rank frozen = 5

abbrev pub below : ContainerState → ContainerState → Bool
below a b = ltb (rank a) (rank b)

abbrev pub is : ContainerState → ContainerState → Bool
is a b = rank a == rank b

-- What the constructor stores and nothing changes.
pub record Settings : Type 0 where
  pub config_file : Bytes
  pub id : Bytes
  pub container_root : Bytes
  pub write_buffer_enabled : Bool
  pub shutdown_timeout : ℕ

pub record Container (H : Type 0) : Type 0 where
  pub toolkit : Toolkit
  pub state : ContainerState
  pub container : Option H
  pub root_fs_path : Bytes
  pub gateway_environment_variables : OrdMap Bytes Bytes

abbrev pub new_container : {H : Type 0} → Container H
new_container = record {
  toolkit = record { cleanup_handlers = []; create_dirs = [] };
  state = default;
  container = none;
  root_fs_path = [];
  gateway_environment_variables = [];
}

abbrev pub gateways_path : Bytes
gateways_path = bytes "/gateways"

-- `LXCTEMPLATE` is an argument of the call that the model leaves to `create`.
module _ {S H : Type 0} where
  abbrev pub set_state : ContainerState → Container H × S → Container H × S
  set_state state (c, s) = (record c { state = state }, s)

  -- A call through `m_container`: undefined if the pointer is null.
  unfoldable pub through :
      {A : Type 0} → (H → S → A × S) → (A → M (Container H × S) Bool) → M (Container H × S) Bool
  through call k (c, s) = elim c.container [
    | none ↦ (throw undefined, (c, s))
    | some h ↦ let (a, s') = call h s in k a (c, s')
  ]

  -- A call of the toolkit, which the container inherits.
  abbrev pub with_toolkit : M (Toolkit × S) Bool → M (Container H × S) Bool
  with_toolkit m (c, s) =
      let (r, (tk, s')) = m (c.toolkit, s) in (r, (record c { toolkit = tk }, s'))

  -- A result that is not used: only an exception goes on.
  abbrev pub regardless : Result Bool × (Container H × S) → Result Bool × (Container H × S)
  regardless (ok _, st) = (ok true, st)
  regardless (throw e, st) = (throw e, st)

module _ {S : Type 0} (os : Os S) (settings : Settings) where
  unfoldable pub gateways_dir : Bytes
  gateways_dir = os.build_path settings.container_root gateways_path
