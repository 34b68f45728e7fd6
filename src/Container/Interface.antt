-- ===== src/Container/Interface.antt =====
-- libsoftwarecontainer/src/container.cpp as what containerabstractinterface.h asks for.
use softwarecontainer.OperatingSystem.{Os}
use softwarecontainer.Lxc.{Lxc}
use softwarecontainer.ContainerInterface.{ContainerInterface}
use softwarecontainer.Container.{Settings, Container}
use softwarecontainer.Container.Creation.{initialize, create}
use softwarecontainer.Container.Running.{start, suspend, resume, destroy, set_cgroup_item}
use softwarecontainer.Container.Execution.{run_job, mount_device, set_environment_variable}
use softwarecontainer.Container.BindMount.{bind_mount_in_container}

abbrev pub lxc_container :
    {S H : Type 0} → Os S → Lxc S H → Settings → ContainerInterface (Container H × S)
lxc_container os lxc settings = record {
  initialize = initialize os lxc settings;
  create = create os lxc settings;
  start = start lxc;
  suspend = suspend lxc;
  resume = resume lxc;
  destroy = destroy lxc settings;
  mount_device = mount_device lxc;
  bind_mount_in_container = bind_mount_in_container os lxc settings;
  set_environment_variable = set_environment_variable os settings;
  set_cgroup_item = set_cgroup_item lxc;
  run_job = run_job lxc;
}
