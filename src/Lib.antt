-- ===== src/Lib.antt =====
-- SoftwareContainer: the library that runs applications in containers, and its agent.
--
-- The parts and how they interact. The agent (agent/src/softwarecontaineragent.cpp) keeps a map
-- from ids to containers. A container (libsoftwarecontainer/src/softwarecontainer.cpp) keeps its
-- gateways and the LXC container below it. Capabilities, which service manifests define, are
-- gateway configurations: JSON arrays by gateway id (common/gatewayconfig.cpp). The agent hands
-- them to a container, which configures its gateways and activates them.
--
-- Which file models which part:
--   Common: Boolean tests, lists, integers, byte strings, std::map, computations that throw.
--   Json: common/jsonparser.cpp; the jansson library is the record `Jansson`.
--   GatewayConfig: common/gatewayconfig.cpp.
--   OperatingSystem: the system calls of the file toolkit, as a record.
--   FileStatus: common/softwarecontainer-common.cpp, the kinds of paths and parseInt.
--   FileToolkit: common/filetoolkitwithundo.cpp, common/createdir.cpp and the cleanup handlers.
--     FileToolkit/Watching is a system that notes what the toolkit asks it for.
--   ContainerInterface: libsoftwarecontainer/src/containerabstractinterface.h, as a record.
--   Lxc: the functions of liblxc and of processes, as a record.
--   Netlink: libsoftwarecontainer/src/gateway/network/netlink.cpp; the kernel, the heap and the
--     macros of the netlink headers are the records `Kernel` and `Abi`.
--   Container: libsoftwarecontainer/src/container.cpp, which inherits the file toolkit and fills
--     ContainerInterface (Container/Interface).
--   ContainerUtility: agent/src/containerutilityinterface.cpp, the removal of old containers.
--   Jobs: libsoftwarecontainer/src/jobs, over `Executable`, which Jobs/Streams fills with the
--     container of LXC.
--   Gateway: libsoftwarecontainer/src/gateway/gateway.cpp; what a subclass overrides is the record
--     `GatewayMethods`.
--   Gateways: the subclasses in libsoftwarecontainer/src/gateway: environment, files, devicenode,
--     cgroups, pulse and wayland (Sockets), network and dbus.
--   SoftwareContainer: libsoftwarecontainer/src/softwarecontainer.cpp; its gateways are values of
--     the interface `GatewayInterface`, which SoftwareContainer/Restart fills with the base class.
--     SoftwareContainer/OverLxc puts it over the container of LXC; SoftwareContainer/Preparation
--     is the part of the constructor before the container.
--   ContainerOptions: agent/src/containeroptions.
--   Capabilities: agent/src/capability, with the loader of service manifests (Loading).
--   Config: agent/src/config, with the sources (Definition, MainSource), and what
--     agent/src/main.cpp makes of the command line (StartUp).
--   Agent: agent/src/softwarecontaineragent.cpp, with its constructor (Construction).
--   Tests: runs of the theorems on concrete inputs.
-- A method is named as in the source, in snake case. A method that changes an object is a
-- computation `M S A = S → Result A × S` on the object's state S: it ends by a value or an
-- exception, and what was written before the exception stays. The exception `undefined` stands
-- for what C++ leaves undefined.
--
-- A vector that grows and shrinks at its back is a list, its back first.
--
-- Bounds. Nearly all loops are structural over lists. The recursion of createDirectory over parent
-- directories has fuel, two calls more than the path has bytes: enough as long as each parent is
-- shorter or is a directory; beyond it the result is `undefined`. The wait for the socket of a
-- D-Bus proxy has the 1000 turns of the source. The wait for the answers of the kernel has as many
-- turns as a run is given, and is `undefined` beyond; Netlink/Returning says when they are enough.
-- The loop over the attributes of a message has one turn more than the message has bytes. `int` and
-- `uint32_t` keep their ranges where the code converts or overflows: the conversion of JSON integers
-- and ports, the size of the temporary file system, the limits of cgroups, the addresses of
-- containers, and the counter of ids. The overflow of the counter and of the id in an address is
-- `undefined`. Container ids are natural numbers in the map and integers in requests.
--
-- Not modelled: liblxc and the system calls, which are parameters; how a job runs its function
-- inside the container, the D-Bus adaptor, logging and profiling. JSON values are modelled without
-- reference counts. A container is held by the agent alone. Uninitialised fields are parameters.
pub mod Common
pub mod Json
pub mod GatewayConfig
pub mod ContainerInterface
pub mod OperatingSystem
pub mod FileStatus
pub mod FileToolkit
pub mod Lxc
pub mod Netlink
pub mod Container
pub mod ContainerUtility
pub mod Jobs
pub mod Gateway
pub mod Gateways
pub mod SoftwareContainer
pub mod ContainerOptions
pub mod Capabilities
pub mod Config
pub mod Agent
pub mod Tests
