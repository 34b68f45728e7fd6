-- ===== src/Netlink.antt =====
-- gateway/network/netlink.h and netlink.cpp: what a Netlink object holds, the messages that it
-- exchanges with the kernel, and the parts of the system that it uses, which are parameters.
pub mod Constants
pub mod Requests
pub mod Cache
pub mod Talking
pub mod Links
pub mod Lifetime
pub mod Bounds
pub mod Keeping
pub mod Broadcast
pub mod Waiting
pub mod Returning
pub mod Growth
pub mod Blocks
pub mod Destruction
use softwarecontainer.Common.{
  ℕ, ◌+◌, ◌≤◌, ◌<◌, ◌%◌, ◌≡◌, Bool, true, false, Option, List, [], length,
}
use softwarecontainer.Common.Bytes.{Bytes}
use softwarecontainer.Common.Int.{ℤ}

-- ifinfomsg, ifaddrmsg and rtmsg, with the fields that the code sets or reads.
pub record IfInfo : Type 0 where
  pub family : ℕ
  pub type : ℕ
  pub index : ℤ
  pub flags : ℕ
  pub change : ℕ

pub record IfAddr : Type 0 where
  pub family : ℕ
  pub prefix_length : ℕ
  pub scope : ℕ
  pub index : ℕ

pub record Route : Type 0 where
  pub family : ℕ
  pub table : ℕ
  pub protocol : ℕ
  pub scope : ℕ
  pub type : ℕ

-- The payload of a request, by the template's argument.
pub data Payload : Type 0 where
  general : ℕ → Payload
  link : IfInfo → Payload
  address : IfAddr → Payload
  route : Route → Payload

pub record Header : Type 0 where
  pub len : ℕ
  pub type : ℕ
  pub flags : ℕ
  pub seq : ℕ
  pub pid : ℕ

-- An attribute that was written into a request, at its distance from the request's first byte.
pub record Placed : Type 0 where
  pub offset : ℕ
  pub type : ℕ
  pub content : Bytes

pub record Request : Type 0 where
  pub header : Header
  pub payload : Payload
  pub attributes : List Placed

-- The macros and sizes of linux/netlink.h and linux/rtnetlink.h, what the casts of a message give,
-- and inet_aton and inet_ntop. A datagram and a message are bytes, and so is what is left of a
-- message when its attributes are walked through.
pub record Abi : Type 0 where
  pub nlmsg_align : ℕ → ℕ
  pub nlmsg_length : ℕ → ℕ
  pub rta_length : ℕ → ℕ
  pub sizeof_header : ℕ
  pub sizeof_payload : Payload → ℕ
  -- The messages that NLMSG_OK and NLMSG_NEXT walk through.
  pub messages : Bytes → List Bytes
  pub nlmsg_type : Bytes → ℕ
  -- `((struct nlmsgerr *) NLMSG_DATA(msg))->error`
  pub nlmsg_error : Bytes → ℤ
  pub as_link : Bytes → IfInfo
  pub as_address : Bytes → IfAddr
  pub as_route : Bytes → Route
  -- The attributes behind a payload of this kind; RTA_OK, the first attribute, and RTA_NEXT.
  pub link_attributes : Bytes → Bytes
  pub address_attributes : Bytes → Bytes
  pub route_attributes : Bytes → Bytes
  pub rta_ok : Bytes → Bool
  pub rta_type : Bytes → ℕ
  pub rta_data : Bytes → Bytes
  pub rta_next : Bytes → Bytes
  pub inet_aton : Bytes → Option ℕ
  pub inet_ntop : ℕ → Bytes → Option Bytes
  -- The bytes of an `in_addr` in memory.
  pub in_addr_bytes : ℕ → Bytes

-- What netlink(3) and rtnetlink(3) document of the macros: the lengths include the headers, the
-- alignment is to four bytes, and an attribute that is there has a header that is passed over.
pub record AbiLaws (abi : Abi) : Type 0 where
  pub align_up : (n : ℕ) → n ≤ abi.nlmsg_align n
  pub align_next : (n : ℕ) → abi.nlmsg_align n < n + 4
  pub align_aligned : (n : ℕ) → n % 4 ≡ 0 → abi.nlmsg_align n ≡ n
  pub length_header : (n : ℕ) → abi.nlmsg_length n ≡ abi.sizeof_header + n
  pub rta_header : (n : ℕ) → abi.rta_length n ≡ n + 4
  pub next_shorter : (b : Bytes) → abi.rta_ok b ≡ true → length (abi.rta_next b) < length b

-- The kernel and the heap. No value stands for -1 of `socket` and `recvmsg`, and for the null
-- pointer of `malloc`.
pub record Kernel (K : Type 0) : Type 0 where
  pub socket : K → Option ℕ × K
  pub bind : ℕ → K → Bool × K
  pub send : ℕ → Request → K → Bool × K
  pub receive : ℕ → K → Option Bytes × K
  pub close : ℕ → K → K
  pub malloc : ℕ → K → Option ℕ × K
  pub free : ℕ → K → K

-- A cached attribute: its type, the block that `malloc` gave, and what was copied there.
pub record AttributeInfo : Type 0 where
  pub type : ℕ
  pub block : ℕ
  pub content : Bytes

abbrev pub AttributeList : Type 0
AttributeList = List AttributeInfo

abbrev pub LinkInfo : Type 0
LinkInfo = IfInfo × AttributeList

abbrev pub AddressInfo : Type 0
AddressInfo = IfAddr × AttributeList

abbrev pub RouteInfo : Type 0
RouteInfo = Route × AttributeList

-- The fields of the class; `m_local` and `m_kernel` are constant.
pub record Netlink : Type 0 where
  pub fd : ℕ
  pub pid : ℕ
  pub sequence_number : ℕ
  pub links : List LinkInfo
  pub addresses : List AddressInfo
  pub routes : List RouteInfo
  pub has_kernel_dump : Bool
  pub netlink_initialized : Bool

-- Before the body of the constructor: `m_fd` and `m_pid` hold anything.
abbrev pub blank : ℕ → ℕ → Netlink
blank fd pid = record {
  fd = fd;
  pid = pid;
  sequence_number = 1;
  links = [];
  addresses = [];
  routes = [];
  has_kernel_dump = false;
  netlink_initialized = false;
}
