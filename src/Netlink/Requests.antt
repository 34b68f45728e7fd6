-- ===== src/Netlink/Requests.antt =====
-- gateway/network/netlink.cpp: making a request and writing attributes into it.
use Prim.Native.Nat.{bit_or}
use softwarecontainer.Common.{
  ℕ, ◌+◌, ◌-◌, ◌^◌, ◌%◌, Bool, true, false, [], ◌∷◌, ◌++◌, length, ltb, if◌then◌else◌,
}
use softwarecontainer.Common.Bytes.{Bytes}
use softwarecontainer.Netlink.{Abi, Payload, Request, Netlink}
use softwarecontainer.Netlink.Constants.{nlm_f_ack, nlm_f_request}

-- The payload is the one of all zeros.
unfoldable pub create_message : Abi → Payload → ℕ → ℕ → Netlink → Request × Netlink
create_message abi payload type flags n = (
  record {
    header = record {
      len = abi.nlmsg_length (abi.sizeof_payload payload);
      type = type;
      flags = bit_or (bit_or flags nlm_f_ack) nlm_f_request;
      seq = n.sequence_number;
      pid = n.pid;
    };
    payload = payload;
    attributes = [];
  },
  record n { sequence_number = (n.sequence_number + 1) % 2 ^ 32 },
)

-- `sizeof(request.attr)`
abbrev pub max_size : ℕ
max_size = 2048

unfoldable pub add_attribute : Abi → ℕ → Bytes → Request → Bool × Request
add_attribute abi type content request =
    let len = request.header.len in
    let used = len - abi.sizeof_header - abi.sizeof_payload request.payload in
    if ltb max_size (used + abi.rta_length (length content)) then (false, request) else (
      true,
      record request {
        header = record request.header {
          len = abi.nlmsg_align len + abi.rta_length (length content);
        };
        attributes =
            request.attributes
            ++ (record { offset = abi.nlmsg_align len; type = type; content = content } ∷ []);
      },
    )
