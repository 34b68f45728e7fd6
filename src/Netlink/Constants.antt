-- ===== src/Netlink/Constants.antt =====
-- The numbers of linux/netlink.h, linux/rtnetlink.h, linux/if_addr.h and their like that the code
-- uses.
use softwarecontainer.Common.{ℕ}

abbrev pub nlmsg_error : ℕ
nlmsg_error = 2

abbrev pub nlmsg_done : ℕ
nlmsg_done = 3

abbrev pub nlm_f_request : ℕ
nlm_f_request = 1

abbrev pub nlm_f_ack : ℕ
nlm_f_ack = 4

abbrev pub nlm_f_replace : ℕ
nlm_f_replace = 256

abbrev pub nlm_f_create : ℕ
nlm_f_create = 1024

abbrev pub nlm_f_dump : ℕ
nlm_f_dump = 768

abbrev pub rtm_newlink : ℕ
rtm_newlink = 16

abbrev pub rtm_getlink : ℕ
rtm_getlink = 18

abbrev pub rtm_newaddr : ℕ
rtm_newaddr = 20

abbrev pub rtm_getaddr : ℕ
rtm_getaddr = 22

abbrev pub rtm_newroute : ℕ
rtm_newroute = 24

abbrev pub rtm_getroute : ℕ
rtm_getroute = 26

abbrev pub af_unspec : ℕ
af_unspec = 0

abbrev pub af_inet : ℕ
af_inet = 2

abbrev pub af_packet : ℕ
af_packet = 17

abbrev pub iff_up : ℕ
iff_up = 1

abbrev pub ifla_ifname : ℕ
ifla_ifname = 3

abbrev pub ifa_address : ℕ
ifa_address = 1

abbrev pub ifa_local : ℕ
ifa_local = 2

abbrev pub ifa_broadcast : ℕ
ifa_broadcast = 4

abbrev pub rta_gateway : ℕ
rta_gateway = 5

abbrev pub arphrd_loopback : ℕ
arphrd_loopback = 772

abbrev pub rt_table_main : ℕ
rt_table_main = 254

abbrev pub rtprot_static : ℕ
rtprot_static = 4

abbrev pub rt_scope_universe : ℕ
rt_scope_universe = 0

abbrev pub rtn_unicast : ℕ
rtn_unicast = 1
