-- ===== src/Proxy/Data.antt =====
-- netfilter/UdpProxy.h: the data of the UDP proxy.
use qv_plugin_netfilter.Base.{ℕ, Bool, false, List, [], replicate}

abbrev pub packet_size : ℕ
packet_size = 65536

-- NF_MAX_ADDRESS_LENGTH, which is also `sizeof(sockaddr_in6)`.
abbrev pub nf_max_address_length : ℕ
nf_max_address_length = 28

abbrev pub invalid_socket : ℕ
invalid_socket = 0xffff_ffff_ffff_ffff

pub data OvType : Type 0 where
  ovt_connect ovt_tcp_send ovt_tcp_receive ovt_udp_send ovt_udp_receive : OvType

-- OV_DATA; `ptr` is the address of the object. The OVERLAPPED itself is the system's.
pub record OvData : Type 0 where
  pub ptr : ℕ
  pub id : ℕ
  pub ov_type : OvType
  pub remote_address : List ℕ
  pub remote_address_len : ℕ
  pub buffer : List ℕ

pub data ProxyState : Type 0 where
  ps_none ps_auth ps_auth_negotiation ps_udp_assoc ps_connected ps_closed : ProxyState

pub record UdpPacket : Type 0 where
  pub remote_address : List ℕ
  pub remote_address_len : ℕ
  pub buffer : List ℕ

pub record ProxyData : Type 0 where
  pub tcp_socket : ℕ
  pub udp_socket : ℕ
  pub proxy_state : ProxyState
  pub remote_address : List ℕ
  pub remote_address_len : ℕ
  pub user_name : List ℕ
  pub user_password : List ℕ
  pub udp_send_packets : List UdpPacket
  pub udp_recv_started : Bool

-- The constructor PROXY_DATA().
unfoldable pub new_proxy_data : ProxyData
new_proxy_data = record {
  tcp_socket = invalid_socket;
  udp_socket = invalid_socket;
  proxy_state = ps_none;
  remote_address = replicate nf_max_address_length 0;
  remote_address_len = 0;
  user_name = [];
  user_password = [];
  udp_send_packets = [];
  udp_recv_started = false;
}
