-- ===== src/Events/Data.antt =====
-- The data of netfilter/NFEventHandler.hpp, and of netfilter/UDPContext.hpp.
use qv_plugin_netfilter.Base.{ℕ, ◌+◌, ◌-◌, Bool, Option, none, some, List, take}
use qv_plugin_netfilter.Base.Bytes.{get32}

pub data Protocol : Type 0 where
  tcp udp : Protocol

-- The arguments of doLog.
pub record LogEntry : Type 0 where
  pub id : ℕ
  pub protocol : Protocol
  pub is_opening : Bool
  pub local_addr : List ℕ
  pub remote_addr : List ℕ
  pub process_id : ℕ
  pub process_name : List ℕ

-- NF_TCP_CONN_INFO; the event handler reads the last two fields of NF_UDP_CONN_INFO too.
pub record TcpConnInfo : Type 0 where
  pub filtering_flag : ℕ
  pub process_id : ℕ
  pub local_address : List ℕ
  pub remote_address : List ℕ

pub record UdpConnInfo : Type 0 where
  pub process_id : ℕ
  pub local_address : List ℕ

pub record OriginalConnInfo : Type 0 where
  pub remote_address : List ℕ
  pub pended_sends : List ℕ

-- sizeof(NF_UDP_OPTIONS): two packed 32-bit fields and one byte.
abbrev pub sizeof_nf_udp_options : ℕ
sizeof_nf_udp_options = 9

-- options->optionsLength
abbrev pub options_length : List ℕ → ℕ
options_length m = get32 4 m

-- The structure behind `m_options`, as the bytes that were copied; `none` is NULL.
pub record UdpContext : Type 0 where
  pub m_options : Option (List ℕ)

-- UDPContext(options), from the memory at `options`. The new array has one byte more, which the
-- copy does not fill.
unfoldable pub new_udp_context : Option (List ℕ) → UdpContext
new_udp_context none = record { m_options = none }
new_udp_context (some m) = record {
  m_options = some (take (sizeof_nf_udp_options + options_length m - 1) m);
}
