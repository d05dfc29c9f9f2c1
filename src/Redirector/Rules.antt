-- ===== src/Redirector/Rules.antt =====
-- The rules of the filter's driver, of netfilter/include/nfdriver.h, and the rules of the user, of
-- core/Settings.hpp, as netfilter/SocksRedirector.cpp turns the second into the first.
use Prim.Native.String.{String}
use qv_plugin_netfilter.Base.{
  ℕ, zero, suc, ◌-◌, ◌%◌, Bool, false, Option, none, some, List, [], ◌∷◌, ◌==◌, if◌then◌else◌,
  replicate,
}
use qv_plugin_netfilter.Base.Bytes.{overwrite}
use qv_plugin_netfilter.Base.Int.{ℤ, pos, negsuc}
use qv_plugin_netfilter.Sockaddr.{af_inet, af_inet6}

abbrev pub nf_max_ip_address_length : ℕ
nf_max_ip_address_length = 16

abbrev pub max_path : ℕ
max_path = 260

-- NF_ALLOW, NF_FILTER, NF_INDICATE_CONNECT_REQUESTS
abbrev pub nf_allow : ℕ
nf_allow = 0

abbrev pub nf_filter : ℕ
nf_filter = 2

abbrev pub nf_indicate_connect_requests : ℕ
nf_indicate_connect_requests = 16

abbrev pub ipproto_tcp : ℕ
ipproto_tcp = 6

abbrev pub ipproto_udp : ℕ
ipproto_udp = 17

pub record NfRule : Type 0 where
  pub protocol : ℕ
  pub process_id : ℕ
  pub direction : ℕ
  pub local_port : ℕ
  pub remote_port : ℕ
  pub ip_family : ℕ
  pub local_ip_address : List ℕ
  pub local_ip_address_mask : List ℕ
  pub remote_ip_address : List ℕ
  pub remote_ip_address_mask : List ℕ
  pub filtering_flag : ℕ

pub record NfPortRange : Type 0 where
  pub value_low : ℕ
  pub value_high : ℕ

pub record NfRuleEx : Type 0 where
  pub base : NfRule
  pub process_name : List ℕ
  pub local_port_range : NfPortRange
  pub remote_port_range : NfPortRange
  pub redirect_to : List ℕ
  pub local_proxy_process_id : ℕ

-- memset(&rule, 0, sizeof(rule))
abbrev pub zero_ip : List ℕ
zero_ip = replicate nf_max_ip_address_length 0

unfoldable pub zero_rule : NfRule
zero_rule = record {
  protocol = 0;
  process_id = 0;
  direction = 0;
  local_port = 0;
  remote_port = 0;
  ip_family = 0;
  local_ip_address = zero_ip;
  local_ip_address_mask = zero_ip;
  remote_ip_address = zero_ip;
  remote_ip_address_mask = zero_ip;
  filtering_flag = 0;
}

unfoldable pub zero_rule_ex : NfRuleEx
zero_rule_ex = record {
  base = zero_rule;
  process_name = replicate max_path 0;
  local_port_range = record { value_low = 0; value_high = 0 };
  remote_port_range = record { value_low = 0; value_high = 0 };
  redirect_to = replicate 28 0;
  local_proxy_process_id = 0;
}

-- NetworkType, by its value; the `int` fields are signed.
pub data NetworkType : Type 0 where
  network_unspecified network_tcp network_udp : NetworkType

unfoldable pub network_value : NetworkType → ℕ
network_value network_unspecified = 0
network_value network_tcp = 6
network_value network_udp = 17

pub record FilterRule : Type 0 where
  pub port_from : ℤ
  pub port_to : ℤ
  pub network_type : NetworkType
  pub process_name : List ℕ

-- The conversion of an `int` to `unsigned short`.
unfoldable pub to_ushort : ℤ → ℕ
to_ushort (pos n) = n % 65536
to_ushort (negsuc n) = 65535 - n % 65536

abbrev pub is_zero : ℤ → Bool
is_zero (pos n) = n == 0
is_zero (negsuc n) = false

-- wcsncpy(dst, src, count): stops at a zero, and fills with zeros.
unfoldable pub wcsncpy : ℕ → List ℕ → List ℕ
wcsncpy zero src = []
wcsncpy (suc count) [] = 0 ∷ wcsncpy count []
wcsncpy (suc count) (c ∷ cs) = c ∷ wcsncpy count (if c == 0 then [] else cs)

abbrev set_ports : FilterRule → NfRuleEx → NfRuleEx
set_ports rule r =
    if is_zero rule.port_to
    then (if is_zero rule.port_from
        then r
        else record r { base = record (r.base) { remote_port = to_ushort rule.port_from } })
    else record r {
      remote_port_range = record {
        value_low = to_ushort rule.port_from;
        value_high = to_ushort rule.port_to;
      };
    }

abbrev set_protocol : NetworkType → NfRuleEx → NfRuleEx
set_protocol network_unspecified r = r
set_protocol t r = record r { base = record (r.base) { protocol = network_value t } }

abbrev set_process : List ℕ → NfRuleEx → NfRuleEx
set_process [] r = r
set_process (c ∷ cs) r = record r { process_name = wcsncpy max_path (c ∷ cs) }

-- The body of the loop over the user's rules.
unfoldable pub user_rule : FilterRule → NfRuleEx
unfolding zero_rule_ex zero_rule network_value
user_rule rule = set_process rule.process_name (
    set_protocol rule.network_type (
      set_ports rule
        (record zero_rule_ex { base = record (zero_rule_ex.base) { filtering_flag = nf_allow } })))

-- The two rules behind `Proxy All`.
unfoldable pub proxy_all : List NfRuleEx
proxy_all =
    record zero_rule_ex {
      base = record (zero_rule_ex.base) {
        protocol = ipproto_tcp;
        filtering_flag = nf_indicate_connect_requests;
      };
    }
    ∷ record zero_rule_ex {
      base = record (zero_rule_ex.base) { protocol = ipproto_udp; filtering_flag = nf_filter };
    }
    ∷ []

-- inet_pton of Winsock, by family and text: the bytes that it writes, or `none` where the text is
-- no address of that family, and nothing is written.
pub record Inet : Type 0 where
  pub inet_pton : ℕ → String → Option (List ℕ)

-- The address field of a zeroed rule, after inet_pton.
unfoldable pub written : Option (List ℕ) → List ℕ
written none = zero_ip
written (some a) = overwrite zero_ip a

module _ ⦃inet : Inet⦄ where
  -- ADD_PRIVATE_IPV4_ADDRESS(addr, mask)
  unfoldable pub private_ipv4 : String → String → NfRule
  private_ipv4 addr mask = record zero_rule {
    filtering_flag = nf_allow;
    ip_family = af_inet;
    remote_ip_address = written (inet.inet_pton af_inet addr);
    remote_ip_address_mask = written (inet.inet_pton af_inet mask);
  }

  -- ::1
  unfoldable pub loopback_ipv6 : NfRule
  loopback_ipv6 = record zero_rule {
    filtering_flag = nf_allow;
    ip_family = af_inet6;
    remote_ip_address = 0 ∷ 0 ∷ 0 ∷ 0 ∷ 0 ∷ 0 ∷ 0 ∷ 0 ∷ 0 ∷ 0 ∷ 0 ∷ 0 ∷ 0 ∷ 0 ∷ 0 ∷ 1 ∷ [];
  }

  -- ::ffff:127.0.0.1, which the code gives to inet_pton as AF_INET
  unfoldable pub mapped_loopback_ipv6 : NfRule
  mapped_loopback_ipv6 = record zero_rule {
    filtering_flag = nf_allow;
    ip_family = af_inet6;
    remote_ip_address = written (inet.inet_pton af_inet "::ffff:127.0.0.1");
  }

  -- The private rules, in the order in which they are added.
  unfoldable pub private_rules : List NfRule
  private_rules =
      private_ipv4 "10.0.0.1" "255.0.0.0"
      ∷ private_ipv4 "127.0.0.1" "255.0.0.0"
      ∷ private_ipv4 "172.16.0.1" "255.240.0.0"
      ∷ private_ipv4 "192.168.0.1" "255.255.0.0"
      ∷ private_ipv4 "224.0.0.1" "240.0.0.0"
      ∷ loopback_ipv6
      ∷ mapped_loopback_ipv6
      ∷ []
