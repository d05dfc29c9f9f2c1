-- ===== src/Proxy/Isolation.antt =====
-- netfilter/UDPProxy.cpp: the connections of m_socketMap do not disturb each other. A method that
-- works for an endpoint leaves the connections of all others as they are.
pub mod History
pub mod Absent
use qv_plugin_netfilter.Base.{
  ℕ, zero, suc, ◌≡◌, ◌≢◌, refl, ap, ◌∙◌, Option, none, some, List, [], ◌∷◌, true, false, arith,
  ◌==◌, if◌then◌else◌,
}
use qv_plugin_netfilter.Base.Map.{find, put, erase, find-put, find-erase}
use qv_plugin_netfilter.Base.State.{
  M, pure, gets, modify, ◌>>=◌, Keeps, Keeps-pure, Keeps-gets, Keeps-if, Keeps-bind,
}
use qv_plugin_netfilter.System.{World, Os, perform, failed}
use qv_plugin_netfilter.Proxy.Data.{
  OvType, ovt_connect, ovt_tcp_send, ovt_tcp_receive, ovt_udp_send, ovt_udp_receive, OvData,
  ProxyState, ps_auth, ps_auth_negotiation, ps_udp_assoc, UdpPacket, ProxyData,
}
use qv_plugin_netfilter.Proxy.Overlapped.{
  UdpProxy, outside, new_ov_data, delete_ov_data, start_connect,
}
use qv_plugin_netfilter.Proxy.Send.{
  is_connected, start_receiving, finish_send, transmit, udp_send_by, udp_send,
}
use qv_plugin_netfilter.Proxy.Handshake.{
  write, send_and_advance, pop_packet, drain_step, drain, connect_relay, negotiate, negotiate_found,
  on_tcp_receive_complete,
}
use qv_plugin_netfilter.Proxy.Receive.{
  UdpProxyHandler, on_udp_receive_complete, delete_found, delete_proxy_connection, greet,
  on_connect_complete,
}
use qv_plugin_netfilter.Proxy.Connections.{
  dispatch, on_complete, open_connection, create_proxy_connection,
}
use qv_plugin_netfilter.Proxy.Worker.{complete}
use qv_plugin_netfilter.Proxy.Queue.{
  view, repost-Keeps, start_udp_receive-Keeps, start_tcp_receive-Keeps, start_tcp_send-Keeps,
}

-- The connection of an endpoint.
abbrev pub slot : ℕ → UdpProxy → Option ProxyData
slot j s = find j s.socket_map

module _ (j : ℕ) where
  pub slot-view : {A : Type 0} {m : M UdpProxy A} → Keeps view m → Keeps (slot j) m
  slot-view k = record { same = λ s. ap (λ v. find j v.0) (k.same s) }

  pub outside-slot : {A : Type 0} (m : M World A) → Keeps (slot j) (outside m)
  unfolding outside
  outside-slot m = record { same = λ s. refl }

  pub delete_ov_data-slot : (pov : OvData) → Keeps (slot j) (delete_ov_data pov)
  unfolding delete_ov_data modify
  delete_ov_data-slot pov = record { same = λ s. refl }

  pub new_ov_data-slot : Keeps (slot j) new_ov_data
  unfolding new_ov_data
  new_ov_data-slot = record { same = λ s. refl }

module _ ⦃os : Os⦄ (id j : ℕ) (n : j ≢ id) where
  pub put-slot :
      (pd : ProxyData)
      → Keeps (slot j) (modify (λ s. record s { socket_map = put id pd s.socket_map }))
  unfolding modify
  put-slot pd = record { same = λ s. ground (arith, find-put id j pd s.socket_map) }

  write-slot : (pd : ProxyData) → Keeps (slot j) (write id pd)
  unfolding write
  write-slot pd = put-slot pd

  start_receiving-slot : (pd : ProxyData) → Keeps (slot j) (start_receiving id pd)
  unfolding start_receiving
  start_receiving-slot pd = Keeps-if _ (Keeps-pure tt) (
      Keeps-bind (put-slot _) λ _.
        Keeps-bind (slot-view j (start_udp_receive-Keeps pd.udp_socket id none)) λ _. Keeps-pure tt)

  transmit-slot : (pd : ProxyData) (buf addr : List ℕ) → Keeps (slot j) (transmit id pd buf addr)
  unfolding transmit finish_send
  transmit-slot pd buf addr = Keeps-bind (new_ov_data-slot j) λ fresh.
      Keeps-bind (outside-slot j _) λ r.
        Keeps-if (failed r)
          (Keeps-bind (slot-view j (repost-Keeps pd.udp_socket _)) λ _. Keeps-pure false)
          (Keeps-bind (start_receiving-slot pd) λ _. Keeps-pure true)

  udp_send_by-slot :
      (buf addr : List ℕ) (addr_len : ℕ) (found : Option ProxyData)
      → Keeps (slot j) (udp_send_by id buf addr addr_len found)
  unfolding udp_send_by
  udp_send_by-slot buf addr addr_len none = Keeps-pure false
  udp_send_by-slot buf addr addr_len (some pd) =
      Keeps-if (is_connected pd.proxy_state) (transmit-slot pd buf addr)
        (Keeps-bind (put-slot _) λ _. Keeps-pure true)

  pub udp_send-slot :
      (buf addr : List ℕ) (addr_len : ℕ) → Keeps (slot j) (udp_send id buf addr addr_len)
  unfolding udp_send
  udp_send-slot buf addr addr_len = Keeps-bind (Keeps-gets _) (udp_send_by-slot buf addr addr_len)

  pub send_and_advance-slot :
      (pd : ProxyData) (message : List ℕ) (state : ProxyState)
      → Keeps (slot j) (send_and_advance id pd message state)
  unfolding send_and_advance
  send_and_advance-slot pd message next =
      Keeps-bind (slot-view j (start_tcp_send-Keeps pd.tcp_socket message id))
        λ sent. Keeps-if sent (write-slot _) (Keeps-pure tt)

  pop_packet-slot : (found : Option ProxyData) → Keeps (slot j) (pop_packet id found)
  unfolding pop_packet
  pop_packet-slot none = Keeps-pure tt
  pop_packet-slot (some pd) = write-slot _

  drain_step-slot :
      {rest : M UdpProxy (Unit {0})} (queue : List UdpPacket)
      → Keeps (slot j) rest
      → Keeps (slot j) (drain_step rest id queue)
  unfolding drain_step
  drain_step-slot [] t = Keeps-pure tt
  drain_step-slot (p ∷ ps) t =
      Keeps-bind (udp_send-slot p.buffer p.remote_address p.remote_address_len)
        λ _. Keeps-bind (Keeps-gets _) λ now. Keeps-bind (pop_packet-slot now) λ _. t

  drain-slot : (fuel : ℕ) → Keeps (slot j) (drain fuel id)
  unfolding drain
  drain-slot zero = Keeps-pure tt
  drain-slot (suc fuel) = Keeps-bind (Keeps-gets _) λ queue. drain_step-slot queue (drain-slot fuel)

  pub connect_relay-slot :
      (pd : ProxyData) (relay : Option (List ℕ × ℕ)) → Keeps (slot j) (connect_relay id pd relay)
  unfolding connect_relay
  connect_relay-slot pd none = Keeps-pure tt
  connect_relay-slot pd (some (addr, len)) = Keeps-bind (write-slot _) λ _. drain-slot _

  pub greet-slot : (socket : ℕ) (found : Option ProxyData) → Keeps (slot j) (greet socket id found)
  unfolding greet
  greet-slot socket none = Keeps-pure tt
  greet-slot socket (some pd) = Keeps-bind (outside-slot j _) λ _.
      Keeps-bind (outside-slot j _) λ _. Keeps-bind (send_and_advance-slot pd _ _) λ _.
        Keeps-bind (slot-view j (start_tcp_receive-Keeps pd.tcp_socket id none)) λ _. Keeps-pure tt

  delete_found-slot : (found : Option ProxyData) → Keeps (slot j) (delete_found id found)
  unfolding delete_found modify
  delete_found-slot none = Keeps-pure tt
  delete_found-slot (some pd) =
      Keeps-bind (outside-slot j _)
        λ _. record { same = λ s. ground (arith, find-erase id j s.socket_map) }

  pub delete_proxy_connection-slot : Keeps (slot j) (delete_proxy_connection id)
  unfolding delete_proxy_connection
  delete_proxy_connection-slot = Keeps-bind (Keeps-gets _) delete_found-slot
