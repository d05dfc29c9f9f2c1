-- ===== src/Events/Routes.antt =====
-- udpSend of netfilter/NFEventHandler.cpp: which way a datagram of the application goes, through
-- the proxy or past it.
use qv_plugin_netfilter.Base.{
  ℕ, ◌≡◌, refl, true, false, not, Bool, Bool-cases, inl, inr, if◌then◌else◌, Option, none, some,
  List,
}
use qv_plugin_netfilter.Base.Map.{find, put}
use qv_plugin_netfilter.Base.State.{pure, gets, modify, ◌>>=◌}
use qv_plugin_netfilter.System.{Os, perform, failed, wsa_send_to, nf_udp_post_send}
use qv_plugin_netfilter.Proxy.Data.{ovt_udp_send, OvData, ProxyData}
use qv_plugin_netfilter.Proxy.Overlapped.{UdpProxy, outside, new_ov_data}
use qv_plugin_netfilter.Proxy.Send
use qv_plugin_netfilter.Proxy.Send.{
  is_connected, relay_datagram, enqueue, finish_send, transmit, udp_send_by,
}
use qv_plugin_netfilter.Proxy.Isolation.{slot}
use qv_plugin_netfilter.Sockaddr.{address_length}
use qv_plugin_netfilter.Events.Data.{UdpContext}
use qv_plugin_netfilter.Events.Handler.{EventHandler, on_proxy, on_system}
use qv_plugin_netfilter.Events.Udp.{ensure_context, send_or_bypass, udp_send}

module _ ⦃os : Os⦄ (id : ℕ) (addr buf : List ℕ) (options : Option (List ℕ)) where
  -- An endpoint that has a context, and whose connection the proxy has deleted: its datagrams go to
  -- their destination directly, once and unchanged, and nothing else happens.
  pub udp_send-direct :
      (ctx : UdpContext) (s : EventHandler)
      → find id s.udp_ctx_map ≡ some ctx
      → slot id s.udp_proxy ≡ none
      → (udp_send id addr buf options s).1
        ≡ (on_system (perform (nf_udp_post_send id addr buf options)) s).1
  unfolding udp_send ensure_context send_or_bypass on_proxy Send.udp_send udp_send_by ◌>>=◌ gets
      pure
  udp_send-direct ctx s e a = rw (e, ensure_context) (rw (a, udp_send_by) refl)

  -- An endpoint that has a context and a connection that is not yet open: its datagram waits in the
  -- queue of the connection, and neither the system nor the filter is called.
  pub udp_send-waits :
      (ctx : UdpContext) (pd : ProxyData) (s : EventHandler)
      → find id s.udp_ctx_map ≡ some ctx
      → slot id s.udp_proxy ≡ some pd
      → is_connected pd.proxy_state ≡ false
      → (udp_send id addr buf options s).1 ≡ record s {
        udp_proxy = record (s.udp_proxy) {
          socket_map =
              put id
                (record pd {
                  udp_send_packets = enqueue buf addr (address_length addr) pd.udp_send_packets;
                })
                s.udp_proxy.socket_map;
        };
      }
  unfolding udp_send ensure_context send_or_bypass on_proxy Send.udp_send udp_send_by ◌>>=◌ gets
      pure modify
  udp_send-waits ctx pd s e a c = rw (e, ensure_context) (rw (a, udp_send_by) (rw c refl))

-- The object with which udpSend of the proxy hands a datagram to the system.
abbrev pub handed_object : ℕ → List ℕ → List ℕ → UdpProxy → OvData
handed_object id addr buf p = record ((new_ov_data p).0) {
  ov_type = ovt_udp_send;
  id = id;
  buffer = relay_datagram addr buf;
}

module _ ⦃os : Os⦄ (id : ℕ) (addr buf : List ℕ) where
  -- What the system answers to the WSASendTo of that object.
  abbrev pub send_answer : ProxyData → UdpProxy → ℕ
  send_answer pd p = os.answer p.world.trace (
      wsa_send_to pd.udp_socket (handed_object id addr buf p) pd.remote_address
        pd.remote_address_len)

  -- What the proxy does with the datagram.
  abbrev pub proxied : UdpProxy → Bool × UdpProxy
  proxied p = Send.udp_send id buf addr (address_length addr) p

  finish_send-answer :
      (pd : ProxyData) (pov : OvData) (r : ℕ) (p : UdpProxy)
      → (finish_send id pd pov r p).0 ≡ not (failed r)
  unfolding finish_send ◌>>=◌ pure
  finish_send-answer pd pov r p = elim (Bool-cases (failed r)) [
    | inl bad ↦ rw bad refl
    | inr good ↦ rw good refl
  ]

  proxied-answer :
      (pd : ProxyData) (p : UdpProxy)
      → slot id p ≡ some pd
      → is_connected pd.proxy_state ≡ true
      → (proxied p).0 ≡ not (failed (send_answer pd p))
  unfolding Send.udp_send udp_send_by transmit outside perform new_ov_data ◌>>=◌ gets
  proxied-answer pd p e c = rw (e, udp_send_by) (rw c (finish_send-answer pd _ _ _))

module _ ⦃os : Os⦄ (id : ℕ) (addr buf : List ℕ) (options : Option (List ℕ)) where
  -- An endpoint that has a context and an open connection: when the system refuses the WSASendTo, the
  -- datagram goes to its destination past the proxy; when it does not, nothing more happens than the
  -- proxy's udpSend.
  pub udp_send-open :
      (ctx : UdpContext) (pd : ProxyData) (s : EventHandler)
      → find id s.udp_ctx_map ≡ some ctx
      → slot id s.udp_proxy ≡ some pd
      → is_connected pd.proxy_state ≡ true
      → (udp_send id addr buf options s).1 ≡ (
          if failed (send_answer id addr buf pd s.udp_proxy)
          then (on_system
              (perform (nf_udp_post_send id addr buf options))
              (record s { udp_proxy = (proxied id addr buf s.udp_proxy).1 })).1
          else record s { udp_proxy = (proxied id addr buf s.udp_proxy).1 })
  unfolding udp_send ensure_context send_or_bypass on_proxy ◌>>=◌ gets pure
  udp_send-open ctx pd s e a c =
      rw (e, ensure_context, proxied-answer id addr buf pd s.udp_proxy a c)
        (elim (Bool-cases (failed (send_answer id addr buf pd s.udp_proxy))) [
          | inl refused ↦ rw refused refl
          | inr taken ↦ rw taken refl
        ])
