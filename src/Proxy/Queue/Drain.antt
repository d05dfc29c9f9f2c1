-- ===== src/Proxy/Queue/Drain.antt =====
-- The queue of the datagrams that wait for the relay, in netfilter/UDPProxy.cpp: udpSend before the
-- connection is open, and the loop of onTcpReceiveComplete that empties the queue.
use mathlib.Core.List.{append-nil}
use native.Mathlib.Nat.{le_refl}
use qv_plugin_netfilter.Base.{
  ℕ, zero, suc, ◌≤◌, ◌≡◌, refl, sym, ap, ◌∙◌, Bool, true, some, List, [], ◌∷◌, map, arith, length,
  ==_ne,
}
use qv_plugin_netfilter.Base.Map.{find, find-put, find-put_self}
use qv_plugin_netfilter.Base.State.{M, pure, gets, modify, ◌>>=◌}
use qv_plugin_netfilter.Base.Bytes.{overwrite}
use qv_plugin_netfilter.Socks.{response_at}
use qv_plugin_netfilter.System.{Os}
use qv_plugin_netfilter.System.Sent.{sent}
use qv_plugin_netfilter.Proxy.Data.{OvData, ProxyData, UdpPacket, ps_udp_assoc, ps_connected}
use qv_plugin_netfilter.Proxy.Overlapped.{UdpProxy}
use qv_plugin_netfilter.Proxy.Send.{is_connected, relay_datagram}
use qv_plugin_netfilter.Proxy.Handshake.{
  front, tail, write, pop_packet, drain_step, drain, connect_relay, relay_address, negotiate,
  negotiate_found, on_tcp_receive_complete,
}
use qv_plugin_netfilter.Proxy.Queue.{start_tcp_receive-Keeps}
use qv_plugin_netfilter.Proxy.Queue.Transmit.{
  Sends, Sends-view, Sends-trans, Sends-here, udp_send-Sends,
}

-- The datagram that a queued packet becomes.
abbrev pub encode : ℕ → UdpPacket → ℕ × List ℕ
encode id p = (id, relay_datagram p.remote_address p.buffer)

module _ ⦃os : Os⦄ (id : ℕ) where
  write-Sends : (pd : ProxyData) (s : UdpProxy) → Sends id pd [] s (write id pd s).1
  unfolding write modify
  write-Sends pd s = record {
    hit = find-put_self id pd s.socket_map;
    others = λ j n. ground (arith, find-put id j pd s.socket_map);
    out = sym (append-nil (sent s.world.trace));
  }

  pop_packet-Sends :
      (pd : ProxyData) (s : UdpProxy)
      → find id s.socket_map ≡ some pd
      → Sends id
          (record pd { udp_send_packets = tail pd.udp_send_packets })
          []
          s
          (pop_packet id (find id s.socket_map) s).1
  unfolding pop_packet
  pop_packet-Sends pd s e = rw (e, pop_packet) (write-Sends _ s)

  -- One round sends the first packet and takes it off.
  round-Sends :
      (pd : ProxyData) (p : UdpPacket) (ps : List UdpPacket) (rest : M UdpProxy (Unit {0}))
      (s : UdpProxy)
      → find id s.socket_map ≡ some pd
      → is_connected pd.proxy_state ≡ true
      → (b : Bool) × (t : UdpProxy) × Sends id
          (record pd { udp_recv_started = b; udp_send_packets = tail pd.udp_send_packets })
          (encode id p ∷ [])
          s
          t
        × ((drain_step rest id (p ∷ ps) s).1 ≡ (rest t).1)
  unfolding drain_step ◌>>=◌ gets
  round-Sends pd p ps rest s e c =
      let (b, sends) = udp_send-Sends id pd p.buffer p.remote_address p.remote_address_len s e c in
      (b, _, Sends-trans _ _ _ sends (pop_packet-Sends _ _ sends.hit), refl)

  nothing_left :
      (pd : ProxyData) (s : UdpProxy)
      → find id s.socket_map ≡ some pd
      → pd.udp_send_packets ≡ []
      → Sends id (record pd { udp_send_packets = [] }) [] s s
  nothing_left pd s e q = Sends-here s (ground (arith, e, q))

  -- With a round for each packet the loop sends all of them, in order, and leaves none.
  pub drain-Sends :
      (fuel : ℕ) (ps : List UdpPacket) (pd : ProxyData) (s : UdpProxy)
      → length ps ≤ fuel
      → find id s.socket_map ≡ some pd
      → pd.udp_send_packets ≡ ps
      → is_connected pd.proxy_state ≡ true
      → (b : Bool) × Sends id
          (record pd { udp_recv_started = b; udp_send_packets = [] })
          (map (encode id) ps)
          s
          (drain fuel id s).1
  unfolding drain drain_step ◌>>=◌ gets pure
  drain-Sends zero [] pd s h e q c = (pd.udp_recv_started, nothing_left pd s e q)
  drain-Sends zero (p ∷ ps) pd s h e q c = absurd (omega arith)
  drain-Sends (suc fuel) [] pd s h e q c =
      (pd.udp_recv_started, rw (ap front e ∙ q, drain_step) (nothing_left pd s e q))
  drain-Sends (suc fuel) (p ∷ ps) pd s h e q c =
      let (b, t, first, same) = round-Sends pd p ps (drain fuel id) s e c in
      let (b', others) = drain-Sends fuel ps _ t (omega arith) first.hit (ap tail q) c in
      (b', rw (ap front e ∙ q, same) (Sends-trans _ _ _ first others))

  pub connect_relay-Sends :
      (pd : ProxyData) (addr : List ℕ) (len : ℕ) (s : UdpProxy)
      → (b : Bool) × Sends id
          (record pd {
            remote_address = overwrite pd.remote_address addr;
            remote_address_len = len;
            proxy_state = ps_connected;
            udp_recv_started = b;
            udp_send_packets = [];
          })
          (map (encode id) pd.udp_send_packets)
          s
          (connect_relay id pd (some (addr, len)) s).1
  unfolding connect_relay ◌>>=◌
  connect_relay-Sends pd addr len s =
      let opened = write-Sends _ s in
      let (b, drained) =
        drain-Sends (length pd.udp_send_packets) pd.udp_send_packets _ (write id _ s).1 (le_refl _)
          opened.hit refl refl in
      (b, Sends-trans _ _ _ opened drained)

opens :
    ⦃os : Os⦄ (transferred : ℕ) (pov : OvData) (pd : ProxyData) (s : UdpProxy)
    → pd.proxy_state ≡ ps_udp_assoc
    → 5 ≤ transferred
    → (response_at pov.buffer).version ≡ 5
    → (response_at pov.buffer).res_code ≡ 0
    → negotiate_found transferred pov (some pd) s
      ≡ connect_relay pov.id pd (relay_address s.proxy_address pov.buffer) s
unfolding negotiate_found negotiate ◌>>=◌ gets pure
opens transferred pov pd s st n v r = ground arith

-- When the relay is granted (a reply of at least 5 bytes, version 5, code 0, and an address type
-- that the program knows), the connection is open to the relay's address, the datagrams that waited
-- have been handed to the system, each once and in the order in which they came, none waits any
-- more, and no other connection has changed.
pub on_tcp_receive_complete-Sends :
    ⦃os : Os⦄ (socket transferred : ℕ) (pov : OvData) (pd : ProxyData) (s : UdpProxy)
    (addr : List ℕ) (len : ℕ)
    → find pov.id s.socket_map ≡ some pd
    → pd.proxy_state ≡ ps_udp_assoc
    → 5 ≤ transferred
    → (response_at pov.buffer).version ≡ 5
    → (response_at pov.buffer).res_code ≡ 0
    → relay_address s.proxy_address pov.buffer ≡ some (addr, len)
    → (b : Bool) × Sends pov.id
        (record pd {
          remote_address = overwrite pd.remote_address addr;
          remote_address_len = len;
          proxy_state = ps_connected;
          udp_recv_started = b;
          udp_send_packets = [];
        })
        (map (encode pov.id) pd.udp_send_packets)
        s
        (on_tcp_receive_complete socket transferred pov s).1
unfolding on_tcp_receive_complete ◌>>=◌ gets pure
on_tcp_receive_complete-Sends socket transferred pov pd s addr len e st n v r a =
    let (b, sends) = connect_relay-Sends pov.id pd addr len s in
    (
      b,
      rw (==_ne transferred 0 (omega arith), e, opens transferred pov pd s st n v r, a)
          (Sends-view _ _ sends ((start_tcp_receive-Keeps socket pov.id (some pov)).same _)),
    )
