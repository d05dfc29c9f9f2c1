-- ===== src/Proxy/Queue/Waiting.antt =====
-- udpSend of netfilter/UDPProxy.cpp before the relay is granted, and the grant after it.
use mathlib.Core.List.{append-nil, append_assoc}
use qv_plugin_netfilter.Base.{
  ℕ, take, replicate, ◌≤◌, ◌≡◌, refl, sym, ap, ◌∙◌, false, some, List, [], ◌∷◌, ◌++◌, map, arith,
}
use qv_plugin_netfilter.Base.Bytes.{overwrite}
use qv_plugin_netfilter.Base.Map.{find, find-put, find-put_self}
use qv_plugin_netfilter.Base.State.{M, pure, gets, modify, ◌>>=◌, ◌>>◌}
use qv_plugin_netfilter.Socks.{response_at}
use qv_plugin_netfilter.System.{Os}
use qv_plugin_netfilter.System.Sent.{sent}
use qv_plugin_netfilter.Proxy.Data.{
  nf_max_address_length, OvData, ProxyData, UdpPacket, ps_udp_assoc,
}
use qv_plugin_netfilter.Proxy.Overlapped.{UdpProxy}
use qv_plugin_netfilter.Proxy.Send.{is_connected, enqueue, udp_send_by, udp_send}
use qv_plugin_netfilter.Proxy.Handshake.{relay_address, on_tcp_receive_complete}
use qv_plugin_netfilter.Proxy.Queue.Transmit.{Sends, Sends-trans, Sends-here}
use qv_plugin_netfilter.Proxy.Queue.Drain.{encode, on_tcp_receive_complete-Sends}

-- The address of a datagram of the application, in the 28 bytes of a queued packet.
abbrev pub padded : UdpPacket → List ℕ
padded p =
    overwrite (replicate nf_max_address_length 0) (take p.remote_address_len p.remote_address)

-- A datagram with its payload as it is queued: not at all if it is empty.
abbrev pub packet : UdpPacket → List ℕ → List UdpPacket
packet p [] = []
packet p (b ∷ bs) = record p { remote_address = padded p; buffer = b ∷ bs } ∷ []

abbrev pub packets : List UdpPacket → List UdpPacket
packets [] = []
packets (p ∷ ps) = packet p p.buffer ++ packets ps

-- The queue after the datagrams of the application, one after the other.
abbrev queue_all : List UdpPacket → List UdpPacket → List UdpPacket
queue_all queue [] = queue
queue_all queue (p ∷ ps) =
    queue_all (enqueue p.buffer p.remote_address p.remote_address_len queue) ps

pub enqueue-packet :
    (p : UdpPacket) (buf : List ℕ) (queue : List UdpPacket)
    → enqueue buf p.remote_address p.remote_address_len queue ≡ queue ++ packet p buf
unfolding enqueue
enqueue-packet p [] queue = sym (append-nil queue)
enqueue-packet p (b ∷ bs) queue = refl

queue_all-packets : (queue ps : List UdpPacket) → queue_all queue ps ≡ queue ++ packets ps
queue_all-packets queue [] = sym (append-nil queue)
queue_all-packets queue (p ∷ ps) =
    ap (λ q. queue_all q ps) (enqueue-packet p p.buffer queue)
    ∙ queue_all-packets (queue ++ packet p p.buffer) ps
    ∙ append_assoc queue (packet p p.buffer) (packets ps)

module _ ⦃os : Os⦄ (id : ℕ) where
  unfoldable pub send_all : List UdpPacket → M UdpProxy (Unit {0})
  send_all [] = pure tt
  send_all (p ∷ ps) = do udp_send id p.buffer p.remote_address p.remote_address_len; send_all ps

  pub queue_one :
      (pd : ProxyData) (p : UdpPacket) (s : UdpProxy)
      → find id s.socket_map ≡ some pd
      → is_connected pd.proxy_state ≡ false
      → Sends id
          (record pd {
            udp_send_packets =
                enqueue p.buffer p.remote_address p.remote_address_len pd.udp_send_packets;
          })
          []
          s
          (udp_send id p.buffer p.remote_address p.remote_address_len s).1
        × ((udp_send id p.buffer p.remote_address p.remote_address_len s).1.proxy_address
            ≡ s.proxy_address)
  unfolding udp_send udp_send_by ◌>>=◌ gets modify pure
  queue_one pd p s e c =
      rw (e, udp_send_by)
        (rw c (
          record {
            hit = find-put_self id _ s.socket_map;
            others = λ j n. ground (
              arith,
              find-put id j
                  (record pd {
                    udp_send_packets =
                        enqueue p.buffer p.remote_address p.remote_address_len pd.udp_send_packets;
                  })
                  s.socket_map,
            );
            out = sym (append-nil (sent s.world.trace));
          },
          refl,
        ))

  send_all-Sends :
      (ps : List UdpPacket) (pd : ProxyData) (s : UdpProxy)
      → find id s.socket_map ≡ some pd
      → is_connected pd.proxy_state ≡ false
      → Sends id
          (record pd { udp_send_packets = queue_all pd.udp_send_packets ps })
          []
          s
          (send_all ps s).1
        × ((send_all ps s).1.proxy_address ≡ s.proxy_address)
  unfolding send_all ◌>>=◌ pure
  send_all-Sends [] pd s e c = (Sends-here s e, refl)
  send_all-Sends (p ∷ ps) pd s e c =
      let (first, same) = queue_one pd p s e c in
      let (others, same') = send_all-Sends ps _ _ first.hit c in
      (Sends-trans s _ _ first others, same' ∙ same)

-- An application sends datagrams while the relay is asked for, and then the relay is granted by a
-- reply of at least 5 bytes, version 5, code 0 and an address type that the program knows: the
-- datagrams that waited before, and those, which are not empty, have been handed to the system,
-- each once and in order, and none was before.
pub on_tcp_receive_complete-send_all :
    ⦃os : Os⦄ (socket transferred : ℕ) (pov : OvData) (pd : ProxyData) (ps : List UdpPacket)
    (s : UdpProxy) (addr : List ℕ) (len : ℕ)
    → find pov.id s.socket_map ≡ some pd
    → pd.proxy_state ≡ ps_udp_assoc
    → 5 ≤ transferred
    → (response_at pov.buffer).version ≡ 5
    → (response_at pov.buffer).res_code ≡ 0
    → relay_address s.proxy_address pov.buffer ≡ some (addr, len)
    → (sent (send_all pov.id ps s).1.world.trace ≡ sent s.world.trace)
      × (sent
            (on_tcp_receive_complete socket transferred pov (send_all pov.id ps s).1).1.world.trace
          ≡ sent s.world.trace ++ map (encode pov.id) (pd.udp_send_packets ++ packets ps))
on_tcp_receive_complete-send_all socket transferred pov pd ps s addr len e st n v r a =
    let (asked, same) = send_all-Sends pov.id ps pd s e (ap is_connected st) in
    let (b, granted) =
      on_tcp_receive_complete-Sends socket transferred pov
        (record pd { udp_send_packets = queue_all pd.udp_send_packets ps }) (send_all pov.id ps s).1
        addr len asked.hit st n v r (ap (λ x. relay_address x pov.buffer) same ∙ a) in
    let nothing = asked.out ∙ append-nil (sent s.world.trace) in
    (
      nothing,
      granted.out
          ∙ ap (λ x. x ++ map (encode pov.id) (queue_all pd.udp_send_packets ps)) nothing
          ∙ ap (λ x. sent s.world.trace ++ map (encode pov.id) x)
              (queue_all-packets pd.udp_send_packets ps),
    )
