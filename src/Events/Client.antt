-- ===== src/Events/Client.antt =====
-- netfilter/NFEventHandler.hpp: the event handler as the client of the UDP proxy.
use qv_plugin_netfilter.Base.{
  ◌≡◌, ◌==◌, false, ◌<◌, ◌^◌, ◌∷◌, ◌++◌, length, arith, Option, none, some, refl, List, ℕ,
}
use qv_plugin_netfilter.Base.Int.{ℤ, pos}
use qv_plugin_netfilter.Base.Map.{find}
use qv_plugin_netfilter.Base.State.{Keeps, Keeps-pure, Keeps-bind, ◌>>=◌, pure}
use qv_plugin_netfilter.System.{Os, perform, dequeued, nf_udp_post_receive}
use qv_plugin_netfilter.System.Sent.{sent, note}
use qv_plugin_netfilter.Proxy.Data.{OvData, ovt_udp_receive}
use qv_plugin_netfilter.Proxy.Overlapped.{outside, start_udp_receive}
use qv_plugin_netfilter.Proxy.Send.{relay_datagram}
use qv_plugin_netfilter.Proxy.Receive
use qv_plugin_netfilter.Proxy.Receive.{deliver}
use qv_plugin_netfilter.Proxy.Connections.{dispatch, on_complete}
use qv_plugin_netfilter.Proxy.Worker.{complete}
use qv_plugin_netfilter.Proxy.Relay.{deliver-relay_datagram_ipv4}
use qv_plugin_netfilter.Socks.{udp_request_ipv4_bytes}
use qv_plugin_netfilter.Sockaddr.{af_inet, sa_family, sin_addr, sin_port, sockaddr_in}
use qv_plugin_netfilter.Base.Bytes.{AreBytes}
use qv_plugin_netfilter.Proxy.Queue.{perform-Keeps}
use qv_plugin_netfilter.Proxy.Channel.Answers.{IsMute}
use qv_plugin_netfilter.Events.Data.{UdpContext}
use qv_plugin_netfilter.Events.Handler.{EventHandler, on_proxy}
use qv_plugin_netfilter.Events.Udp.{hand_back, on_udp_receive_complete, as_handler}

module _ ⦃os : Os⦄ where
  hand_back-Keeps :
      (found : Option UdpContext) (id : ℕ) (buf : List ℕ) (len : ℤ) (addr : List ℕ)
      → Keeps (λ w. sent w.trace) (hand_back found id buf len addr)
  unfolding hand_back note
  hand_back-Keeps none id buf len addr = Keeps-pure tt
  hand_back-Keeps (some ctx) id buf len addr =
      Keeps-bind (perform-Keeps (nf_udp_post_receive id addr buf len ctx.m_options) λ b. refl)
        λ _. Keeps-pure tt

  -- The event handler sends nothing through the proxy from there.
  pub as_handler-IsMute : (s : EventHandler) → IsMute (as_handler s)
  unfolding on_udp_receive_complete
  as_handler-IsMute s = record {
    mute = λ id buf len addr addr_len. hand_back-Keeps (find id s.udp_ctx_map) id buf len addr;
  }

-- The object of a receive, when the datagram has come: `rest` is what the buffer held behind it.
abbrev pub received : OvData → List ℕ → List ℕ → List ℕ → OvData
received pov addr payload rest = record pov {
  ov_type = ovt_udp_receive;
  buffer = relay_datagram addr payload ++ rest;
}

relay_datagram_filled :
    (addr : List ℕ) (b : ℕ) (bs : List ℕ)
    → sa_family addr ≡ af_inet
    → (length (relay_datagram addr (b ∷ bs)) == 0) ≡ false
unfolding relay_datagram udp_request_ipv4_bytes
relay_datagram_filled addr b bs f = ground (arith, f)

module _ ⦃os : Os⦄ where
  -- The completion of a receive of an IPv4 datagram of at least one and fewer than 2^31 bytes, as the
  -- proxy would wrap it, on an endpoint that has a context: the filter gets the payload for the
  -- endpoint, whole, with the address and port in it and the options of the context, the next
  -- receive is started with the same object, and nothing else happens.
  pub complete-received :
      (s : EventHandler) (ctx : UdpContext) (socket error : ℕ) (pov : OvData) (addr : List ℕ)
      (b : ℕ) (bs rest : List ℕ)
      → find pov.id s.udp_ctx_map ≡ some ctx
      → AreBytes addr
      → sa_family addr ≡ af_inet
      → length (b ∷ bs) < 2 ^ 31
      → (on_proxy
          (complete
            (as_handler s)
            socket
            (length (relay_datagram addr (b ∷ bs)))
            (received pov addr (b ∷ bs) rest)
            error)
          s).1
        ≡ record s {
          udp_proxy =
              (start_udp_receive socket pov.id
                (some (received pov addr (b ∷ bs) rest))
                (outside
                  (perform (
                    nf_udp_post_receive pov.id
                      (sockaddr_in (sin_addr addr) (sin_port addr))
                      ((b ∷ bs) ++ rest)
                      (pos (length (b ∷ bs)))
                      ctx.m_options))
                  (outside
                    (perform (dequeued (received pov addr (b ∷ bs) rest)))
                    s.udp_proxy).1).1).1;
        }
  unfolding complete on_complete dispatch Receive.on_udp_receive_complete on_udp_receive_complete
      hand_back on_proxy outside perform ◌>>=◌ pure
  complete-received s ctx socket error pov addr b bs rest e a f l =
      rw
        (
          relay_datagram_filled addr b bs f,
          deliver-relay_datagram_ipv4 (as_handler s) pov.id addr b bs rest a f l,
          e,
        )
        refl
