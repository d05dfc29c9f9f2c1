-- ===== src/Proxy/Channel/Calls.antt =====
-- createProxyConnection, deleteProxyConnection and udpSend of netfilter/UDPProxy.cpp, as actions on
-- the channel of their endpoint.
use mathlib.Core.List.{append-nil}
use qv_plugin_netfilter.Base.{
  ℕ, ◌≡◌, ◌≢◌, refl, sym, ap, ◌∙◌, ◌⊎◌, inl, inr, Option, none, some, Bool, true, false, List, [],
  arith, if◌then◌else◌,
}
use qv_plugin_netfilter.Base.Map.{find, find-put_self}
use qv_plugin_netfilter.Base.State.{
  pure, gets, modify, ◌>>=◌, Keeps, Keeps-if, Keeps-pure, Keeps-gets, Keeps-bind, Triple, Triple-if,
  Triple-bind, Triple-pure,
}
use qv_plugin_netfilter.System.{
  Os, wsa_socket, close_socket, shutdown_both, associate, bind_any, connect_ex, sock_stream,
  sock_dgram,
}
use qv_plugin_netfilter.System.Sent.{Datagrams, sent, note}
use qv_plugin_netfilter.Iocp.{IocpService, register_socket}
use qv_plugin_netfilter.Proxy.Data.{ProxyData, new_proxy_data}
use qv_plugin_netfilter.Proxy.Overlapped.{UdpProxy, outside, start_connect}
use qv_plugin_netfilter.Proxy.Receive.{destroy, delete_found, delete_proxy_connection}
use qv_plugin_netfilter.Proxy.Connections.{open_connection, create_proxy_connection}
use qv_plugin_netfilter.Proxy.Queue.{
  view, outside-Keeps, perform-Keeps, new_ov_data-Keeps, delete_ov_data-Keeps,
}
use qv_plugin_netfilter.Proxy.Isolation.{slot, delete_proxy_connection-slot}
use qv_plugin_netfilter.Proxy.Isolation.History.{create_proxy_connection-slot}
use qv_plugin_netfilter.Proxy.Isolation.Absent.{delete_proxy_connection-absent}
use qv_plugin_netfilter.Proxy.Channel.{
  Channel, waiting, closed, Action, idle, create, delete, after, outputs, channel, channels, Does,
  Does-about, create-IsAbout, delete-IsAbout,
}
use qv_plugin_netfilter.Proxy.Channel.Calm.{Calm, Stays-pure, Stays-view, Stays-call, Stays-bind}

module _ ⦃os : Os⦄ where
  destroy-Keeps : (pd : ProxyData) → Keeps (λ w. sent w.trace) (destroy pd)
  unfolding destroy note
  destroy-Keeps pd =
      Keeps-bind
        (Keeps-if _ (Keeps-pure tt) (
          Keeps-bind (perform-Keeps (shutdown_both _) λ b. refl)
            λ _. Keeps-bind (perform-Keeps (close_socket _) λ b. refl) λ _. Keeps-pure tt))
        λ _.
          Keeps-if _ (Keeps-pure tt)
            (Keeps-bind (perform-Keeps (close_socket _) λ b. refl) λ _. Keeps-pure tt)

  delete_found-out :
      (id : ℕ) (found : Option ProxyData) (s : UdpProxy)
      → sent (delete_found id found s).1.world.trace ≡ sent s.world.trace
  unfolding delete_found ◌>>=◌ outside modify pure
  delete_found-out id none s = refl
  delete_found-out id (some pd) s = (destroy-Keeps pd).same s.world

  pub delete_proxy_connection-out :
      (id : ℕ) (s : UdpProxy)
      → sent (delete_proxy_connection id s).1.world.trace ≡ sent s.world.trace
  unfolding delete_proxy_connection ◌>>=◌ gets
  delete_proxy_connection-out id s = delete_found-out id (find id s.socket_map) s

  -- A deleted connection is a closed channel.
  pub delete-Does : (id : ℕ) (s : UdpProxy) → Does (delete id) s (delete_proxy_connection id s).1
  unfolding after outputs channel
  delete-Does id s =
      Does-about (delete-IsAbout id) (λ j n. (delete_proxy_connection-slot id j n).same s)
        (rw (delete_proxy_connection-absent id s) (ground arith))
        (delete_proxy_connection-out id s ∙ sym (append-nil _))

module _ ⦃os : Os⦄ (id : ℕ) (ds : Datagrams) where
  start_connect-Keeps :
      (socket : ℕ) (addr : List ℕ) (addr_len : ℕ)
      → Keeps view (start_connect socket addr addr_len id)
  unfolding start_connect note
  start_connect-Keeps socket addr addr_len = Keeps-bind new_ov_data-Keeps λ fresh.
      Keeps-bind (outside-Keeps (perform-Keeps (bind_any socket) λ b. refl)) λ bound.
        Keeps-bind (outside-Keeps (perform-Keeps (connect_ex _ _ _ _) λ b. refl)) λ r.
          Keeps-if _ (Keeps-bind (delete_ov_data-Keeps _) λ _. Keeps-pure false) (Keeps-pure true)

  register_socket-Keeps :
      (socket : ℕ) (service : IocpService) → Keeps view (outside (register_socket socket service))
  unfolding register_socket note
  register_socket-Keeps socket service =
      outside-Keeps (Keeps-bind (perform-Keeps (associate _ _) λ b. refl) λ r. Keeps-pure _)

  -- The new connection waits, with an empty queue.
  open_connection-waiting :
      (tcp_socket udp_socket : ℕ) (c : Channel)
      → Triple
          (Calm id c ds)
          (open_connection id tcp_socket udp_socket)
          (λ _. Calm id (waiting []) ds)
  unfolding open_connection new_proxy_data channel modify
  open_connection-waiting tcp_socket udp_socket c =
      Triple-bind (λ _. Calm id (waiting []) ds)
        (record { at = λ s k. (ap channel (find-put_self id _ s.socket_map), k.1) })
        λ _. Stays-bind id (waiting []) ds (Stays-view id (waiting []) ds (Keeps-gets _)) λ service.
          Stays-bind id (waiting []) ds
            (Stays-view id (waiting []) ds (register_socket-Keeps tcp_socket service))
            λ tcp_ok.
              Triple-if tcp_ok
                (Stays-bind id (waiting []) ds
                  (Stays-view id (waiting []) ds (register_socket-Keeps udp_socket service))
                  λ udp_ok.
                    Triple-if udp_ok
                      (record {
                        at = λ s k.
                            (Stays-view id (waiting []) ds (
                                start_connect-Keeps tcp_socket s.proxy_address
                                  s.proxy_address_len)).at
                              s k;
                      })
                      (Stays-pure id (waiting []) ds false))
                (Stays-pure id (waiting []) ds false)

  -- A connection that was made waits; one that was not is gone, or was not touched.
  Created : Channel → Bool → UdpProxy → Type 0
  Created c made s =
      (if made
        then (channels s id ≡ waiting [])
        else ((channels s id ≡ closed) ⊎ (channels s id ≡ c)))
      × (sent s.world.trace ≡ ds)

  delete-Created :
      (c : Channel)
      → Triple (Calm id (waiting []) ds) (delete_proxy_connection id) (λ _. Created c false)
  unfolding Created channel
  delete-Created c = record {
    at = λ s k. (
      inl (ap channel (delete_proxy_connection-absent id s)),
      delete_proxy_connection-out id s ∙ k.1,
    );
  }

  create-Created : (c : Channel) → Triple (Calm id c ds) (create_proxy_connection id) (Created c)
  unfolding create_proxy_connection note Created
  create-Created c =
      Triple-bind (λ _. Calm id c ds) (Stays-call id c ds (wsa_socket sock_stream) λ b. refl)
        λ tcp. Triple-if _ (Triple-pure false λ s k. (inr k.0, k.1)) (
          Triple-bind (λ _. Calm id c ds) (Stays-call id c ds (wsa_socket sock_dgram) λ b. refl)
            λ udp.
              Triple-if _
                (Triple-bind (λ _. Calm id c ds) (Stays-call id c ds (close_socket tcp) λ b. refl)
                  λ _. Triple-pure false λ s k. (inr k.0, k.1))
                (Triple-bind (λ _. Calm id (waiting []) ds) (open_connection-waiting tcp udp c)
                  λ result. Triple-if result (Triple-pure true λ s k. k) (
                    Triple-bind (λ _. Created c false) (delete-Created c)
                      λ _. Triple-pure false λ s k. k)))

-- What createProxyConnection says, and the action that it was.
pub data Creates (id : ℕ) : Bool → Action → Type 0 where
  made : Creates id true (create id)
  removed : Creates id false (delete id)
  refused : Creates id false idle

module _ ⦃os : Os⦄ (id : ℕ) where
  Created-Does :
      (made : Bool) (s t : UdpProxy)
      → ((j : ℕ) → j ≢ id → slot j t ≡ slot j s)
      → Created id (sent s.world.trace) (channels s id) made t
      → (a : Action) × Creates id made a × Does a s t
  unfolding Created after outputs
  Created-Does true s t others (here, out) = (
    create id,
    made,
    Does-about (create-IsAbout id) others (ground (arith, here)) (out ∙ sym (append-nil _)),
  )
  Created-Does false s t others (inl gone, out) = (
    delete id,
    removed,
    Does-about (delete-IsAbout id) others (ground (arith, gone)) (out ∙ sym (append-nil _)),
  )
  Created-Does false s t others (inr same, out) =
      (idle, refused, Does-about {id = id} (λ c j n. refl) others same (out ∙ sym (append-nil _)))

  pub create-Does :
      (s : UdpProxy)
      → (a : Action) × Creates id (create_proxy_connection id s).0 a
        × Does a s (create_proxy_connection id s).1
  create-Does s =
      Created-Does _ s _ (λ j n. (create_proxy_connection-slot id j n).same s)
        ((create-Created id (sent s.world.trace) (channels s id)).at s (refl, refl))
