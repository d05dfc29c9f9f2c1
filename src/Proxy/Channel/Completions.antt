-- ===== src/Proxy/Channel/Completions.antt =====
-- The completions of netfilter/UDPProxy.cpp as actions on the channel of their endpoint.
use mathlib.Core.List.{append-nil}
use qv_plugin_netfilter.Base.{
  ℕ, ◌≡◌, ◌≢◌, refl, sym, ap, ◌∙◌, inl, inr, Bool-cases, Option, none, some, arith, ◌==◌,
}
use qv_plugin_netfilter.Base.Map.{find}
use qv_plugin_netfilter.Base.State.{
  M, gets, ◌>>=◌, Keeps, Keeps-if, Keeps-pure, Keeps-gets, Keeps-bind, Triple-if, Triple-bind,
}
use qv_plugin_netfilter.System.{Os, dequeued}
use qv_plugin_netfilter.System.Sent.{Datagrams, sent, note}
use qv_plugin_netfilter.Proxy.Data.{
  OvType, ovt_connect, ovt_tcp_send, ovt_tcp_receive, ovt_udp_send, ovt_udp_receive, OvData,
  ProxyState, ps_none, ps_auth, ps_auth_negotiation, ps_udp_assoc, ps_connected, ps_closed,
  ProxyData,
}
use qv_plugin_netfilter.Proxy.Overlapped.{UdpProxy}
use qv_plugin_netfilter.Proxy.Send.{is_connected}
use qv_plugin_netfilter.Proxy.Handshake.{negotiate, negotiate_found, on_tcp_receive_complete}
use qv_plugin_netfilter.Proxy.Receive.{
  UdpProxyHandler, deliver, on_udp_receive_complete, delete_proxy_connection, on_connect_complete,
}
use qv_plugin_netfilter.Proxy.Connections.{dispatch, on_complete}
use qv_plugin_netfilter.Proxy.Worker.{complete}
use qv_plugin_netfilter.Proxy.Queue.{
  outside-Keeps, delete_ov_data-Keeps, start_tcp_receive-Keeps, start_udp_receive-Keeps,
}
use qv_plugin_netfilter.Proxy.Isolation.Absent.{delete_proxy_connection-absent}
use qv_plugin_netfilter.Proxy.Isolation.History.{complete-slot}
use qv_plugin_netfilter.Proxy.Channel.{
  Channel, ready, Action, delete, after, outputs, channel, channels, Does, Does-about,
}
use qv_plugin_netfilter.Proxy.Channel.Calm.{
  Calm, Stays-pure, Stays-view, Stays-call, send_and_advance-Stays, greet-Stays,
}
use qv_plugin_netfilter.Proxy.Channel.Calls.{delete_proxy_connection-out}
use qv_plugin_netfilter.Proxy.Channel.Answers.{
  Answers, dropped, IsMute, Answers-IsAbout, Answered, Ends, quiet, then_view, connect_relay-Ends,
}

module _ ⦃os : Os⦄ (pov : OvData) (cs : ℕ → Channel) (ds : Datagrams) where
  negotiate-Ends :
      (state : ProxyState) (transferred : ℕ) (pd : ProxyData)
      → pd.proxy_state ≡ state
      → channel (some pd) ≡ cs pov.id
      → Ends pov.id cs ds (negotiate state transferred pov pd)
  unfolding negotiate
  negotiate-Ends ps_auth transferred pd st e = quiet pov.id cs ds (
      Triple-if _ (Stays-pure pov.id _ ds tt) (
        Triple-if _
          (send_and_advance-Stays pov.id _ ds pd _ ps_auth_negotiation e (ap is_connected st) refl)
          (send_and_advance-Stays pov.id _ ds pd _ ps_udp_assoc e (ap is_connected st) refl)))
  negotiate-Ends ps_auth_negotiation transferred pd st e = quiet pov.id cs ds (
      Triple-if _ (Stays-pure pov.id _ ds tt)
        (send_and_advance-Stays pov.id _ ds pd _ ps_udp_assoc e (ap is_connected st) refl))
  negotiate-Ends ps_udp_assoc transferred pd st e =
      Triple-if _ (quiet pov.id cs ds (Stays-pure pov.id _ ds tt)) (
        Triple-bind (λ _. Calm pov.id (cs pov.id) ds) (Stays-view pov.id _ ds (Keeps-gets _))
          λ address. connect_relay-Ends pov.id cs ds pd _ e (ap is_connected st))
  negotiate-Ends ps_none transferred pd st e = quiet pov.id cs ds (Stays-pure pov.id _ ds tt)
  negotiate-Ends ps_connected transferred pd st e = quiet pov.id cs ds (Stays-pure pov.id _ ds tt)
  negotiate-Ends ps_closed transferred pd st e = quiet pov.id cs ds (Stays-pure pov.id _ ds tt)

  negotiate_found-Ends :
      (transferred : ℕ) (found : Option ProxyData)
      → channel found ≡ cs pov.id
      → Ends pov.id cs ds (negotiate_found transferred pov found)
  unfolding negotiate_found
  negotiate_found-Ends transferred none e = quiet pov.id cs ds (Stays-pure pov.id _ ds tt)
  negotiate_found-Ends transferred (some pd) e = negotiate-Ends pd.proxy_state transferred pd refl e

  -- A method that finds the connection.
  Ends-find :
      {A : Type 0} (f : Option ProxyData → M UdpProxy A)
      → ((found : Option ProxyData) → channel found ≡ cs pov.id → Ends pov.id cs ds (f found))
      → Ends pov.id cs ds (gets (λ s. find pov.id s.socket_map) >>= f)
  unfolding ◌>>=◌ gets
  Ends-find f h = record { at = λ s k. (h (find pov.id s.socket_map) k.0).at s k }

  on_tcp_receive_complete-Ends :
      (socket transferred : ℕ) → Ends pov.id cs ds (on_tcp_receive_complete socket transferred pov)
  unfolding on_tcp_receive_complete
  on_tcp_receive_complete-Ends socket transferred =
      Triple-if _ (quiet pov.id cs ds (Stays-view pov.id _ ds (delete_ov_data-Keeps pov))) (
        Ends-find _ λ found e.
          then_view pov.id cs ds (negotiate_found-Ends transferred found e)
            λ _. Keeps-bind (start_tcp_receive-Keeps socket pov.id (some pov)) λ _. Keeps-pure tt)

  deliver-Keeps :
      (h : UdpProxyHandler)
      → IsMute h
      → (transferred : ℕ) → Keeps (λ w. sent w.trace) (deliver h transferred pov.id pov.buffer)
  unfolding deliver
  deliver-Keeps h m transferred = search (Keeps-if, Keeps-pure, IsMute.mute)

  on_udp_receive_complete-Ends :
      (h : UdpProxyHandler)
      → IsMute h
      → (socket transferred : ℕ)
      → Ends pov.id cs ds (on_udp_receive_complete h socket transferred pov)
  unfolding on_udp_receive_complete
  on_udp_receive_complete-Ends h m socket transferred = quiet pov.id cs ds (
      Stays-view pov.id _ ds (
        Keeps-if _ (delete_ov_data-Keeps pov) (
          Keeps-bind (outside-Keeps (deliver-Keeps h m transferred))
            λ _. Keeps-bind (start_udp_receive-Keeps socket pov.id (some pov)) λ _. Keeps-pure tt)))

  delete-Ends : Ends pov.id cs ds (delete_proxy_connection pov.id)
  unfolding Answered after outputs channel
  delete-Ends = record {
    at = λ s h. (
      delete pov.id,
      dropped,
      ap channel (delete_proxy_connection-absent pov.id s) ∙ ground arith,
      delete_proxy_connection-out pov.id s ∙ h.1 ∙ sym (append-nil ds),
    );
  }

  on_connect_complete-Ends :
      (socket transferred error : ℕ)
      → (error ≡ 0 → cs pov.id ≢ ready)
      → Ends pov.id cs ds (on_connect_complete socket transferred pov error)
  unfolding on_connect_complete
  on_connect_complete-Ends socket transferred error n = elim (Bool-cases (error == 0)) [
    | inl ok ↦ rw ok (
        Ends-find _ λ found e.
          then_view pov.id cs ds
            (quiet pov.id cs ds (greet-Stays pov.id _ ds socket found e (n (ground (arith, ok)))))
            λ _. delete_ov_data-Keeps pov)
    | inr bad ↦ rw bad (then_view pov.id cs ds delete-Ends λ _. delete_ov_data-Keeps pov)
  ]

  dispatch-Ends :
      (h : UdpProxyHandler)
      → IsMute h
      → (t : OvType) (socket transferred error : ℕ)
      → (t ≡ ovt_connect → error ≡ 0 → cs pov.id ≢ ready)
      → Ends pov.id cs ds (dispatch h t socket transferred pov error)
  unfolding dispatch
  dispatch-Ends h m ovt_udp_send socket transferred error n =
      quiet pov.id cs ds (Stays-view pov.id _ ds (delete_ov_data-Keeps pov))
  dispatch-Ends h m ovt_udp_receive socket transferred error n =
      on_udp_receive_complete-Ends h m socket transferred
  dispatch-Ends h m ovt_connect socket transferred error n =
      on_connect_complete-Ends socket transferred error (n refl)
  dispatch-Ends h m ovt_tcp_send socket transferred error n =
      quiet pov.id cs ds (Stays-view pov.id _ ds (delete_ov_data-Keeps pov))
  dispatch-Ends h m ovt_tcp_receive socket transferred error n =
      on_tcp_receive_complete-Ends socket transferred

  complete-Ends :
      (h : UdpProxyHandler)
      → IsMute h
      → (socket transferred error : ℕ) → (pov.ov_type ≡ ovt_connect → error ≡ 0 → cs pov.id ≢ ready)
      → Ends pov.id cs ds (complete h socket transferred pov error)
  unfolding complete on_complete note
  complete-Ends h m socket transferred error n =
      Triple-bind (λ _. Calm pov.id (cs pov.id) ds)
        (Stays-call pov.id _ ds (dequeued pov) λ b. refl)
        λ _. dispatch-Ends h m pov.ov_type socket transferred error n

pub complete-Does :
    ⦃os : Os⦄ {h : UdpProxyHandler}
    → IsMute h
    → (socket transferred : ℕ) (pov : OvData) (error : ℕ) (s : UdpProxy)
    → (pov.ov_type ≡ ovt_connect → error ≡ 0 → channels s pov.id ≢ ready)
    → (a : Action) × Answers pov.id a × Does a s (complete h socket transferred pov error s).1
unfolding Answered
complete-Does {h} m socket transferred pov error s n =
    let (a, answers, here, out) =
      (complete-Ends pov (channels s) (sent s.world.trace) h m socket transferred error n).at s
        (refl, refl) in
    (
      a,
      answers,
      Does-about (Answers-IsAbout pov.id a answers)
          (λ j k. (complete-slot j pov k h socket transferred error).same s) here out,
    )
