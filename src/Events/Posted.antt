-- ===== src/Events/Posted.antt =====
-- What netfilter/NFEventHandler.cpp hands to the filter for the server of a TCP connection.
use mathlib.Core.List.{append_assoc, append-nil}
use qv_plugin_netfilter.Base.{
  ℕ, ◌≡◌, ◌≢◌, refl, sym, ap, ◌∙◌, List, [], ◌∷◌, ◌++◌, ◌==◌, if◌then◌else◌, none, some, arith,
}
use qv_plugin_netfilter.Base.Map.{find, find-put_self, find-erase}
use qv_plugin_netfilter.Base.State.{M, pure, gets, modify, ◌>>=◌, ◌>>◌}
use qv_plugin_netfilter.System.{SysCall, Event, Os, perform, nf_tcp_post_send}
use qv_plugin_netfilter.Sockaddr.{af_inet6, sa_family}
use qv_plugin_netfilter.Events.Data.{TcpConnInfo, OriginalConnInfo}
use qv_plugin_netfilter.Events.Handler.{EventHandler, on_system}
use qv_plugin_netfilter.Events.Tcp.{
  tcp_connect_request, connect_request, flush_pended, tcp_receive, tcp_receive_by, tcp_send,
  tcp_send_by,
}

-- The bytes of a call that go to the server of the endpoint.
unfoldable pub to_server : ℕ → SysCall → List ℕ
to_server id (nf_tcp_post_send i buf) = if i == id then buf else []
to_server id _ = []

-- All bytes that went to the server, in order.
unfoldable pub stream : ℕ → List Event → List ℕ
stream id [] = []
stream id (e ∷ trace) = stream id trace ++ to_server id e.call

abbrev pub posted : ℕ → EventHandler → List ℕ
posted id s = stream id s.udp_proxy.world.trace

abbrev pub concat {ℓ} : {A : Type ℓ} → List (List A) → List A
concat [] = []
concat (xs ∷ xss) = xs ++ concat xss

-- One request for each of the chunks.
abbrev pub requests : List ℕ → List (List ℕ) → List ℕ
requests addr [] = []
requests addr (c ∷ cs) = connect_request addr ++ requests addr cs

module _ ⦃os : Os⦄ (id : ℕ) where
  -- The application sends, chunk after chunk.
  unfoldable pub send_all : List (List ℕ) → M EventHandler (Unit {0})
  send_all [] = pure tt
  send_all (c ∷ cs) = do tcp_send id c; send_all cs

  pending : List ℕ → List ℕ → OriginalConnInfo
  pending addr kept = record { remote_address = addr; pended_sends = kept }

  send-posted :
      (addr kept buf : List ℕ) (s : EventHandler)
      → find id s.conn_info_map ≡ some (pending addr kept)
      → sa_family addr ≢ af_inet6
      → (posted id (tcp_send id buf s).1 ≡ posted id s ++ connect_request addr)
        × (find id (tcp_send id buf s).1.conn_info_map ≡ some (pending addr (kept ++ buf)))
  unfolding tcp_send tcp_send_by ◌>>=◌ gets modify pure on_system perform stream to_server pending
  send-posted addr kept buf s e f = (
    ground (arith, e),
    ground (arith, e, find-put_self id (pending addr (kept ++ buf)) s.conn_info_map),
  )

  send_all-posted :
      (chunks : List (List ℕ)) (addr kept : List ℕ) (s : EventHandler)
      → find id s.conn_info_map ≡ some (pending addr kept)
      → sa_family addr ≢ af_inet6
      → (posted id (send_all chunks s).1 ≡ posted id s ++ requests addr chunks)
        × (find id (send_all chunks s).1.conn_info_map
            ≡ some (pending addr (kept ++ concat chunks)))
  unfolding send_all ◌>>=◌ pure
  send_all-posted [] addr kept s e f =
      (sym (append-nil _), e ∙ ap (λ x. some (pending addr x)) (sym (append-nil kept)))
  send_all-posted (c ∷ cs) addr kept s e f =
      let one = send-posted addr kept c s e f in
      let rest = send_all-posted cs addr (kept ++ c) (tcp_send id c s).1 one.1 f in
      (
        rest.0
            ∙ ap (λ x. x ++ requests addr cs) one.0
            ∙ append_assoc (posted id s) (connect_request addr) (requests addr cs),
        rest.1 ∙ ap (λ x. some (pending addr x)) (append_assoc kept c (concat cs)),
      )

  receive-posted :
      (addr kept buf : List ℕ) (s : EventHandler)
      → find id s.conn_info_map ≡ some (pending addr kept)
      → (posted id (tcp_receive id buf s).1 ≡ posted id s ++ kept)
        × (find id (tcp_receive id buf s).1.conn_info_map ≡ none)
  unfolding tcp_receive tcp_receive_by flush_pended ◌>>=◌ gets modify pure on_system perform stream
      to_server pending
  receive-posted addr [] buf s e = (
    ground (arith, e, append-nil (posted id s)),
    ground (arith, e, find-erase id id s.conn_info_map),
  )
  receive-posted addr (k ∷ ks) buf s e =
      (ground (arith, e), ground (arith, e, find-erase id id s.conn_info_map))

  pub tcp_receive-send_all :
      (info : TcpConnInfo) (chunks : List (List ℕ)) (buf : List ℕ) (s : EventHandler)
      → sa_family info.remote_address ≢ af_inet6
      → (posted id (tcp_receive id buf (send_all chunks (tcp_connect_request id info s).1).1).1
          ≡ posted id s ++ (requests info.remote_address chunks ++ concat chunks))
        × (find id
              (tcp_receive id buf
                (send_all chunks (tcp_connect_request id info s).1).1).1.conn_info_map
            ≡ none)
  unfolding tcp_connect_request ◌>>=◌ gets modify pure pending
  tcp_receive-send_all info chunks buf s f =
      let asked = (tcp_connect_request id info s).1 in
      let all =
        send_all-posted chunks info.remote_address [] asked (find-put_self id _ s.conn_info_map)
          f in
      let last =
        receive-posted info.remote_address (concat chunks) buf (send_all chunks asked).1 all.1 in
      (
        last.0
            ∙ ap (λ x. x ++ concat chunks) all.0
            ∙ append_assoc (posted id s) (requests info.remote_address chunks) (concat chunks),
        last.1,
      )

  dropped :
      (addr kept : List ℕ) (chunks : List (List ℕ)) (s : EventHandler)
      → find id s.conn_info_map ≡ some (pending addr kept)
      → sa_family addr ≡ af_inet6
      → (send_all chunks s).1 ≡ s
  unfolding send_all tcp_send tcp_send_by ◌>>=◌ gets pure pending
  dropped addr kept [] s e f = refl
  dropped addr kept (c ∷ cs) s e f = ground (arith, e, dropped addr kept cs s)

  -- When that destination is an IPv6 address, nothing that the application sends before the first
  -- answer reaches the server, neither before that answer nor with it, and no request does.
  pub tcp_receive-send_all_ipv6 :
      (info : TcpConnInfo) (chunks : List (List ℕ)) (buf : List ℕ) (s : EventHandler)
      → sa_family info.remote_address ≡ af_inet6
      → posted id (tcp_receive id buf (send_all chunks (tcp_connect_request id info s).1).1).1
        ≡ posted id s
  unfolding tcp_connect_request ◌>>=◌ gets modify pure pending
  tcp_receive-send_all_ipv6 info chunks buf s f =
      let asked = (tcp_connect_request id info s).1 in
      let here = find-put_self id (pending info.remote_address []) s.conn_info_map in
      ap (λ t. posted id (tcp_receive id buf t).1)
        (dropped info.remote_address [] chunks asked here f)
      ∙ (receive-posted info.remote_address [] buf asked here).0
      ∙ append-nil (posted id s)

  -- On a connection that is not in the map, what the application sends goes to the server as it is.
  pub tcp_send-passes :
      (buf : List ℕ) (s : EventHandler)
      → find id s.conn_info_map ≡ none
      → (posted id (tcp_send id buf s).1 ≡ posted id s ++ buf)
        × ((tcp_send id buf s).1.conn_info_map ≡ s.conn_info_map)
  unfolding tcp_send tcp_send_by ◌>>=◌ gets pure on_system perform stream to_server
  tcp_send-passes buf s e = (ground (arith, e), ground (arith, e))
