-- ===== src/Events/Tcp.antt =====
-- netfilter/NFEventHandler.cpp: the TCP events. A connection is redirected to the proxy, and opened
-- there by a SOCKS 4 request; what the application sends before the reply is kept.
use Prim.Native.Nat.{bit_or}
use qv_plugin_netfilter.Base.{
  ℕ, Bool, true, false, ◌&&◌, Option, none, some, List, [], ◌∷◌, ◌++◌, ◌==◌, if◌then◌else◌, take,
}
use qv_plugin_netfilter.Base.Map.{find, put, erase}
use qv_plugin_netfilter.Base.State.{M, pure, gets, modify, ◌>>=◌, ◌>>◌}
use qv_plugin_netfilter.Socks.{socks_4, s4c_connect, socks4_request_bytes}
use qv_plugin_netfilter.System.{
  Os, perform, nf_tcp_post_send, nf_tcp_post_receive, nf_tcp_disable_filtering,
}
use qv_plugin_netfilter.Sockaddr.{af_inet6, sa_family, sin_port, sin_addr}
use qv_plugin_netfilter.Redirector.Rules.{nf_filter}
use qv_plugin_netfilter.Events.Data.{TcpConnInfo, OriginalConnInfo}
use qv_plugin_netfilter.Events.Handler.{EventHandler, Lookup, on_system, address_size, log_tcp}

-- memcmp(a, b, …) == 0
abbrev pub bytes_equal : List ℕ → List ℕ → Bool
bytes_equal [] [] = true
bytes_equal (x ∷ xs) (y ∷ ys) = x == y && bytes_equal xs ys
bytes_equal _ _ = false

abbrev pub same_address : ℕ → List ℕ → List ℕ → Bool
same_address n a b = bytes_equal (take n a) (take n b)

-- What tcpConnectRequest does to the connection's properties.
unfoldable pub redirect : List ℕ → TcpConnInfo → TcpConnInfo
redirect proxy_address info =
    if same_address (address_size info.remote_address) info.remote_address proxy_address
    then info
    else record info {
      remote_address = proxy_address;
      filtering_flag = bit_or info.filtering_flag nf_filter;
    }

-- The result is *pConnInfo after the call.
unfoldable pub tcp_connect_request : ℕ → TcpConnInfo → M EventHandler TcpConnInfo
tcp_connect_request id info = do
  modify (λ s. record s {
    conn_info_map =
        put id (record { remote_address = info.remote_address; pended_sends = [] }) s.conn_info_map;
  })
  proxy_address ← gets (λ s. s.proxy_address)
  pure (redirect proxy_address info)

-- The request of SOCKS 4 for the original address.
unfoldable pub connect_request : List ℕ → List ℕ
connect_request addr = socks4_request_bytes (record {
  version = socks_4;
  command = s4c_connect;
  port = sin_port addr;
  ip = sin_addr addr;
  userid = 0;
})

module _ ⦃os : Os⦄ where
  -- A call whose result is not used.
  abbrev pub post_send : ℕ → List ℕ → M EventHandler ℕ
  post_send id buf = on_system (perform (nf_tcp_post_send id buf))

  -- The connection is open: what was kept goes out, and the reply to the request stays here.
  unfoldable pub flush_pended : ℕ → List ℕ → M EventHandler (Unit {0})
  flush_pended id [] = pure tt
  flush_pended id (b ∷ bs) = do post_send id (b ∷ bs); pure tt

  unfoldable pub tcp_receive_by : ℕ → List ℕ → Option OriginalConnInfo → M EventHandler (Unit {0})
  tcp_receive_by id buf none = do
    on_system (perform (nf_tcp_post_receive id buf))
    on_system (perform (nf_tcp_disable_filtering id))
    pure tt
  tcp_receive_by id buf (some info) = do
    flush_pended id info.pended_sends
    modify (λ s. record s { conn_info_map = erase id s.conn_info_map })

  unfoldable pub tcp_receive : ℕ → List ℕ → M EventHandler (Unit {0})
  tcp_receive id buf = do found ← gets (λ s. find id s.conn_info_map); tcp_receive_by id buf found

  unfoldable pub tcp_send_by : ℕ → List ℕ → Option OriginalConnInfo → M EventHandler (Unit {0})
  tcp_send_by id buf none = do post_send id buf; pure tt
  tcp_send_by id buf (some info) =
      if sa_family info.remote_address == af_inet6 then pure tt else (do
        post_send id (connect_request info.remote_address)
        modify (λ s. record s {
          conn_info_map =
              put id (record info { pended_sends = info.pended_sends ++ buf }) s.conn_info_map;
        }))

  unfoldable pub tcp_send : ℕ → List ℕ → M EventHandler (Unit {0})
  tcp_send id buf = do found ← gets (λ s. find id s.conn_info_map); tcp_send_by id buf found

  unfoldable pub tcp_connected : ⦃lookup : Lookup⦄ → ℕ → TcpConnInfo → M EventHandler (Unit {0})
  tcp_connected id info = do on_system (log_tcp true id info); pure tt

  unfoldable pub tcp_closed : ⦃lookup : Lookup⦄ → ℕ → TcpConnInfo → M EventHandler (Unit {0})
  tcp_closed id info = do
    on_system (log_tcp false id info)
    modify (λ s. record s { conn_info_map = erase id s.conn_info_map })
