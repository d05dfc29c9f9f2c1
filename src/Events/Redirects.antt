-- ===== src/Events/Redirects.antt =====
-- tcpConnectRequest of netfilter/NFEventHandler.cpp.
use qv_plugin_netfilter.Base.{
  ℕ, ◌≡◌, refl, true, some, List, [], ◌∷◌, ◌==◌, if◌then◌else◌, arith, take, inl, inr, Bool-cases,
}
use qv_plugin_netfilter.Base.Map.{find, find-put}
use qv_plugin_netfilter.Base.State.{pure, gets, modify, ◌>>=◌}
use qv_plugin_netfilter.Events.Data.{TcpConnInfo}
use qv_plugin_netfilter.Events.Handler.{EventHandler, address_size}
use qv_plugin_netfilter.Events.Tcp.{bytes_equal, same_address, redirect, tcp_connect_request}

bytes_equal_refl : (xs : List ℕ) → bytes_equal xs xs ≡ true
bytes_equal_refl [] = refl
bytes_equal_refl (x ∷ xs) = ground (arith, bytes_equal_refl xs)

redirect-reaches :
    (proxy : List ℕ) (info : TcpConnInfo)
    → same_address
        (address_size (redirect proxy info).remote_address)
        (redirect proxy info).remote_address
        proxy
      ≡ true
unfolding redirect
redirect-reaches proxy info =
    elim (Bool-cases (same_address (address_size info.remote_address) info.remote_address proxy)) [
      | inl there ↦ rw there there
      | inr elsewhere ↦ rw elsewhere (bytes_equal_refl (take (address_size proxy) proxy))
    ]

redirect_there :
    (proxy : List ℕ) (info : TcpConnInfo)
    → same_address (address_size info.remote_address) info.remote_address proxy ≡ true
    → redirect proxy info ≡ info
unfolding redirect
redirect_there proxy info there = rw there refl

pub tcp_connect_request-redirects :
    (id j : ℕ) (info : TcpConnInfo) (s : EventHandler)
    → (same_address
          (address_size (tcp_connect_request id info s).0.remote_address)
          (tcp_connect_request id info s).0.remote_address
          s.proxy_address
        ≡ true)
      × (find j (tcp_connect_request id info s).1.conn_info_map ≡ (
          if id == j
          then some (record { remote_address = info.remote_address; pended_sends = [] })
          else find j s.conn_info_map))
      × ((tcp_connect_request id
            (tcp_connect_request id info s).0
            (tcp_connect_request id info s).1).0
          ≡ (tcp_connect_request id info s).0)
unfolding tcp_connect_request ◌>>=◌ gets modify pure
tcp_connect_request-redirects id j info s = (
  redirect-reaches s.proxy_address info,
  find-put id j _ s.conn_info_map,
  redirect_there s.proxy_address (redirect s.proxy_address info)
      (redirect-reaches s.proxy_address info),
)
