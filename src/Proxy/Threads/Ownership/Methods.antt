-- ===== src/Proxy/Threads/Ownership/Methods.antt =====
-- The sections of each method of netfilter/UDPProxy.cpp, one after the other, with what they hold.
use qv_plugin_netfilter.Base.{◌≡◌, ℕ, List, [], ◌∷◌, ◌++◌, refl, if◌then◌else◌}
use qv_plugin_netfilter.Base.State.{M, Triple, gets, modify}
use qv_plugin_netfilter.System.{
  World, Os, failed, bind_any, connect_ex, wsa_recv, wsa_recv_from, wsa_socket, get_extension,
  sock_stream, sock_dgram,
}
use qv_plugin_netfilter.System.Completions.{effect}
use qv_plugin_netfilter.System.Quiet.{Quiet, Quiet-perform}
use qv_plugin_netfilter.Proxy.Data.{
  OvType, ovt_connect, ovt_tcp_send, ovt_tcp_receive, ovt_udp_send, ovt_udp_receive, OvData,
}
use qv_plugin_netfilter.Proxy.Overlapped.{UdpProxy, outside, new_ov_data, delete_ov_data}
use qv_plugin_netfilter.Proxy.Receive.{UdpProxyHandler, delete_proxy_connection}
use qv_plugin_netfilter.Proxy.Ownership.{
  Tracked, Tracked-gets, Tracked-new, Tracked-delete, Tracked-outside, Tracked-modify,
}
use qv_plugin_netfilter.Proxy.Ownership.Handlers.{
  IsQuiet, deliver-Quiet, udp_send-Tracked, negotiate_received-Tracked,
}
use qv_plugin_netfilter.Proxy.Ownership.Connections.{
  close_socket-Quiet, register_socket-Quiet, insert_connection-Tracked, greet_connected-Tracked,
  init_service-Tracked, delete_proxy_connection-Tracked,
}
use qv_plugin_netfilter.Proxy.Threads.{Task, atomic, ◌>>=◌}
use qv_plugin_netfilter.Proxy.Threads.Sections.{
  Call, initialises, frees, init_extensions_task, init_task, creates, deletes, sends, completes,
  start_connect_task, start_udp_receive_task, start_tcp_receive_task, open_connection_task,
  create_proxy_connection_task, on_connect_complete_task, on_tcp_receive_complete_task,
  on_udp_receive_complete_task, dispatch_task, sections,
}
use qv_plugin_netfilter.Proxy.Threads.Ownership.{
  Holds, none_held, Holds-atomic, Holds-if, Holds-finished, Holds-bind, Holds-then, start-Hands,
  started-Holds, repost_task-Holds,
}

-- A section that has the objects before and after.
abbrev KeepsTracked : {A : Type 0} → M UdpProxy A → Type 0
KeepsTracked m = (held : List ℕ) → Triple (Tracked held) m (λ _. Tracked held)

module _ {A B : Type 0} where
  Holds-keeps :
      (mine : List ℕ) (m : M UdpProxy A) (f : A → Task UdpProxy B) (left : B → List ℕ)
      → KeepsTracked m
      → ((a : A) → Holds mine (f a) left)
      → Holds mine (atomic m >>= f) left
  Holds-keeps mine m f left hm hf =
      Holds-then mine m f (λ _. mine) left (λ others. hm (mine ++ others)) hf

module _ {A : Type 0} where
  atomic-keeps : (m : M UdpProxy A) → KeepsTracked m → Holds [] (atomic m) none_held
  atomic-keeps m hm = Holds-atomic [] m none_held (λ others. hm others)

module _ {A : Type 0} where
  outside-keeps : {m : M World A} → Quiet m → KeepsTracked (outside m)
  outside-keeps q held = Tracked-outside q

  gets-keeps : (f : UdpProxy → A) → KeepsTracked (gets f)
  gets-keeps f held = Tracked-gets f

modify-keeps :
    (f : UdpProxy → UdpProxy)
    → ((s : UdpProxy) → (f s).ov_data_set ≡ s.ov_data_set)
    → ((s : UdpProxy) → (f s).world ≡ s.world)
    → KeepsTracked (modify f)
modify-keeps f e e' held = Tracked-modify f e e'

module _ ⦃os : Os⦄ where
  delete-Holds : (pov : OvData) → Holds (pov.ptr ∷ []) (atomic (delete_ov_data pov)) none_held
  delete-Holds pov = Holds-atomic (pov.ptr ∷ []) _ none_held (λ others. Tracked-delete pov)

  start_connect_task-Holds :
      (socket : ℕ) (addr : List ℕ) (addr_len id : ℕ)
      → Holds [] (start_connect_task socket addr addr_len id) none_held
  unfolding start_connect_task effect
  start_connect_task-Holds socket addr addr_len id =
      Holds-then [] new_ov_data _ (λ pov. pov.ptr ∷ []) none_held (λ others. Tracked-new)
        λ fresh.
          Holds-keeps (fresh.ptr ∷ []) _ _ none_held
            (outside-keeps (Quiet-perform (bind_any socket) λ r ps. refl))
            λ _.
              Holds-then (fresh.ptr ∷ []) _ _ (λ r. if failed r then fresh.ptr ∷ [] else [])
                none_held (start-Hands fresh.ptr (connect_ex socket addr addr_len _) λ r ps. refl)
                λ r.
                  started-Holds (failed r) fresh.ptr _ _
                    (Holds-bind (fresh.ptr ∷ []) _ _ none_held none_held (delete-Holds _)
                      λ _. Holds-finished _)
                    (Holds-finished _)

  start_udp_receive_task-Holds :
      (socket : ℕ) (pov : OvData)
      → Holds (pov.ptr ∷ []) (start_udp_receive_task socket pov) none_held
  unfolding start_udp_receive_task effect
  start_udp_receive_task-Holds socket pov =
      Holds-then (pov.ptr ∷ []) _ _ (λ r. if failed r then pov.ptr ∷ [] else []) none_held
        (start-Hands pov.ptr (wsa_recv_from socket _) λ r ps. refl)
        λ r.
          started-Holds (failed r) pov.ptr _ _
            (Holds-bind (pov.ptr ∷ []) _ _ none_held none_held (repost_task-Holds socket _)
              λ _. Holds-finished _)
            (Holds-finished _)

  start_tcp_receive_task-Holds :
      (socket : ℕ) (pov : OvData)
      → Holds (pov.ptr ∷ []) (start_tcp_receive_task socket pov) none_held
  unfolding start_tcp_receive_task effect
  start_tcp_receive_task-Holds socket pov =
      Holds-then (pov.ptr ∷ []) _ _ (λ r. if failed r then pov.ptr ∷ [] else []) none_held
        (start-Hands pov.ptr (wsa_recv socket _) λ r ps. refl)
        λ r.
          started-Holds (failed r) pov.ptr _ _
            (Holds-bind (pov.ptr ∷ []) _ _ none_held none_held (repost_task-Holds socket _)
              λ _. Holds-finished _)
            (Holds-finished _)

  open_connection_task-Holds :
      (id tcp_socket udp_socket : ℕ)
      → Holds [] (open_connection_task id tcp_socket udp_socket) none_held
  unfolding open_connection_task
  open_connection_task-Holds id tcp_socket udp_socket =
      Holds-keeps [] _ _ none_held (λ held. insert_connection-Tracked held id tcp_socket udp_socket)
        λ _. Holds-keeps [] _ _ none_held (gets-keeps _) λ service.
          Holds-keeps [] _ _ none_held (outside-keeps (register_socket-Quiet tcp_socket service))
            λ tcp_ok.
              Holds-if tcp_ok [] _ _ none_held
                (Holds-keeps [] _ _ none_held
                  (outside-keeps (register_socket-Quiet udp_socket service))
                  λ udp_ok.
                    Holds-if udp_ok [] _ _ none_held
                      (Holds-keeps [] _ _ none_held (gets-keeps _) λ address.
                        Holds-keeps [] _ _ none_held (gets-keeps _)
                          λ address_len. start_connect_task-Holds tcp_socket address address_len id)
                      (Holds-finished _))
                (Holds-finished _)

  deleting-Holds : (id : ℕ) → Holds [] (atomic (delete_proxy_connection id)) none_held
  deleting-Holds id = atomic-keeps _ (λ held. delete_proxy_connection-Tracked held id)

  create_proxy_connection_task-Holds :
      (id : ℕ) → Holds [] (create_proxy_connection_task id) none_held
  unfolding create_proxy_connection_task effect
  create_proxy_connection_task-Holds id =
      Holds-keeps [] _ _ none_held
        (outside-keeps (Quiet-perform (wsa_socket sock_stream) λ r ps. refl))
        λ tcp. Holds-if _ [] _ _ none_held (Holds-finished _) (
          Holds-keeps [] _ _ none_held
            (outside-keeps (Quiet-perform (wsa_socket sock_dgram) λ r ps. refl))
            λ udp.
              Holds-if _ [] _ _ none_held
                (Holds-keeps [] _ _ none_held (outside-keeps (close_socket-Quiet tcp))
                  λ _. Holds-finished _)
                (Holds-bind [] _ _ none_held none_held (open_connection_task-Holds id tcp udp)
                  λ result. Holds-if result [] _ _ none_held (Holds-finished _) (
                    Holds-bind [] _ _ none_held none_held (deleting-Holds id)
                      λ _. Holds-finished _)))

  on_connect_complete_task-Holds :
      (socket : ℕ) (pov : OvData) (error : ℕ)
      → Holds (pov.ptr ∷ []) (on_connect_complete_task socket pov error) none_held
  unfolding on_connect_complete_task
  on_connect_complete_task-Holds socket pov error =
      Holds-if _ (pov.ptr ∷ []) _ _ none_held
        (Holds-atomic (pov.ptr ∷ []) _ none_held
          (λ others. greet_connected-Tracked others socket pov))
        (Holds-keeps (pov.ptr ∷ []) _ _ none_held
          (λ held. delete_proxy_connection-Tracked held pov.id) λ _. delete-Holds pov)

  on_tcp_receive_complete_task-Holds :
      (socket transferred : ℕ) (pov : OvData)
      → Holds (pov.ptr ∷ []) (on_tcp_receive_complete_task socket transferred pov) none_held
  unfolding on_tcp_receive_complete_task
  on_tcp_receive_complete_task-Holds socket transferred pov =
      Holds-if _ (pov.ptr ∷ []) _ _ none_held (delete-Holds pov) (
        Holds-keeps (pov.ptr ∷ []) _ _ none_held
          (λ held. negotiate_received-Tracked held transferred pov)
          λ _.
            Holds-bind (pov.ptr ∷ []) _ _ none_held none_held
              (start_tcp_receive_task-Holds socket pov) λ _. Holds-finished _)

  init_extensions_task-Holds : Holds [] init_extensions_task none_held
  unfolding init_extensions_task effect
  init_extensions_task-Holds =
      Holds-keeps [] _ _ none_held
        (outside-keeps (Quiet-perform (wsa_socket sock_stream) λ r ps. refl))
        λ s. Holds-if _ [] _ _ none_held (Holds-finished _) (
          Holds-keeps [] _ _ none_held
            (outside-keeps (Quiet-perform (get_extension s) λ r ps. refl))
            λ p. Holds-keeps [] _ _ none_held (modify-keeps _ (λ s. refl) (λ s. refl)) λ _.
              Holds-keeps [] _ _ none_held (outside-keeps (close_socket-Quiet s))
                λ _. Holds-finished _)

  init_task-Holds :
      (self : ℕ) (address : List ℕ) (len : ℕ) (user pass : List ℕ)
      → Holds [] (init_task self address len user pass) none_held
  unfolding init_task
  init_task-Holds self address len user pass =
      Holds-bind [] _ _ none_held none_held init_extensions_task-Holds λ loaded.
        Holds-if loaded [] _ _ none_held
          (Holds-keeps [] _ _ none_held (λ held. init_service-Tracked held self)
            λ started.
              Holds-if started [] _ _ none_held
                (Holds-keeps [] _ _ none_held (modify-keeps _ (λ s. refl) (λ s. refl))
                  λ _. Holds-finished _)
                (Holds-finished _))
          (Holds-finished _)

-- No thread is in free.
abbrev pub IsNotFree : Call → Type 0
IsNotFree frees = ⊥
IsNotFree _ = Unit

-- A completion brings its object; the calls of the client bring none.
abbrev pub brought : Call → List ℕ
brought (initialises self address len user pass) = []
brought frees = []
brought (creates id) = []
brought (deletes id) = []
brought (sends id buf addr addr_len) = []
brought (completes socket transferred pov error) = pov.ptr ∷ []

module _ ⦃os : Os⦄ {h : UdpProxyHandler} (q : IsQuiet h) where
  on_udp_receive_complete_task-Holds :
      (socket transferred : ℕ) (pov : OvData)
      → Holds (pov.ptr ∷ []) (on_udp_receive_complete_task h socket transferred pov) none_held
  unfolding on_udp_receive_complete_task
  on_udp_receive_complete_task-Holds socket transferred pov =
      Holds-if _ (pov.ptr ∷ []) _ _ none_held (delete-Holds pov) (
        Holds-keeps (pov.ptr ∷ []) _ _ none_held
          (outside-keeps (deliver-Quiet h transferred pov.id pov.buffer q))
          λ _.
            Holds-bind (pov.ptr ∷ []) _ _ none_held none_held
              (start_udp_receive_task-Holds socket pov) λ _. Holds-finished _)

  dispatch_task-Holds :
      (t : OvType) (socket transferred : ℕ) (pov : OvData) (error : ℕ)
      → Holds (pov.ptr ∷ []) (dispatch_task h t socket transferred pov error) none_held
  unfolding dispatch_task
  dispatch_task-Holds ovt_udp_send socket transferred pov error = delete-Holds pov
  dispatch_task-Holds ovt_udp_receive socket transferred pov error =
      on_udp_receive_complete_task-Holds socket transferred pov
  dispatch_task-Holds ovt_connect socket transferred pov error =
      on_connect_complete_task-Holds socket pov error
  dispatch_task-Holds ovt_tcp_send socket transferred pov error = delete-Holds pov
  dispatch_task-Holds ovt_tcp_receive socket transferred pov error =
      on_tcp_receive_complete_task-Holds socket transferred pov

  pub sections-Holds : (c : Call) → IsNotFree c → Holds (brought c) (sections h c) none_held
  unfolding sections
  sections-Holds (initialises self address len user pass) n =
      Holds-bind [] _ _ none_held none_held (init_task-Holds self address len user pass)
        λ _. Holds-finished _
  sections-Holds frees n = absurd n
  sections-Holds (creates id) n =
      Holds-bind [] _ _ none_held none_held (create_proxy_connection_task-Holds id)
        λ _. Holds-finished _
  sections-Holds (deletes id) n = deleting-Holds id
  sections-Holds (sends id buf addr addr_len) n =
      Holds-keeps [] _ _ none_held (λ held. udp_send-Tracked held id buf addr addr_len)
        λ _. Holds-finished _
  sections-Holds (completes socket transferred pov error) n =
      dispatch_task-Holds pov.ov_type socket transferred pov error
