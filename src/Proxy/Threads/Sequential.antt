-- ===== src/Proxy/Threads/Sequential.antt =====
-- The sections of a method of netfilter/UDPProxy.cpp, one after the other, are the method.
use qv_plugin_netfilter.Base.{ℕ, Bool, true, false, some, List, ◌≡◌, refl, ◌∙◌, ap, if◌then◌else◌}
use qv_plugin_netfilter.Base.State.{M, pure, gets, modify}
use qv_plugin_netfilter.Base.State
use qv_plugin_netfilter.System.{Os}
use qv_plugin_netfilter.Proxy.Data.{
  OvType, ovt_connect, ovt_tcp_send, ovt_tcp_receive, ovt_udp_send, ovt_udp_receive, OvData,
}
use qv_plugin_netfilter.Proxy.Overlapped.{
  UdpProxy, outside, repost, receive_object, start_connect, start_udp_receive, start_tcp_receive,
}
use qv_plugin_netfilter.Proxy.Send.{udp_send}
use qv_plugin_netfilter.Proxy.Handshake.{negotiate_received, on_tcp_receive_complete}
use qv_plugin_netfilter.Proxy.Receive.{
  UdpProxyHandler, delete_proxy_connection, on_connect_complete, on_udp_receive_complete,
}
use qv_plugin_netfilter.Proxy.Connections.{
  init_extensions, init, free, open_connection, create_proxy_connection, dispatch, on_complete,
}
use qv_plugin_netfilter.Proxy.Threads.{Task, finished, section, atomic, ◌>>=◌, run, Runs}
use qv_plugin_netfilter.Proxy.Threads.Sections.{
  Call, initialises, frees, init_extensions_task, init_task, free_task, creates, deletes, sends,
  completes, repost_task, start_connect_task, start_udp_receive_task, start_tcp_receive_task,
  open_connection_task, create_proxy_connection_task, on_connect_complete_task,
  on_tcp_receive_complete_task, on_udp_receive_complete_task, dispatch_task, sections,
}

module _ {S A : Type 0} where
  pub Runs-finished : (a : A) → Runs {S = S} (finished a) (pure a)
  unfolding run pure
  Runs-finished a = record { same = λ s. refl }

  pub Runs-atomic : (m : M S A) → Runs (atomic m) m
  unfolding run
  Runs-atomic m = record { same = λ s. refl }

  pub Runs-if :
      (b : Bool) {t u : Task S A} {m n : M S A}
      → Runs t m
      → Runs u n
      → Runs (if b then t else u) (if b then m else n)
  Runs-if true ht hu = ht
  Runs-if false ht hu = hu

module _ {S A B : Type 0} where
  run-bind :
      (t : Task S A) (f : A → Task S B) (s : S)
      → run (t >>= f) s ≡ State.◌>>=◌ (run t) (λ a. run (f a)) s
  unfolding run ◌>>=◌ State.◌>>=◌
  run-bind (finished a) f s = refl
  run-bind (section m k) f s = run-bind (k (m s).0) f (m s).1

  pub Runs-bind :
      {t : Task S A} {m : M S A} {f : A → Task S B} {g : A → M S B}
      → Runs t m
      → ((a : A) → Runs (f a) (g a))
      → Runs (t >>= f) (State.◌>>=◌ m g)
  unfolding State.◌>>=◌
  Runs-bind {t} {m} {f} {g} ht hf = record {
    same = λ s.
        run-bind t f s
        ∙ (hf (run t s).0).same (run t s).1
        ∙ ap (λ (p : A × S). g p.0 p.1) (ht.same s);
  }

module _ ⦃os : Os⦄ where
  repost_task-Runs : (socket : ℕ) (pov : OvData) → Runs (repost_task socket pov) (repost socket pov)
  unfolding repost_task repost
  repost_task-Runs socket pov = Runs-bind (Runs-atomic _) λ service.
      Runs-bind (Runs-atomic _) λ posted. Runs-if posted (Runs-finished tt) (Runs-atomic _)

  start_connect_task-Runs :
      (socket : ℕ) (addr : List ℕ) (addr_len id : ℕ)
      → Runs (start_connect_task socket addr addr_len id) (start_connect socket addr addr_len id)
  unfolding start_connect_task start_connect
  start_connect_task-Runs socket addr addr_len id = Runs-bind (Runs-atomic _) λ fresh.
      Runs-bind (Runs-atomic _) λ _.
        Runs-bind (Runs-atomic _)
          λ r. Runs-if _ (Runs-bind (Runs-atomic _) λ _. Runs-finished false) (Runs-finished true)

  pub start_udp_receive_task-Runs :
      (socket id : ℕ) (pov : OvData)
      → Runs (start_udp_receive_task socket pov) (start_udp_receive socket id (some pov))
  unfolding start_udp_receive_task start_udp_receive receive_object pure State.◌>>=◌
  start_udp_receive_task-Runs socket id pov = record {
    same =
        (Runs-bind (Runs-atomic _) λ r.
          Runs-if _ (Runs-bind (repost_task-Runs socket _) λ _. Runs-finished true)
            (Runs-finished true)).same;
  }

  start_tcp_receive_task-Runs :
      (socket id : ℕ) (pov : OvData)
      → Runs (start_tcp_receive_task socket pov) (start_tcp_receive socket id (some pov))
  unfolding start_tcp_receive_task start_tcp_receive receive_object pure State.◌>>=◌
  start_tcp_receive_task-Runs socket id pov = record {
    same =
        (Runs-bind (Runs-atomic _) λ r.
          Runs-if _ (Runs-bind (repost_task-Runs socket _) λ _. Runs-finished true)
            (Runs-finished true)).same;
  }

  -- The address of the proxy does not change, so it does not matter when it is read.
  start_connect_task_at-Runs :
      (socket id : ℕ)
      → Runs
          (atomic (gets (λ s. s.proxy_address)) >>= λ address.
            atomic (gets (λ s. s.proxy_address_len)) >>= λ address_len.
            start_connect_task socket address address_len id)
          (λ s. start_connect socket s.proxy_address s.proxy_address_len id s)
  unfolding gets State.◌>>=◌
  start_connect_task_at-Runs socket id = record {
    same =
        (Runs-bind (Runs-atomic (gets (λ s. s.proxy_address))) λ address.
          Runs-bind (Runs-atomic (gets (λ s. s.proxy_address_len)))
            λ address_len. start_connect_task-Runs socket address address_len id).same;
  }

  open_connection_task-Runs :
      (id tcp_socket udp_socket : ℕ)
      → Runs
          (open_connection_task id tcp_socket udp_socket)
          (open_connection id tcp_socket udp_socket)
  unfolding open_connection_task open_connection
  open_connection_task-Runs id tcp_socket udp_socket = Runs-bind (Runs-atomic _) λ _.
      Runs-bind (Runs-atomic _) λ service. Runs-bind (Runs-atomic _) λ tcp_ok.
        Runs-if tcp_ok
          (Runs-bind (Runs-atomic _) λ udp_ok.
            Runs-if udp_ok (start_connect_task_at-Runs tcp_socket id) (Runs-finished false))
          (Runs-finished false)

  pub create_proxy_connection_task-Runs :
      (id : ℕ) → Runs (create_proxy_connection_task id) (create_proxy_connection id)
  unfolding create_proxy_connection_task create_proxy_connection
  create_proxy_connection_task-Runs id = Runs-bind (Runs-atomic _) λ tcp.
      Runs-if _ (Runs-finished false) (
        Runs-bind (Runs-atomic _) λ udp.
          Runs-if _ (Runs-bind (Runs-atomic _) λ _. Runs-finished false) (
            Runs-bind (open_connection_task-Runs id tcp udp) λ result.
              Runs-if result (Runs-finished true)
                (Runs-bind (Runs-atomic _) λ _. Runs-finished false)))

module _ ⦃os : Os⦄ where
  pub on_connect_complete_task-Runs :
      (socket transferred : ℕ) (pov : OvData) (error : ℕ)
      → Runs
          (on_connect_complete_task socket pov error)
          (on_connect_complete socket transferred pov error)
  unfolding on_connect_complete_task on_connect_complete
  on_connect_complete_task-Runs socket transferred pov error =
      Runs-if _ (Runs-atomic _) (Runs-bind (Runs-atomic _) λ _. Runs-atomic _)

  pub on_tcp_receive_complete_task-Runs :
      (socket transferred : ℕ) (pov : OvData)
      → Runs
          (on_tcp_receive_complete_task socket transferred pov)
          (on_tcp_receive_complete socket transferred pov)
  unfolding on_tcp_receive_complete_task on_tcp_receive_complete negotiate_received State.◌>>=◌
  on_tcp_receive_complete_task-Runs socket transferred pov = Runs-if _ (Runs-atomic _) (record {
    same =
        (Runs-bind (Runs-atomic (negotiate_received transferred pov)) λ _.
          Runs-bind (start_tcp_receive_task-Runs socket pov.id pov) λ _. Runs-finished tt).same;
  })

module _ ⦃os : Os⦄ where
  init_extensions_task-Runs : Runs init_extensions_task init_extensions
  unfolding init_extensions_task init_extensions
  init_extensions_task-Runs = Runs-bind (Runs-atomic _) λ s. Runs-if _ (Runs-finished false) (
      Runs-bind (Runs-atomic _)
        λ p. Runs-bind (Runs-atomic _) λ _. Runs-bind (Runs-atomic _) λ _. Runs-finished _)

  init_task-Runs :
      (self : ℕ) (address : List ℕ) (len : ℕ) (user pass : List ℕ)
      → Runs (init_task self address len user pass) (init self address len user pass)
  unfolding init_task init
  init_task-Runs self address len user pass = Runs-bind init_extensions_task-Runs λ loaded.
      Runs-if loaded
        (Runs-bind (Runs-atomic _) λ started.
          Runs-if started (Runs-bind (Runs-atomic _) λ _. Runs-finished true) (Runs-finished false))
        (Runs-finished false)

  free_task-Runs : Runs free_task free
  unfolding free_task free run ◌>>=◌ State.◌>>=◌ modify gets outside
  free_task-Runs = record { same = λ s. refl }

module _ ⦃os : Os⦄ (h : UdpProxyHandler) where
  on_udp_receive_complete_task-Runs :
      (socket transferred : ℕ) (pov : OvData)
      → Runs
          (on_udp_receive_complete_task h socket transferred pov)
          (on_udp_receive_complete h socket transferred pov)
  unfolding on_udp_receive_complete_task on_udp_receive_complete
  on_udp_receive_complete_task-Runs socket transferred pov = Runs-if _ (Runs-atomic _) (
      Runs-bind (Runs-atomic _)
        λ _. Runs-bind (start_udp_receive_task-Runs socket pov.id pov) λ _. Runs-finished tt)

  dispatch_task-Runs :
      (t : OvType) (socket transferred : ℕ) (pov : OvData) (error : ℕ)
      → Runs
          (dispatch_task h t socket transferred pov error)
          (dispatch h t socket transferred pov error)
  unfolding dispatch_task dispatch
  dispatch_task-Runs ovt_udp_send socket transferred pov error = Runs-atomic _
  dispatch_task-Runs ovt_udp_receive socket transferred pov error =
      on_udp_receive_complete_task-Runs socket transferred pov
  dispatch_task-Runs ovt_connect socket transferred pov error =
      on_connect_complete_task-Runs socket transferred pov error
  dispatch_task-Runs ovt_tcp_send socket transferred pov error = Runs-atomic _
  dispatch_task-Runs ovt_tcp_receive socket transferred pov error =
      on_tcp_receive_complete_task-Runs socket transferred pov

  -- The method that a call names, with its result left out.
  unfoldable pub execute : Call → M UdpProxy (Unit {0})
  execute (initialises self address len user pass) s = (tt, (init self address len user pass s).1)
  execute frees s = free s
  execute (creates id) s = (tt, (create_proxy_connection id s).1)
  execute (deletes id) s = delete_proxy_connection id s
  execute (sends id buf addr addr_len) s = (tt, (udp_send id buf addr addr_len s).1)
  execute (completes socket transferred pov error) s = on_complete h socket transferred pov error s

  sections-Runs : (c : Call) → Runs (sections h c) (execute c)
  unfolding sections execute on_complete State.◌>>=◌ pure
  sections-Runs (initialises self address len user pass) = record {
    same = (Runs-bind (init_task-Runs self address len user pass) λ _. Runs-finished tt).same;
  }
  sections-Runs frees = record { same = free_task-Runs.same }
  sections-Runs (creates id) = record {
    same = (Runs-bind (create_proxy_connection_task-Runs id) λ _. Runs-finished tt).same;
  }
  sections-Runs (deletes id) = record { same = (Runs-atomic (delete_proxy_connection id)).same }
  sections-Runs (sends id buf addr addr_len) = record {
    same = (Runs-bind (Runs-atomic (udp_send id buf addr addr_len)) λ _. Runs-finished tt).same;
  }
  sections-Runs (completes socket transferred pov error) = record {
    same = (dispatch_task-Runs pov.ov_type socket transferred pov error).same;
  }

  -- Run with no other thread between them, the sections of a call change the proxy and the world as
  -- the whole method does, whichever branch it takes.
  pub run-sections : (c : Call) (s : UdpProxy) → run (sections h c) s ≡ execute c s
  run-sections c = (sections-Runs c).same
