-- ===== src/Proxy/Threads/Ownership.antt =====
-- A task of netfilter/UDPProxy.cpp has, before each of its sections, certain OV_DATA objects in its
-- hands, and leaves alone what other threads hold.
pub mod Methods
use qv_plugin_netfilter.Base.{
  ℕ, Bool, true, false, Option, some, List, [], ◌∷◌, ◌++◌, ◌≡◌, refl, subst, sym, if◌then◌else◌,
}
use qv_plugin_netfilter.Base.State.{M, Triple}
use qv_plugin_netfilter.System.{
  SysCall, World, Os, perform, failed, bind_any, connect_ex, wsa_recv, wsa_recv_from, wsa_socket,
  close_socket, sock_stream, sock_dgram,
}
use qv_plugin_netfilter.System.Completions.{effect, Starts}
use qv_plugin_netfilter.System.Quiet.{Quiet, Quiet-perform}
use qv_plugin_netfilter.Iocp.{IocpService, post_completion}
use qv_plugin_netfilter.Proxy.Data.{
  OvType, ovt_connect, ovt_tcp_send, ovt_tcp_receive, ovt_udp_send, ovt_udp_receive, OvData,
}
use qv_plugin_netfilter.Proxy.Overlapped.{UdpProxy, outside, new_ov_data, delete_ov_data}
use qv_plugin_netfilter.Proxy.Receive.{UdpProxyHandler}
use qv_plugin_netfilter.Proxy.Ownership.{
  Tracked, Tracked-gets, Tracked-new, Tracked-delete, Tracked-outside, Tracked-start,
  Tracked-post_completion,
}
use qv_plugin_netfilter.Proxy.Ownership.Handlers.{
  IsQuiet, deliver-Quiet, udp_send-Tracked, negotiate_received-Tracked,
}
use qv_plugin_netfilter.Proxy.Ownership.Connections.{
  close_socket-Quiet, register_socket-Quiet, insert_connection-Tracked, greet_connected-Tracked,
  delete_proxy_connection-Tracked,
}
use qv_plugin_netfilter.Proxy.Threads.{Task, finished, section, atomic, ◌>>=◌}
use qv_plugin_netfilter.Proxy.Threads.Sections.{
  Call, creates, deletes, sends, completes, repost_task, start_connect_task, start_udp_receive_task,
  start_tcp_receive_task, open_connection_task, create_proxy_connection_task,
  on_connect_complete_task, on_tcp_receive_complete_task, on_udp_receive_complete_task,
  dispatch_task, sections,
}

-- From `mine` the section goes to what `left` says of its result, whatever the others hold.
abbrev pub Hands : {A : Type 0} → List ℕ → M UdpProxy A → (A → List ℕ) → Type 0
Hands mine m left =
    (others : List ℕ) → Triple (Tracked (mine ++ others)) m (λ a. Tracked (left a ++ others))

-- The objects in the hands of the task are `mine` now, and `left` when it has finished.
unfoldable pub Holds : {R : Type 0} → List ℕ → Task UdpProxy R → (R → List ℕ) → Type 0
Holds mine (finished a) left = left a ≡ mine
Holds mine (section {A} m k) left =
    (after : A → List ℕ) × Hands mine m after × ((a : A) → Holds (after a) (k a) left)

abbrev pub none_held : {R : Type 0} → R → List ℕ
none_held a = []

module _ {A : Type 0} where
  pub Holds-finished : (a : A) → Holds [] (finished a) none_held
  unfolding Holds
  Holds-finished a = refl

  pub Holds-atomic :
      (mine : List ℕ) (m : M UdpProxy A) (left : A → List ℕ)
      → Hands mine m left
      → Holds mine (atomic m) left
  unfolding Holds
  Holds-atomic mine m left h = (left, h, λ a. refl)

  pub Holds-if :
      (b : Bool) (mine : List ℕ) (t u : Task UdpProxy A) (left : A → List ℕ)
      → Holds mine t left
      → Holds mine u left
      → Holds mine (if b then t else u) left
  Holds-if true mine t u left ht hu = ht
  Holds-if false mine t u left ht hu = hu

module _ {A B : Type 0} where
  pub Holds-bind :
      (mine : List ℕ) (t : Task UdpProxy A) (f : A → Task UdpProxy B) (middle : A → List ℕ)
      (left : B → List ℕ)
      → Holds mine t middle
      → ((a : A) → Holds (middle a) (f a) left)
      → Holds mine (t >>= f) left
  unfolding ◌>>=◌ Holds
  Holds-bind mine (finished a) f middle left ht hf = subst (λ held. Holds held (f a) left) ht (hf a)
  Holds-bind mine (section m k) f middle left ht hf =
      (ht.0, ht.1, λ a. Holds-bind (ht.0 a) (k a) f middle left (ht.2 a) hf)

  -- The first section, and the rest.
  pub Holds-then :
      (mine : List ℕ) (m : M UdpProxy A) (f : A → Task UdpProxy B) (middle : A → List ℕ)
      (left : B → List ℕ)
      → Hands mine m middle
      → ((a : A) → Holds (middle a) (f a) left)
      → Holds mine (atomic m >>= f) left
  unfolding ◌>>=◌ Holds
  Holds-then mine m f middle left hm hf = (middle, hm, hf)

module _ ⦃os : Os⦄ where
  -- The call that starts an operation takes the object, unless it fails.
  pub start-Hands :
      (p : ℕ) (c : SysCall)
      → Starts p c
      → Hands (p ∷ []) (outside (perform c)) (λ r. if failed r then p ∷ [] else [])
  start-Hands p c n others = record {
    at = λ s t. if-append (failed (outside (perform c) s).0) _ ((Tracked-start p c n).at s t);
  }
    where
      if-append :
          (b : Bool) (s : UdpProxy)
          → Tracked (if b then p ∷ others else others) s
          → Tracked ((if b then p ∷ [] else []) ++ others) s
      if-append true s t = t
      if-append false s t = t

  post-Hands :
      (socket : ℕ) (pov : OvData) (service : IocpService)
      → Hands
          (pov.ptr ∷ [])
          (outside (post_completion socket 0 pov service))
          (λ posted. if posted then [] else pov.ptr ∷ [])
  post-Hands socket pov service others = record {
    at = λ s t.
        if-append (outside (post_completion socket 0 pov service) s).0 _
          ((Tracked-post_completion socket 0 pov service).at s t);
  }
    where
      if-append :
          (b : Bool) (s : UdpProxy)
          → Tracked (if b then others else pov.ptr ∷ others) s
          → Tracked ((if b then [] else pov.ptr ∷ []) ++ others) s
      if-append true s t = t
      if-append false s t = t

  -- What follows the start of an operation.
  pub started-Holds :
      {A : Type 0} (b : Bool) (p : ℕ) (t u : Task UdpProxy A)
      → Holds (p ∷ []) t none_held
      → Holds [] u none_held
      → Holds (if b then p ∷ [] else []) (if b then t else u) none_held
  started-Holds true p t u ht hu = ht
  started-Holds false p t u ht hu = hu

  pub repost_task-Holds :
      (socket : ℕ) (pov : OvData) → Holds (pov.ptr ∷ []) (repost_task socket pov) none_held
  unfolding repost_task
  repost_task-Holds socket pov =
      Holds-then (pov.ptr ∷ []) _ _ (λ _. pov.ptr ∷ []) none_held (λ others. Tracked-gets _)
        λ service.
          Holds-then (pov.ptr ∷ []) _ _ (λ posted. if posted then [] else pov.ptr ∷ []) none_held
            (post-Hands socket pov service) λ posted. posted_or_deleted posted
    where
      posted_or_deleted :
          (posted : Bool)
          → Holds
              (if posted then [] else pov.ptr ∷ [])
              (if posted then finished tt else atomic (delete_ov_data pov))
              none_held
      posted_or_deleted true = Holds-finished tt
      posted_or_deleted false =
          Holds-atomic (pov.ptr ∷ []) _ none_held (λ others. Tracked-delete pov)
