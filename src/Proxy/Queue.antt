-- ===== src/Proxy/Queue.antt =====
-- The datagrams of the UDP proxy of netfilter/UDPProxy.cpp: those that wait for the relay, and those
-- that were handed to the system. Here: the calls that change neither the connections nor these.
pub mod Transmit
pub mod Drain
pub mod Waiting
pub mod Refused
use qv_plugin_netfilter.Base.{ℕ, ◌≡◌, refl, sym, ap₂, ap, List, Option, none, some}
use qv_plugin_netfilter.Base.Map.{Map}
use qv_plugin_netfilter.Base.State.{
  M, Keeps, Keeps-pure, Keeps-gets, Keeps-if, Keeps-bind, pure, gets, modify, ◌>>=◌,
}
use qv_plugin_netfilter.System.{
  SysCall, World, Os, perform, wsa_send, wsa_recv, wsa_recv_from, post_queued,
}
use qv_plugin_netfilter.System.Sent.{Datagrams, note, sent, IsSilent}
use qv_plugin_netfilter.Iocp.{IocpService, post_completion}
use qv_plugin_netfilter.Proxy.Data.{OvType, OvData, ProxyData}
use qv_plugin_netfilter.Proxy.Overlapped.{
  UdpProxy, outside, new_ov_data, delete_ov_data, repost, receive_object, start_udp_receive,
  start_tcp_receive, start_tcp_send,
}

-- What the theorems about datagrams observe.
abbrev pub view : UdpProxy → Map ProxyData × Datagrams
view s = (s.socket_map, sent s.world.trace)

pub outside-Keeps :
    {A : Type 0} {m : M World A} → Keeps (λ w. sent w.trace) m → Keeps view (outside m)
unfolding outside
outside-Keeps k = record { same = λ s. ap (λ x. (s.socket_map, x)) (k.same s.world) }

pub new_ov_data-Keeps : Keeps view new_ov_data
unfolding new_ov_data
new_ov_data-Keeps = record { same = λ s. refl }

pub delete_ov_data-Keeps : (pov : OvData) → Keeps view (delete_ov_data pov)
unfolding delete_ov_data modify
delete_ov_data-Keeps pov = record { same = λ s. refl }

module _ ⦃os : Os⦄ where
  pub perform-Keeps : (c : SysCall) → IsSilent c → Keeps (λ w. sent w.trace) (perform c)
  unfolding perform sent
  perform-Keeps c n = record { same = λ w. n (sent w.trace) }

  post_completion-Keeps :
      (socket transferred : ℕ) (pov : OvData) (service : IocpService)
      → Keeps (λ w. sent w.trace) (post_completion socket transferred pov service)
  unfolding post_completion note
  post_completion-Keeps socket transferred pov service =
      Keeps-bind (perform-Keeps (post_queued _ _ _ _) λ b. refl) λ r. Keeps-pure _

  pub repost-Keeps : (socket : ℕ) (pov : OvData) → Keeps view (repost socket pov)
  unfolding repost
  repost-Keeps socket pov = Keeps-bind (Keeps-gets _) λ service.
      Keeps-bind (outside-Keeps (post_completion-Keeps socket 0 pov service))
        λ posted. Keeps-if posted (Keeps-pure tt) (delete_ov_data-Keeps pov)

  receive_object-Keeps :
      (t : OvType) (id : ℕ) (given : Option OvData) → Keeps view (receive_object t id given)
  unfolding receive_object
  receive_object-Keeps t id none = Keeps-bind new_ov_data-Keeps λ fresh. Keeps-pure _
  receive_object-Keeps t id (some pov) = Keeps-pure pov

  pub start_udp_receive-Keeps :
      (socket id : ℕ) (given : Option OvData) → Keeps view (start_udp_receive socket id given)
  unfolding start_udp_receive note
  start_udp_receive-Keeps socket id given = Keeps-bind (receive_object-Keeps _ id given) λ pov.
      Keeps-bind (outside-Keeps (perform-Keeps (wsa_recv_from _ _) λ b. refl))
        λ r. Keeps-if _ (Keeps-bind (repost-Keeps socket _) λ _. Keeps-pure _) (Keeps-pure _)

  pub start_tcp_receive-Keeps :
      (socket id : ℕ) (given : Option OvData) → Keeps view (start_tcp_receive socket id given)
  unfolding start_tcp_receive note
  start_tcp_receive-Keeps socket id given = Keeps-bind (receive_object-Keeps _ id given) λ pov.
      Keeps-bind (outside-Keeps (perform-Keeps (wsa_recv _ _) λ b. refl))
        λ r. Keeps-if _ (Keeps-bind (repost-Keeps socket _) λ _. Keeps-pure _) (Keeps-pure _)

  pub start_tcp_send-Keeps :
      (socket : ℕ) (buf : List ℕ) (id : ℕ) → Keeps view (start_tcp_send socket buf id)
  unfolding start_tcp_send note
  start_tcp_send-Keeps socket buf id = Keeps-bind new_ov_data-Keeps λ fresh.
      Keeps-bind (outside-Keeps (perform-Keeps (wsa_send _ _) λ b. refl))
        λ r. Keeps-if _ (Keeps-bind (repost-Keeps socket _) λ _. Keeps-pure _) (Keeps-pure _)
