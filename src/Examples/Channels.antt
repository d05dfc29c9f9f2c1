-- ===== src/Examples/Channels.antt =====
-- An endpoint whose datagrams wait while the relay is asked for, and go out when it is granted.
use qv_plugin_netfilter.Base.{
  ◌<◌, ◌≡◌, ◌≢◌, refl, inl, inr, sym, ap, ◌∙◌, List, [], ◌∷◌, ◌++◌, arith, count,
}
use qv_plugin_netfilter.Base.Map.{find, put}
use qv_plugin_netfilter.Base.State.{Keeps-pure, ◌>>=◌, pure, gets, modify}
use qv_plugin_netfilter.Socks.{response_at, response_ipv4_at}
use qv_plugin_netfilter.System.{wsa_recv, dequeued, perform}
use qv_plugin_netfilter.System.Completions.{effect, in_flight}
use qv_plugin_netfilter.System.Sent.{sent}
use qv_plugin_netfilter.Proxy.Data.{ProxyData, ps_udp_assoc}
use qv_plugin_netfilter.Proxy.Overlapped.{UdpProxy, outside}
use qv_plugin_netfilter.Proxy.Send.{enqueue, udp_send, udp_send_by}
use qv_plugin_netfilter.Proxy.Handshake.{relay_address}
use qv_plugin_netfilter.Proxy.Connections.{dispatch, on_complete}
use qv_plugin_netfilter.Proxy.Queue.Drain.{on_tcp_receive_complete-Sends}
use qv_plugin_netfilter.Proxy.Worker.{complete}
use qv_plugin_netfilter.Proxy.Ownership.History.{Reach, here, next, sends, completes}
use qv_plugin_netfilter.Proxy.Isolation.{slot}
use qv_plugin_netfilter.Proxy.Channel.{Action, closed, ready, channel, channels}
use qv_plugin_netfilter.Proxy.Channel.Answers.{IsMute}
use qv_plugin_netfilter.Proxy.Channel.History.{
  IsOrderly, AreOrderly, MeanAll, run, emitted, Reach-run,
}
use qv_plugin_netfilter.Proxy.Channel.Live.{Answered, Expected, IsAnswer, Reach-Answered}
use qv_plugin_netfilter.Proxy.Channel.Balance.{to}
use qv_plugin_netfilter.Proxy.Progress.{rank}
use qv_plugin_netfilter.Proxy.Progress.History.{IsLater}
use qv_plugin_netfilter.Proxy.Progress.Answers.{Accepts, Fits, stride}
use qv_plugin_netfilter.Proxy.Channel.Fifo.{
  Unmade, NeverMade, all_handed, committed, Reach-committed,
}
use qv_plugin_netfilter.Examples.Setting.{willing, deaf, resolver, proxy_address}
use qv_plugin_netfilter.Examples.Datagrams.{waiting, waiting_proxy, granted, relay}

-- The proxy of that connection, while its answer is to come.
abbrev asked : UdpProxy
asked = record waiting_proxy {
  world = record {
    trace = record { call = wsa_recv 100 granted; answer = 0 } ∷ [];
    next_ptr = 4097;
  };
}

abbrev added : UdpProxy
added = (udp_send 7 (4 ∷ 5 ∷ []) resolver 16 asked).1

granted_in_flight : 0 < count 4096 (in_flight added.world.trace)
unfolding udp_send udp_send_by ◌>>=◌ pure gets modify put find in_flight effect
granted_in_flight = omega arith

abbrev history : Reach deaf asked (complete deaf 100 10 granted 0 added).1
history =
    next (next here (sends 7 (4 ∷ 5 ∷ []) resolver 16 asked))
      (completes 100 10 granted 0 added granted_in_flight)

deaf-IsMute : IsMute deaf
deaf-IsMute = record { mute = λ id buf len addr addr_len. Keeps-pure tt }

history-AreOrderly : AreOrderly history
unfolding AreOrderly IsOrderly
history-AreOrderly = (
  (tt, record { filled = λ e. ground (arith, e); whole = refl; sized = refl }),
  λ t. ground (arith, t),
)

history-NeverMade : NeverMade 7 history
unfolding NeverMade Unmade
history-NeverMade = ((tt, tt), tt)

Reach-run_example :
    (acts : List Action) × MeanAll history acts
    × (channels (complete deaf 100 10 granted 0 added).1 ≡ run acts (channels asked))
    × (sent (complete deaf 100 10 granted 0 added).1.world.trace
        ≡ sent asked.world.trace ++ emitted acts (channels asked))
Reach-run_example = Reach-run deaf-IsMute history history-AreOrderly

-- The connection with both datagrams in its queue.
abbrev both : ProxyData
both = record waiting {
  udp_send_packets = enqueue (4 ∷ 5 ∷ []) resolver 16 waiting.udp_send_packets;
}

still_open : channels (complete deaf 100 10 granted 0 added).1 7 ≢ closed
unfolding complete on_complete dispatch ◌>>=◌ outside perform udp_send udp_send_by pure gets modify
    put find relay_address response_at response_ipv4_at channel
still_open e =
    let (b, granting) =
      on_tcp_receive_complete-Sends 100 10 granted both
        (outside (perform (dequeued granted)) added).1 relay 16 refl refl (omega arith) refl refl
        refl in
    ground (arith, sym (ap channel granting.hit) ∙ e)

Reach-committed_example :
    committed 7 (complete deaf 100 10 granted 0 added).1 ≡ committed 7 asked ++ all_handed 7 history
Reach-committed_example =
    Reach-committed 7 deaf-IsMute history history-AreOrderly history-NeverMade still_open

willing-Accepts : Accepts willing
willing-Accepts = record { accepts = λ trace socket pov. refl }

granted-Fits : Fits ps_udp_assoc 10 granted 0 proxy_address
unfolding Fits relay_address response_at response_ipv4_at
granted-Fits = (refl, omega arith, refl, refl, relay, 16, refl)

granted-Expected : Expected (slot 7 added) 10 granted 0 proxy_address 1
unfolding stride udp_send udp_send_by pure gets modify ◌>>=◌ put find
granted-Expected = (granted-Fits, refl)

grant-IsAnswer : IsAnswer {h = deaf} 7 (completes 100 10 granted 0 added granted_in_flight) 1
unfolding IsAnswer udp_send udp_send_by pure gets modify ◌>>=◌ find
grant-IsAnswer = (refl, granted-Expected)

history-Answered : Answered 7 history 1
unfolding Answered IsLater
history-Answered = inr (0, 1, refl, inl (refl, tt), grant-IsAnswer)

Reach-Answered_example :
    (channels (complete deaf 100 10 granted 0 added).1 7 ≡ ready)
    × (to 7 (sent (complete deaf 100 10 granted 0 added).1.world.trace)
        ≡ committed 7 asked ++ all_handed 7 history)
unfolding rank find
Reach-Answered_example =
    Reach-Answered 7 willing-Accepts deaf-IsMute waiting 1 history history-AreOrderly
      history-NeverMade history-Answered refl (omega arith) still_open
