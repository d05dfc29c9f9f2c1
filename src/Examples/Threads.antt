-- ===== src/Examples/Threads.antt =====
-- Three threads in the UDP proxy: while one makes a connection, another deletes it, and the worker
-- handles the completion of its connect.
use qv_plugin_netfilter.Base.{ℕ, ◌<◌, ◌≤◌, ◌≡◌, refl, true, List, [], ◌∷◌, arith, count}
use qv_plugin_netfilter.Base.Map.{find, put, erase}
use qv_plugin_netfilter.Base.State
use qv_plugin_netfilter.Base.State.{pure, gets, modify}
use qv_plugin_netfilter.System.{perform}
use qv_plugin_netfilter.Iocp.{register_socket}
use qv_plugin_netfilter.System.Completions.{effect, in_flight}
use qv_plugin_netfilter.Proxy.Data.{ovt_connect, OvData}
use qv_plugin_netfilter.Proxy.Overlapped.{outside, new_ov_data, delete_ov_data}
use qv_plugin_netfilter.Proxy.Ownership.{Tracked}
use qv_plugin_netfilter.Proxy.Receive.{delete_proxy_connection, delete_found, destroy, greet}
use qv_plugin_netfilter.Proxy.Connections.{insert_connection}
use qv_plugin_netfilter.Proxy.Threads.{turn, all_finished, advance, is_finished, ◌>>=◌}
use qv_plugin_netfilter.Proxy.Threads.Sections.{
  start_connect_task, creates, deletes, sections, create_proxy_connection_task,
  open_connection_task, on_connect_complete_task, dispatch_task,
}
use qv_plugin_netfilter.Proxy.Threads.History.{
  Shared, Reach, AllSpare, Spares, here, next, turns, calls, dequeues, idle, moved, called,
  completed, Reach-in_flight, Reach-settled,
}
use qv_plugin_netfilter.Examples.Setting.{willing, fresh_proxy, deaf}
use qv_plugin_netfilter.Examples.Ownership.{deaf-IsQuiet, fresh-Tracked}

-- The threads of the list go, one section each.
abbrev after : List ℕ → Shared → Shared
after [] x = x
after (i ∷ is) x = after is (moved i x)

-- A history in which no thread calls free.
abbrev Spared : Shared → Type 1
Spared x = (r : Reach deaf (idle fresh_proxy) x) × AllSpare r

after-Spared : (is : List ℕ) (x : Shared) → Spared x → Spared (after is x)
unfolding AllSpare Spares
after-Spared [] x r = r
after-Spared (i ∷ is) x (r, n) = after-Spared is (moved i x) (next r (turns i x), (n, tt))

-- The object of the connect, which the worker takes before the thread that began it goes on.
abbrev connecting : OvData
connecting = record {
  ptr = 4096;
  id = 7;
  ov_type = ovt_connect;
  remote_address = [];
  remote_address_len = 0;
  buffer = [];
}

abbrev begun : Shared
begun = after (0 ∷ 0 ∷ 0 ∷ 0 ∷ []) (called deaf (creates 7) (idle fresh_proxy))

-- The thread that deletes is the first now, the one that makes the connection the second.
abbrev deleted : Shared
deleted = after (1 ∷ 0 ∷ 1 ∷ 1 ∷ 1 ∷ 1 ∷ 1 ∷ 1 ∷ []) (called deaf (deletes 7) begun)

abbrev ended : Shared
ended = after (0 ∷ []) (completed deaf 100 0 connecting 0 deleted)

connecting_in_flight : 0 < count 4096 (in_flight deleted.proxy.world.trace)
unfolding turn advance sections create_proxy_connection_task open_connection_task start_connect_task
    ◌>>=◌ insert_connection new_ov_data register_socket delete_proxy_connection delete_found destroy
    outside perform in_flight effect State.◌>>=◌ pure gets modify put find erase
connecting_in_flight = omega arith

begun-Spared : Spared begun
unfolding AllSpare Spares
begun-Spared = after-Spared (0 ∷ 0 ∷ 0 ∷ 0 ∷ []) _ (next here (calls (creates 7) _ tt), (tt, tt))

deleted-Spared : Spared deleted
unfolding AllSpare Spares
deleted-Spared =
    after-Spared (1 ∷ 0 ∷ 1 ∷ 1 ∷ 1 ∷ 1 ∷ 1 ∷ 1 ∷ []) _
      (next begun-Spared.0 (calls (deletes 7) begun tt), (begun-Spared.1, tt))

ended-Spared : Spared ended
unfolding AllSpare Spares
ended-Spared = after-Spared (0 ∷ []) _ (
  next deleted-Spared.0 (dequeues 100 0 connecting 0 deleted connecting_in_flight),
  (deleted-Spared.1, tt),
)

Reach-in_flight_example :
    (count 4096 (in_flight ended.proxy.world.trace) ≤ count 4096 ended.proxy.ov_data_set)
    × (count 4096 ended.proxy.ov_data_set ≤ 1)
Reach-in_flight_example =
    Reach-in_flight deaf-IsQuiet ended-Spared.0 ended-Spared.1 fresh-Tracked 4096

all_left : all_finished ended.threads ≡ true
unfolding turn advance sections create_proxy_connection_task open_connection_task start_connect_task
    ◌>>=◌ insert_connection new_ov_data register_socket delete_proxy_connection delete_found destroy
    outside perform dispatch_task on_connect_complete_task greet delete_ov_data is_finished
    all_finished effect State.◌>>=◌ pure gets modify put find erase
all_left = refl

Reach-settled_example : Tracked [] ended.proxy
Reach-settled_example =
    Reach-settled deaf-IsQuiet ended-Spared.0 ended-Spared.1 fresh-Tracked all_left
