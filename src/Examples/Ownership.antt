-- ===== src/Examples/Ownership.antt =====
-- The ownership of OV_DATA objects at a connection that is made and completes.
use qv_plugin_netfilter.Base.{◌<◌, ◌≡◌, refl, [], arith, count}
use qv_plugin_netfilter.Base.Map.{put}
use qv_plugin_netfilter.Base.State.{◌>>=◌, pure, gets, modify}
use qv_plugin_netfilter.System.{perform}
use qv_plugin_netfilter.System.Completions.{effect, in_flight}
use qv_plugin_netfilter.System.Quiet.{Quiet-pure}
use qv_plugin_netfilter.Iocp.{register_socket}
use qv_plugin_netfilter.Proxy.Data.{ovt_connect, OvData}
use qv_plugin_netfilter.Proxy.Overlapped.{UdpProxy, outside, new_ov_data, start_connect}
use qv_plugin_netfilter.Proxy.Connections.{create_proxy_connection, open_connection, free}
use qv_plugin_netfilter.Proxy.Worker.{complete}
use qv_plugin_netfilter.Proxy.Ownership.{Tracked}
use qv_plugin_netfilter.Proxy.Ownership.Handlers.{IsQuiet}
use qv_plugin_netfilter.Proxy.Ownership.History.{here, next, creates, completes, free-in_flight}
use qv_plugin_netfilter.Proxy.Isolation.{slot}
use qv_plugin_netfilter.Proxy.Isolation.History.{subject, Avoids, Reach-slot}
use qv_plugin_netfilter.Examples.Setting.{willing, fresh_proxy, deaf}

pub deaf-IsQuiet : IsQuiet deaf
deaf-IsQuiet = record { quiet = λ id buf len addr addr_len. Quiet-pure tt }

pub fresh-Tracked : Tracked [] fresh_proxy
unfolding in_flight
fresh-Tracked = record { once = λ p. refl; single = λ p. omega arith; fresh = λ p h. refl }

abbrev created : UdpProxy
created = (create_proxy_connection 7 fresh_proxy).1

abbrev connecting : OvData
connecting = record {
  ptr = 4096;
  id = 7;
  ov_type = ovt_connect;
  remote_address = [];
  remote_address_len = 0;
  buffer = [];
}

connecting_in_flight : 0 < count 4096 (in_flight created.world.trace)
unfolding create_proxy_connection open_connection start_connect new_ov_data register_socket outside
    perform in_flight effect ◌>>=◌ pure gets modify put
connecting_in_flight = omega arith

free-in_flight_example :
    ((free created).1.ov_data_set ≡ [])
    × ((free created).1.socket_map ≡ [])
    × (in_flight (free created).1.world.trace ≡ in_flight created.world.trace)
free-in_flight_example = free-in_flight created

Reach-slot_example : slot 8 (complete deaf 100 0 connecting 0 created).1 ≡ slot 8 fresh_proxy
unfolding Avoids subject
Reach-slot_example =
    Reach-slot {h = deaf} 8
      (next (next here (creates 7 fresh_proxy))
        (completes 100 0 connecting 0 created connecting_in_flight))
      ((tt, (omega arith)), (omega arith))
