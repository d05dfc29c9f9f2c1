-- ===== src/Redirector/Lifecycle/Restart.antt =====
-- NetFilterCore of netfilter/SocksRedirector.cpp: Start while it runs.
use qv_plugin_netfilter.Base.{
  ℕ, ◌≡◌, ◌≢◌, refl, ◌∙◌, some, Bool, true, false, List, ◌∷◌, ◌++◌, arith, if◌then◌else◌,
}
use qv_plugin_netfilter.Base.Int.{ℤ}
use qv_plugin_netfilter.Base.State.{
  M, pure, modify, Triple, Triple-if, Triple-bind, Triple-pure, Triple-gets,
}
use qv_plugin_netfilter.System.{
  Os, SysCall, perform, invalid_handle_value, wsa_socket, get_extension, close_socket, sock_stream,
}
use qv_plugin_netfilter.Iocp
use qv_plugin_netfilter.Iocp.{IocpService, close_port}
use qv_plugin_netfilter.Proxy.Overlapped.{UdpProxy, outside}
use qv_plugin_netfilter.Proxy.Connections
use qv_plugin_netfilter.Proxy.Connections.{init_extensions, init_service, free_service, destroy_all}
use qv_plugin_netfilter.Events.Handler
use qv_plugin_netfilter.Events.Handler.{
  EventHandler, Lookup, on_proxy, on_system, parse_address, init_proxy,
}
use qv_plugin_netfilter.Redirector.{start}
use qv_plugin_netfilter.Redirector.Rules.{FilterRule, Inet}
use qv_plugin_netfilter.Redirector.Order.{DriverRule, place}
use qv_plugin_netfilter.Redirector.Lifecycle.{rules_of, perform-rules, Runs, IsCleared, free-clears}

-- A branch for a result that there is not.
not_taken :
    {S A : Type 0} {P : S → Type 0} {Q : A → S → Type 0} (b : Bool) (m : M S A) {n : M S A}
    → Triple P n Q
    → Triple (λ s. (b ≡ false) × P s) (if b then m else n) Q
not_taken true m t = record { at = λ s h. absurd (ground (arith, h.0)) }
not_taken false m t = record { at = λ s h. t.at s h.1 }

module _ ⦃os : Os⦄ where
  -- What the failing initialisation of the proxy leaves: a port, a thread, and the rules.
  abbrev Busy : List DriverRule → UdpProxy → Type 0
  Busy rules s =
      (s.service.h_iocp ≢ invalid_handle_value)
      × (s.service.worker_thread ≢ invalid_handle_value)
      × (rules_of s.world ≡ rules)

  Busy-call :
      (rules : List DriverRule) (c : SysCall)
      → ((before : List DriverRule) → place c before ≡ before)
      → Triple (Busy rules) (outside (perform c)) (λ _. Busy rules)
  unfolding outside
  Busy-call rules c n = record { at = λ s (p, t, r). (p, t, (perform-rules c n).same s.world ∙ r) }

  init_extensions-Busy :
      (rules : List DriverRule) → Triple (Busy rules) init_extensions (λ _. Busy rules)
  unfolding init_extensions place modify
  init_extensions-Busy rules =
      Triple-bind (λ _. Busy rules) (Busy-call rules (wsa_socket sock_stream) λ b. refl)
        λ s. Triple-if _ (Triple-pure false λ t h. h) (
          Triple-bind (λ _. Busy rules) (Busy-call rules (get_extension s) λ b. refl)
            λ p.
              Triple-bind (λ _. Busy rules) (record { at = λ t h. h })
                λ _.
                  Triple-bind (λ _. Busy rules) (Busy-call rules (close_socket s) λ b. refl)
                    λ _. Triple-pure _ λ t h. h)

  -- A service that has a port does not start again.
  init_service-Busy :
      (rules : List DriverRule) (self : ℕ)
      → Triple (Busy rules) (init_service self) (λ started s. (started ≡ false) × Busy rules s)
  unfolding init_service Iocp.init pure
  init_service-Busy rules self = record { at = λ s (p, t, r). ground (arith, p, t, r) }

  init-Busy :
      (rules : List DriverRule) (self : ℕ) (addr : List ℕ) (len : ℕ) (user pass : List ℕ)
      → Triple
          (Busy rules)
          (Connections.init self addr len user pass)
          (λ started s. (started ≡ false) × Busy rules s)
  unfolding Connections.init
  init-Busy rules self addr len user pass =
      Triple-bind (λ _. Busy rules) (init_extensions-Busy rules)
        λ loaded.
          Triple-if loaded
            (Triple-bind (λ started s. (started ≡ false) × Busy rules s)
              (init_service-Busy rules self)
              λ started. not_taken started _ (Triple-pure false λ s h. (refl, h)))
            (Triple-pure false λ s h. (refl, h))

module _ ⦃os : Os⦄ (rules : List DriverRule) where
  abbrev Running : EventHandler → Type 0
  Running s = Runs s × (rules_of s.udp_proxy.world ≡ rules)

  abbrev Off : EventHandler → Type 0
  Off s = IsCleared s × (rules_of s.udp_proxy.world ≡ rules)

  on_proxy-Running :
      (m : M UdpProxy Bool)
      → Triple (Busy rules) m (λ b s. (b ≡ false) × Busy rules s)
      → Triple Running (on_proxy m) (λ b s. (b ≡ false) × Running s)
  unfolding on_proxy
  on_proxy-Running m t = record {
    at = λ s (r, same).
        let (off, busy) = t.at s.udp_proxy (r.has_port, r.has_thread, same) in
        let (port, thread, kept) = busy in
        let runs : Running (on_proxy m s).1 =
          (record { has_port = port; has_thread = thread }, kept) in
        (off, runs);
  }

  free-Off : Triple Running Handler.free (λ _. Off)
  free-Off = record {
    at = λ s (r, same).
        let (cleared, kept, unchanged) = free-clears s r in (cleared, unchanged ∙ same);
  }

  modify-Running :
      (f : EventHandler → List ℕ)
      → Triple Running (modify (λ s. record s { proxy_address = f s })) (λ _. Running)
  unfolding modify
  modify-Running f = record {
    at = λ s (r, same). (record { has_port = r.has_port; has_thread = r.has_thread }, same);
  }

module _ ⦃os : Os⦄ ⦃lookup : Lookup⦄ where
  init_proxy-Off :
      (rules : List DriverRule) (self : ℕ) (a user pass : List ℕ)
      → Triple
          (Running rules)
          (init_proxy self (some a) user pass)
          (λ started s. (started ≡ false) × Off rules s)
  unfolding init_proxy
  init_proxy-Off rules self a user pass =
      Triple-bind (λ _. Running rules) (modify-Running rules _)
        λ _.
          Triple-bind (λ _. Running rules) (Triple-gets _ λ s h. h)
            λ proxy_address.
              Triple-bind (λ started s. (started ≡ false) × Running rules s)
                (on_proxy-Running rules _ (init-Busy rules self proxy_address _ user pass))
                λ started. not_taken started _ (
                  Triple-bind (λ _. Off rules) (free-Off rules)
                    λ _. Triple-pure false λ s h. (refl, h))

  init-Off :
      (rules : List DriverRule) (self : ℕ) (address user pass a : List ℕ)
      → parse_address address ≡ some a
      → Triple
          (Running rules)
          (Handler.init self address user pass)
          (λ started s. (started ≡ false) × Off rules s)
  unfolding Handler.init
  init-Off rules self address user pass a e =
      Triple-bind (λ _. Running rules) (modify-Running rules _)
        λ _. rw e (init_proxy-Off rules self a user pass)

  start-Off :
      ⦃inet : Inet⦄ (rules : List DriverRule) (number : ℤ → List ℕ) (self : ℕ)
      (user_rules : List FilterRule) (address : List ℕ) (port : ℤ) (user pass a : List ℕ)
      → parse_address (address ++ (b':' ∷ number port)) ≡ some a
      → Triple
          (Running rules)
          (start number self user_rules address port user pass)
          (λ started s. (started ≡ false) × Off rules s)
  unfolding start
  start-Off rules number self user_rules address port user pass a e =
      Triple-bind (λ started s. (started ≡ false) × Off rules s)
        (init-Off rules self (address ++ (b':' ∷ number port)) user pass a e)
        λ started. not_taken started _ (Triple-pure false λ s h. (refl, h))

  -- Start while it runs, with an address of the proxy that can be parsed: it returns false, the rules
  -- of the driver are as they were, and the handler has no thread, port, object, connection and
  -- context any more, whatever the system answers.
  pub start-running :
      ⦃inet : Inet⦄ (number : ℤ → List ℕ) (self : ℕ) (user_rules : List FilterRule)
      (address : List ℕ) (port : ℤ) (user pass a : List ℕ) (s : EventHandler)
      → Runs s
      → parse_address (address ++ (b':' ∷ number port)) ≡ some a
      → ((start number self user_rules address port user pass s).0 ≡ false)
        × IsCleared (start number self user_rules address port user pass s).1
        × (rules_of (start number self user_rules address port user pass s).1.udp_proxy.world
            ≡ rules_of s.udp_proxy.world)
  start-running number self user_rules address port user pass a s r e =
      let (refused, off) =
        (start-Off (rules_of s.udp_proxy.world) number self user_rules address port user pass a
            e).at
          s (r, refl) in
      (refused, off.0, off.1)
