-- ===== src/Proxy/Ownership.antt =====
-- Who holds the OV_DATA objects of netfilter/UDPProxy.cpp: each object of m_ovDataSet has one
-- completion to come, or is held by the method that runs.
pub mod Calls
pub mod Handlers
pub mod Connections
pub mod History
use qv_plugin_netfilter.Base.{
  ℕ, ◌+◌, ◌≤◌, ◌≡◌, refl, ◌==◌, if◌then◌else◌, Bool, List, ◌∷◌, arith, count, count-remove,
}
use qv_plugin_netfilter.Base.State.{
  M, Triple, Triple-pure, Triple-gets, Triple-bind, Triple-if, modify, pure, gets, ◌>>=◌,
}
use qv_plugin_netfilter.Base.Map.{Map}
use qv_plugin_netfilter.System.{SysCall, World, Os, perform, failed}
use qv_plugin_netfilter.System.Completions.{effect, in_flight, Starts}
use qv_plugin_netfilter.System.Quiet.{Quiet}
use qv_plugin_netfilter.Iocp.{IocpService, post_completion}
use qv_plugin_netfilter.Proxy.Data.{OvData, ProxyData}
use qv_plugin_netfilter.Proxy.Overlapped.{UdpProxy, outside, new_ov_data, delete_ov_data}

-- `held` are the objects in the hands of the method that runs.
pub record Tracked (held : List ℕ) (s : UdpProxy) : Type 0 where
  pub once : (p : ℕ) → count p s.ov_data_set ≡ count p held + count p (in_flight s.world.trace)
  pub single : (p : ℕ) → count p s.ov_data_set ≤ 1
  pub fresh : (p : ℕ) → s.world.next_ptr ≤ p → count p s.ov_data_set ≡ 0

module _ {held : List ℕ} where
  pub Tracked-pure : {A : Type 0} (a : A) → Triple (Tracked held) (pure a) (λ _. Tracked held)
  Tracked-pure a = Triple-pure a λ s t. t

  pub Tracked-if :
      {A : Type 0} (b : Bool) {m n : M UdpProxy A}
      → Triple (Tracked held) m (λ _. Tracked held)
      → Triple (Tracked held) n (λ _. Tracked held)
      → Triple (Tracked held) (if b then m else n) (λ _. Tracked held)
  Tracked-if = Triple-if

  pub Tracked-bind :
      {A B : Type 0} {m : M UdpProxy A} {f : A → M UdpProxy B}
      → Triple (Tracked held) m (λ _. Tracked held)
      → ((a : A) → Triple (Tracked held) (f a) (λ _. Tracked held))
      → Triple (Tracked held) (m >>= f) (λ _. Tracked held)
  Tracked-bind = Triple-bind (λ _. Tracked held)

  pub Tracked-gets :
      {A : Type 0} (f : UdpProxy → A) → Triple (Tracked held) (gets f) (λ _. Tracked held)
  Tracked-gets f = Triple-gets f λ s t. t

  -- A change of fields that say nothing of the objects.
  pub Tracked-modify :
      (f : UdpProxy → UdpProxy)
      → ((s : UdpProxy) → (f s).ov_data_set ≡ s.ov_data_set)
      → ((s : UdpProxy) → (f s).world ≡ s.world)
      → Triple (Tracked held) (modify f) (λ _. Tracked held)
  unfolding modify
  Tracked-modify f same_set same_world = record {
    at = λ s t. record {
      once = λ p. ground (arith, t.once p, same_set s, same_world s);
      single = λ p. ground (arith, t.single p, same_set s);
      fresh = λ p h. ground (arith, t.fresh p, same_set s, same_world s);
    };
  }

  pub Tracked-map :
      (f : UdpProxy → Map ProxyData)
      → Triple (Tracked held) (modify (λ s. record s { socket_map = f s })) (λ _. Tracked held)
  Tracked-map f = Tracked-modify _ (λ s. refl) (λ s. refl)

  pub Tracked-new : Triple (Tracked held) new_ov_data (λ pov. Tracked (pov.ptr ∷ held))
  unfolding new_ov_data
  Tracked-new = record {
    at = λ s t. record {
      once = λ p. ground (arith, t.once p);
      single = λ p. ground (arith, t.single p, t.fresh p);
      fresh = λ p h. ground (arith, t.fresh p);
    };
  }

  pub Tracked-delete :
      (pov : OvData) → Triple (Tracked (pov.ptr ∷ held)) (delete_ov_data pov) (λ _. Tracked held)
  unfolding delete_ov_data modify
  Tracked-delete pov = record {
    at = λ s t. record {
      once = λ p. ground (arith, t.once p, t.single p, count-remove pov.ptr p s.ov_data_set);
      single = λ p. ground (arith, t.single p, count-remove pov.ptr p s.ov_data_set);
      fresh = λ p h. ground (arith, t.fresh p, count-remove pov.ptr p s.ov_data_set);
    };
  }

module _ {held : List ℕ} {A : Type 0} where
  pub Tracked-outside :
      {m : M World A} → Quiet m → Triple (Tracked held) (outside m) (λ _. Tracked held)
  unfolding outside
  Tracked-outside {m} q = record {
    at = λ s t. record {
      once = λ p. ground (arith, t.once p, q.same_flight s.world);
      single = t.single;
      fresh = λ p h. ground (arith, t.fresh p, q.same_ptr s.world);
    };
  }

module _ ⦃os : Os⦄ {held : List ℕ} where
  -- The object goes to the system, unless the call fails.
  pub Tracked-start :
      (ptr : ℕ) (c : SysCall)
      → Starts ptr c
      → Triple
          (Tracked (ptr ∷ held))
          (outside (perform c))
          (λ r. Tracked (if failed r then ptr ∷ held else held))
  unfolding outside perform in_flight
  Tracked-start ptr c n = record {
    at = λ s t. record {
      once = λ p. ground (arith, t.once p, n (os.answer s.world.trace c) (in_flight s.world.trace));
      single = t.single;
      fresh = t.fresh;
    };
  }

  pub Tracked-post_completion :
      (socket transferred : ℕ) (pov : OvData) (service : IocpService)
      → Triple
          (Tracked (pov.ptr ∷ held))
          (outside (post_completion socket transferred pov service))
          (λ posted. Tracked (if posted then held else pov.ptr ∷ held))
  unfolding outside perform in_flight effect post_completion ◌>>=◌ pure
  Tracked-post_completion socket transferred pov service = record {
    at = λ s t. record { once = λ p. ground (arith, t.once p); single = t.single; fresh = t.fresh };
  }
