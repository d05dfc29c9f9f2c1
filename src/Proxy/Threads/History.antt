-- ===== src/Proxy/Threads/History.antt =====
-- Histories of the UDP proxy of netfilter/UDPProxy.cpp with any number of threads in its methods at
-- once: whichever of them goes next does its next section.
use qv_plugin_netfilter.Base.{
  ℕ, zero, suc, ◌+◌, ◌≤◌, ◌<◌, Bool, true, false, ◌&&◌, ◌≡◌, refl, sym, ap, subst, List, [], ◌∷◌,
  ◌++◌, arith, count,
}
use qv_plugin_netfilter.System.{Os, perform, dequeued}
use qv_plugin_netfilter.System.Completions.{in_flight}
use qv_plugin_netfilter.Proxy.Data.{OvData}
use qv_plugin_netfilter.Proxy.Overlapped.{UdpProxy, outside}
use qv_plugin_netfilter.Proxy.Receive.{UdpProxyHandler}
use qv_plugin_netfilter.Proxy.Ownership.{Tracked}
use qv_plugin_netfilter.Proxy.Ownership.Handlers.{IsQuiet}
use qv_plugin_netfilter.Proxy.Ownership.History.{dequeue-Tracked}
use qv_plugin_netfilter.Proxy.Threads.{
  Task, finished, section, advance, is_finished, turn, all_finished,
}
use qv_plugin_netfilter.Proxy.Threads.Sections.{
  Call, initialises, frees, creates, deletes, sends, completes, sections,
}
use qv_plugin_netfilter.Proxy.Threads.Ownership.{Holds, none_held}
use qv_plugin_netfilter.Proxy.Threads.Ownership.Methods.{brought, IsNotFree, sections-Holds}

abbrev pub Threads : Type 1
Threads = List (Task UdpProxy (Unit {0}))

pub record Shared : Type 1 where
  pub proxy : UdpProxy
  pub threads : Threads

-- The calls of the proxy's client.
abbrev pub IsClient : Call → Type 0
IsClient (completes socket transferred pov error) = ⊥
IsClient _ = Unit

abbrev pub moved : ℕ → Shared → Shared
moved i x = record { proxy = (turn i x.threads x.proxy).1; threads = (turn i x.threads x.proxy).0 }

module _ ⦃os : Os⦄ where
  abbrev pub called : UdpProxyHandler → Call → Shared → Shared
  called h c x = record x { threads = sections h c ∷ x.threads }

  -- The completion is taken off the port, and its handler begins.
  abbrev pub completed : UdpProxyHandler → ℕ → ℕ → OvData → ℕ → Shared → Shared
  completed h socket transferred pov error x = record {
    proxy = (outside (perform (dequeued pov)) x.proxy).1;
    threads = sections h (completes socket transferred pov error) ∷ x.threads;
  }

  pub data Step (h : UdpProxyHandler) : Shared → Shared → Type 1 where
    turns : (i : ℕ) (x : Shared) → Step h x (moved i x)
    calls : (c : Call) (x : Shared) → IsClient c → Step h x (called h c x)
    dequeues :
        (socket transferred : ℕ) (pov : OvData) (error : ℕ) (x : Shared)
        → 0 < count pov.ptr (in_flight x.proxy.world.trace)
        → Step h x (completed h socket transferred pov error x)

  pub data Reach (h : UdpProxyHandler) (x : Shared) : Shared → Type 1 where
    here : Reach h x x
    next : {y z : Shared} → Reach h x y → Step h y z → Reach h x z

  -- No step is a call of free.
  unfoldable pub Spares : {h : UdpProxyHandler} {x y : Shared} → Step h x y → Type 0
  Spares (calls c x e) = IsNotFree c
  Spares _ = Unit

  unfoldable pub AllSpare : {h : UdpProxyHandler} {x y : Shared} → Reach h x y → Type 0
  AllSpare here = Unit
  AllSpare (next r step) = AllSpare r × Spares step

abbrev pub idle : UdpProxy → Shared
idle s = record { proxy = s; threads = [] }

-- What all threads hold together.
abbrev Owned : Threads → List ℕ → Type 0
Owned [] held = held ≡ []
Owned (t ∷ ts) held =
    (mine : List ℕ) × (others : List ℕ) × Holds mine t none_held
    × Owned ts others
    × (held ≡ mine ++ others)

record IsOwned (x : Shared) : Type 0 where
  held : List ℕ
  owned : Owned x.threads held
  tracked : Tracked held x.proxy

count-append : (p : ℕ) (xs ys : List ℕ) → count p (xs ++ ys) ≡ count p xs + count p ys
count-append p [] ys = omega arith
count-append p (x ∷ xs) ys = ground (arith, count-append p xs ys)

-- The order of what is held does not matter.
Tracked-regroup :
    (xs ys : List ℕ) {s : UdpProxy}
    → ((p : ℕ) → count p xs ≡ count p ys)
    → Tracked xs s
    → Tracked ys s
Tracked-regroup xs ys e t = record {
  once = λ p. omega (arith, t.once p, e p);
  single = t.single;
  fresh = t.fresh;
}

advance-Holds :
    (mine others : List ℕ) (t : Task UdpProxy (Unit {0})) (s : UdpProxy)
    → Holds mine t none_held
    → Tracked (mine ++ others) s
    → (mine' : List ℕ) × Holds mine' (advance t s).0 none_held
      × Tracked (mine' ++ others) (advance t s).1
unfolding advance Holds
advance-Holds mine others (finished a) s ht v = (mine, ht, v)
advance-Holds mine others (section m k) s ht v = (ht.0 (m s).0, ht.2 (m s).0, (ht.1 others).at s v)

swap_groups : (p : ℕ) (xs ys zs : List ℕ) → count p ((xs ++ ys) ++ zs) ≡ count p (ys ++ (xs ++ zs))
swap_groups p xs ys zs = omega (arith, count-append p)

append_groups :
    (p : ℕ) (xs ys zs : List ℕ) → count p ((xs ++ ys) ++ zs) ≡ count p (xs ++ (ys ++ zs))
append_groups p xs ys zs = omega (arith, count-append p)

-- A turn of one thread leaves what the others hold alone.
turn-Owned :
    (i : ℕ) (ts : Threads) (held rest : List ℕ) (s : UdpProxy)
    → Owned ts held
    → Tracked (held ++ rest) s
    → (held' : List ℕ) × Owned (turn i ts s).0 held' × Tracked (held' ++ rest) (turn i ts s).1
unfolding turn
turn-Owned i [] held rest s o v = (held, o, v)
turn-Owned zero (t ∷ ts) held rest s (mine, others, ht, ho, e) v =
    let (mine', ht', v') = advance-Holds mine (others ++ rest) t s ht (
      Tracked-regroup _ _ (λ p. append_groups p mine others rest)
        (subst (λ xs. Tracked (xs ++ rest) s) e v)) in
    let o' : Owned ((advance t s).0 ∷ ts) (mine' ++ others) = (mine', others, ht', ho, refl) in
    (mine' ++ others, o', Tracked-regroup _ _ (λ p. sym (append_groups p mine' others rest)) v')
turn-Owned (suc i) (t ∷ ts) held rest s (mine, others, ht, ho, e) v =
    let (others', ho', v') = turn-Owned i ts others (mine ++ rest) s ho (
      Tracked-regroup _ _ (λ p. swap_groups p mine others rest)
        (subst (λ xs. Tracked (xs ++ rest) s) e v)) in
    let o' : Owned (t ∷ (turn i ts s).0) (mine ++ others') = (mine, others', ht, ho', refl) in
    (mine ++ others', o', Tracked-regroup _ _ (λ p. sym (swap_groups p mine others' rest)) v')

append_nil : (p : ℕ) (xs : List ℕ) → count p (xs ++ []) ≡ count p xs
append_nil p xs = omega (arith, count-append p)

moved-IsOwned : (i : ℕ) {x : Shared} → IsOwned x → IsOwned (moved i x)
moved-IsOwned i {x} v =
    let (held', o', t') =
      turn-Owned i x.threads v.held [] x.proxy v.owned
        (Tracked-regroup _ _ (λ p. sym (append_nil p v.held)) v.tracked) in
    record { held = held'; owned = o'; tracked = Tracked-regroup _ _ (λ p. append_nil p held') t' }

module _ ⦃os : Os⦄ {h : UdpProxyHandler} (q : IsQuiet h) where
  -- A new thread brings what its call brings.
  begun-IsOwned :
      (c : Call) (ts : Threads) (held : List ℕ) (s : UdpProxy)
      → IsNotFree c
      → Owned ts held
      → Tracked (brought c ++ held) s
      → IsOwned (record { proxy = s; threads = sections h c ∷ ts })
  begun-IsOwned c ts held s n o v =
      let o' : Owned (sections h c ∷ ts) (brought c ++ held) =
        (brought c, held, sections-Holds q c n, o, refl) in
      record { held = brought c ++ held; owned = o'; tracked = v }

  Step-IsOwned : {x y : Shared} (step : Step h x y) → Spares step → IsOwned x → IsOwned y
  unfolding Spares
  Step-IsOwned (turns i x) n v = moved-IsOwned i v
  Step-IsOwned (calls (initialises self address len user pass) x e) n v =
      begun-IsOwned _ _ v.held _ tt v.owned v.tracked
  Step-IsOwned (calls frees x e) n v = absurd n
  Step-IsOwned (calls (creates id) x e) n v = begun-IsOwned _ _ v.held _ tt v.owned v.tracked
  Step-IsOwned (calls (deletes id) x e) n v = begun-IsOwned _ _ v.held _ tt v.owned v.tracked
  Step-IsOwned (calls (sends id buf addr addr_len) x e) n v =
      begun-IsOwned _ _ v.held _ tt v.owned v.tracked
  Step-IsOwned (calls (completes socket transferred pov error) x e) n v = absurd e
  Step-IsOwned (dequeues socket transferred pov error x e) n v =
      begun-IsOwned (completes socket transferred pov error) _ v.held _ tt v.owned
        (dequeue-Tracked v.held pov x.proxy v.tracked e)

  Reach-IsOwned :
      {s : UdpProxy} {x : Shared} (r : Reach h (idle s) x) → AllSpare r → Tracked [] s → IsOwned x
  unfolding AllSpare
  Reach-IsOwned here n v = record { held = []; owned = refl; tracked = v }
  Reach-IsOwned (next r st) n v = Step-IsOwned st n.1 (Reach-IsOwned r n.0 v)

  -- As long as no thread calls free, at every moment between two sections, whatever threads are in
  -- the other methods of the proxy, a completion is to come at most once for an OV_DATA object, and
  -- only for one that is in m_ovDataSet: no object is deleted while an operation with it is in
  -- flight. At the start each object had one completion to come, and the client of the proxy starts
  -- no operation of its own.
  pub Reach-in_flight :
      {s : UdpProxy} {x : Shared} (r : Reach h (idle s) x)
      → AllSpare r
      → Tracked [] s
      → (p : ℕ)
      → (count p (in_flight x.proxy.world.trace) ≤ count p x.proxy.ov_data_set)
        × (count p x.proxy.ov_data_set ≤ 1)
  Reach-in_flight r n v p =
      let o = Reach-IsOwned r n v in (omega (arith, o.tracked.once p), o.tracked.single p)

-- A thread that has finished holds nothing.
finished-Holds :
    (mine : List ℕ) (t : Task UdpProxy (Unit {0}))
    → is_finished t ≡ true
    → Holds mine t none_held
    → [] ≡ mine
unfolding is_finished Holds
finished-Holds mine (finished a) e ht = ht
finished-Holds mine (section m k) e ht = cc

and_true : (a b : Bool) → a && b ≡ true → (a ≡ true) × (b ≡ true)
and_true true b e = (refl, e)
and_true false b e = cc

all_finished-Owned :
    (ts : Threads) (held : List ℕ) → all_finished ts ≡ true → Owned ts held → held ≡ []
unfolding all_finished
all_finished-Owned [] held e o = o
all_finished-Owned (t ∷ ts) held e (mine, others, ht, ho, same) =
    let (first, later) = and_true (is_finished t) (all_finished ts) e in
    let m : [] ≡ mine = finished-Holds mine t first ht in
    let r : others ≡ [] = all_finished-Owned ts others later ho in
    cc (ap (λ xs. mine ++ xs) r, ap (λ xs. xs ++ []) m)

module _ ⦃os : Os⦄ {h : UdpProxyHandler} (q : IsQuiet h) where
  -- When no thread has called free, and all have left the other methods of the proxy, however their
  -- sections were interleaved, each OV_DATA object of m_ovDataSet has exactly one completion to
  -- come, and no other is to come: none was lost, and none was deleted twice. At the start that was
  -- so, and the client of the proxy starts no operation of its own.
  pub Reach-settled :
      {s : UdpProxy} {x : Shared} (r : Reach h (idle s) x)
      → AllSpare r
      → Tracked [] s
      → all_finished x.threads ≡ true
      → Tracked [] x.proxy
  Reach-settled {x = x} r n v e =
      let o = Reach-IsOwned q r n v in
      subst (λ held. Tracked held x.proxy) (all_finished-Owned x.threads o.held e o.owned) o.tracked
