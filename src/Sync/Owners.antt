-- ===== src/Sync/Owners.antt =====
-- netfilter/sync.h: programs that use AutoHandle objects, and the handles that they close.
pub mod Moves
use qv_plugin_netfilter.Sync.Owners.Moves.{
  store, bump, Owned, release-Owned, move-Owned, adopt-Owned,
}
use qv_plugin_netfilter.Base.{
  ℕ, suc, ◌+◌, ◌<◌, ◌≤◌, ◌≡◌, ◌≢◌, refl, sym, ap, subst, ◌∙◌, inl, inr, Bool, Bool-cases, true,
  false, List, [], ◌∷◌, ◌==◌, if◌then◌else◌, arith,
}
use qv_plugin_netfilter.Base.State.{M, pure, ◌>>=◌}
use qv_plugin_netfilter.System.{
  World, Event, SysCall, Os, perform, close_handle, invalid_handle_value,
}
use qv_plugin_netfilter.Sync.{
  attach, detach, copy, of_handle, new_auto_handle, close, destroy, assign, assign_self,
  destroy_event_handle,
}

-- How often a handle was closed.
unfoldable pub closes : ℕ → List Event → ℕ
closes h [] = 0
closes h (e ∷ trace) = let rest = closes h trace in count_close e.call h rest
  where
    count_close : SysCall → ℕ → ℕ → ℕ
    count_close (close_handle g) h rest = if g == h then suc rest else rest
    count_close _ h rest = rest

-- The fields of the objects. An object that is not there has no handle.
pub record Objects : Type 0 where
  pub handle : ℕ → ℕ
  pub world : World

module _ ⦃os : Os⦄ where
  -- One operation. A handle is adopted if no object has it, and it was not closed.
  pub data Use : Objects → Objects → Type 0 where
    adopts :
        (o h : ℕ) (s : Objects)
        → s.handle o ≡ invalid_handle_value
        → ((i : ℕ) → s.handle i ≢ h)
        → closes h s.world.trace ≡ 0
        → Use s (record s { handle = store o (of_handle h) s.handle })
    copies :
        (o p : ℕ) (s : Objects)
        → o ≢ p
        → s.handle o ≡ invalid_handle_value
        → Use s (record s {
          handle = store p (copy (s.handle p)).1 (store o (copy (s.handle p)).0 s.handle);
        })
    assigns :
        (o p : ℕ) (s : Objects)
        → o ≢ p
        → Use s (record {
          handle =
              store p
                (assign (s.handle o) (s.handle p) s.world).0.1
                (store o (assign (s.handle o) (s.handle p) s.world).0.0 s.handle);
          world = (assign (s.handle o) (s.handle p) s.world).1;
        })
    assigns_self :
        (o : ℕ) (s : Objects)
        → Use s (record {
          handle = store o (assign_self (s.handle o) s.world).0 s.handle;
          world = (assign_self (s.handle o) s.world).1;
        })
    closes_now :
        (o : ℕ) (s : Objects)
        → Use s (record {
          handle = store o (close (s.handle o) s.world).0 s.handle;
          world = (close (s.handle o) s.world).1;
        })
    destroys :
        (o : ℕ) (s : Objects)
        → Use s (record {
          handle = store o (destroy (s.handle o) s.world).0 s.handle;
          world = (destroy (s.handle o) s.world).1;
        })
    destroys_event :
        (o : ℕ) (s : Objects)
        → Use s (record {
          handle = store o (destroy_event_handle (s.handle o) s.world).0 s.handle;
          world = (destroy_event_handle (s.handle o) s.world).1;
        })

  pub data Uses (s : Objects) : Objects → Type 0 where
    unused : Uses s s
    and_then : {t u : Objects} → Uses s t → Use t u → Uses s u

-- The state, with how often each handle was closed.
abbrev pub HasOwners : Objects → Type 0
HasOwners s = Owned s.handle (λ h. closes h s.world.trace)

module _ ⦃os : Os⦄ where
  -- Close: the object has no handle after it, and what it had is closed.
  close-none : (m_h : ℕ) (w : World) → (close m_h w).0 ≡ invalid_handle_value
  unfolding close ◌>>=◌ pure perform
  close-none m_h w = ground arith

  close-closes :
      (m_h : ℕ) (w : World) (h : ℕ)
      → closes h (close m_h w).1.trace ≡ bump m_h (λ g. closes g w.trace) h
  unfolding close closes bump ◌>>=◌ pure perform
  close-closes m_h w h = ground arith

  close-Owned :
      (o : ℕ) (s : Objects)
      → HasOwners s
      → Owned
          (store o (close (s.handle o) s.world).0 s.handle)
          (λ h. closes h (close (s.handle o) s.world).1.trace)
  close-Owned o s owned =
      let closed : (λ h. closes h (close (s.handle o) s.world).1.trace)
          ≡ bump (s.handle o) (λ h. closes h s.world.trace) =
        λ i h. close-closes (s.handle o) s.world h i in
      subst (Owned (store o (close (s.handle o) s.world).0 s.handle)) (sym closed)
        (rw (close-none (s.handle o) s.world) (release-Owned s.handle _ owned o))

  -- The destructor and the assignment test the handle before Close does so again.
  destroy-close : (m_h : ℕ) (w : World) → destroy m_h w ≡ close m_h w
  unfolding destroy close pure
  destroy-close m_h w = ground arith

  destroy_event_handle-close : (m_h : ℕ) (w : World) → destroy_event_handle m_h w ≡ close m_h w
  unfolding destroy_event_handle destroy close pure ◌>>=◌
  destroy_event_handle-close m_h w = ground arith

  assign-close :
      (m_h other : ℕ) (w : World)
      → assign m_h other w ≡ ((other, invalid_handle_value), (close m_h w).1)
  unfolding assign close attach detach ◌>>=◌ pure
  assign-close m_h other w = ground arith

  assign-Owned :
      (o p : ℕ) (s : Objects)
      → o ≢ p
      → HasOwners s
      → Owned
          (store p invalid_handle_value (store o (s.handle p) s.handle))
          (λ h. closes h (close (s.handle o) s.world).1.trace)
  assign-Owned o p s n owned =
      let released = close-Owned o s owned in
      subst (λ f. Owned f (λ h. closes h (close (s.handle o) s.world).1.trace)) (λ i k. taken k i)
        (move-Owned _ _ released o p n (ground (arith, close-none (s.handle o) s.world)))
    where
      taken :
          (k : ℕ)
          → store p invalid_handle_value
              (store o
                (store o (close (s.handle o) s.world).0 s.handle p)
                (store o (close (s.handle o) s.world).0 s.handle))
              k
            ≡ store p invalid_handle_value (store o (s.handle p) s.handle) k
      taken k = ground (arith, n)

  Use-HasOwners : {s t : Objects} → Use s t → HasOwners s → HasOwners t
  unfolding copy of_handle attach detach assign_self pure
  Use-HasOwners (adopts o h s e new zero) owned = adopt-Owned s.handle _ owned o h e new zero
  Use-HasOwners (copies o p s n e) owned = move-Owned s.handle _ owned o p n e
  Use-HasOwners (assigns o p s n) owned =
      rw (assign-close (s.handle o) (s.handle p) s.world) (assign-Owned o p s n owned)
  Use-HasOwners (assigns_self o s) owned =
      subst (λ f. Owned f (λ h. closes h s.world.trace)) (λ i k. unchanged k i) owned
    where
      unchanged : (k : ℕ) → s.handle k ≡ store o (s.handle o) s.handle k
      unchanged k = ground arith
  Use-HasOwners (closes_now o s) owned = close-Owned o s owned
  Use-HasOwners (destroys o s) owned =
      rw (destroy-close (s.handle o) s.world) (close-Owned o s owned)
  Use-HasOwners (destroys_event o s) owned =
      rw (destroy_event_handle-close (s.handle o) s.world) (close-Owned o s owned)

  -- In every program that adopts only handles that no object has and that were not closed, no two
  -- objects ever have one handle, no object has a closed handle, and no handle is closed twice, if it
  -- is so at the start. The program copies, assigns, closes and destroys AutoHandle objects, destroys
  -- AutoEventHandle objects, and assigns objects to themselves, in any order.
  pub Uses-HasOwners : {s t : Objects} → Uses s t → HasOwners s → HasOwners t
  Uses-HasOwners unused owned = owned
  Uses-HasOwners (and_then before use') owned = Use-HasOwners use' (Uses-HasOwners before owned)
