-- ===== src/Sync.antt =====
-- netfilter/sync.h: AutoHandle, the owner of a kernel handle, and AutoEventHandle: an object is its
-- field `m_h`. CriticalSection and AutoLock: a section is its address.
pub mod Owners
use qv_plugin_netfilter.Base.{ℕ, false, ◌==◌, if◌then◌else◌}
use qv_plugin_netfilter.Base.State.{M, pure, ◌>>=◌, ◌>>◌}
use qv_plugin_netfilter.System.{
  World, Os, perform, close_handle, create_event, init_section, delete_section, enter_section,
  leave_section, invalid_handle_value,
}

-- AutoHandle()
abbrev pub new_auto_handle : ℕ
new_auto_handle = invalid_handle_value

-- AutoHandle(HANDLE)
unfoldable pub of_handle : ℕ → ℕ
of_handle h = h

-- operator HANDLE
unfoldable pub get_handle : ℕ → ℕ
get_handle m_h = m_h

-- Attach: the field is overwritten, and what it held is not closed.
unfoldable pub attach : ℕ → ℕ → ℕ
attach m_h h = h

-- Detach: the result, and the field after.
unfoldable pub detach : ℕ → ℕ × ℕ
detach m_h = (m_h, invalid_handle_value)

-- AutoHandle(AutoHandle &): the fields of the new object, and of the other after.
unfoldable pub copy : ℕ → ℕ × ℕ
copy other = let (h, other') = detach other in (attach new_auto_handle h, other')

module _ ⦃os : Os⦄ where
  -- Close: the field after.
  unfoldable pub close : ℕ → M World ℕ
  close m_h =
      if m_h == invalid_handle_value
      then pure m_h
      else (do perform (close_handle m_h); pure invalid_handle_value)

  -- ~AutoHandle
  unfoldable pub destroy : ℕ → M World ℕ
  destroy m_h = if m_h == invalid_handle_value then pure m_h else close m_h

  -- operator=, from another object: the fields of this object and of the other after.
  unfoldable pub assign : ℕ → ℕ → M World (ℕ × ℕ)
  assign m_h other = do
    m_h' ← if m_h == invalid_handle_value then pure m_h else close m_h
    let (h, other') = detach other
    pure (attach m_h' h, other')

  -- operator=, where the other object is this one.
  unfoldable pub assign_self : ℕ → M World ℕ
  assign_self m_h = pure m_h

  -- AutoEventHandle()
  unfoldable pub new_event_handle : M World ℕ
  new_event_handle = perform (create_event false)

  -- ~AutoEventHandle, and ~AutoHandle after it
  unfoldable pub destroy_event_handle : ℕ → M World ℕ
  destroy_event_handle m_h = do m_h' ← close m_h; destroy m_h'

  -- CriticalSection(), ~CriticalSection, Lock and Unlock; S_OK is 0.
  unfoldable pub new_critical_section : ℕ → M World (Unit {0})
  new_critical_section cs = do perform (init_section cs); pure tt

  unfoldable pub delete_critical_section : ℕ → M World (Unit {0})
  delete_critical_section cs = do perform (delete_section cs); pure tt

  unfoldable pub lock : ℕ → M World ℕ
  lock cs = do perform (enter_section cs); pure 0

  unfoldable pub unlock : ℕ → M World ℕ
  unlock cs = do perform (leave_section cs); pure 0

  -- A scope with an AutoLock: its constructor, the rest of the scope, its destructor.
  unfoldable pub auto_lock : {A : Type 0} → ℕ → M World A → M World A
  auto_lock cs body = do lock cs; result ← body; unlock cs; pure result
