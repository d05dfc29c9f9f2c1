-- ===== src/Sync/Owners/Moves.antt =====
-- The owners of handles in netfilter/sync.h: a handle is taken over, given up, or adopted.
use qv_plugin_netfilter.Base.{ℕ, suc, ◌≤◌, ◌≡◌, ◌≢◌, sym, ap, ◌∙◌, ◌==◌, if◌then◌else◌, arith}
use qv_plugin_netfilter.System.{invalid_handle_value}

abbrev pub store : ℕ → ℕ → (ℕ → ℕ) → ℕ → ℕ
store o h f i = if o == i then h else f i

-- How often each handle was closed, after one more.
unfoldable pub bump : ℕ → (ℕ → ℕ) → ℕ → ℕ
bump g c h = if g == invalid_handle_value then c h else if g == h then suc (c h) else c h

-- No two objects have one handle, what an object has is not closed, and nothing is closed twice.
pub record Owned (f c : ℕ → ℕ) : Type 0 where
  pub alone : (i k : ℕ) → f i ≡ f k → f i ≢ invalid_handle_value → i ≡ k
  pub alive : (i : ℕ) → f i ≢ invalid_handle_value → c (f i) ≡ 0
  pub once : (h : ℕ) → c h ≤ 1

module _ (f c : ℕ → ℕ) (owned : Owned f c) where
  -- The objects change their handles among each other.
  permuted-Owned :
      (g s : ℕ → ℕ) → ((i k : ℕ) → s i ≡ s k → i ≡ k) → ((i : ℕ) → g i ≡ f (s i)) → Owned g c
  permuted-Owned g s inj e = record {
    alone =
        λ i k same n. inj i k (owned.alone (s i) (s k) (sym (e i) ∙ same ∙ e k) (λ z. n (e i ∙ z)));
    alive = λ i n. ap c (e i) ∙ owned.alive (s i) (λ z. n (e i ∙ z));
    once = owned.once;
  }

  -- An object without a handle takes over that of another.
  pub move-Owned :
      (o p : ℕ)
      → o ≢ p
      → f o ≡ invalid_handle_value
      → Owned (store p invalid_handle_value (store o (f p) f)) c
  move-Owned o p n e =
      permuted-Owned (store p invalid_handle_value (store o (f p) f))
        (λ i. if p == i then o else if o == i then p else i) (λ i k same. ground (arith, n, same))
        λ i. ground (arith, n, e)

  pub adopt-Owned :
      (o h : ℕ) → f o ≡ invalid_handle_value → ((i : ℕ) → f i ≢ h) → c h ≡ 0 → Owned (store o h f) c
  adopt-Owned o h e new zero = record {
    alone = λ i k same n. ground (arith, same, n, new i, new k, owned.alone i k);
    alive = λ i n. ground (arith, zero, n, owned.alive i);
    once = owned.once;
  }

  -- An object gives up its handle, which is closed.
  pub release-Owned : (o : ℕ) → Owned (store o invalid_handle_value f) (bump (f o) c)
  unfolding bump
  release-Owned o = record {
    alone = λ i k same n. ground (arith, same, n, owned.alone i k);
    alive = λ i n. ground (arith, n, owned.alive i, owned.alone o i);
    once = λ h. ground (arith, owned.once h, owned.alive o);
  }
