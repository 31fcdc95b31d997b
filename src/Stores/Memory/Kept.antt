-- ===== src/Stores/Memory/Kept.antt =====
-- src/stores/memory.rs: the cap and the idle time that a store was made with, through its operations.
use armature_ratelimit.DashMap.{DashMap}
use armature_ratelimit.Float.{Float}
use armature_ratelimit.Prelude.{ℕ, ◌≡◌, refl, Option, none, some, Text, arith}
use armature_ratelimit.Stores.Memory.{
  MemoryStore, cleanup, drop_idle, cap_all, cap_token_buckets, cap_sliding_logs, cap_fixed_windows,
  token_bucket_check, sliding_window_check, fixed_window_check,
}

cap_all-max_keys :
    (dash : DashMap) (fl : Float) (t : MemoryStore dash fl) (o : Option ℕ)
    → (cap_all dash fl t o).max_keys ≡ t.max_keys
unfolding cap_all cap_token_buckets cap_sliding_logs cap_fixed_windows
cap_all-max_keys dash fl t none = refl
cap_all-max_keys dash fl t (some n) = refl

cap_all-idle_ttl :
    (dash : DashMap) (fl : Float) (t : MemoryStore dash fl) (o : Option ℕ)
    → (cap_all dash fl t o).idle_ttl ≡ t.idle_ttl
unfolding cap_all cap_token_buckets cap_sliding_logs cap_fixed_windows
cap_all-idle_ttl dash fl t none = refl
cap_all-idle_ttl dash fl t (some n) = refl

module _ (dash : DashMap) (fl : Float) (s : MemoryStore dash fl) where
  pub cleanup-max_keys : (now : ℕ) → (cleanup dash fl s now).0.max_keys ≡ s.max_keys
  unfolding cleanup drop_idle
  cleanup-max_keys now = cap_all-max_keys dash fl (drop_idle dash fl s now) s.max_keys

  pub cleanup-idle_ttl : (now : ℕ) → (cleanup dash fl s now).0.idle_ttl ≡ s.idle_ttl
  unfolding cleanup drop_idle
  cleanup-idle_ttl now = cap_all-idle_ttl dash fl (drop_idle dash fl s now) s.max_keys

  pub token_bucket_check-max_keys :
      (now : ℕ) (key : Text) (capacity : ℕ) (rate : fl.F)
      → (token_bucket_check dash fl s now key capacity rate).0.max_keys ≡ s.max_keys
  unfolding token_bucket_check
  token_bucket_check-max_keys now key capacity rate = refl

  pub sliding_window_check-max_keys :
      (now : ℕ) (key : Text) (max_requests window : ℕ)
      → (sliding_window_check dash fl s now key max_requests window).0.max_keys ≡ s.max_keys
  unfolding sliding_window_check
  sliding_window_check-max_keys now key max_requests window = ground arith

  pub sliding_window_check-idle_ttl :
      (now : ℕ) (key : Text) (max_requests window : ℕ)
      → (sliding_window_check dash fl s now key max_requests window).0.idle_ttl ≡ s.idle_ttl
  unfolding sliding_window_check
  sliding_window_check-idle_ttl now key max_requests window = ground arith

  pub fixed_window_check-max_keys :
      (now : ℕ) (key : Text) (max_requests window : ℕ)
      → (fixed_window_check dash fl s now key max_requests window).0.max_keys ≡ s.max_keys
  unfolding fixed_window_check
  fixed_window_check-max_keys now key max_requests window = refl
