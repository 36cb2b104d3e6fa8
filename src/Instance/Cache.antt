-- ===== src/Instance/Cache.antt =====
-- The cache of the instance provider in pkg/providers/instance/instance.go. One call reads one time,
-- `now`; times are in seconds.
pub mod Keys
pub mod Live
pub mod Reference
use karpenter_provider_aliba.Prelude.{
  Bool, List, Option, String, [], if◌then◌else◌, insert, lookup, ltb, none, remove, some, ℕ, ◌+◌,
  ◌∷◌,
}
use karpenter_provider_aliba.Instance.Api.{Instance}

pub record CacheEntry : Type 0 where
  pub instance : Instance
  pub expires_at : ℕ

abbrev pub Cache : Type 0
Cache = List (String × CacheEntry)

-- `NewProvider` sets a TTL of 30 seconds.
abbrev pub default_cache_ttl : ℕ
default_cache_ttl = 30

abbrev pub is_expired : ℕ → CacheEntry → Bool
is_expired now entry = ltb entry.expires_at now

unfoldable pub get_cached_instance : ℕ → String → Cache → Option Instance × Cache
unfolding lookup remove
get_cached_instance now id cache = elim (lookup id cache) [
  | none ↦ (none, cache)
  | some entry ↦
      if is_expired now entry then (none, remove id cache) else (some entry.instance, cache)
]

unfoldable pub set_cached_instance : ℕ → ℕ → String → Instance → Cache → Cache
unfolding insert
set_cached_instance ttl now id inst = insert id (record { instance = inst; expires_at = now + ttl })

unfoldable pub delete_expired_cache_entries : ℕ → Cache → Cache
delete_expired_cache_entries now [] = []
delete_expired_cache_entries now (e ∷ cache) =
    let rest = delete_expired_cache_entries now cache in
    if is_expired now e.1 then rest else e ∷ rest

unfoldable pub delete_cached_instance : String → Cache → Cache
unfolding remove
delete_cached_instance id cache = remove id cache
