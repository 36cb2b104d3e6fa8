-- ===== src/Instance/Cache/Keys.antt =====
-- No call on the cache of the instance provider gives an ID two entries.
use karpenter_provider_aliba.Prelude.{
  Distinct, Option, Option-cases, String, [], arith, false, if_intro, inl, inr, keys, lookup,
  member, refl, remove-Distinct, ℕ, ◌∷◌, ◌≡◌,
}
use karpenter_provider_aliba.Instance.Api.{Instance}
use karpenter_provider_aliba.Instance.Cache.{
  Cache, CacheEntry, delete_expired_cache_entries, get_cached_instance, is_expired,
}

swept-absent :
    (now : ℕ) (j : String) (cache : Cache)
    → member j (keys cache) ≡ false
    → member j (keys (delete_expired_cache_entries now cache)) ≡ false
unfolding delete_expired_cache_entries member
swept-absent now j [] h = refl
swept-absent now j ((i, w) ∷ cache) h = ground (arith, swept-absent now j cache)

pub swept-Distinct :
    (now : ℕ) (cache : Cache)
    → Distinct (keys cache)
    → Distinct (keys (delete_expired_cache_entries now cache))
unfolding delete_expired_cache_entries
swept-Distinct now [] h = tt
swept-Distinct now ((i, w) ∷ cache) h =
    if_intro (λ c. Distinct (keys {V = CacheEntry} c)) (is_expired now w) _ _
      (λ e. swept-Distinct now cache h.1)
      λ e. (swept-absent now i cache h.0, swept-Distinct now cache h.1)

pub looked_up-Distinct :
    (now : ℕ) (id : String) (cache : Cache)
    → Distinct (keys cache)
    → Distinct (keys (get_cached_instance now id cache).1)
unfolding get_cached_instance
looked_up-Distinct now id cache h = elim (Option-cases (lookup id cache)) [
  | inl n ↦ rw (n, get_cached_instance) h
  | inr (entry, n) ↦
      rw (n, get_cached_instance)
        (if_intro (λ (c : Option Instance × Cache). Distinct (keys c.1)) (is_expired now entry) _ _
          (λ e. remove-Distinct id cache h) λ e. h)
]
