-- ===== src/Instance/Cache/Live.antt =====
-- The unexpired instance of an ID in the cache, before and after each call on it.
use karpenter_provider_aliba.Prelude.{
  Bool, Bool-cases, Distinct, Option, Option-cases, String, [], ap, arith, false, if_intro,
  if◌then◌else◌, inl, inr, keys, leb, lookup, lookup-insert, lookup-none_of_not-member,
  lookup-remove, member, none, refl, remove, some, str_eq, str_eq_iff, sym, true, ℕ, ◌+◌, ◌∙◌, ◌∷◌,
  ◌≡◌, ◌≤◌,
}
use karpenter_provider_aliba.Instance.Api.{Instance}
use karpenter_provider_aliba.Instance.Cache.{
  Cache, CacheEntry, delete_expired_cache_entries, get_cached_instance, is_expired,
  set_cached_instance,
}

-- The unexpired instance of an entry.
unfoldable pub live_entry : ℕ → Option CacheEntry → Option Instance
live_entry later none = none
live_entry later (some entry) = if is_expired later entry then none else some entry.instance

abbrev pub live : ℕ → String → Cache → Option Instance
live later id cache = live_entry later (lookup id cache)

-- An entry that is expired now is so later.
expired_later :
    (now later : ℕ) (entry : CacheEntry)
    → now ≤ later
    → is_expired now entry ≡ true
    → live_entry later (some entry) ≡ none
unfolding live_entry
expired_later now later entry h k = ground arith

pub live-swept :
    (now later : ℕ) (id : String) (cache : Cache)
    → now ≤ later
    → Distinct (keys cache)
    → live later id (delete_expired_cache_entries now cache) ≡ live later id cache
unfolding delete_expired_cache_entries lookup member live_entry
live-swept now later id [] h d = refl
live-swept now later id ((i, w) ∷ cache) h d = elim (Bool-cases (str_eq i id)) [
  | inl same ↦ elim (Bool-cases (is_expired now w)) [
    | inl old ↦
        rw (old, same)
          (gone ((str_eq_iff i id).0 same) (live-swept now later id cache h d.1)
            ∙ sym (expired_later now later w h old))
    | inr fresh ↦ rw (fresh, same) refl
  ]
  | inr other ↦ elim (Bool-cases (is_expired now w)) [
    | inl old ↦ rw (old, other) (live-swept now later id cache h d.1)
    | inr fresh ↦ rw (fresh, other) (live-swept now later id cache h d.1)
  ]
]
  where
    gone :
        i ≡ id
        → live later id (delete_expired_cache_entries now cache) ≡ live later id cache
        → live later id (delete_expired_cache_entries now cache) ≡ none
    gone e tail =
        let absent : lookup id cache ≡ none = lookup-none_of_not-member id cache (rw e at d.0) in
        tail ∙ ap (live_entry later) absent

pub live-remove :
    (later : ℕ) (at id : String) (cache : Cache)
    → live later id (remove at cache) ≡ (if str_eq at id then none else live later id cache)
unfolding live_entry
live-remove later at id cache =
    ap (live_entry later) (lookup-remove at id cache) ∙ live_if (str_eq at id)
  where
    live_if :
        (b : Bool)
        → live_entry later (if b then none else lookup id cache)
          ≡ (if b then none else live later id cache)
    live_if true = refl
    live_if false = refl

pub live-looked_up :
    (now later : ℕ) (at id : String) (cache : Cache)
    → now ≤ later
    → live later id (get_cached_instance now at cache).1 ≡ live later id cache
unfolding get_cached_instance
live-looked_up now later at id cache h = elim (Option-cases (lookup at cache)) [
  | inl n ↦ rw (n, get_cached_instance) refl
  | inr (entry, n) ↦
      rw (n, get_cached_instance)
        (if_intro (λ (c : Option Instance × Cache). live later id c.1 ≡ live later id cache)
          (is_expired now entry) _ _ (λ old. live-remove later at id cache ∙ expired_at entry n old)
          λ fresh. refl)
]
  where
    expired_at :
        (entry : CacheEntry)
        → lookup at cache ≡ some entry
        → is_expired now entry ≡ true
        → (if str_eq at id then none else live later id cache) ≡ live later id cache
    expired_at entry n old = elim (Bool-cases (str_eq at id)) [
      | inl same ↦ rw same (
          sym (
            ap (λ k. live later k cache) (sym ((str_eq_iff at id).0 same))
            ∙ (ap (live_entry later) n ∙ expired_later now later entry h old)))
      | inr other ↦ rw other refl
    ]

pub live-stored :
    (ttl now later : ℕ) (at id : String) (inst : Instance) (cache : Cache)
    → live later id (set_cached_instance ttl now at inst cache) ≡ (
        if str_eq at id
        then (if leb later (now + ttl) then some inst else none)
        else live later id cache)
unfolding set_cached_instance live_entry
live-stored ttl now later at id inst cache =
    ap (live_entry later)
      (lookup-insert at id (record { instance = inst; expires_at = now + ttl }) cache)
    ∙ both (str_eq at id)
  where
    both :
        (b : Bool)
        → live_entry later (
            if b
            then some (record { instance = inst; expires_at = now + ttl })
            else lookup id cache)
          ≡ (if b then (if leb later (now + ttl) then some inst else none) else live later id cache)
    both true = ground arith
    both false = refl
