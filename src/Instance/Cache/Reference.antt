-- ===== src/Instance/Cache/Reference.antt =====
-- What the cache of the instance provider promises: for each ID the instance that was stored last, for
-- the time of its TTL, unless it was deleted.
use karpenter_provider_aliba.Prelude.{
  Distinct, List, Option, Option-cases, String, [], arith, if_intro, if◌then◌else◌, inl, inr,
  insert-Distinct, keys, leb, lookup, none, refl, remove-Distinct, some, str_eq, ℕ, ◌+◌, ◌∙◌, ◌∷◌,
  ◌≡◌, ◌≤◌,
}
use karpenter_provider_aliba.Instance.Api.{Instance}
use karpenter_provider_aliba.Instance.Cache.{
  Cache, delete_cached_instance, delete_expired_cache_entries, get_cached_instance, is_expired,
  set_cached_instance,
}
use karpenter_provider_aliba.Instance.Cache.Keys.{looked_up-Distinct, swept-Distinct}
use karpenter_provider_aliba.Instance.Cache.Live.{
  live, live-looked_up, live-remove, live-stored, live-swept, live_entry,
}

-- A call that touches the cache.
pub data CacheCall : Type 0 where
  looked_up : String → CacheCall
  stored : String → Instance → CacheCall
  deleted : String → CacheCall
  swept : CacheCall

unfoldable pub after_call : ℕ → ℕ → CacheCall → Cache → Cache
unfolding get_cached_instance set_cached_instance delete_cached_instance
    delete_expired_cache_entries
after_call ttl now (looked_up id) cache = (get_cached_instance now id cache).1
after_call ttl now (stored id inst) cache = set_cached_instance ttl now id inst cache
after_call ttl now (deleted id) cache = delete_cached_instance id cache
after_call ttl now swept cache = delete_expired_cache_entries now cache

-- The calls, the last one first, with the time of each.
abbrev pub Calls : Type 0
Calls = List (ℕ × CacheCall)

unfoldable pub after_calls : ℕ → Calls → Cache
unfolding after_call
after_calls ttl [] = []
after_calls ttl ((now, call) ∷ earlier) = after_call ttl now call (after_calls ttl earlier)

-- No call comes after this time, nor after a later one.
abbrev pub InOrder : ℕ → Calls → Type 0
InOrder later [] = Unit
InOrder later ((now, call) ∷ earlier) = (now ≤ later) × InOrder now earlier

-- The instance of an ID at a time, by the history alone.
unfoldable pub reference : ℕ → ℕ → String → Calls → Option Instance
reference ttl later id [] = none
reference ttl later id ((now, looked_up i) ∷ earlier) = reference ttl later id earlier
reference ttl later id ((now, swept) ∷ earlier) = reference ttl later id earlier
reference ttl later id ((now, deleted i) ∷ earlier) =
    let before = reference ttl later id earlier in if str_eq i id then none else before
reference ttl later id ((now, stored i inst) ∷ earlier) =
    let before = reference ttl later id earlier in
    if str_eq i id then (if leb later (now + ttl) then some inst else none) else before

InOrder-later :
    (now later : ℕ) (calls : Calls) → now ≤ later → InOrder now calls → InOrder later calls
InOrder-later now later [] h k = tt
InOrder-later now later ((at, call) ∷ earlier) h k = (omega (arith, k.0), k.1)

pub after_calls-Distinct : (ttl : ℕ) (calls : Calls) → Distinct (keys (after_calls ttl calls))
unfolding after_calls
after_calls-Distinct ttl [] = tt
after_calls-Distinct ttl ((now, looked_up id) ∷ earlier) =
    looked_up-Distinct now id (after_calls ttl earlier) (after_calls-Distinct ttl earlier)
after_calls-Distinct ttl ((now, stored id inst) ∷ earlier) =
    insert-Distinct id _ (after_calls ttl earlier) (after_calls-Distinct ttl earlier)
after_calls-Distinct ttl ((now, deleted id) ∷ earlier) =
    remove-Distinct id (after_calls ttl earlier) (after_calls-Distinct ttl earlier)
after_calls-Distinct ttl ((now, swept) ∷ earlier) =
    swept-Distinct now (after_calls ttl earlier) (after_calls-Distinct ttl earlier)

live-after_calls :
    (ttl later : ℕ) (id : String) (calls : Calls)
    → InOrder later calls
    → live later id (after_calls ttl calls) ≡ reference ttl later id calls
unfolding after_calls reference lookup live_entry
live-after_calls ttl later id [] h = refl
live-after_calls ttl later id ((now, looked_up i) ∷ earlier) h =
    live-looked_up now later i id (after_calls ttl earlier) h.0
    ∙ live-after_calls ttl later id earlier (InOrder-later now later earlier h.0 h.1)
live-after_calls ttl later id ((now, stored i inst) ∷ earlier) h =
    live-stored ttl now later i id inst (after_calls ttl earlier)
    ∙ rw (live-after_calls ttl later id earlier (InOrder-later now later earlier h.0 h.1)) refl
live-after_calls ttl later id ((now, deleted i) ∷ earlier) h =
    live-remove later i id (after_calls ttl earlier)
    ∙ rw (live-after_calls ttl later id earlier (InOrder-later now later earlier h.0 h.1)) refl
live-after_calls ttl later id ((now, swept) ∷ earlier) h =
    live-swept now later id (after_calls ttl earlier) h.0 (after_calls-Distinct ttl earlier)
    ∙ live-after_calls ttl later id earlier (InOrder-later now later earlier h.0 h.1)

-- After any sequence of lookups, stores, deletions and sweeps whose times do not fall, a lookup at no
-- earlier time answers what the history says: the instance that was stored last for the ID, if no
-- deletion came after it and its TTL has not passed.
pub get_cached_instance-reference :
    (ttl later : ℕ) (id : String) (calls : Calls)
    → InOrder later calls
    → (get_cached_instance later id (after_calls ttl calls)).0 ≡ reference ttl later id calls
unfolding get_cached_instance live_entry
get_cached_instance-reference ttl later id calls h =
    answer (after_calls ttl calls) ∙ live-after_calls ttl later id calls h
  where
    answer : (cache : Cache) → (get_cached_instance later id cache).0 ≡ live later id cache
    answer cache = elim (Option-cases (lookup id cache)) [
      | inl n ↦ rw (n, get_cached_instance) refl
      | inr (entry, n) ↦
          rw (n, get_cached_instance)
            (if_intro (λ (c : Option Instance × Cache). c.0 ≡ live_entry later (some entry))
              (is_expired later entry) _ _ (λ e. rw e refl) (λ e. rw e refl))
    ]
