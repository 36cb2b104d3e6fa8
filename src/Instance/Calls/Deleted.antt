-- ===== src/Instance/Calls/Deleted.antt =====
-- What Karpenter may conclude from the error of `Delete`.
use karpenter_provider_aliba.Prelude.{
  Bool, Bool-cases, List, Option, Option-cases, Outcome-cases, String, [], ap, append_text, arith,
  contains_text, err, false, if◌then◌else◌, inl, inr, lookup, none, ok, refl, some, true, ℕ, ◌||◌,
  ◌∙◌, ◌∷◌, ◌≡◌, ◌≤◌, ◌⊎◌,
}
use karpenter_provider_aliba.Errors.{classified, contains_one, is_not_found}
use karpenter_provider_aliba.Instance.Api.{ApiInstance}
use karpenter_provider_aliba.Instance.Cache.{CacheEntry, get_cached_instance, is_expired}
use karpenter_provider_aliba.Instance.Calls.{
  DescribeError, Ecs, InstanceError, Provider, delete, deletion_error, deletion_result,
  describe_error, describe_failed, describe_instances, get, instance_failed, instances_not_found,
  nil_dereference, node_claim_not_found, says_deleted,
}

-- The code with which ECS says that an instance does not exist.
abbrev pub no_such_instance : String
no_such_instance = "InvalidInstanceId.NotFound"

-- The other texts that are taken for it.
abbrev pub other_not_found_texts : List String
other_not_found_texts =
    "InvalidImage.NotFound" ∷ "InvalidVSwitchId.NotFound" ∷ "InvalidSecurityGroupId.NotFound"
    ∷ "not found" ∷ "NotFound" ∷ "InstanceNotFound" ∷ []

abbrev pub mentions : List String → String → Bool
mentions [] e = false
mentions (text ∷ texts) e = contains_text e text || mentions texts e

-- An error that only mentions that something was not found.
abbrev pub IsLoose : String → Type 0
IsLoose e = (contains_text e no_such_instance ≡ false) × (mentions other_not_found_texts e ≡ true)

-- What Delete relies on: when ECS answers that there is no such instance, or describes nothing, the
-- instance does not exist.
pub record DeleteLaws {W : Type 0} (ecs : Ecs W) (has_instance : String → W → Bool) : Type 0 where
  pub delete_finds_none :
      (id e : String) (w : W)
      → (ecs.delete_instances id w).0 ≡ some e
      → contains_text e no_such_instance ≡ true
      → has_instance id (ecs.delete_instances id w).1 ≡ false
  pub describe_finds_none :
      (id e : String) (w : W)
      → (ecs.describe (id ∷ []) w).0 ≡ err e
      → contains_text e no_such_instance ≡ true
      → has_instance id (ecs.describe (id ∷ []) w).1 ≡ false
  pub nothing_described :
      (id : String) (w : W)
      → (ecs.describe (id ∷ []) w).0 ≡ ok []
      → has_instance id (ecs.describe (id ∷ []) w).1 ≡ false

says_deleted-cases :
    (e : String) → says_deleted e ≡ true → (contains_text e no_such_instance ≡ true) ⊎ IsLoose e
unfolding says_deleted is_not_found classified contains_one
says_deleted-cases e h = elim (Bool-cases (contains_text e no_such_instance)) [
  | inl named ↦ inl named
  | inr other ↦ inr (other, ground (arith, h, other))
]

describe_error-cases :
    (id e m : String)
    → describe_error (id ∷ []) e ≡ instances_not_found m
    → (contains_text e no_such_instance ≡ true) ⊎ IsLoose e
unfolding describe_error
describe_error-cases id e m h = elim (Bool-cases (contains_text e no_such_instance)) [
  | inl named ↦ inl named
  | inr other ↦ inr (other, ground (arith, h, other))
]

abbrev pub says_gone : Option InstanceError → Bool
says_gone (some (node_claim_not_found m)) = true
says_gone (some (instance_failed m)) = false
says_gone (some nil_dereference) = false
says_gone none = false

says_gone-deletion_error :
    (e : String) → says_gone (deletion_error e) ≡ true → says_deleted e ≡ true
unfolding deletion_error
says_gone-deletion_error e h = elim (Bool-cases (says_deleted e)) [
  | inl holds ↦ holds
  | inr other ↦
      not_gone (contains_text e "IncorrectInstanceStatus.Initializing") _
        (rw (other, deletion_error) at h)
]
  where
    not_gone :
        (b : Bool) (f : String)
        → says_gone (if b then none else some (instance_failed f)) ≡ true
        → says_deleted e ≡ true
    not_gone true f h = ground arith
    not_gone false f h = ground arith

nothing_found :
    (id : String) (found : List ApiInstance)
    → says_gone (deletion_result id (ok found)) ≡ true
    → found ≡ []
unfolding deletion_result
nothing_found id [] h = refl
nothing_found id (inst ∷ more) h = ground arith

not_found_error :
    (id : String) (d : DescribeError)
    → says_gone (deletion_result id (err d)) ≡ true
    → (m : String) × (d ≡ instances_not_found m)
unfolding deletion_result
not_found_error id (instances_not_found m) h = (m, refl)
not_found_error id (describe_failed m) h = ground arith

module _ {W : Type 0} (ecs : Ecs W) (has_instance : String → W → Bool)
    (laws : DeleteLaws ecs has_instance) where
  described_gone :
      (id : String) (w : W)
      → says_gone (deletion_result id (describe_instances ecs (id ∷ []) w).0) ≡ true
      → (has_instance id (describe_instances ecs (id ∷ []) w).1 ≡ false)
        ⊎ ((e : String) × ((ecs.describe (id ∷ []) w).0 ≡ err e) × IsLoose e)
  unfolding deletion_result describe_instances
  described_gone id w h = elim (Outcome-cases (ecs.describe (id ∷ []) w).0) [
    | inl (found, e) ↦
        let none_found = nothing_found id found (rw (e, describe_instances) at h) in
        inl (rw (e, describe_instances) (laws.nothing_described id w (e ∙ ap ok none_found)))
    | inr (m, e) ↦
        let (n, d) =
          not_found_error id (describe_error (id ∷ []) m) (rw (e, describe_instances) at h) in
        elim (describe_error-cases id m n d) [
          | inl named ↦ inl (rw (e, describe_instances) (laws.describe_finds_none id m w e named))
          | inr loose ↦ inr (m, e, loose)
        ]
  ]

  -- If Delete returns a NodeClaimNotFoundError, on which Karpenter lets the NodeClaim go, then either ECS
  -- does not have the instance any more, or its answer to the deletion or to the description is an error
  -- without the code of an unknown instance that mentions one of the other not-found texts. The conditions
  -- on ECS are that an error with that code, and a description of nothing, mean that there is no instance.
  pub delete-gone :
      (id : String) (p : Provider W)
      → says_gone (delete ecs id p).0 ≡ true
      → (has_instance id (delete ecs id p).1.cloud ≡ false)
        ⊎ ((e : String) × (((ecs.delete_instances id p.cloud).0 ≡ some e)
              ⊎ ((ecs.describe (id ∷ []) (ecs.delete_instances id p.cloud).1).0 ≡ err e))
            × IsLoose e)
  unfolding delete
  delete-gone id p h = elim (Option-cases (ecs.delete_instances id p.cloud).0) [
    | inl n ↦
        let described =
          described_gone id (ecs.delete_instances id p.cloud).1 (rw (n, delete) at h) in
        elim described [
          | inl gone ↦ inl (rw (n, delete) gone)
          | inr (e, r, loose) ↦ inr (e, inr r, loose)
        ]
    | inr (e, n) ↦ elim (says_deleted-cases e (says_gone-deletion_error e (rw (n, delete) at h))) [
      | inl named ↦ inl (rw (n, delete) (laws.delete_finds_none id e p.cloud n named))
      | inr loose ↦ inr (e, inl n, loose)
    ]
  ]

module _ {W : Type 0} (ecs : Ecs W) where
  -- When ECS answers a deletion with the error that the instance is gone, Delete reports that to
  -- Karpenter but leaves the instance in the cache: Get still returns it until its entry expires.
  pub delete-get_stale :
      (ttl now : ℕ) (id e : String) (p : Provider W) (entry : CacheEntry)
      → (ecs.delete_instances id p.cloud).0 ≡ some e
      → says_deleted e ≡ true
      → lookup id p.cache ≡ some entry
      → now ≤ entry.expires_at
      → ((delete ecs id p).0
          ≡ some (node_claim_not_found (append_text "instance delete with err " e)))
        × ((get ecs ttl now id false (delete ecs id p).1).0 ≡ ok entry.instance)
  unfolding delete get deletion_error get_cached_instance
  delete-get_stale ttl now id e p entry r gone cached fresh =
      let fresh' : is_expired now entry ≡ false = ground arith in
      let after : delete ecs id p ≡ (
        deletion_error e,
        record { cache = p.cache; cloud = (ecs.delete_instances id p.cloud).1 },
      ) =
        rw (r, delete) refl in
      (
        rw (r, delete, gone, deletion_error) refl,
        rw (after, cached, get, get_cached_instance, fresh') refl,
      )
