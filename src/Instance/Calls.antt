-- ===== src/Instance/Calls.antt =====
-- The calls of the instance provider in pkg/providers/instance/instance.go: Get, Delete, List and
-- TagInstance. The API of ECS is a parameter, with a state `W` of the cloud.
pub mod Tagged
pub mod Deleted
pub mod Fetched
use karpenter_provider_aliba.Prelude.{
  Bool, List, Option, Outcome, String, [], append_text, contains_text, decimal, err, false,
  if◌then◌else◌, is_empty, is_set, length, none, ok, some, true, ℕ, ◌&&◌, ◌+◌, ◌||◌, ◌∷◌,
}
use karpenter_provider_aliba.Errors.{is_not_found}
use karpenter_provider_aliba.Instance.Api.{ApiInstance, Instance, instance_of}
use karpenter_provider_aliba.Instance.Cache.{
  Cache, delete_cached_instance, get_cached_instance, set_cached_instance,
}
use karpenter_provider_aliba.Utils.Tags.{Tags, batch_tags}

-- What the provider holds that changes: its cache, and the cloud behind its client.
pub record Provider (W : Type 0) : Type 0 where
  pub cache : Cache
  pub cloud : W

-- The calls of the ECS client, each with the message of its error.
pub record Ecs (W : Type 0) : Type 0 where
  pub describe : List String → W → Outcome String (List ApiInstance) × W
  pub delete_instances : String → W → Option String × W
  pub tag_resources : String → Tags → W → Option String × W

-- An error of `describeInstances`: a `NotFoundError`, or another.
pub data DescribeError : Type 0 where
  instances_not_found : String → DescribeError
  describe_failed : String → DescribeError

-- An error of `Get` and `Delete`: Karpenter's `NodeClaimNotFoundError`, another error, or the panic of a
-- nil pointer.
pub data InstanceError : Type 0 where
  node_claim_not_found : String → InstanceError
  instance_failed : String → InstanceError
  nil_dereference : InstanceError

-- `%v` of a list of texts, without its brackets.
unfoldable pub show_ids : List String → String
show_ids [] = ""
show_ids (id ∷ []) = id
show_ids (id ∷ second ∷ ids) = append_text id (append_text " " (show_ids (second ∷ ids)))

unfoldable pub describe_error : List String → String → DescribeError
unfolding contains_text show_ids
describe_error ids e =
    if contains_text e "InvalidInstanceId.NotFound"
      || contains_text e "InstanceNotFound"
      || contains_text e "not found"
    then instances_not_found
        (append_text "instances [" (append_text (show_ids ids) (append_text "] not found: " e)))
    else describe_failed (
        append_text "failed to describe instances ["
          (append_text (show_ids ids) (append_text "]: " e)))

abbrev pub describe_message : DescribeError → String
describe_message (instances_not_found m) = m
describe_message (describe_failed m) = m

-- The fields that `Get` dereferences without a test.
unfoldable pub is_complete : ApiInstance → Bool
is_complete inst =
    is_set inst.instance_id
    && is_set inst.region_id
    && is_set inst.zone_id
    && is_set inst.instance_type
    && is_set inst.image_id
    && is_set inst.cpu
    && is_set inst.memory
    && is_set inst.status
    && is_set inst.creation_time

-- Whether an error of the deletion says that the instance is gone.
unfoldable pub says_deleted : String → Bool
unfolding is_not_found contains_text
says_deleted e =
    is_not_found (some e)
    || contains_text e "InvalidInstanceId.NotFound"
    || contains_text e "InstanceNotFound"

-- `Get` after the request: one call of the batcher with one ID is one `DescribeInstances`.
unfoldable pub take_described :
    ℕ
    → ℕ
    → String
    → Outcome DescribeError (List ApiInstance)
    → Cache
    → Outcome InstanceError Instance × Cache
unfolding instance_of is_complete set_cached_instance delete_cached_instance
take_described ttl now id (err e) cache =
    (err (instance_failed (append_text "fail to describe instances: " (describe_message e))), cache)
take_described ttl now id (ok []) cache = (
  err (node_claim_not_found (append_text "instance " (append_text id " not found"))),
  delete_cached_instance id cache,
)
take_described ttl now id (ok (inst ∷ more)) cache =
    if is_complete inst
    then (ok (instance_of inst), set_cached_instance ttl now id (instance_of inst) cache)
    else (err nil_dereference, cache)

abbrev pub gone_after_deletion : String → InstanceError
gone_after_deletion id =
    node_claim_not_found (append_text "instance " (append_text id " not found after deletion"))

-- The verification by `DescribeInstances` after a deletion that was accepted. The log line about an
-- instance that is still there dereferences its status.
unfoldable pub deletion_result :
    String → Outcome DescribeError (List ApiInstance) → Option InstanceError
deletion_result id (err (instances_not_found m)) = some (gone_after_deletion id)
deletion_result id (err (describe_failed m)) = none
deletion_result id (ok []) = some (gone_after_deletion id)
deletion_result id (ok (inst ∷ more)) = if is_set inst.status then none else some nil_dereference

unfoldable pub deletion_error : String → Option InstanceError
unfolding says_deleted contains_text
deletion_error e =
    if says_deleted e
    then some (node_claim_not_found (append_text "instance delete with err " e))
    else if contains_text e "IncorrectInstanceStatus.Initializing"
    then none
    else some (instance_failed (append_text "delete instance failed: " e))

module _ {W : Type 0} (ecs : Ecs W) where
  unfoldable pub describe_instances : List String → W → Outcome DescribeError (List ApiInstance) × W
  unfolding describe_error
  describe_instances ids w =
      let (response, w') = ecs.describe ids w in
      elim response [ ok found ↦ (ok found, w') | err e ↦ (err (describe_error ids e), w') ]

  unfoldable pub get_described :
      ℕ → ℕ → String → Provider W → Outcome InstanceError Instance × Provider W
  unfolding take_described describe_instances
  get_described ttl now id p =
      let (response, w') = describe_instances (id ∷ []) p.cloud in
      let (result, cache') = take_described ttl now id response p.cache in
      (result, record { cache = cache'; cloud = w' })

  -- What follows the look into the cache.
  unfoldable pub get_looked_up :
      ℕ → ℕ → String → Option Instance × Cache → W → Outcome InstanceError Instance × Provider W
  unfolding get_described
  get_looked_up ttl now id (some inst, cache) w = (ok inst, record { cache = cache; cloud = w })
  get_looked_up ttl now id (none, cache) w =
      get_described ttl now id (record { cache = cache; cloud = w })

  -- `Get`
  unfoldable pub get :
      ℕ → ℕ → String → Bool → Provider W → Outcome InstanceError Instance × Provider W
  unfolding get_looked_up get_cached_instance
  get ttl now id true p = get_described ttl now id p
  get ttl now id false p = get_looked_up ttl now id (get_cached_instance now id p.cache) p.cloud

  -- `Delete`: the error, if any.
  unfoldable pub delete : String → Provider W → Option InstanceError × Provider W
  unfolding deletion_error delete_cached_instance deletion_result describe_instances
  delete id p =
      let (failure, w') = ecs.delete_instances id p.cloud in
      elim failure [
        | some e ↦ (deletion_error e, record { cache = p.cache; cloud = w' })
        | none ↦
            let (response, w'') = describe_instances (id ∷ []) w' in
            (
              deletion_result id response,
              record { cache = delete_cached_instance id p.cache; cloud = w'' },
            )
      ]

  -- The loop of `TagInstance` over the batches, from batch `i` of `n`.
  unfoldable pub tag_batches : String → ℕ → ℕ → List Tags → W → Option String × W
  unfolding decimal
  tag_batches id i n [] w = (none, w)
  tag_batches id i n (batch ∷ batches) w =
      let (failure, w') = ecs.tag_resources id batch w in
      elim failure [
        | none ↦ tag_batches id (i + 1) n batches w'
        | some e ↦ (
          some (
              append_text "failed to tag instance " (
                append_text id (
                  append_text " (batch " (
                    append_text (decimal i)
                      (append_text "/" (append_text (decimal n) (append_text "): " e))))))),
          w',
        )
      ]

  -- `TagInstance`: the error, if any.
  unfoldable pub tag_instance : String → Tags → W → Option String × W
  unfolding tag_batches batch_tags
  tag_instance id tags w =
      if is_empty tags
      then (none, w)
      else tag_batches id 1 (length (batch_tags tags)) (batch_tags tags) w
