-- ===== src/Instance/Create.antt =====
-- `Create` of pkg/providers/instance/instance.go. Its answer from ECS is the list of instance IDs, where a
-- response without a body or a list is nil.
pub mod Complete
use karpenter_provider_aliba.Prelude.{
  List, Option, Outcome, String, [], append_text, err, if◌then◌else◌, member, none, ok, some, ◌∷◌,
}
use karpenter_provider_aliba.Instance.{CreateOptions}
use karpenter_provider_aliba.Instance.Calls.{Ecs, tag_instance}
use karpenter_provider_aliba.Instance.Requests.{
  Encoding, RunInstancesRequest, deferred_batches, run_instances_request,
}
use karpenter_provider_aliba.Utils.SecurityGroups.{normalize_ids}
use karpenter_provider_aliba.Utils.Tags.{Tags, batch_tags}

-- The call that Create adds to those of the provider.
pub record Launching (W : Type 0) : Type 0 where
  pub run_instances : RunInstancesRequest → W → Outcome String (Option (List (Option String))) × W

-- The first ID of a response.
unfoldable pub created_id : Option (List (Option String)) → Outcome String String
created_id none = err "no instance ID returned from ECS API"
created_id (some []) = err "no instance ID returned from ECS API"
created_id (some (none ∷ ids)) = err "instance ID is nil in ECS API response"
created_id (some (some id ∷ ids)) = ok id

-- The tests of the security groups, with the error.
unfoldable pub groups_error : List String → Option String
unfolding member
groups_error [] = some "at least one security group ID is required"
groups_error (id ∷ ids) =
    if member "" (id ∷ ids) then some "security group ID cannot be empty" else none

module _ {W : Type 0} (ecs : Ecs W) (launching : Launching W) (e : Encoding) where
  -- The loop over the batches that the request did not take. A failure is logged.
  unfoldable pub apply_deferred : String → List Tags → W → W
  unfolding tag_instance
  apply_deferred id [] w = w
  apply_deferred id (batch ∷ batches) w =
      apply_deferred id batches ((tag_instance ecs id batch w).1)

  -- What follows the answer.
  unfoldable pub finish_create :
      List Tags → Outcome String (Option (List (Option String))) × W → Outcome String String × W
  unfolding created_id apply_deferred
  finish_create batches (err message, w) =
      (err (append_text "failed to create instance: " message), w)
  finish_create batches (ok response, w) = elim (created_id response) [
    | err message ↦ (err message, w)
    | ok id ↦ (ok id, apply_deferred id (deferred_batches batches) w)
  ]

  -- `Create`
  unfoldable pub create : CreateOptions → W → Outcome String String × W
  unfolding normalize_ids groups_error run_instances_request batch_tags finish_create
  create opts w = elim (groups_error (normalize_ids opts.security_group_ids)) [
    | some message ↦ (err message, w)
    | none ↦ finish_create (batch_tags opts.tags) (
        launching.run_instances
          (run_instances_request e opts (normalize_ids opts.security_group_ids)
            (batch_tags opts.tags))
          w)
  ]
