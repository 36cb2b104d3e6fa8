-- ===== src/Witnesses/Utilities.antt =====
-- Examples for the utilities and the errors.
use karpenter_provider_aliba.Prelude.{
  All, String, [], concat, lookup, lt_text, member, refl, some, true, ◌↔◌, ◌∷◌, ◌≡◌,
}
use karpenter_provider_aliba.Errors.{is_insufficient_capacity_error, wrap_error}
use karpenter_provider_aliba.Errors.Wrapping.{is_insufficient_capacity_error-wrap_error}
use karpenter_provider_aliba.Utils.Capacity.{
  capacity_type_from_instance, capacity_type_spot, charge_type_post_paid,
  spot_strategy_for_capacity_type,
}
use karpenter_provider_aliba.Utils.Capacity.Strategies.{
  capacity_type_from_instance-spot_strategy_for_capacity_type,
}
use karpenter_provider_aliba.Utils.SecurityGroups.{equal_ids}
use karpenter_provider_aliba.Utils.SecurityGroups.Equality.{equal_ids_iff}
use karpenter_provider_aliba.Utils.Tags.{Tags, batch_tags}
use karpenter_provider_aliba.Utils.Tags.Batches.{
  IsBatch, batch_tags-IsBatch, lookup-concat-batch_tags,
}

abbrev some_tags : Tags
some_tags = ("team", "a") ∷ ("app", "b") ∷ []

batch_tags-IsBatch_example : All IsBatch (batch_tags some_tags)
batch_tags-IsBatch_example = batch_tags-IsBatch some_tags

lookup-concat-batch_tags_example : lookup "app" (concat (batch_tags some_tags)) ≡ some "b"
unfolding lookup
lookup-concat-batch_tags_example = lookup-concat-batch_tags "app" some_tags

equal_ids_iff_example :
    (equal_ids ("sg-2" ∷ "sg-1" ∷ []) ("sg-1" ∷ "sg-2" ∷ "sg-2" ∷ []) ≡ true)
    ↔ ((a : String) → member a ("sg-2" ∷ "sg-1" ∷ []) ≡ member a ("sg-1" ∷ "sg-2" ∷ "sg-2" ∷ []))
equal_ids_iff_example = equal_ids_iff ("sg-2" ∷ "sg-1" ∷ []) ("sg-1" ∷ "sg-2" ∷ "sg-2" ∷ [])

equal_ids_test : equal_ids ("sg-2" ∷ "sg-1" ∷ []) ("sg-1" ∷ "sg-2" ∷ "sg-2" ∷ []) ≡ true
unfolding equal_ids lt_text
equal_ids_test = refl

capacity_type_example :
    capacity_type_from_instance charge_type_post_paid
      (spot_strategy_for_capacity_type "spot" (some "NoSpot"))
    ≡ capacity_type_spot
capacity_type_example =
    capacity_type_from_instance-spot_strategy_for_capacity_type "spot" (some "NoSpot")

wrap_error_example :
    is_insufficient_capacity_error
      (some (wrap_error "failed to create instance: " "Zone.NotOnSale"))
    ≡ true
unfolding is_insufficient_capacity_error
wrap_error_example =
    is_insufficient_capacity_error-wrap_error "failed to create instance: " "Zone.NotOnSale" refl
