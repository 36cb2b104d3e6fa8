-- ===== src/NodeClass/Validation.antt =====
-- pkg/apis/v1alpha1/ecsnodeclass_validation.go. Each message of `fmt.Errorf` is a constructor of
-- `Invalid`, with the index of the term that it names. The regular expressions are functions on code
-- points; a kubelet limit of a percentage and the like are `ℤ`.
pub mod Patterns
pub mod Terms
pub mod Accepted
use Prim.Native.String.{len}
use karpenter_provider_aliba.Prelude.{
  Bool, List, Option, Outcome, String, [], contains_text, err, fail_if, has_prefix, if◌then◌else◌,
  is_empty, is_set, is_set_and, leb, leb_ℤ, length, ltb, ltb_ℤ, member, none, not, ok, pos, some,
  str_eq, trim_space, ℕ, ℤ, ◌>>◌, ◌&&◌, ◌==◌, ◌||◌, ◌∷◌,
}
use karpenter_provider_aliba.NodeClass.{
  CapacityReservationSelectorTerm, DataDiskSpec, EcsNodeClassSpec, Float64, KubeletConfiguration,
  MetadataOptions, SystemDiskSpec, TagMap,
}
use karpenter_provider_aliba.NodeClass.Disks.{
  DiskError, data_disk_path, default_system_disk_size, is_valid_performance_level, normalize_disks,
  performance_level_unknown, system_disk_path, validate_disk_category_and_size,
}
use karpenter_provider_aliba.NodeClass.Validation.Patterns.{is_ram_role_name, is_valid_resource_id}
use karpenter_provider_aliba.NodeClass.Validation.Terms.{
  Check, check_each, disk_invalid, gc_high_below_low, gc_high_out_of_range, gc_low_out_of_range,
  hop_limit_out_of_range, http_endpoint_unknown, http_tokens_unknown, image_selector,
  launch_template_id_combined, launch_template_id_malformed, launch_template_version_not_positive,
  launch_template_version_requires_id, reservation_id_exclusive, reservation_id_malformed,
  reservation_preference_unknown, reservation_term_empty, role_has_space, role_is_arn, role_length,
  role_malformed, security_group_selector, spot_price_limit_not_positive, spot_price_limit_required,
  spot_strategy_unknown, tag_restricted, too_many_data_disks, validate_image_term,
  validate_security_group_term, validate_terms, validate_vswitch_term, vswitch_selector,
}

abbrev pub restricted_tags : List String
restricted_tags =
    "karpenter.sh/managed-by" ∷ "karpenter.sh/cluster-id" ∷ "karpenter.sh/nodepool"
    ∷ "karpenter.sh/nodeclaim" ∷ "karpenter.sh/kubelet-max-pods" ∷ "kubernetes.io/cluster" ∷ []

-- The loop of `validateTags` over the tags.
unfoldable pub validate_tags : TagMap → Check
unfolding member
validate_tags [] = ok tt
validate_tags ((key, value) ∷ tags) = do
  fail_if (member key restricted_tags) (tag_restricted key)
  validate_tags tags

unfoldable pub validate_launch_template : EcsNodeClassSpec → Check
unfolding is_valid_resource_id
validate_launch_template spec = do
  fail_if (is_set spec.launch_template_version && not (is_set spec.launch_template_id))
      launch_template_version_requires_id
  fail_if (is_set_and spec.launch_template_version (λ v. leb_ℤ v (pos 0)))
      launch_template_version_not_positive
  fail_if (is_set_and spec.launch_template_id (λ id. not (is_valid_resource_id id "lt")))
      launch_template_id_malformed
  fail_if
      (is_set spec.launch_template_id
        && (not (is_empty spec.vswitch_selector_terms)
            || not (is_empty spec.security_group_selector_terms)
            || not (is_empty spec.image_selector_terms)
            || is_set spec.system_disk
            || not (is_empty spec.data_disks)
            || is_set spec.user_data
            || is_set spec.spot_strategy
            || is_set spec.spot_price_limit))
      launch_template_id_combined

unfoldable pub validate_role : Option String → Check
unfolding is_ram_role_name
validate_role none = ok tt
validate_role (some role) = do
  fail_if (not (str_eq role (trim_space role))) role_has_space
  fail_if (ltb (len role) 1 || ltb 64 (len role)) role_length
  fail_if (has_prefix role "acs:ram::" && contains_text role ":role/") role_is_arn
  fail_if (not (is_ram_role_name role)) role_malformed

unfoldable pub lift_disk_error {ℓ} : {A : Type ℓ} → Outcome DiskError A → Check
lift_disk_error (ok a) = ok tt
lift_disk_error (err e) = err (disk_invalid e)

unfoldable pub validate_system_disk : Option SystemDiskSpec → Check
unfolding validate_disk_category_and_size lift_disk_error is_valid_performance_level
validate_system_disk none = ok tt
validate_system_disk (some disk) = do
  lift_disk_error (
      validate_disk_category_and_size system_disk_path disk.category
        (elim disk.size [ none ↦ default_system_disk_size | some n ↦ n ]))
  fail_if (is_set_and disk.performance_level (λ level. not (is_valid_performance_level level)))
      (disk_invalid (performance_level_unknown system_disk_path))

unfoldable pub validate_data_disk : ℕ → DataDiskSpec → Check
unfolding validate_disk_category_and_size lift_disk_error is_valid_performance_level
validate_data_disk i disk = do
  lift_disk_error (validate_disk_category_and_size (data_disk_path i) disk.category disk.size)
  fail_if (is_set_and disk.performance_level (λ level. not (is_valid_performance_level level)))
      (disk_invalid (performance_level_unknown (data_disk_path i)))

unfoldable pub validate_data_disks : List DataDiskSpec → Check
unfolding check_each validate_data_disk
validate_data_disks disks = do
  fail_if (ltb 16 (length disks)) (too_many_data_disks (length disks))
  check_each validate_data_disk 0 disks

unfoldable pub is_valid_spot_strategy : String → Bool
is_valid_spot_strategy strategy =
    str_eq strategy "SpotAsPriceGo" || str_eq strategy "SpotWithPriceLimit"

-- `x <= 0` on the bit pattern of a float64: a zero, or a negative number that is no NaN.
unfoldable pub is_not_positive : Float64 → Bool
is_not_positive x = x == 0 || (leb 0x8000000000000000 x && leb x 0xfff0000000000000)

unfoldable pub validate_spot_config : Option String → Option Float64 → Check
unfolding is_valid_spot_strategy is_not_positive
validate_spot_config strategy price_limit = do
  fail_if (is_set_and strategy (λ s. not (is_valid_spot_strategy s))) spot_strategy_unknown
  fail_if (is_set_and strategy (λ s. str_eq s "SpotWithPriceLimit") && not (is_set price_limit))
      spot_price_limit_required
  fail_if (is_set_and price_limit is_not_positive) spot_price_limit_not_positive

unfoldable pub validate_reservation_term : ℕ → CapacityReservationSelectorTerm → Check
unfolding is_valid_resource_id
validate_reservation_term i term = do
  fail_if (not (is_set term.id) && is_empty term.tags) (reservation_term_empty i)
  fail_if (is_set term.id && not (is_empty term.tags)) (reservation_id_exclusive i)
  fail_if (is_set_and term.id (λ id. not (is_valid_resource_id id "crp")))
      (reservation_id_malformed i)

unfoldable pub is_valid_capacity_reservation_preference : String → Bool
is_valid_capacity_reservation_preference pref =
    str_eq pref "open" || str_eq pref "none" || str_eq pref "target"

unfoldable pub validate_capacity_reservation :
    Option String → List CapacityReservationSelectorTerm → Check
unfolding is_valid_capacity_reservation_preference check_each validate_reservation_term
validate_capacity_reservation preference terms = do
  fail_if (is_set_and preference (λ p. not (is_valid_capacity_reservation_preference p)))
      reservation_preference_unknown
  check_each validate_reservation_term 0 terms

abbrev outside : ℕ → ℕ → ℤ → Bool
outside lo hi x = ltb_ℤ x (pos lo) || ltb_ℤ (pos hi) x

unfoldable pub validate_metadata_options : Option MetadataOptions → Check
validate_metadata_options none = ok tt
validate_metadata_options (some o) = do
  fail_if (not (str_eq o.http_tokens "optional" || str_eq o.http_tokens "required"))
      http_tokens_unknown
  fail_if (is_set_and o.http_endpoint (λ e. not (str_eq e "enabled" || str_eq e "disabled")))
      http_endpoint_unknown
  fail_if (is_set_and o.http_put_response_hop_limit (outside 1 64)) hop_limit_out_of_range

unfoldable pub validate_kubelet : Option KubeletConfiguration → Check
validate_kubelet none = ok tt
validate_kubelet (some k) = do
  fail_if (is_set_and k.image_gc_high_threshold_percent (outside 0 100)) gc_high_out_of_range
  fail_if (is_set_and k.image_gc_low_threshold_percent (outside 0 100)) gc_low_out_of_range
  fail_if
      (is_set_and k.image_gc_high_threshold_percent
        λ high. is_set_and k.image_gc_low_threshold_percent λ low. ltb_ℤ high low)
      gc_high_below_low

-- The checks of `Validate` that a launch template skips.
unfoldable pub validate_selectors_and_disks : EcsNodeClassSpec → Check
unfolding validate_terms validate_vswitch_term validate_security_group_term validate_image_term
    validate_role validate_system_disk validate_data_disks normalize_disks lift_disk_error
    validate_spot_config validate_capacity_reservation validate_metadata_options validate_kubelet
validate_selectors_and_disks spec = do
  validate_terms vswitch_selector validate_vswitch_term spec.vswitch_selector_terms
  validate_terms security_group_selector validate_security_group_term
      spec.security_group_selector_terms
  validate_terms image_selector validate_image_term spec.image_selector_terms
  validate_role spec.role
  validate_system_disk spec.system_disk
  validate_data_disks spec.data_disks
  lift_disk_error (normalize_disks spec)
  validate_spot_config spec.spot_strategy spec.spot_price_limit
  validate_capacity_reservation spec.capacity_reservation_preference
      spec.capacity_reservation_selector_terms
  validate_metadata_options spec.metadata_options
  validate_kubelet spec.kubelet

unfoldable pub validate : EcsNodeClassSpec → Check
unfolding validate_tags validate_launch_template validate_selectors_and_disks
validate spec = do
  validate_tags spec.tags
  validate_launch_template spec
  if is_set spec.launch_template_id then ok tt else validate_selectors_and_disks spec
