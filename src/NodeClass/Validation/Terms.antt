-- ===== src/NodeClass/Validation/Terms.antt =====
-- The errors of pkg/apis/v1alpha1/ecsnodeclass_validation.go, and the terms of the selectors.
use karpenter_provider_aliba.Prelude.{
  Bool, List, Outcome, String, [], fail_if, false, is_empty, is_set, is_set_and, length, ltb, not,
  ok, str_eq, true, ℕ, ◌&&◌, ◌+◌, ◌==◌, ◌||◌, ◌∷◌, ◌>>◌,
}
use karpenter_provider_aliba.NodeClass.{
  ImageSelectorTerm, SecurityGroupSelectorTerm, TagMap, VSwitchSelectorTerm,
}
use karpenter_provider_aliba.NodeClass.Disks.{DiskError}
use karpenter_provider_aliba.NodeClass.Validation.Patterns.{
  is_image_id, is_image_owner_id, is_valid_resource_id,
}

pub data Selector : Type 0 where
  vswitch_selector security_group_selector image_selector : Selector

pub data Invalid : Type 0 where
  launch_template_version_requires_id : Invalid
  launch_template_version_not_positive : Invalid
  launch_template_id_malformed : Invalid
  launch_template_id_combined : Invalid
  tag_restricted : String → Invalid
  role_has_space : Invalid
  role_length : Invalid
  role_is_arn : Invalid
  role_malformed : Invalid
  terms_required : Selector → Invalid
  too_many_terms : Selector → ℕ → Invalid
  term_empty : Selector → ℕ → Invalid
  term_id_exclusive : Selector → ℕ → Invalid
  term_name_exclusive : Selector → ℕ → Invalid
  term_id_malformed : Selector → ℕ → Invalid
  owner_id_alone : ℕ → Invalid
  owner_alias_unknown : ℕ → Invalid
  owner_id_malformed : ℕ → Invalid
  too_many_tags : Selector → ℕ → ℕ → Invalid
  tag_key_empty : Selector → ℕ → Invalid
  tag_value_empty : Selector → ℕ → String → Invalid
  disk_invalid : DiskError → Invalid
  too_many_data_disks : ℕ → Invalid
  spot_strategy_unknown : Invalid
  spot_price_limit_required : Invalid
  spot_price_limit_not_positive : Invalid
  reservation_preference_unknown : Invalid
  reservation_term_empty : ℕ → Invalid
  reservation_id_exclusive : ℕ → Invalid
  reservation_id_malformed : ℕ → Invalid
  http_tokens_unknown : Invalid
  http_endpoint_unknown : Invalid
  hop_limit_out_of_range : Invalid
  gc_high_out_of_range : Invalid
  gc_low_out_of_range : Invalid
  gc_high_below_low : Invalid

abbrev pub Check : Type 0
Check = Outcome Invalid (Unit {0})

-- The loop of `validateSelectorTags` over the tags of term `i`.
unfoldable pub validate_each_tag : Selector → ℕ → TagMap → Check
validate_each_tag s i [] = ok tt
validate_each_tag s i ((key, value) ∷ tags) = do
  fail_if (str_eq key "") (tag_key_empty s i)
  fail_if (str_eq value "") (tag_value_empty s i key)
  validate_each_tag s i tags

unfoldable pub validate_selector_tags : Selector → ℕ → TagMap → Bool → Check
unfolding validate_each_tag
validate_selector_tags s i tags limit = do
  fail_if (limit && ltb 20 (length tags)) (too_many_tags s i (length tags))
  validate_each_tag s i tags

unfoldable pub validate_vswitch_term : ℕ → VSwitchSelectorTerm → Check
unfolding validate_selector_tags is_valid_resource_id
validate_vswitch_term i term = do
  fail_if (not (is_set term.id) && is_empty term.tags && not (is_set term.zone_id))
      (term_empty vswitch_selector i)
  fail_if (is_set term.id && (not (is_empty term.tags) || is_set term.zone_id))
      (term_id_exclusive vswitch_selector i)
  validate_selector_tags vswitch_selector i term.tags true
  fail_if (is_set_and term.id (λ id. not (is_valid_resource_id id "vsw")))
      (term_id_malformed vswitch_selector i)

unfoldable pub validate_security_group_term : ℕ → SecurityGroupSelectorTerm → Check
unfolding validate_selector_tags is_valid_resource_id
validate_security_group_term i term = do
  fail_if (not (is_set term.id) && not (is_set term.name) && is_empty term.tags)
      (term_empty security_group_selector i)
  fail_if (is_set term.id && (is_set term.name || not (is_empty term.tags)))
      (term_id_exclusive security_group_selector i)
  fail_if (is_set term.name && (is_set term.id || not (is_empty term.tags)))
      (term_name_exclusive security_group_selector i)
  validate_selector_tags security_group_selector i term.tags false
  fail_if (is_set_and term.id (λ id. not (is_valid_resource_id id "sg")))
      (term_id_malformed security_group_selector i)

abbrev one_if : Bool → ℕ
one_if true = 1
one_if false = 0

-- The local `count` of `validateImageSelectors`; the source tests `ImageFamily` twice.
unfoldable pub count_image_selectors : ImageSelectorTerm → ℕ
count_image_selectors term =
    one_if (is_set term.id)
    + one_if (is_set term.image_family)
    + one_if (is_set term.image_owner_alias)
    + one_if (is_set term.name)
    + one_if (is_set term.image_family)
    + one_if (not (is_empty term.tags))

unfoldable pub is_valid_image_owner_alias : String → Bool
is_valid_image_owner_alias owner =
    str_eq owner "system"
    || str_eq owner "self"
    || str_eq owner "others"
    || str_eq owner "marketplace"

unfoldable pub validate_image_term : ℕ → ImageSelectorTerm → Check
unfolding count_image_selectors validate_selector_tags is_image_id is_image_owner_id
    is_valid_image_owner_alias
validate_image_term i term = do
  fail_if (count_image_selectors term == 0 && is_set term.image_owner_id) (owner_id_alone i)
  fail_if (count_image_selectors term == 0) (term_empty image_selector i)
  fail_if
      (is_set term.id
        && (is_set term.image_family
            || is_set term.image_owner_alias
            || is_set term.name
            || is_set term.image_owner_id
            || not (is_empty term.tags)))
      (term_id_exclusive image_selector i)
  validate_selector_tags image_selector i term.tags true
  fail_if (is_set_and term.id (λ id. not (is_image_id id))) (term_id_malformed image_selector i)
  fail_if (is_set_and term.image_owner_alias (λ owner. not (is_valid_image_owner_alias owner)))
      (owner_alias_unknown i)
  fail_if (is_set_and term.image_owner_id (λ id. not (is_image_owner_id id))) (owner_id_malformed i)

-- A loop over the terms of a selector, from index `i`, that stops at the first error.
unfoldable pub check_each {ℓ} : {A : Type ℓ} → (ℕ → A → Check) → ℕ → List A → Check
check_each check i [] = ok tt
check_each check i (x ∷ xs) = do check i x; check_each check (i + 1) xs

-- The count of a selector's terms, then each of them.
unfoldable pub validate_terms {ℓ} : {A : Type ℓ} → Selector → (ℕ → A → Check) → List A → Check
unfolding check_each
validate_terms s check terms = do
  fail_if (is_empty terms) (terms_required s)
  fail_if (ltb 30 (length terms)) (too_many_terms s (length terms))
  check_each check 0 terms
