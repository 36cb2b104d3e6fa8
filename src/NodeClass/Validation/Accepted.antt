-- ===== src/NodeClass/Validation/Accepted.antt =====
-- What `Validate` of pkg/apis/v1alpha1/ecsnodeclass_validation.go promises of a specification that it
-- accepts.
use mathlib.Core.Path.{subst}
use karpenter_provider_aliba.Prelude.{
  >>-eq-ok, All, Bool, List, Option, Outcome, String, [], ap, arith, err, fail_if, false,
  if◌then◌else◌, is_empty, is_set, is_set_and, length, ltb, member, none, not, ok, refl, some,
  str_eq, true, ℕ, ◌&&◌, ◌||◌, ◌∷◌, ◌≡◌, ◌≤◌,
}
use karpenter_provider_aliba.NodeClass.{DataDiskSpec, EcsNodeClassSpec, Float64, TagMap}
use karpenter_provider_aliba.NodeClass.Disks.{DiskError, NormalizedDisks, normalize_disks}
use karpenter_provider_aliba.NodeClass.Disks.Normal.{IsNormal, normalize_disks-IsNormal}
use karpenter_provider_aliba.NodeClass.Validation.{
  lift_disk_error, restricted_tags, validate, validate_data_disks, validate_launch_template,
  validate_selectors_and_disks, validate_spot_config, validate_tags,
}
use karpenter_provider_aliba.NodeClass.Validation.Terms.{
  Check, Selector, launch_template_id_combined, launch_template_id_malformed,
  launch_template_version_not_positive, launch_template_version_requires_id, tag_restricted,
  too_many_data_disks, too_many_terms, validate_terms,
}

module _ {ℓ} {A : Type ℓ} where
  not_set : (o : Option A) → is_set o ≡ false → o ≡ none
  not_set none h = refl
  not_set (some a) h = ground arith

  no_elements : (xs : List A) → not (is_empty xs) ≡ false → xs ≡ []
  no_elements [] h = refl
  no_elements (x ∷ xs) h = ground arith

  nonempty : (xs : List A) → is_empty xs ≡ false → 1 ≤ length xs
  nonempty [] h = ground arith
  nonempty (x ∷ xs) h = omega arith

passed : {E : Type 0} (test : Bool) (e : E) → fail_if test e ≡ ok tt → test ≡ false
passed true e h = cc
passed false e h = refl

validate_tags-All :
    (tags : TagMap)
    → validate_tags tags ≡ ok tt
    → All (λ t. member t.0 restricted_tags ≡ false) tags
unfolding validate_tags
validate_tags-All [] h = tt
validate_tags-All ((key, value) ∷ tags) h =
    let (first, rest) = >>-eq-ok _ _ h in
    (passed (member key restricted_tags) (tag_restricted key) first, validate_tags-All tags rest)

-- An accepted specification sets no tag that the controllers find their instances by.
pub validate-tags_allowed :
    (spec : EcsNodeClassSpec)
    → validate spec ≡ ok tt
    → All (λ t. member t.0 restricted_tags ≡ false) spec.tags
unfolding validate
validate-tags_allowed spec h = validate_tags-All spec.tags (>>-eq-ok _ _ h).0

-- What a specification with a launch template leaves out.
pub record IsTemplateAlone (spec : EcsNodeClassSpec) : Type 0 where
  pub no_vswitch_terms : spec.vswitch_selector_terms ≡ []
  pub no_security_group_terms : spec.security_group_selector_terms ≡ []
  pub no_image_terms : spec.image_selector_terms ≡ []
  pub no_system_disk : spec.system_disk ≡ none
  pub no_data_disks : spec.data_disks ≡ []
  pub no_user_data : spec.user_data ≡ none
  pub no_spot_strategy : spec.spot_strategy ≡ none
  pub no_spot_price_limit : spec.spot_price_limit ≡ none

disjuncts :
    (a b c d e f g h i : Bool)
    → a ≡ true
    → (a && (b || c || d || e || f || g || h || i)) ≡ false
    → (b ≡ false)
      × (c ≡ false)
      × (d ≡ false)
      × (e ≡ false)
      × (f ≡ false)
      × (g ≡ false)
      × (h ≡ false)
      × (i ≡ false)
disjuncts a b c d e f g h i p q = ground arith

launch_template-combined :
    (spec : EcsNodeClassSpec)
    → validate_launch_template spec ≡ ok tt
    → (is_set spec.launch_template_id
        && (not (is_empty spec.vswitch_selector_terms)
            || not (is_empty spec.security_group_selector_terms)
            || not (is_empty spec.image_selector_terms)
            || is_set spec.system_disk
            || not (is_empty spec.data_disks)
            || is_set spec.user_data
            || is_set spec.spot_strategy
            || is_set spec.spot_price_limit))
      ≡ false
unfolding validate_launch_template
launch_template-combined spec h =
    let (f₁, k₁) = >>-eq-ok (fail_if _ launch_template_version_requires_id) _ h in
    let (f₂, k₂) = >>-eq-ok (fail_if _ launch_template_version_not_positive) _ k₁ in
    let (f₃, combined) = >>-eq-ok (fail_if _ launch_template_id_malformed) _ k₂ in
    passed _ launch_template_id_combined combined

-- A specification with a launch template is accepted only if it leaves to the template all that the
-- template sets.
pub validate-IsTemplateAlone :
    (spec : EcsNodeClassSpec) (id : String)
    → spec.launch_template_id ≡ some id
    → validate spec ≡ ok tt
    → IsTemplateAlone spec
unfolding validate
validate-IsTemplateAlone spec id set h =
    let (_, h₁) = >>-eq-ok (validate_tags spec.tags) _ h in
    let (launch, _) =
      >>-eq-ok (validate_launch_template spec)
        (if is_set spec.launch_template_id then ok tt else validate_selectors_and_disks spec) h₁ in
    let (b, c, d, e, f, g, i, j) =
      disjuncts (is_set spec.launch_template_id) _ _ _ _ _ _ _ _ (ap is_set set)
        (launch_template-combined spec launch) in
    record {
      no_vswitch_terms = no_elements _ b;
      no_security_group_terms = no_elements _ c;
      no_image_terms = no_elements _ d;
      no_system_disk = not_set _ e;
      no_data_disks = no_elements _ f;
      no_user_data = not_set _ g;
      no_spot_strategy = not_set _ i;
      no_spot_price_limit = not_set _ j;
    }

-- What an accepted specification without a launch template has.
pub record IsAccepted (spec : EcsNodeClassSpec) : Type 0 where
  pub vswitch_terms :
      (1 ≤ length spec.vswitch_selector_terms) × (length spec.vswitch_selector_terms ≤ 30)
  pub security_group_terms :
      (1 ≤ length spec.security_group_selector_terms)
      × (length spec.security_group_selector_terms ≤ 30)
  pub image_terms : (1 ≤ length spec.image_selector_terms) × (length spec.image_selector_terms ≤ 30)
  pub few_data_disks : length spec.data_disks ≤ 16
  pub disks_normal :
      (disks : NormalizedDisks) × (normalize_disks spec ≡ ok disks) × IsNormal spec disks
  pub limit_set :
      spec.spot_strategy ≡ some "SpotWithPriceLimit"
      → (limit : Float64) × (spec.spot_price_limit ≡ some limit)

module _ {A : Type 0} where
  validate_terms-count :
      (s : Selector) (check : ℕ → A → Check) (terms : List A)
      → validate_terms s check terms ≡ ok tt
      → (1 ≤ length terms) × (length terms ≤ 30)
  unfolding validate_terms
  validate_terms-count s check terms h =
      let (required, h₁) = >>-eq-ok _ _ h in
      let (counted, _) = >>-eq-ok _ _ h₁ in
      (
        nonempty terms (passed _ _ required),
        few (passed (ltb 30 (length terms)) (too_many_terms s (length terms)) counted),
      )
    where
      few : ltb 30 (length terms) ≡ false → length terms ≤ 30
      few e = ground arith

validate_data_disks-count :
    (disks : List DataDiskSpec) → validate_data_disks disks ≡ ok tt → length disks ≤ 16
unfolding validate_data_disks
validate_data_disks-count disks h =
    few (passed (ltb 16 (length disks)) (too_many_data_disks (length disks)) (>>-eq-ok _ _ h).0)
  where
    few : ltb 16 (length disks) ≡ false → length disks ≤ 16
    few e = ground arith

lift_disk_error-ok :
    {A : Type 0} (r : Outcome DiskError A) → lift_disk_error r ≡ ok tt → (a : A) × (r ≡ ok a)
unfolding lift_disk_error
lift_disk_error-ok (ok a) h = (a, refl)
lift_disk_error-ok (err e) h = cc

validate_spot_config-limit :
    (strategy : Option String) (limit : Option Float64)
    → validate_spot_config strategy limit ≡ ok tt
    → strategy ≡ some "SpotWithPriceLimit"
    → (x : Float64) × (limit ≡ some x)
unfolding validate_spot_config
validate_spot_config-limit strategy (some x) h e = (x, refl)
validate_spot_config-limit strategy none h e =
    let required = (>>-eq-ok _ _ (>>-eq-ok _ _ h).1).0 in
    let named = ap (λ o. is_set_and o (λ s. str_eq s "SpotWithPriceLimit")) e in
    absurd (passed _ _ required) named
  where
    absurd : {b : Bool} {C : Type 0} → (b && true) ≡ false → b ≡ true → C
    absurd p q = ground arith

-- An accepted specification without a launch template has 1 to 30 terms of each selector, at most 16
-- data disks, disks that `NormalizeDisks` accepts and normalises, and a price limit where its spot
-- strategy is SpotWithPriceLimit.
pub validate-IsAccepted :
    (spec : EcsNodeClassSpec)
    → spec.launch_template_id ≡ none
    → validate spec ≡ ok tt
    → IsAccepted spec
unfolding validate validate_selectors_and_disks
validate-IsAccepted spec none_set h =
    let (_, h₁) = >>-eq-ok _ _ h in
    let (_, h₂) = >>-eq-ok _ _ h₁ in
    let full : validate_selectors_and_disks spec ≡ ok tt =
      subst (λ o. (if is_set o then ok tt else validate_selectors_and_disks spec) ≡ ok tt) none_set
        h₂ in
    let (vswitches, k₁) = >>-eq-ok _ _ full in
    let (groups, k₂) = >>-eq-ok _ _ k₁ in
    let (images, k₃) = >>-eq-ok _ _ k₂ in
    let (_, k₄) = >>-eq-ok _ _ k₃ in
    let (_, k₅) = >>-eq-ok _ _ k₄ in
    let (few, k₆) = >>-eq-ok _ _ k₅ in
    let (normalised, k₇) = >>-eq-ok _ _ k₆ in
    let (spot, _) = >>-eq-ok _ _ k₇ in
    let (disks, is_ok) = lift_disk_error-ok _ normalised in
    record {
      vswitch_terms = validate_terms-count _ _ _ vswitches;
      security_group_terms = validate_terms-count _ _ _ groups;
      image_terms = validate_terms-count _ _ _ images;
      few_data_disks = validate_data_disks-count _ few;
      disks_normal = (disks, is_ok, normalize_disks-IsNormal spec disks is_ok);
      limit_set = validate_spot_config-limit _ _ spot;
    }
