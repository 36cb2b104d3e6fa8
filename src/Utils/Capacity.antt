-- ===== src/Utils/Capacity.antt =====
-- pkg/utils/ecs/capacity.go: ECS wire values and the capacity types and architectures of Karpenter.
-- Optional pointers are `Option`. The constants of pkg/apis/v1alpha1/labels.go are written out.
pub mod Strategies
use karpenter_provider_aliba.Prelude.{
  Bool, List, Option, String, [], false, has_prefix, if◌then◌else◌, none, not, some, str_eq,
  to_lower, trim_space, ◌&&◌, ◌||◌, ◌∷◌,
}

abbrev pub charge_type_post_paid : String
charge_type_post_paid = "PostPaid"

abbrev pub charge_type_pre_paid : String
charge_type_pre_paid = "PrePaid"

abbrev pub spot_strategy_no_spot : String
spot_strategy_no_spot = "NoSpot"

abbrev pub spot_strategy_as_price_go : String
spot_strategy_as_price_go = "SpotAsPriceGo"

abbrev pub spot_strategy_with_price_limit : String
spot_strategy_with_price_limit = "SpotWithPriceLimit"

abbrev pub capacity_type_on_demand : String
capacity_type_on_demand = "on-demand"

abbrev pub capacity_type_spot : String
capacity_type_spot = "spot"

abbrev pub capacity_type_pre_paid : String
capacity_type_pre_paid = "pre-paid"

abbrev pub architecture_amd64 : String
architecture_amd64 = "amd64"

abbrev pub architecture_arm64 : String
architecture_arm64 = "arm64"

unfoldable pub is_spot_strategy : String → Bool
is_spot_strategy spot_strategy =
    let s = trim_space spot_strategy in not (str_eq s "") && not (str_eq s spot_strategy_no_spot)

unfoldable pub capacity_type_from_instance : String → String → String
unfolding is_spot_strategy
capacity_type_from_instance instance_charge_type spot_strategy =
    if is_spot_strategy spot_strategy
    then capacity_type_spot
    else if str_eq (trim_space instance_charge_type) charge_type_pre_paid
    then capacity_type_pre_paid
    else if str_eq (trim_space instance_charge_type) charge_type_post_paid
    then capacity_type_on_demand
    else capacity_type_on_demand

unfoldable pub is_valid_spot_strategy : String → Bool
is_valid_spot_strategy strategy =
    str_eq (trim_space strategy) spot_strategy_as_price_go
    || str_eq (trim_space strategy) spot_strategy_with_price_limit

-- The part of `SpotStrategyForCapacityType` that reads the strategy of the node class.
unfoldable pub requested_or_default : Option String → String
unfolding is_valid_spot_strategy
requested_or_default none = spot_strategy_as_price_go
requested_or_default (some requested) =
    let s = trim_space requested in
    if is_valid_spot_strategy s then s else spot_strategy_as_price_go

unfoldable pub spot_strategy_for_capacity_type : String → Option String → String
unfolding requested_or_default
spot_strategy_for_capacity_type capacity_type requested_strategy =
    if not (str_eq capacity_type capacity_type_spot)
    then spot_strategy_no_spot
    else requested_or_default requested_strategy

-- The texts of a `switch` case.
one_of : String → List String → Bool
one_of s [] = false
one_of s (x ∷ xs) = str_eq s x || one_of s xs

unfoldable pub kube_architecture : String → String
unfolding one_of trim_space to_lower
kube_architecture ecs_arch =
    let s = to_lower (trim_space ecs_arch) in
    if one_of s ("arm" ∷ "arm64" ∷ "aarch64" ∷ [])
    then architecture_arm64
    else if one_of s ("x86" ∷ "x86_64" ∷ "amd64" ∷ "i386" ∷ [])
    then architecture_amd64
    else architecture_amd64

abbrev pub arm_instance_family_prefixes : List String
arm_instance_family_prefixes =
    "ecs.g8y" ∷ "ecs.c8y" ∷ "ecs.r8y" ∷ "ecs.g6r" ∷ "ecs.c6r" ∷ "ecs.r6r" ∷ []

-- The loop of `ArchitectureFromInstanceType` over the prefixes.
has_one_prefix : String → List String → Bool
has_one_prefix it [] = false
has_one_prefix it (prefix ∷ prefixes) = has_prefix it prefix || has_one_prefix it prefixes

unfoldable pub architecture_from_instance_type : String → String
unfolding has_one_prefix trim_space to_lower has_prefix
architecture_from_instance_type instance_type =
    if has_one_prefix (to_lower (trim_space instance_type)) arm_instance_family_prefixes
    then architecture_arm64
    else architecture_amd64
