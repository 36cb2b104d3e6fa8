-- ===== src/Utils/Capacity/Strategies.antt =====
-- The capacity type that an instance is launched with is the one that is read back from it.
use karpenter_provider_aliba.Prelude.{
  Bool-cases, Option, String, arith, if◌then◌else◌, inl, inr, none, refl, some, str_eq, str_eq_iff,
  trim_space, true, ◌≡◌,
}
use karpenter_provider_aliba.Utils.Capacity.{
  charge_type_post_paid, capacity_type_on_demand, capacity_type_spot, spot_strategy_as_price_go,
  is_spot_strategy, capacity_type_from_instance, is_valid_spot_strategy, requested_or_default,
  spot_strategy_for_capacity_type, spot_strategy_with_price_limit,
}

-- Every strategy that requests spot capacity is read as a spot strategy.
is_spot_strategy_of_valid :
    (s : String) → is_valid_spot_strategy s ≡ true → is_spot_strategy s ≡ true
unfolding is_spot_strategy is_valid_spot_strategy
is_spot_strategy_of_valid s h =
    elim (Bool-cases (str_eq (trim_space s) spot_strategy_as_price_go)) [
      | inl e ↦
          rw ((str_eq_iff (trim_space s) spot_strategy_as_price_go).0 e, is_spot_strategy) refl
      | inr e ↦
          rw
            (
              (str_eq_iff (trim_space s) spot_strategy_with_price_limit).0 (ground arith),
              is_spot_strategy,
            )
            refl
    ]

requested_or_default-is_spot_strategy :
    (requested : Option String) → is_spot_strategy (requested_or_default requested) ≡ true
unfolding requested_or_default
requested_or_default-is_spot_strategy none = unfold is_spot_strategy trim_space in refl
requested_or_default-is_spot_strategy (some r) =
    elim (Bool-cases (is_valid_spot_strategy (trim_space r))) [
      | inl valid ↦ rw valid (is_spot_strategy_of_valid (trim_space r) valid)
      | inr invalid ↦ rw invalid (unfold is_spot_strategy trim_space in refl)
    ]

-- An instance launched pay-as-you-go with the strategy that `SpotStrategyForCapacityType` gives for
-- a capacity type is read back as spot if that capacity type is spot, and as on-demand otherwise,
-- whatever strategy the node class requests.
pub capacity_type_from_instance-spot_strategy_for_capacity_type :
    (capacity_type : String) (requested : Option String)
    → capacity_type_from_instance charge_type_post_paid
        (spot_strategy_for_capacity_type capacity_type requested)
      ≡ (if str_eq capacity_type capacity_type_spot
          then capacity_type_spot
          else capacity_type_on_demand)
unfolding capacity_type_from_instance spot_strategy_for_capacity_type
capacity_type_from_instance-spot_strategy_for_capacity_type capacity_type requested =
    elim (Bool-cases (str_eq capacity_type capacity_type_spot)) [
      | inl spot ↦ rw spot (rw (requested_or_default-is_spot_strategy requested) refl)
      | inr other ↦ rw other (unfold trim_space is_spot_strategy in refl)
    ]
