-- ===== src/Witnesses/Launches.antt =====
-- Examples for the launch of an instance.
use mathlib.Core.List.{Permᴰ}
use karpenter_provider_aliba.Prelude.{
  List, [], arith, err, lookup, none, ok, refl, take, ℕ, ◌+◌, ◌≡◌, ◌⊎◌,
}
use karpenter_provider_aliba.Launch.Fallback.{create_instance_with_retry, more_addresses, refused}
use karpenter_provider_aliba.Launch.Fallback.Accounting.{
  CreateCounts, create_instance_with_retry-created, created,
}
use karpenter_provider_aliba.Launch.Fallback.Cases.{
  Descending, Started, create_instance_with_retry-search, launch_result, options,
}
use karpenter_provider_aliba.Launch.Fallback.Flat.{all_requests}
use karpenter_provider_aliba.Launch.Fallback.Order.{create_instance_with_retry-sent, recording}
use karpenter_provider_aliba.Launch.Fallback.Search.{search}
use karpenter_provider_aliba.Launch.Options.{Refused}
use karpenter_provider_aliba.NodeClass.{VSwitch}
use karpenter_provider_aliba.NodeClass.Disks.{disk_category_constraints}
use karpenter_provider_aliba.Witnesses.Data.{sample_request, stocked_in_b}
use karpenter_provider_aliba.Witnesses.Sorting.{sort_by, sort_by-SortLaws}

abbrev live : ℕ → ℕ
live n = n

counted : CreateCounts stocked_in_b live
counted = record {
  counts_one = λ opts w id h. ground (arith, h);
  counts_none = λ opts w e h. ground (arith, h);
}

create_instance_with_retry-search_example :
    ((e : Refused) × (create_instance_with_retry stocked_in_b sort_by sample_request 7
        ≡ (err (refused e), 7)))
    ⊎ ((s : Started sample_request) × (let found =
            search stocked_in_b none
              (all_requests
                (options sample_request s)
                (sort_by more_addresses sample_request.vswitches)
                sample_request.instance_types)
              7 in
          create_instance_with_retry stocked_in_b sort_by sample_request 7
          ≡ (launch_result 1 found.0, found.1)))
create_instance_with_retry-search_example =
    create_instance_with_retry-search stocked_in_b sort_by sort_by-SortLaws sample_request 7

create_instance_with_retry-created_example :
    let (result, after) = create_instance_with_retry stocked_in_b sort_by sample_request 7 in
    after ≡ created result + 7
create_instance_with_retry-created_example =
    create_instance_with_retry-created stocked_in_b live counted sort_by sort_by-SortLaws
      sample_request 7

create_instance_with_retry-sent_example :
    let (result, (sent, after)) =
      create_instance_with_retry (recording stocked_in_b) sort_by sample_request ([], 7) in
    ((e : Refused) × (result ≡ err (refused e)) × (sent ≡ []))
    ⊎ ((s : Started sample_request) × (vsws : List VSwitch) × Permᴰ sample_request.vswitches vsws
        × Descending vsws
        × (k : ℕ) × (sent
            ≡ take k (all_requests (options sample_request s) vsws sample_request.instance_types)))
create_instance_with_retry-sent_example =
    create_instance_with_retry-sent stocked_in_b sort_by sort_by-SortLaws sample_request 7

-- The launch succeeds at the second vSwitch.
launch_test : create_instance_with_retry stocked_in_b sort_by sample_request 7 ≡ (ok "i-1", 8)
unfolding create_instance_with_retry sort_by lookup disk_category_constraints
launch_test = refl
