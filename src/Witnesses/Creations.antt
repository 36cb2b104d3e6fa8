-- ===== src/Witnesses/Creations.antt =====
-- Examples for Create of the instance provider behind a launch.
use karpenter_provider_aliba.Prelude.{
  Outcome, String, [], decimal, err, false, if◌then◌else◌, lookup, lt_text, ok, refl, some, str_eq,
  ◌∷◌, ◌≡◌,
}
use karpenter_provider_aliba.Instance.{CreateOptions}
use karpenter_provider_aliba.Instance.Create.{Launching, create}
use karpenter_provider_aliba.Instance.Create.Complete.{LaunchLaws}
use karpenter_provider_aliba.Instance.Requests.{Encoding}
use karpenter_provider_aliba.Launch.Fallback.{LaunchRequest, create_instance_with_retry}
use karpenter_provider_aliba.Launch.Tagged.{create_instance_with_retry-tagged}
use karpenter_provider_aliba.Launch.Tags.{ClaimMeta, build_instance_tags}
use karpenter_provider_aliba.NodeClass.Disks.{disk_category_constraints}
use karpenter_provider_aliba.Utils.Tags.{Tags}
use karpenter_provider_aliba.Witnesses.Data.{
  group_1, image_x86, sample_node_class, type_1, vswitch_a, vswitch_b,
}
use karpenter_provider_aliba.Witnesses.Instances.{its_tags, tagged_cloud, tagged_cloud-TagLaws}
use karpenter_provider_aliba.Witnesses.Sorting.{sort_by}

-- A cloud whose only instance has the tags of the last request.
abbrev pub one_instance : Launching Tags
one_instance = record { run_instances = λ request tags. (ok (some (some "i-1" ∷ [])), request.tag) }

pub one_instance-LaunchLaws : LaunchLaws one_instance its_tags
one_instance-LaunchLaws = record { tagged = λ request id k ids w h. refl }

abbrev pub sample_encoding : Encoding
sample_encoding = record { region = "cn-hangzhou"; to_float32 = λ bits. bits; base64 = λ s. s }

abbrev sample_claim : ClaimMeta
sample_claim = record { name = "claim-1"; labels = [] }

abbrev managed_request : LaunchRequest
managed_request = record {
  node_class = sample_node_class;
  requirements = [];
  instance_types = type_1 ∷ [];
  images = image_x86 ∷ [];
  vswitches = vswitch_b ∷ vswitch_a ∷ [];
  security_groups = group_1 ∷ [];
  user_data = "";
  tags = build_instance_tags sample_claim sample_node_class.spec;
  dual_stack = false;
}

managed_launch :
    (create_instance_with_retry
      (create tagged_cloud one_instance sample_encoding)
      sort_by
      managed_request
      []).0
    ≡ ok "i-1"
unfolding create_instance_with_retry create sort_by lookup disk_category_constraints lt_text
    build_instance_tags decimal
managed_launch = refl

create_instance_with_retry-tagged_example :
    lookup "karpenter.sh/nodeclaim"
      (create_instance_with_retry
        (create tagged_cloud one_instance sample_encoding)
        sort_by
        managed_request
        []).1
    ≡ lookup "karpenter.sh/nodeclaim" (build_instance_tags sample_claim sample_node_class.spec)
create_instance_with_retry-tagged_example =
    create_instance_with_retry-tagged tagged_cloud one_instance sample_encoding its_tags sort_by
      tagged_cloud-TagLaws one_instance-LaunchLaws sample_claim managed_request [] "i-1" refl
      managed_launch "karpenter.sh/nodeclaim"

-- A cloud with stock behind vSwitch vsw-b alone.
abbrev stock_in_b : Launching Tags
stock_in_b = record {
  run_instances = λ request tags.
      if str_eq request.vswitch_id "vsw-b"
      then (ok (some (some "i-1" ∷ [])), request.tag)
      else (err "OperationDenied.NoStock", tags);
}

-- Create of the program, which refuses options without a security group before it asks the cloud.
abbrev create_in_b : CreateOptions → Tags → Outcome String String × Tags
create_in_b = create tagged_cloud stock_in_b sample_encoding
