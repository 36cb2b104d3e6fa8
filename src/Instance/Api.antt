-- ===== src/Instance/Api.antt =====
-- What ECS answers about an instance, and the `Instance` that pkg/providers/instance/instance.go makes
-- of it. A quantity is a number: of cores, of GiB of memory, of GPUs.
use karpenter_provider_aliba.Prelude.{
  List, Option, String, [], insert, negsuc, none, pos, some, sub_ℕ, ℤ, ◌+◌, ◌/◌, ◌∷◌,
}
use karpenter_provider_aliba.Utils.Capacity.{
  architecture_from_instance_type, capacity_type_from_instance,
}
use karpenter_provider_aliba.Utils.Tags.{Tags}

-- An instance of `DescribeInstances`; a pointer of the SDK is an `Option`.
pub record ApiInstance : Type 0 where
  pub instance_id : Option String
  pub region_id : Option String
  pub zone_id : Option String
  pub instance_type : Option String
  pub image_id : Option String
  pub cpu : Option ℤ
  pub memory : Option ℤ
  pub gpu_amount : Option ℤ
  pub gpu_spec : Option String
  pub status : Option String
  pub creation_time : Option String
  pub tags : List (Option String × Option String)
  pub instance_charge_type : Option String
  pub spot_strategy : Option String
  pub security_group_ids : List (Option String)
  pub vswitch_id : Option String

pub record Instance : Type 0 where
  pub instance_id : String
  pub region : String
  pub zone : String
  pub instance_type : String
  pub image_id : String
  pub cpu : ℤ
  pub memory : ℤ
  pub storage : ℤ
  pub gpu : ℤ
  pub gpu_mem : ℤ
  pub gpu_spec : String
  pub architecture : String
  pub status : String
  pub creation_time : String
  pub tags : Tags
  pub capacity_type : String
  pub security_group_ids : List String
  pub vswitch_id : String

abbrev pub deref_string : Option String → String
deref_string none = ""
deref_string (some s) = s

-- An integer that is missing counts as zero.
abbrev pub deref_int : Option ℤ → ℤ
deref_int none = pos 0
deref_int (some n) = n

-- Go's division of an integer rounds towards zero.
unfoldable pub gibibytes : ℤ → ℤ
gibibytes (pos n) = pos (n / 1024)
gibibytes (negsuc n) = sub_ℕ 0 ((n + 1) / 1024)

-- The loop of `convertTags`: a tag with a nil key or value is left out.
unfoldable pub add_tags : List (Option String × Option String) → Tags → Tags
unfolding insert
add_tags [] tags = tags
add_tags ((some key, some value) ∷ more) tags = add_tags more (insert key value tags)
add_tags ((some key, none) ∷ more) tags = add_tags more tags
add_tags ((none, value) ∷ more) tags = add_tags more tags

unfoldable pub convert_tags : List (Option String × Option String) → Tags
unfolding add_tags
convert_tags tags = add_tags tags []

-- The IDs that are not nil.
unfoldable pub non_nil : List (Option String) → List String
non_nil [] = []
non_nil (none ∷ ids) = non_nil ids
non_nil (some id ∷ ids) = id ∷ non_nil ids

-- The conversion that `Get` and `List` share.
unfoldable pub instance_of : ApiInstance → Instance
unfolding gibibytes convert_tags non_nil architecture_from_instance_type capacity_type_from_instance
instance_of inst = record {
  instance_id = deref_string inst.instance_id;
  region = deref_string inst.region_id;
  zone = deref_string inst.zone_id;
  instance_type = deref_string inst.instance_type;
  image_id = deref_string inst.image_id;
  cpu = deref_int inst.cpu;
  memory = gibibytes (deref_int inst.memory);
  storage = pos 0;
  gpu = deref_int inst.gpu_amount;
  gpu_mem = pos 0;
  gpu_spec = deref_string inst.gpu_spec;
  architecture = architecture_from_instance_type (deref_string inst.instance_type);
  status = deref_string inst.status;
  creation_time = deref_string inst.creation_time;
  tags = convert_tags inst.tags;
  capacity_type =
      capacity_type_from_instance (deref_string inst.instance_charge_type)
        (deref_string inst.spot_strategy);
  security_group_ids = non_nil inst.security_group_ids;
  vswitch_id = deref_string inst.vswitch_id;
}
