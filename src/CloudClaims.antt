-- ===== src/CloudClaims.antt =====
-- The NodeClaims that `Get` and `List` of pkg/cloudprovider/cloudprovider.go make of instances. Parsing a
-- time is a parameter.
pub mod Labels
pub mod Consistent
pub mod Creation
pub mod Created
use karpenter_provider_aliba.Prelude.{
  List, Option, Outcome, String, [], append_text, err, false, if◌then◌else◌, insert, lookup, none,
  ok, some, str_eq, ℕ, ◌∷◌,
}
use karpenter_provider_aliba.CloudClaims.Labels.{instance_labels_from_instance}
use karpenter_provider_aliba.Instance.Api.{Instance}
use karpenter_provider_aliba.Instance.Cache.{Cache}
use karpenter_provider_aliba.Instance.Calls.{Ecs, InstanceError, Provider, get}
use karpenter_provider_aliba.Instance.Listing.{Page, list_instances}
use karpenter_provider_aliba.InstanceTypes.{InstanceType}
use karpenter_provider_aliba.InstanceTypes.Capacity.{
  NetworkConfig, OverheadOptions, Quantities, ResourceList, calculate_capacity_and_allocatable,
}
use karpenter_provider_aliba.InstanceTypes.Listing.{TypeCache, TypesApi, list}
use karpenter_provider_aliba.NodeClass.Labels.{tag_managed_by, tag_managed_by_value}
use karpenter_provider_aliba.ProviderId.{from_provider_id, provider_id_of}
use karpenter_provider_aliba.Utils.Tags.{Tags}

-- The parts of a NodeClaim that are set; a list of resources that is nil is empty.
pub record CloudClaim : Type 0 where
  pub name : String
  pub labels : Tags
  pub annotations : Tags
  pub creation_timestamp : ℕ
  pub provider_id : String
  pub capacity : ResourceList
  pub allocatable : ResourceList
  pub image_id : String

-- The first instance type of a name.
unfoldable pub find_by_name : String → List InstanceType → Option InstanceType
find_by_name name [] = none
find_by_name name (it ∷ its) =
    let rest = find_by_name name its in if str_eq it.name name then some it else rest

-- `instanceTypeMap[it.Name] = it` for each.
unfoldable pub type_map :
    List InstanceType → List (String × InstanceType) → List (String × InstanceType)
unfolding insert
type_map [] types = types
type_map (it ∷ its) types = type_map its (insert it.name it types)

-- What the provider reads, besides the cloud.
pub record ClaimSettings : Type 0 where
  pub quantities : Quantities
  pub overhead_options : OverheadOptions
  pub network : Option NetworkConfig
  pub parse_time : String → Option ℕ

unfoldable pub parse_launch_time : ClaimSettings → ℕ → String → ℕ
parse_launch_time settings now creation_time = elim (settings.parse_time creation_time) [
  | none ↦ now
  | some t ↦ t
]

abbrev pub resources_of : ClaimSettings → InstanceType → Option (ResourceList × ResourceList)
resources_of settings it =
    calculate_capacity_and_allocatable settings.quantities settings.overhead_options
      settings.network it

-- The NodeClaim that `Get` and `List` make of an instance.
unfoldable pub claim_of :
    ClaimSettings → ℕ → Instance → Option InstanceType → ResourceList × ResourceList → CloudClaim
unfolding instance_labels_from_instance parse_launch_time provider_id_of
claim_of settings now inst it (capacity, allocatable) = record {
  name = inst.instance_id;
  labels = instance_labels_from_instance inst it;
  annotations = [];
  creation_timestamp = parse_launch_time settings now inst.creation_time;
  provider_id = provider_id_of inst.region inst.instance_id;
  capacity = capacity;
  allocatable = allocatable;
  image_id = inst.image_id;
}

-- The resources of an instance type, or none where they cannot be calculated.
unfoldable pub resources_or_empty :
    ClaimSettings → Option InstanceType → ResourceList × ResourceList
unfolding calculate_capacity_and_allocatable
resources_or_empty settings none = ([], [])
resources_or_empty settings (some it) = elim (resources_of settings it) [
  | none ↦ ([], [])
  | some resources ↦ resources
]

-- The loop of `List` over the instances.
unfoldable pub claims_of :
    ClaimSettings → ℕ → List (String × InstanceType) → List Instance → List CloudClaim
unfolding claim_of resources_or_empty lookup
claims_of settings now types [] = []
claims_of settings now types (inst ∷ insts) =
    claim_of settings now inst (lookup inst.instance_type types)
      (resources_or_empty settings (lookup inst.instance_type types))
    ∷ claims_of settings now types insts

pub data ClaimError : Type 0 where
  invalid_provider_id : String → ClaimError
  instance_unread : InstanceError → ClaimError
  instances_unlisted : String → ClaimError
  types_unlisted : String → ClaimError
  resources_unknown : String → ClaimError

-- The caches of the two providers, and the cloud behind both.
pub record CloudState (W : Type 0) : Type 0 where
  pub instances : Cache
  pub types : TypeCache
  pub cloud : W

-- The resources that `Get` fills in, with the error of their calculation.
unfoldable pub matched_resources :
    ClaimSettings → Option InstanceType → Outcome ClaimError (ResourceList × ResourceList)
unfolding calculate_capacity_and_allocatable
matched_resources settings none = ok ([], [])
matched_resources settings (some it) = elim (resources_of settings it) [
  | none ↦ err (resources_unknown it.name)
  | some resources ↦ ok resources
]

unfoldable pub claim_from_types :
    ClaimSettings
    → ℕ
    → Instance
    → Outcome String (List InstanceType)
    → Outcome ClaimError CloudClaim
unfolding matched_resources claim_of find_by_name
claim_from_types settings now inst (err e) =
    err (types_unlisted (append_text "failed to list instance types: " e))
claim_from_types settings now inst (ok its) =
    elim (matched_resources settings (find_by_name inst.instance_type its)) [
      | err e ↦ err e
      | ok resources ↦
          ok (claim_of settings now inst (find_by_name inst.instance_type its) resources)
    ]

unfoldable pub claims_from_types :
    ClaimSettings
    → ℕ
    → List Instance
    → Outcome String (List InstanceType)
    → Outcome ClaimError (List CloudClaim)
unfolding claims_of type_map
claims_from_types settings now insts (err e) =
    err (types_unlisted (append_text "failed to list instance types: " e))
claims_from_types settings now insts (ok its) = ok (claims_of settings now (type_map its []) insts)

module _ {W : Type 0} (settings : ClaimSettings) (ttl : ℕ) (ecs : Ecs W) (api : TypesApi W)
    (list_page : Tags → ℕ → W → Outcome String (Option Page) × W) where
  abbrev pub list_types_at :
      ℕ → Cache → TypeCache → W → Outcome String (List InstanceType) × CloudState W
  list_types_at now instances types w =
      let (answer, p) = list api now (record { cache = types; cloud = w }) in
      (answer, record { instances = instances; types = p.cache; cloud = p.cloud })

  -- What follows the instance that `Get` has read.
  unfoldable pub claim_of_read :
      ℕ
      → TypeCache
      → Outcome InstanceError Instance × Provider W
      → Outcome ClaimError CloudClaim × CloudState W
  unfolding claim_from_types list
  claim_of_read now types (err e, p) =
      (err (instance_unread e), record { instances = p.cache; types = types; cloud = p.cloud })
  claim_of_read now types (ok inst, p) =
      let (answer, s) = list_types_at now p.cache types p.cloud in
      (claim_from_types settings now inst answer, s)

  -- `Get`
  unfoldable pub get_claim :
      ℕ → String → CloudState W → Outcome ClaimError CloudClaim × CloudState W
  unfolding claim_of_read from_provider_id get
  get_claim now provider_id s =
      if str_eq (from_provider_id provider_id) ""
      then (err (invalid_provider_id provider_id), s)
      else claim_of_read now s.types (
          get ecs ttl now (from_provider_id provider_id) false
            (record { cache = s.instances; cloud = s.cloud }))

  -- What follows the instances that `List` has listed; `none` is that of a loop without fuel.
  unfoldable pub claims_of_listed :
      ℕ
      → TypeCache
      → Option (Outcome String (List Instance)) × Provider W
      → Option (Outcome ClaimError (List CloudClaim)) × CloudState W
  unfolding claims_from_types list
  claims_of_listed now types (none, p) =
      (none, record { instances = p.cache; types = types; cloud = p.cloud })
  claims_of_listed now types (some (err e), p) = (
    some (err (instances_unlisted e)),
    record { instances = p.cache; types = types; cloud = p.cloud },
  )
  claims_of_listed now types (some (ok insts), p) =
      let (answer, s) = list_types_at now p.cache types p.cloud in
      (some (claims_from_types settings now insts answer), s)

  -- `List`
  unfoldable pub list_claims :
      ℕ → ℕ → CloudState W → Option (Outcome ClaimError (List CloudClaim)) × CloudState W
  unfolding claims_of_listed list_instances
  list_claims fuel now s = claims_of_listed now s.types (
      list_instances list_page fuel ttl now ((tag_managed_by, tag_managed_by_value) ∷ [])
        (record { cache = s.instances; cloud = s.cloud }))
