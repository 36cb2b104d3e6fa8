-- ===== src/CloudClaims/Creation.antt =====
-- `Create` of pkg/cloudprovider/cloudprovider.go: from a NodeClaim to an instance, and from the instance
-- to the NodeClaim that is returned. `Create` of the instance provider is a parameter here, which
-- Instance/Create fills; the user data that the bootstrap provider generates is one too.
use karpenter_provider_aliba.Prelude.{
  Bool, List, Option, Outcome, String, append_text, err, false, if◌then◌else◌, insert, is_empty,
  map, none, ok, some, ℕ,
}
use karpenter_provider_aliba.CloudClaims.{
  ClaimSettings, CloudClaim, CloudState, find_by_name, resources_or_empty,
}
use karpenter_provider_aliba.CloudClaims.Labels.{instance_labels_from_instance}
use karpenter_provider_aliba.Drift.{HashInput, calculate_node_class_hash}
use karpenter_provider_aliba.Instance.{CreateOptions}
use karpenter_provider_aliba.Instance.Api.{Instance}
use karpenter_provider_aliba.Instance.Cache.{Cache}
use karpenter_provider_aliba.Instance.Calls.{Ecs, InstanceError, Provider, get}
use karpenter_provider_aliba.InstanceTypes.{InstanceType}
use karpenter_provider_aliba.InstanceTypes.Filter.{filter_instance_types_by_requirements}
use karpenter_provider_aliba.InstanceTypes.Listing.{TypeCache, TypesApi, list}
use karpenter_provider_aliba.InstanceTypes.Offerings.{Readiness, TypesError, readiness_error}
use karpenter_provider_aliba.Launch.Fallback.{
  LaunchError, LaunchRequest, TypeName, create_instance_with_retry,
}
use karpenter_provider_aliba.Launch.Requirements.{
  Requirement, filter_vswitches_by_zones, zones_from_requirements,
}
use karpenter_provider_aliba.Launch.Tags.{build_instance_tags}
use karpenter_provider_aliba.NodeClass.{EcsNodeClass, VSwitch}
use karpenter_provider_aliba.NodeClass.Labels.{
  annotation_ecs_node_class_hash, annotation_ecs_node_class_hash_version,
}
use karpenter_provider_aliba.ProviderId.{provider_id_of}

pub data CreationError : Type 0 where
  class_unread : String → CreationError
  class_not_ready : TypesError → CreationError
  types_unread : String → CreationError
  no_matching_types : CreationError
  no_images : CreationError
  no_matching_vswitches : CreationError
  no_security_groups : CreationError
  no_user_data : String → CreationError
  launch_failed : LaunchError → CreationError
  created_unread : InstanceError → CreationError

-- What is asked for: the NodeClaim with the requirements of its specification.
pub record Asked : Type 0 where
  pub claim : CloudClaim
  pub node_class_name : String
  pub requirements : List Requirement

-- A node class with its generation.
abbrev pub VersionedClass : Type 0
VersionedClass = EcsNodeClass × ℕ

abbrev pub type_name_of : InstanceType → TypeName
type_name_of it = record { name = it.name; architecture = it.architecture }

-- The original NodeClaim keeps its name, its annotations and its time.
unfoldable pub convert_instance_to_node_claim :
    ClaimSettings → Instance → CloudClaim → List InstanceType → CloudClaim
unfolding find_by_name resources_or_empty instance_labels_from_instance provider_id_of
convert_instance_to_node_claim settings inst original its =
    let resources = resources_or_empty settings (find_by_name inst.instance_type its) in
    record {
      name = original.name;
      labels = instance_labels_from_instance inst (find_by_name inst.instance_type its);
      annotations = original.annotations;
      creation_timestamp = original.creation_timestamp;
      provider_id = provider_id_of inst.region inst.instance_id;
      capacity = resources.0;
      allocatable = resources.1;
      image_id = inst.image_id;
    }

unfoldable pub set_node_class_hash_annotation : String → CloudClaim → CloudClaim
unfolding insert
set_node_class_hash_annotation hash claim = record {
  name = claim.name;
  labels = claim.labels;
  annotations =
      insert annotation_ecs_node_class_hash_version "v1"
        (insert annotation_ecs_node_class_hash hash claim.annotations);
  creation_timestamp = claim.creation_timestamp;
  provider_id = claim.provider_id;
  capacity = claim.capacity;
  allocatable = claim.allocatable;
  image_id = claim.image_id;
}

-- What `Create` works with, besides the two providers.
pub record CreationSettings (W : Type 0) : Type 0 where
  pub claims : ClaimSettings
  pub region : String
  pub dual_stack : Bool
  pub ttl : ℕ
  pub digest : HashInput → Option String
  pub sort_slice : (VSwitch → VSwitch → Bool) → List VSwitch → List VSwitch
  pub generate_user_data : EcsNodeClass → CloudClaim → W → Outcome String String × W
  pub create_one : CreateOptions → W → Outcome String String × W

-- The request for an instance, once the user data is there.
unfoldable pub request_of :
    {W : Type 0}
    → CreationSettings W
    → EcsNodeClass
    → Asked
    → List InstanceType
    → List VSwitch
    → String
    → LaunchRequest
unfolding build_instance_tags
request_of settings node_class asked its vswitches user_data = record {
  node_class = node_class;
  requirements = asked.requirements;
  instance_types = map type_name_of its;
  images = node_class.status.images;
  vswitches = vswitches;
  security_groups = node_class.status.security_groups;
  user_data = user_data;
  tags =
      build_instance_tags (record { name = asked.claim.name; labels = asked.claim.labels })
        node_class.spec;
  dual_stack = settings.dual_stack;
}

module _ {W : Type 0} (settings : CreationSettings W) (ecs : Ecs W) (api : TypesApi W) where
  -- The steps 11 and 12, with the error of step 10.
  unfoldable pub created_claim :
      VersionedClass
      → CloudClaim
      → List InstanceType
      → TypeCache
      → Outcome InstanceError Instance × Provider W
      → Outcome CreationError CloudClaim × CloudState W
  unfolding convert_instance_to_node_claim set_node_class_hash_annotation calculate_node_class_hash
  created_claim class claim its types (err e, p) =
      (err (created_unread e), record { instances = p.cache; types = types; cloud = p.cloud })
  created_claim class claim its types (ok inst, p) = (
    ok (
        set_node_class_hash_annotation
          (calculate_node_class_hash settings.digest class.1 class.0.spec)
          (convert_instance_to_node_claim settings.claims inst claim its)),
    record { instances = p.cache; types = types; cloud = p.cloud },
  )

  -- The step 10 and what follows, with the error of step 9.
  unfoldable pub read_created :
      ℕ
      → VersionedClass
      → CloudClaim
      → List InstanceType
      → Cache
      → TypeCache
      → Outcome LaunchError String × W
      → Outcome CreationError CloudClaim × CloudState W
  unfolding created_claim get
  read_created now class claim its instances types (err e, w) =
      (err (launch_failed e), record { instances = instances; types = types; cloud = w })
  read_created now class claim its instances types (ok id, w) =
      created_claim class claim its types
        (get ecs settings.ttl now id false (record { cache = instances; cloud = w }))

  -- The steps 8 and 9 and what follows, with the error of step 7.
  unfoldable pub launch_claim :
      ℕ
      → VersionedClass
      → Asked
      → List InstanceType
      → List VSwitch
      → Cache
      → TypeCache
      → Outcome String String × W
      → Outcome CreationError CloudClaim × CloudState W
  unfolding read_created request_of create_instance_with_retry
  launch_claim now class asked its vswitches instances types (err e, w) =
      (err (no_user_data e), record { instances = instances; types = types; cloud = w })
  launch_claim now class asked its vswitches instances types (ok user_data, w) =
      read_created now class asked.claim its instances types (
        create_instance_with_retry settings.create_one settings.sort_slice
          (request_of settings class.0 asked its vswitches user_data) w)

  -- The filter of step 3, the steps 4 to 7 and what follows.
  unfoldable pub launch_with_types :
      ℕ
      → VersionedClass
      → Asked
      → List InstanceType
      → CloudState W
      → Outcome CreationError CloudClaim × CloudState W
  unfolding launch_claim filter_vswitches_by_zones zones_from_requirements
  launch_with_types now class asked its s =
      let vswitches =
        filter_vswitches_by_zones class.0.status.vswitches
          (zones_from_requirements asked.requirements) in
      if is_empty its
      then (err no_matching_types, s)
      else if is_empty class.0.status.images
      then (err no_images, s)
      else if is_empty vswitches
      then (err no_matching_vswitches, s)
      else if is_empty class.0.status.security_groups
      then (err no_security_groups, s)
      else launch_claim now class asked its vswitches s.instances s.types
          (settings.generate_user_data class.0 asked.claim s.cloud)

  -- The step 3 and what follows.
  unfoldable pub launch_ready :
      ℕ
      → VersionedClass
      → Asked
      → Outcome String (List InstanceType)
      → CloudState W
      → Outcome CreationError CloudClaim × CloudState W
  unfolding launch_with_types filter_instance_types_by_requirements
  launch_ready now class asked (err e) s =
      (err (types_unread (append_text "failed to list instance types: " e)), s)
  launch_ready now class asked (ok its) s =
      launch_with_types now class asked
        (filter_instance_types_by_requirements settings.region its asked.requirements) s

  -- `Create`
  unfoldable pub create_claim :
      ℕ
      → Outcome String VersionedClass
      → (EcsNodeClass → Readiness)
      → Asked
      → CloudState W
      → Outcome CreationError CloudClaim × CloudState W
  unfolding launch_ready readiness_error list
  create_claim now (err e) ready_of asked s =
      let prefix = append_text "failed to get nodeclass " asked.node_class_name in
      (err (class_unread (append_text prefix (append_text ": " e))), s)
  create_claim now (ok class) ready_of asked s = elim (readiness_error (ready_of class.0)) [
    | some e ↦ (err (class_not_ready e), s)
    | none ↦
        let (answer, p) = list api now (record { cache = s.types; cloud = s.cloud }) in
        launch_ready now class asked answer
          (record { instances = s.instances; types = p.cache; cloud = p.cloud })
  ]
