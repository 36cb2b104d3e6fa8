-- ===== src/CloudClaims/Created.antt =====
-- What a NodeClaim that `Create` of the cloud provider returns stands for.
use mathlib.Core.Path.{subst}
use karpenter_provider_aliba.Prelude.{
  List, Option-cases, Outcome, String, ap, arith, err, false, if_intro, inl, inr, insert, is_empty,
  lookup, lookup-insert, none, ok, ok_injective, refl, sym, ℕ, ◌∙◌, ◌≡◌,
}
use karpenter_provider_aliba.CloudClaims.{CloudClaim, CloudState, find_by_name, resources_or_empty}
use karpenter_provider_aliba.CloudClaims.Creation.{
  Asked, CreationError, CreationSettings, VersionedClass, convert_instance_to_node_claim,
  create_claim, created_claim, launch_claim, launch_ready, launch_with_types, no_images,
  no_matching_types, no_matching_vswitches, no_security_groups, read_created, request_of,
  set_node_class_hash_annotation,
}
use karpenter_provider_aliba.CloudClaims.Labels.{instance_labels_from_instance}
use karpenter_provider_aliba.Drift.{calculate_node_class_hash}
use karpenter_provider_aliba.Instance.Api.{Instance}
use karpenter_provider_aliba.Instance.Calls.{Ecs, InstanceError, Provider, get}
use karpenter_provider_aliba.Instance.Calls.Tagged.{TagLaws}
use karpenter_provider_aliba.Instance.Create.{Launching, create}
use karpenter_provider_aliba.Instance.Create.Complete.{LaunchLaws}
use karpenter_provider_aliba.Instance.Listing.Complete.{listed}
use karpenter_provider_aliba.Instance.Requests.{Encoding}
use karpenter_provider_aliba.InstanceTypes.{InstanceType}
use karpenter_provider_aliba.InstanceTypes.Filter.{filter_instance_types_by_requirements}
use karpenter_provider_aliba.InstanceTypes.Listing.{TypeCache, TypeProvider, TypesApi, list}
use karpenter_provider_aliba.InstanceTypes.Offerings.{Readiness, readiness_error}
use karpenter_provider_aliba.Launch.Fallback.{LaunchError, create_instance_with_retry}
use karpenter_provider_aliba.Launch.Requirements.{
  filter_vswitches_by_zones, zones_from_requirements,
}
use karpenter_provider_aliba.Launch.Tagged.{create_instance_with_retry-tagged}
use karpenter_provider_aliba.Launch.Tags.{build_instance_tags}
use karpenter_provider_aliba.NodeClass.{EcsNodeClass, VSwitch}
use karpenter_provider_aliba.NodeClass.Labels.{
  annotation_ecs_node_class_hash, annotation_ecs_node_class_hash_version,
}
use karpenter_provider_aliba.ProviderId.{provider_id_of}
use karpenter_provider_aliba.Utils.Tags.{Tags, tag_value}

tag_value-set_hash :
    (hash : String) (claim : CloudClaim)
    → tag_value annotation_ecs_node_class_hash
        (set_node_class_hash_annotation hash claim).annotations
      ≡ hash
unfolding set_node_class_hash_annotation tag_value
tag_value-set_hash hash claim =
    rw
      (
        lookup-insert annotation_ecs_node_class_hash_version annotation_ecs_node_class_hash "v1"
              (insert annotation_ecs_node_class_hash hash claim.annotations)
            ∙ lookup-insert annotation_ecs_node_class_hash annotation_ecs_node_class_hash hash
                claim.annotations,
        tag_value,
      )
      refl

module _ {W : Type 0} (settings : CreationSettings W) (ecs : Ecs W) (api : TypesApi W) (now : ℕ)
    (class : VersionedClass) (ready_of : EcsNodeClass → Readiness) (asked : Asked)
    (initial : CloudState W) (created : CloudClaim) where
  -- The list of the instance types from the initial state.
  abbrev pub listing : Outcome String (List InstanceType) × TypeProvider W
  listing = list api now (record { cache = initial.types; cloud = initial.cloud })

  abbrev pub matching : List InstanceType → List InstanceType
  matching its = filter_instance_types_by_requirements settings.region its asked.requirements

  abbrev pub allowed : List VSwitch
  allowed =
      filter_vswitches_by_zones class.0.status.vswitches
        (zones_from_requirements asked.requirements)

  -- The run from the initial state: the listing, the user data, the launch, the read of the launched
  -- instance with the initial cache, and what the NodeClaim says of the instance.
  pub record IsCreated : Type 0 where
    pub its : List InstanceType
    pub user_data : String
    pub before : W
    pub after : W
    pub id : String
    pub inst : Instance
    pub was_ready : readiness_error (ready_of class.0) ≡ none
    pub types_listed : listing.0 ≡ ok its
    pub informed :
        settings.generate_user_data class.0 asked.claim listing.1.cloud ≡ (ok user_data, before)
    pub launched :
        create_instance_with_retry settings.create_one settings.sort_slice
          (request_of settings class.0 asked (matching its) allowed user_data)
          before
        ≡ (ok id, after)
    pub was_read :
        (get ecs settings.ttl now id false (record { cache = initial.instances; cloud = after })).0
        ≡ ok inst
    pub identified : created.provider_id ≡ provider_id_of inst.region inst.instance_id
    pub named : created.name ≡ asked.claim.name
    pub imaged : created.image_id ≡ inst.image_id
    pub labelled :
        created.labels
        ≡ instance_labels_from_instance inst (find_by_name inst.instance_type (matching its))
    pub resourced :
        (created.capacity, created.allocatable)
        ≡ resources_or_empty settings.claims (find_by_name inst.instance_type (matching its))
    pub hashed :
        tag_value annotation_ecs_node_class_hash created.annotations
        ≡ calculate_node_class_hash settings.digest class.1 class.0.spec

  module _ (its : List InstanceType) (ready : readiness_error (ready_of class.0) ≡ none)
      (listed : listing.0 ≡ ok its) (types : TypeCache) where
    created_claim-IsCreated :
        (user_data : String) (before : W) (id : String) (after : W)
        (g : Outcome InstanceError Instance × Provider W)
        → settings.generate_user_data class.0 asked.claim listing.1.cloud ≡ (ok user_data, before)
        → create_instance_with_retry settings.create_one settings.sort_slice
            (request_of settings class.0 asked (matching its) allowed user_data)
            before
          ≡ (ok id, after)
        → get ecs settings.ttl now id false (record { cache = initial.instances; cloud = after })
          ≡ g
        → (created_claim settings ecs api class asked.claim (matching its) types g).0 ≡ ok created
        → IsCreated
    unfolding created_claim convert_instance_to_node_claim set_node_class_hash_annotation
    created_claim-IsCreated user_data before id after (err e, p) generated launch read h =
        ground arith
    created_claim-IsCreated user_data before id after (ok inst, p) generated launch read h =
        let same = ok_injective h in
        record {
          its = its;
          user_data = user_data;
          before = before;
          after = after;
          id = id;
          inst = inst;
          was_ready = ready;
          types_listed = listed;
          informed = generated;
          launched = launch;
          was_read = ap (λ x. x.0) read;
          identified = ap (λ c. c.provider_id) (sym same);
          named = ap (λ c. c.name) (sym same);
          imaged = ap (λ c. c.image_id) (sym same);
          labelled = ap (λ c. c.labels) (sym same);
          resourced = ap (λ c. (c.capacity, c.allocatable)) (sym same);
          hashed =
              ap (λ c. tag_value annotation_ecs_node_class_hash c.annotations) (sym same)
              ∙ tag_value-set_hash (calculate_node_class_hash settings.digest class.1 class.0.spec)
                  (convert_instance_to_node_claim settings.claims inst asked.claim (matching its));
        }

    read_created-IsCreated :
        (user_data : String) (before : W) (r : Outcome LaunchError String × W)
        → settings.generate_user_data class.0 asked.claim listing.1.cloud ≡ (ok user_data, before)
        → create_instance_with_retry settings.create_one settings.sort_slice
            (request_of settings class.0 asked (matching its) allowed user_data)
            before
          ≡ r
        → (read_created settings ecs api now class asked.claim
            (matching its)
            initial.instances
            types
            r).0
          ≡ ok created
        → IsCreated
    unfolding read_created
    read_created-IsCreated user_data before (err e, w) generated launch h = ground arith
    read_created-IsCreated user_data before (ok id, w) generated launch h =
        created_claim-IsCreated user_data before id w
          (get ecs settings.ttl now id false (record { cache = initial.instances; cloud = w }))
          generated launch refl h

    launch_claim-IsCreated :
        (r : Outcome String String × W)
        → settings.generate_user_data class.0 asked.claim listing.1.cloud ≡ r
        → (launch_claim settings ecs api now class asked
            (matching its)
            allowed
            initial.instances
            types
            r).0
          ≡ ok created
        → IsCreated
    unfolding launch_claim
    launch_claim-IsCreated (err e, w) generated h = ground arith
    launch_claim-IsCreated (ok user_data, w) generated h =
        read_created-IsCreated user_data w
          (create_instance_with_retry settings.create_one settings.sort_slice
            (request_of settings class.0 asked (matching its) allowed user_data) w)
          generated refl h

    -- A result that is a NodeClaim is one of an instance.
    Stands : Outcome CreationError CloudClaim × CloudState W → Type 0
    Stands r = r.0 ≡ ok created → IsCreated

    err-Stands : (e : CreationError) (s : CloudState W) → Stands (err e, s)
    unfolding Stands
    err-Stands e s h = ground arith

    launch_claim-Stands :
        (r : Outcome String String × W)
        → settings.generate_user_data class.0 asked.claim listing.1.cloud ≡ r
        → Stands (
            launch_claim settings ecs api now class asked
              (matching its)
              allowed
              initial.instances
              types
              r)
    unfolding Stands
    launch_claim-Stands = launch_claim-IsCreated

    launch_with_types-Stands :
        (s : CloudState W)
        → s ≡ record { instances = initial.instances; types = types; cloud = listing.1.cloud }
        → Stands (launch_with_types settings ecs api now class asked (matching its) s)
    unfolding launch_with_types
    launch_with_types-Stands s at =
        subst (λ t. Stands (launch_with_types settings ecs api now class asked (matching its) t))
          (sym at)
          (if_intro Stands (is_empty (matching its)) _ _ (λ e. err-Stands no_matching_types after)
            λ e₁.
              if_intro Stands (is_empty class.0.status.images) _ _ (λ e. err-Stands no_images after)
                λ e₂.
                  if_intro Stands (is_empty allowed) _ _
                    (λ e. err-Stands no_matching_vswitches after)
                    λ e₃.
                      if_intro Stands (is_empty class.0.status.security_groups) _ _
                        (λ e. err-Stands no_security_groups after)
                        λ e₄.
                          launch_claim-Stands
                            (settings.generate_user_data class.0 asked.claim listing.1.cloud) refl)
      where
        after : CloudState W
        after = record { instances = initial.instances; types = types; cloud = listing.1.cloud }

  launch_ready-IsCreated :
      (answer : Outcome String (List InstanceType))
      → readiness_error (ready_of class.0) ≡ none
      → listing.0 ≡ answer
      → (launch_ready settings ecs api now class asked answer (record {
        instances = initial.instances;
        types = listing.1.cache;
        cloud = listing.1.cloud;
      })).0
        ≡ ok created
      → IsCreated
  unfolding launch_ready Stands
  launch_ready-IsCreated (err e) ready listed h = ground arith
  launch_ready-IsCreated (ok its) ready listed h =
      launch_with_types-Stands its ready listed listing.1.cache _ refl h

  -- A NodeClaim that Create returns is the result of that run.
  create_claim-IsCreated :
      (create_claim settings ecs api now (ok class) ready_of asked initial).0 ≡ ok created
      → IsCreated
  unfolding create_claim
  create_claim-IsCreated h = elim (Option-cases (readiness_error (ready_of class.0))) [
    | inr (e, unready) ↦ ground (arith, rw (unready, create_claim) at h)
    | inl ready ↦ launch_ready-IsCreated listing.0 ready refl (rw (ready, create_claim) at h)
  ]

-- Where Create of the instance provider makes the instance, RunInstances gives a new instance the tags of
-- its request, and TagResources takes requests of 1 to 20 tags: when Create of the cloud provider
-- returns a NodeClaim, the node class was ready; createInstanceWithRetry, asked for the listed instance
-- types that meet the requirements, in the vSwitches of the required zones and with the generated user
-- data, has returned an ID; and Get, with the cache from before, has read that ID after it. The instance
-- with that ID has exactly the tags that BuildInstanceTags made for the NodeClaim and its node class.
-- The NodeClaim has the name that was asked for; the provider ID, the image and the labels of the
-- instance that was read; the resources of its type; and the hash of the node class.
pub create_claim-created :
    {W : Type 0} (settings : CreationSettings W) (ecs : Ecs W) (api : TypesApi W)
    (launching : Launching W) (e : Encoding) (tags_of : String → W → Tags)
    → settings.create_one ≡ create ecs launching e
    → TagLaws ecs tags_of
    → LaunchLaws launching tags_of
    → (now : ℕ) (class : VersionedClass) (ready_of : EcsNodeClass → Readiness) (asked : Asked)
      (initial : CloudState W) (created : CloudClaim)
    → (create_claim settings ecs api now (ok class) ready_of asked initial).0 ≡ ok created
    → (k : String)
    → (c : IsCreated settings ecs api now class ready_of asked initial created) × (lookup k
          (tags_of c.id c.after)
        ≡ lookup k (
            build_instance_tags
              (record { name = asked.claim.name; labels = asked.claim.labels })
              class.0.spec))
unfolding request_of
create_claim-created settings ecs api launching e tags_of filled tag_laws laws now class ready_of
      asked initial created h k =
    let c = create_claim-IsCreated settings ecs api now class ready_of asked initial created h in
    let its = filter_instance_types_by_requirements settings.region c.its asked.requirements in
    let vswitches =
      filter_vswitches_by_zones class.0.status.vswitches
        (zones_from_requirements asked.requirements) in
    let r = request_of settings class.0 asked its vswitches c.user_data in
    let launch =
      subst (λ f. create_instance_with_retry f settings.sort_slice r c.before ≡ (ok c.id, c.after))
        filled c.launched in
    let tagged =
      create_instance_with_retry-tagged ecs launching e tags_of settings.sort_slice tag_laws laws
        (record { name = asked.claim.name; labels = asked.claim.labels }) r c.before c.id refl
        (ap (λ x. x.0) launch) k in
    (c, ap (λ x. lookup k (tags_of c.id x.1)) (sym launch) ∙ tagged)
