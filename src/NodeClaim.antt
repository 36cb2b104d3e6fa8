-- ===== src/NodeClaim.antt =====
-- The parts of Karpenter's NodeClaims and of Kubernetes' nodes that the controllers read and write.
use karpenter_provider_aliba.Prelude.{Bool, Option, String, none, some, ℕ}
use karpenter_provider_aliba.Launch.Tags.{ClaimMeta}
use karpenter_provider_aliba.Utils.Tags.{Tags}

-- Times are in seconds.
pub record NodeClaim : Type 0 where
  pub meta : ClaimMeta
  pub annotations : Tags
  pub provider_id : String
  pub deleting : Bool
  pub node_class_name : String
  pub creation_timestamp : ℕ

pub record Node : Type 0 where
  pub name : String
  pub provider_id : String

-- An error of the client of Kubernetes.
pub data KubeError : Type 0 where
  kube_not_found : KubeError
  kube_failed : String → KubeError

-- `client.IgnoreNotFound`
abbrev pub ignore_not_found : KubeError → Option String
ignore_not_found kube_not_found = none
ignore_not_found (kube_failed m) = some m
