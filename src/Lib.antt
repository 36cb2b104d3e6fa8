-- ===== src/Lib.antt =====
-- A verification library of karpenter-provider-alibabacloud, the provider of Karpenter for Alibaba
-- Cloud. Karpenter's core asks the provider for instances; the provider's controllers keep the node
-- classes, the instances and their tags in step with the cluster.
--
-- The parts of the program, and the files that model them:
--
-- - Errors: pkg/errors/errors.go. The classes of an error by its message.
-- - Utils: pkg/utils. Utils/Capacity has the capacity types and architectures of utils/ecs,
--   Utils/Tags the batches of a tag map, Utils/SecurityGroups the lists of security group IDs.
-- - NodeClass: pkg/apis/v1alpha1. The types of an ECSNodeClass; NodeClass/Disks is NormalizeDisks,
--   NodeClass/Validation is Validate, NodeClass/Labels has the constants of labels.go,
--   NodeClass/LabelValues is NormalizeLabelValue, NodeClass/Webhook is Default of the webhook.
-- - Instance: pkg/providers/instance/instance.go. The options of a launch; Instance/Api is what ECS says
--   of an instance, Instance/Cache the cache, Instance/Calls has Get, Delete and TagInstance,
--   Instance/Listing has List, Instance/Requests the request that Create builds, Instance/Create has
--   Create with the tags that it defers.
-- - InstanceTypes: pkg/providers/instancetype. InstanceTypes/Inventory is getInventory, Convert is the
--   conversion of an instance type of ECS with the tables of gpu.go in GpuTables, Names has what the
--   name of an instance type says, Labels is ResolvedLabels, Filter is Filter, Listing is List with its
--   cache, and Lookup has Get, Sort and ClearCache. Capacity and Offerings are GetInstanceTypes of pkg/cloudprovider/cloudprovider.go, with
--   the resources, the offerings and the requirements of each instance type.
-- - ProviderId: the provider IDs of nodes. NodeClaim: the parts of NodeClaims and nodes that are read.
-- - Launch: the launch of an instance in pkg/cloudprovider/cloudprovider.go. Launch/Fallback is
--   createInstanceWithRetry with its two nested loops, Launch/Options what it asks for,
--   Launch/Requirements how it reads a NodeClaim, and Launch/Tags is BuildInstanceTags.
--   Launch/Tagged is about the tags of the instance that a launch makes.
-- - CloudClaims: Get and List of pkg/cloudprovider/cloudprovider.go; CloudClaims/Labels has the labels of
--   an instance, CloudClaims/Creation is Create, from the NodeClaim to the instance and back.
-- - Status: pkg/controllers/nodeclass/status/controller.go. Status/Conditions is setCondition and
--   isReady, Status/Resolution and Status/Template resolve selectors and launch templates, and
--   Status/Reconcile is Reconcile.
-- - Tagging: pkg/controllers/nodeclaim/tagging/controller.go. Tagging/Diff is about the diff of tags,
--   Tagging/Reconciled about the instance after it, Tagging/Marked about the whole of Reconcile.
-- - Collection: pkg/controllers/nodeclaim/garbagecollection/garbagecollection.go, with Delete of the
--   cloud provider. Collection/Orphans has what a run may delete, Collection/Runs whole runs.
-- - Hash: pkg/controllers/nodeclass/hash/controller.go.
-- - Drift: IsDrifted of pkg/cloudprovider/cloudprovider.go and the hash of a node class. Drift/Fresh is
--   about an instance that was just launched.
-- - Batcher: pkg/batcher/window.go. Batcher/Window is BatchWindow; Batcher/Window/Steps its steps.
-- - Prelude has the names that all share; Witnesses has the theorems at concrete inputs, and tests.
--
-- How the parts interact: the status controller resolves the selectors of a node class and writes
-- what it found to the status; a launch reads that status and the specification, which the webhook
-- has validated, builds the options of an instance and its tags, and tries instance types and
-- vSwitches until one has capacity. Karpenter chooses among the offerings that GetInstanceTypes makes of
-- the stock of ECS, and compares them with the labels of the NodeClaims that Create, Get and List return.
-- The controllers and the garbage collection find the instances by their tags.
--
-- Conventions. A function of Go is a function of the same name in snake case; a type keeps its name.
-- A method that changes state returns the new state. `(T, error)` is `Outcome` of Prelude/Outcomes,
-- with the message of the error or a constructor for it; a pointer is an `Option`; a map with text
-- keys is an association list; signed integers are `ℤ` of Prelude/Int; a float64 is its bit pattern;
-- texts are native strings. Code outside the repository, such as the client of Kubernetes, the API
-- of ECS and `sort.Slice`, is a parameter, and what a theorem needs of it is a hypothesis.
--
-- Bounds. All loops are structural recursions but two. The loop of BatchTags runs on fuel, one more
-- than the number of keys, and Utils/Tags/Batches shows that this is enough; the loop of List has
-- a unit of fuel for each page, and Instance/Listing/Complete shows how much is enough. The
-- `int32` product in the page test of List wraps around. Decimals are printed with fuel for 20
-- digits, one more than an `int` of Go has.
--
-- Not modelled: logging, metrics and events, which change no state; the SDK clients under
-- pkg/clients and the wiring under pkg/operator and cmd, which are input and output; generated deep
-- copies; the bootstrap provider, whose user data is a parameter of Create; the providers of selectors,
-- prices and reservations; the fan-out of batched requests. Quantities of Kubernetes are integers, where
-- their parsing and their rounding are parameters, as are a product of floats, the conversion to float32
-- and base64. The memory of an instance is a number of GiB. The times of one reconcile of the status
-- controller are one time.
pub mod Prelude
pub mod Utils
pub mod Errors
pub mod NodeClass
pub mod Instance
pub mod Launch
pub mod Status
pub mod Batcher
pub mod CloudClaims
pub mod Collection
pub mod Drift
pub mod Hash
pub mod InstanceTypes
pub mod NodeClaim
pub mod ProviderId
pub mod Tagging
pub mod Witnesses
