-- ===== src/Instance/Calls/Fetched.antt =====
-- A fetched instance is served from the cache.
use karpenter_provider_aliba.Instance.Api.{Instance}
use karpenter_provider_aliba.Instance.Cache.{Cache}
