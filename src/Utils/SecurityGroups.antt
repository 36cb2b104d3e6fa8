-- ===== src/Utils/SecurityGroups.antt =====
-- pkg/utils/securitygroups/securitygroups.go. The set `seen` is a list without duplicates; Go visits
-- it in no fixed order, which the sort hides.
pub mod Equality
use karpenter_provider_aliba.Prelude.{
  Bool, List, String, [], false, if◌then◌else◌, length, member, sort_texts, str_eq, ◌&&◌, ◌==◌, ◌∷◌,
}
use mathlib.Core.Bool.{true}

-- `seen[id] = struct{}{}`
unfoldable pub add_seen : String → List String → List String
unfolding member
add_seen id seen = if member id seen then seen else id ∷ seen

-- The loop that fills `seen`.
unfoldable pub collect_seen : List String → List String → List String
unfolding add_seen
collect_seen seen [] = seen
collect_seen seen (id ∷ ids) = collect_seen (add_seen id seen) ids

unfoldable pub normalize_ids : List String → List String
unfolding collect_seen sort_texts
normalize_ids [] = []
normalize_ids (id ∷ ids) = sort_texts (collect_seen [] (id ∷ ids))

-- The loop of `EqualIDs` over the indices of two slices of one length.
unfoldable pub same_at_each_index : List String → List String → Bool
same_at_each_index [] right = true
same_at_each_index (l ∷ left) [] = false
same_at_each_index (l ∷ left) (r ∷ right) = str_eq l r && same_at_each_index left right

unfoldable pub equal_ids : List String → List String → Bool
unfolding normalize_ids same_at_each_index
equal_ids left right =
    let left' = normalize_ids left in
    let right' = normalize_ids right in
    if length left' == length right' then same_at_each_index left' right' else false
