-- ===== src/ProviderId.antt =====
-- The provider IDs of nodes, `region.instance-id`: pkg/cloudprovider/cloudprovider.go and
-- pkg/controllers/nodeclaim/tagging/controller.go.
use karpenter_provider_aliba.Prelude.{
  Bool-cases, String, append_text, arith, false, has_dot, if_intro, if◌then◌else◌, inl, inr,
  last_of, length, length-split_dots, ltb, refl, split_dots, split_dots-append, split_dots_whole,
  str_eq, str_eq_iff, sym, true, ◌∙◌, ◌≡◌, ◌≤◌,
}

-- `fmt.Sprintf("%s.%s", region, instanceID)`
unfoldable pub provider_id_of : String → String → String
provider_id_of region instance_id = append_text region (String.◌∷◌ "." instance_id)

unfoldable pub from_provider_id : String → String
unfolding split_dots
from_provider_id provider_id =
    if str_eq provider_id ""
    then ""
    else if ltb (length (split_dots provider_id)) 2
    then ""
    else last_of (split_dots provider_id)

-- `Split` gives at least one part, so the test of the length is always passed.
unfoldable pub get_instance_id_from_provider_id : String → String
unfolding split_dots
get_instance_id_from_provider_id provider_id = last_of (split_dots provider_id)

from_two_parts :
    (s : String) → 2 ≤ length (split_dots s) → from_provider_id s ≡ last_of (split_dots s)
unfolding from_provider_id split_dots
from_two_parts s h = elim (Bool-cases (str_eq s "")) [
  | inl e ↦ absurd_length (one_part ((str_eq_iff s "").0 e))
  | inr e ↦ rw e (ground arith)
]
  where
    one_part : s ≡ "" → length (split_dots s) ≡ 1
    one_part e = rw e refl

    absurd_length : length (split_dots s) ≡ 1 → from_provider_id s ≡ last_of (split_dots s)
    absurd_length e = ground arith

-- A provider ID gives back the instance ID that it was made of, if that has no dot in it; the region may
-- have any. Both readers of provider IDs find it.
pub from_provider_id-provider_id_of :
    (region instance_id : String)
    → has_dot instance_id ≡ false
    → (from_provider_id (provider_id_of region instance_id) ≡ instance_id)
      × (get_instance_id_from_provider_id (provider_id_of region instance_id) ≡ instance_id)
unfolding from_provider_id get_instance_id_from_provider_id provider_id_of
from_provider_id-provider_id_of region instance_id h =
    let parts = split_dots-append region instance_id h in
    (from_two_parts (provider_id_of region instance_id) parts.0 ∙ parts.1, parts.1)

-- The reader of the tagging controller agrees with that of the cloud provider on each text with a dot.
-- A text without one is the instance ID itself to the former, and no provider ID to the latter.
pub get_instance_id_from_provider_id-from_provider_id :
    (provider_id : String)
    → (has_dot provider_id ≡ true
        → get_instance_id_from_provider_id provider_id ≡ from_provider_id provider_id)
      × (has_dot provider_id ≡ false
          → (get_instance_id_from_provider_id provider_id ≡ provider_id)
            × (from_provider_id provider_id ≡ ""))
unfolding from_provider_id get_instance_id_from_provider_id
get_instance_id_from_provider_id-from_provider_id provider_id = (
  λ h. sym (from_two_parts provider_id (length-split_dots provider_id h)),
  λ h.
      let whole = split_dots_whole provider_id h in
      (
        rw whole refl,
        rw whole (if_intro (λ s. s ≡ "") (str_eq provider_id "") "" _ (λ e. refl) (λ e. refl)),
      ),
)
