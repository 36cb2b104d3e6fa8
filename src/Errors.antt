-- ===== src/Errors.antt =====
-- pkg/errors/errors.go. An error is its message, which is all that the predicates read; `nil` is
-- `none`. `fmt.Errorf("…: %w", err)` puts a text before the message of `err`.
pub mod Wrapping
use karpenter_provider_aliba.Prelude.{
  Bool, List, Option, String, [], append_text, contains_text, false, none, some, ◌||◌, ◌∷◌,
}

abbrev pub err_code_no_stock : String
err_code_no_stock = "OperationDenied.NoStock"

abbrev pub err_code_zone_not_on_sale : String
err_code_zone_not_on_sale = "Zone.NotOnSale"

abbrev pub err_code_vswitch_ip_not_enough : String
err_code_vswitch_ip_not_enough = "InvalidVSwitchId.IpNotEnough"

abbrev pub err_code_resource_type_not_supported : String
err_code_resource_type_not_supported = "InvalidResourceType.NotSupported"

abbrev pub err_code_quota_exceed_instance : String
err_code_quota_exceed_instance = "QuotaExceed.Instance"

abbrev pub err_code_quota_exceed_spot : String
err_code_quota_exceed_spot = "QuotaExceed.Spot"

abbrev pub err_code_throttling : String
err_code_throttling = "Throttling"

abbrev pub err_code_throttling_user : String
err_code_throttling_user = "Throttling.User"

abbrev pub err_code_invalid_parameter : String
err_code_invalid_parameter = "InvalidParameter"

abbrev pub err_code_invalid_instance_type : String
err_code_invalid_instance_type = "InvalidInstanceType.NotSupported"

abbrev pub err_code_invalid_image_not_found : String
err_code_invalid_image_not_found = "InvalidImage.NotFound"

abbrev pub err_code_invalid_vswitch_not_found : String
err_code_invalid_vswitch_not_found = "InvalidVSwitchId.NotFound"

abbrev pub err_code_invalid_sg_not_found : String
err_code_invalid_sg_not_found = "InvalidSecurityGroupId.NotFound"

abbrev pub err_code_forbidden_ram : String
err_code_forbidden_ram = "Forbidden.RAM"

abbrev pub err_code_forbidden_risk_control : String
err_code_forbidden_risk_control = "Forbidden.RiskControl"

abbrev pub err_code_instance_not_found : String
err_code_instance_not_found = "InvalidInstanceId.NotFound"

-- A chain of `strings.Contains` calls joined by `||`.
unfoldable pub contains_one : String → List String → Bool
unfolding contains_text
contains_one msg [] = false
contains_one msg (c ∷ codes) = contains_text msg c || contains_one msg codes

-- The test of an error by its message, with the `err == nil` guard.
unfoldable pub classified : List String → Option String → Bool
unfolding contains_one
classified codes none = false
classified codes (some msg) = contains_one msg codes

abbrev pub capacity_codes : List String
capacity_codes =
    err_code_no_stock ∷ err_code_zone_not_on_sale ∷ err_code_resource_type_not_supported
    ∷ err_code_vswitch_ip_not_enough ∷ []

unfoldable pub is_insufficient_capacity_error : Option String → Bool
unfolding classified
is_insufficient_capacity_error = classified capacity_codes

unfoldable pub is_throttling_error : Option String → Bool
unfolding classified
is_throttling_error = classified (err_code_throttling ∷ err_code_throttling_user ∷ [])

unfoldable pub is_quota_error : Option String → Bool
unfolding classified
is_quota_error = classified (err_code_quota_exceed_instance ∷ err_code_quota_exceed_spot ∷ [])

unfoldable pub is_parameter_error : Option String → Bool
unfolding classified
is_parameter_error = classified (err_code_invalid_parameter ∷ err_code_invalid_instance_type ∷ [])

unfoldable pub is_permission_error : Option String → Bool
unfolding classified
is_permission_error = classified (err_code_forbidden_ram ∷ err_code_forbidden_risk_control ∷ [])

unfoldable pub is_retryable : Option String → Bool
unfolding is_insufficient_capacity_error is_throttling_error
is_retryable e = is_insufficient_capacity_error e || is_throttling_error e

unfoldable pub is_not_found : Option String → Bool
unfolding classified
is_not_found = classified (
    err_code_instance_not_found ∷ err_code_invalid_image_not_found
    ∷ err_code_invalid_vswitch_not_found ∷ err_code_invalid_sg_not_found ∷ "not found" ∷ "NotFound"
    ∷ "InvalidInstanceId.NotFound" ∷ "InstanceNotFound" ∷ [])

-- `fmt.Errorf` with `%w` at the end of the format.
unfoldable pub wrap_error : String → String → String
wrap_error prefix msg = append_text prefix msg
