-- ===== src/InstanceTypes/Names.antt =====
-- The attributes that pkg/providers/instancetype/instancetype.go reads from the name of an instance type,
-- such as "ecs.g7.large", and the texts of its quantities.
use Prim.Native.Char.{code}
use karpenter_provider_aliba.Prelude.{
  Bool, List, Option, String, [], false, has_prefix, if◌then◌else◌, leb, leb_ℤ, ltb, negsuc, none,
  pos, show_int, some, split_dots, str_eq, sub_ℕ, ℕ, ℤ, ◌&&◌, ◌+◌, ◌/◌, ◌||◌, ◌∷◌,
}
use karpenter_provider_aliba.InstanceTypes.{Gpu, Quantity}
use karpenter_provider_aliba.NodeClass.LabelValues.{normalize_label_value}

unfoldable pub trim_prefix : String → String → String
unfolding has_prefix
trim_prefix s String.[] = s
trim_prefix String.[] (String.◌∷◌ d t) = String.[]
trim_prefix (String.◌∷◌ c s) (String.◌∷◌ d t) =
    if has_prefix (String.◌∷◌ c s) (String.◌∷◌ d t) then trim_prefix s t else String.◌∷◌ c s

abbrev pub name_parts : String → List String
name_parts name = split_dots (trim_prefix name "ecs.")

abbrev pub first_of : List String → String
first_of [] = ""
first_of (p ∷ ps) = p

abbrev pub second_of : List String → String
second_of [] = ""
second_of (p ∷ ps) = first_of ps

unfoldable pub instance_family : String → String
unfolding split_dots trim_prefix
instance_family name = first_of (name_parts name)

unfoldable pub instance_size : String → String
unfolding split_dots trim_prefix
instance_size name = second_of (name_parts name)

-- The loop of `instanceCategory`, up to the first character that is no letter.
unfoldable pub leading_letters : String → String
leading_letters String.[] = String.[]
leading_letters (String.◌∷◌ r s) =
    let rest = leading_letters s in
    if ltb (code r) b'a' || ltb b'z' (code r) then String.[] else String.◌∷◌ r rest

unfoldable pub instance_category : String → String
unfolding leading_letters instance_family
instance_category name = leading_letters (instance_family name)

abbrev pub is_digit : ℕ → Bool
is_digit r = leb b'0' r && leb r b'9'

-- The loop of `instanceGeneration`; `started` says that the builder holds a digit.
unfoldable pub first_digits : Bool → String → String
first_digits started String.[] = String.[]
first_digits started (String.◌∷◌ r s) =
    let rest = first_digits (started || is_digit (code r)) s in
    if is_digit (code r) then String.◌∷◌ r rest else if started then String.[] else rest

unfoldable pub instance_generation : String → String
unfolding first_digits instance_family
instance_generation name = first_digits false (instance_family name)

unfoldable pub quantity_value : Option Quantity → String
unfolding show_int
quantity_value none = ""
quantity_value (some q) = show_int q

-- Go's division of an integer by 1024 * 1024 rounds towards zero.
unfoldable pub in_mib : ℤ → ℤ
in_mib (pos n) = pos (n / 1048576)
in_mib (negsuc n) = sub_ℕ 0 ((n + 1) / 1048576)

unfoldable pub quantity_mib : Option Quantity → String
unfolding show_int in_mib
quantity_mib none = ""
quantity_mib (some q) = show_int (in_mib q)

unfoldable pub gpu_model : Option Gpu → String
unfolding normalize_label_value
gpu_model none = ""
gpu_model (some gpu) = normalize_label_value gpu.model

unfoldable pub gpu_manufacturer : Option Gpu → String
unfolding gpu_model
gpu_manufacturer gpu = if str_eq (gpu_model gpu) "" then "" else "nvidia"

unfoldable pub gpu_count : Option Gpu → String
unfolding quantity_value
gpu_count none = ""
gpu_count (some gpu) = quantity_value gpu.count

unfoldable pub positive_value : Option Quantity → String
unfolding show_int
positive_value none = ""
positive_value (some q) = if leb_ℤ q (pos 0) then "" else show_int q

unfoldable pub gpu_memory : Option Gpu → String
unfolding positive_value
gpu_memory none = ""
gpu_memory (some gpu) = positive_value gpu.memory
