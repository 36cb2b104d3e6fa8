-- ===== src/NodeClass/Validation/Patterns.antt =====
-- The regular expressions of pkg/apis/v1alpha1/ecsnodeclass_validation.go as functions.
use Prim.Native.Char.{code}
use Prim.Native.String.{[], ◌∷◌, count}
use karpenter_provider_aliba.Prelude.{
  Bool, Option, String, append_text, false, if◌then◌else◌, leb, none, not, some, str_eq, true, ℕ,
  ◌&&◌, ◌==◌, ◌||◌,
}

is_digit : ℕ → Bool
is_digit c = leb b'0' c && leb c b'9'

is_lower : ℕ → Bool
is_lower c = leb b'a' c && leb c b'z'

is_alnum : ℕ → Bool
unfolding is_digit is_lower
is_alnum c = is_digit c || is_lower c || (leb b'A' c && leb c b'Z')

-- `[A-Za-z0-9._-]`
is_role_char : ℕ → Bool
unfolding is_alnum
is_role_char c = is_alnum c || c == b'.' || c == b'_' || c == b'-'

-- `[A-Za-z0-9._:-]`
is_image_char : ℕ → Bool
unfolding is_role_char
is_image_char c = is_role_char c || c == b':'

all_chars : (ℕ → Bool) → String → Bool
all_chars test [] = true
all_chars test (c ∷ s) = test (code c) && all_chars test s

-- `test{lo,hi}` for a whole text.
repeated : (ℕ → Bool) → ℕ → ℕ → String → Bool
unfolding all_chars
repeated test lo hi s = leb lo (count s) && leb (count s) hi && all_chars test s

-- What follows a prefix, if the text begins with it.
strip_prefix : String → String → Option String
strip_prefix s [] = some s
strip_prefix [] (d ∷ t) = none
strip_prefix (c ∷ s) (d ∷ t) = if code c == code d then strip_prefix s t else none

-- What comes before a suffix, if the text ends in it.
strip_suffix : String → String → Option String
strip_suffix [] t = if str_eq [] t then some [] else none
strip_suffix (c ∷ s) t =
    let shorter = strip_suffix s t in
    if str_eq (c ∷ s) t then some [] else elim shorter [ none ↦ none | some r ↦ some (c ∷ r) ]

when_some : Option String → (String → Bool) → Bool
when_some none test = false
when_some (some s) test = test s

-- `^prefix-[a-z0-9]+$`
unfoldable pub is_valid_resource_id : String → String → Bool
unfolding strip_prefix when_some all_chars is_digit is_lower
is_valid_resource_id id prefix =
    when_some (strip_prefix id (append_text prefix "-"))
      λ s. not (str_eq s "") && all_chars (λ c. is_digit c || is_lower c) s

-- `^[A-Za-z0-9._-]{1,64}$`
unfoldable pub is_ram_role_name : String → Bool
unfolding repeated is_role_char
is_ram_role_name = repeated is_role_char 1 64

-- `[1-9][0-9]{5,19}` after its first character.
owner_id_from : String → Bool
unfolding repeated is_digit
owner_id_from [] = false
owner_id_from (c ∷ s) = leb b'1' (code c) && leb (code c) b'9' && repeated is_digit 5 19 s

-- `^[1-9][0-9]{5,19}$`
unfoldable pub is_image_owner_id : String → Bool
unfolding owner_id_from
is_image_owner_id = owner_id_from

-- `[A-Za-z0-9][A-Za-z0-9._:-]{0,126}`
is_image_file_stem : String → Bool
unfolding repeated is_alnum is_image_char
is_image_file_stem [] = false
is_image_file_stem (c ∷ s) = is_alnum (code c) && repeated is_image_char 0 126 s

-- `^(?:m-[A-Za-z0-9._:-]{1,126}|[A-Za-z0-9][A-Za-z0-9._:-]{0,126}\.(?:vhd|qcow2))$`
unfoldable pub is_image_id : String → Bool
unfolding when_some strip_prefix strip_suffix repeated is_image_char is_image_file_stem
is_image_id id =
    when_some (strip_prefix id "m-") (repeated is_image_char 1 126)
    || when_some (strip_suffix id ".vhd") is_image_file_stem
    || when_some (strip_suffix id ".qcow2") is_image_file_stem
