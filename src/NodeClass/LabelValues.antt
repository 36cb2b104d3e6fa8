-- ===== src/NodeClass/LabelValues.antt =====
-- `NormalizeLabelValue` of pkg/apis/v1alpha1/labels.go. After the loop a text has ASCII characters only,
-- so that its bytes are its characters.
use Prim.Native.Char.{Char, code}
use karpenter_provider_aliba.Prelude.{
  Bool, String, false, if◌then◌else◌, leb, ltb, not, suc, to_lower, trim_space, zero, ℕ, ◌&&◌, ◌==◌,
  ◌||◌,
}

unfoldable pub is_label_value_char : ℕ → Bool
is_label_value_char r =
    (leb b'a' r && leb r b'z')
    || (leb b'0' r && leb r b'9')
    || (r == b'-')
    || (r == b'_')
    || (r == b'.')

-- The loop, with `lastReplacement`.
unfoldable pub replace_chars : Bool → String → String
unfolding is_label_value_char
replace_chars last_replacement String.[] = String.[]
replace_chars last_replacement (String.◌∷◌ c s) =
    let rest = replace_chars (not (is_label_value_char (code c))) s in
    if is_label_value_char (code c)
    then String.◌∷◌ c rest
    else if not last_replacement
    then String.◌∷◌ "-" rest
    else rest

-- A character of the cut set "-_.".
unfoldable pub is_cut : ℕ → Bool
is_cut r = (r == b'-') || (r == b'_') || (r == b'.')

unfoldable pub cut_left : String → String
unfolding is_cut
cut_left String.[] = String.[]
cut_left (String.◌∷◌ c s) =
    let rest = cut_left s in if is_cut (code c) then rest else String.◌∷◌ c s

unfoldable pub cons_unless_cut : Char → String → String
unfolding is_cut
cons_unless_cut c String.[] = if is_cut (code c) then String.[] else String.◌∷◌ c String.[]
cons_unless_cut c (String.◌∷◌ d s) = String.◌∷◌ c (String.◌∷◌ d s)

unfoldable pub cut_right : String → String
unfolding cons_unless_cut
cut_right String.[] = String.[]
cut_right (String.◌∷◌ c s) = cons_unless_cut c (cut_right s)

-- `strings.Trim(s, "-_.")`
unfoldable pub trim_cut : String → String
unfolding cut_left cut_right
trim_cut s = cut_right (cut_left s)

unfoldable pub text_length : String → ℕ
text_length String.[] = 0
text_length (String.◌∷◌ c s) = suc (text_length s)

-- `s[:n]`
unfoldable pub take_text : ℕ → String → String
take_text zero s = String.[]
take_text (suc n) String.[] = String.[]
take_text (suc n) (String.◌∷◌ c s) = String.◌∷◌ c (take_text n s)

abbrev pub max_label_value_length : ℕ
max_label_value_length = 63

unfoldable pub normalize_label_value : String → String
unfolding replace_chars trim_cut text_length take_text trim_space to_lower
normalize_label_value value =
    let result = trim_cut (replace_chars false (to_lower (trim_space value))) in
    if ltb max_label_value_length (text_length result)
    then trim_cut (take_text max_label_value_length result)
    else result
