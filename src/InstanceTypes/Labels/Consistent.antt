-- ===== src/InstanceTypes/Labels/Consistent.antt =====
-- The labels of an instance type are what `Filter` compares.
use karpenter_provider_aliba.Prelude.{
  All, Bool-cases, Distinct, List, String, [], ap, arith, false, if◌then◌else◌, inl, inr,
  insert-Distinct, keys, lookup, lookup-insert, member, member-insert, refl, some, str_eq,
  str_eq_iff, sym, ◌∙◌, ◌∷◌, ◌≡◌,
}
use karpenter_provider_aliba.InstanceTypes.{InstanceType}
use karpenter_provider_aliba.InstanceTypes.Filter.{
  InstanceTypeOperator, attribute_of, matches_attribute, matches_requirement,
  matches_string_requirement,
}
use karpenter_provider_aliba.InstanceTypes.Labels.{
  instance_type_labels, put_unless_empty, quantity_labels, resolved_labels,
}
use karpenter_provider_aliba.InstanceTypes.Names.{
  gpu_count, gpu_manufacturer, gpu_memory, gpu_model, instance_category, instance_family,
  instance_generation, instance_size, quantity_mib, quantity_value,
}
use karpenter_provider_aliba.NodeClass.Labels.{
  label_instance_category, label_instance_cpu, label_instance_family,
  label_instance_family_canonical, label_instance_generation, label_instance_gpu_count,
  label_instance_gpu_manufacturer, label_instance_gpu_memory, label_instance_gpu_name,
  label_instance_memory, label_instance_size, label_instance_size_canonical,
}
use karpenter_provider_aliba.Utils.Tags.{Tags, tag_value}

-- Labels put one after another, the last pair first.
put_each : List (String × String) → Tags
unfolding put_unless_empty
put_each [] = []
put_each ((key, value) ∷ pairs) = put_unless_empty key value (put_each pairs)

-- The value of a key in a list of pairs.
abbrev value_in : String → List (String × String) → String
value_in read [] = ""
value_in read ((key, value) ∷ pairs) = if str_eq key read then value else value_in read pairs

tag_value-put_unless_empty :
    (read key value : String) (labels : Tags)
    → tag_value read (put_unless_empty key value labels) ≡ (
        if str_eq key read
        then if str_eq value "" then tag_value read labels else value
        else tag_value read labels)
unfolding tag_value put_unless_empty
tag_value-put_unless_empty read key value labels =
    ground (arith, lookup-insert key read value labels)

tag_value-absent :
    (read : String) (pairs : List (String × String))
    → member read (keys pairs) ≡ false
    → tag_value read (put_each pairs) ≡ ""
unfolding put_each member tag_value lookup
tag_value-absent read [] h = refl
tag_value-absent read ((key, value) ∷ pairs) h =
    tag_value-put_unless_empty read key value (put_each pairs)
    ∙ ground (arith, tag_value-absent read pairs)

tag_value-put_each :
    (read : String) (pairs : List (String × String))
    → Distinct (keys pairs)
    → tag_value read (put_each pairs) ≡ value_in read pairs
unfolding put_each tag_value lookup
tag_value-put_each read [] d = refl
tag_value-put_each read ((key, value) ∷ pairs) d =
    tag_value-put_unless_empty read key value (put_each pairs)
    ∙ ground (
      arith,
      tag_value-put_each read pairs d.1,
      tag_value-absent key pairs d.0,
      str_eq_iff key read,
      str_eq_iff value "",
    )

-- The keys of the attributes, with labels for those that are not empty.
member-put_each :
    (read : String) (pairs : List (String × String))
    → member read (keys pairs) ≡ false
    → member read (keys (put_each pairs)) ≡ false
unfolding put_each member
member-put_each read [] h = refl
member-put_each read ((key, value) ∷ pairs) h = elim (Bool-cases (str_eq value "")) [
  | inl e ↦ rw e (ground (arith, member-put_each read pairs))
  | inr e ↦
      rw e
        (member-insert key read value (put_each pairs) ∙ ground (arith, member-put_each read pairs))
]

put_each-Distinct :
    (pairs : List (String × String)) → Distinct (keys pairs) → Distinct (keys (put_each pairs))
unfolding put_each
put_each-Distinct [] d = tt
put_each-Distinct ((key, value) ∷ pairs) d = elim (Bool-cases (str_eq value "")) [
  | inl e ↦ rw e (put_each-Distinct pairs d.1)
  | inr e ↦ rw e (insert-Distinct key value (put_each pairs) (put_each-Distinct pairs d.1))
]

-- The attributes of an instance type with their keys, in the order of the code from the last.
abbrev pub attributes : InstanceType → List (String × String)
attributes it =
    (label_instance_gpu_memory, gpu_memory it.gpu)
    ∷ (label_instance_gpu_count, gpu_count it.gpu)
    ∷ (label_instance_gpu_manufacturer, gpu_manufacturer it.gpu)
    ∷ (label_instance_gpu_name, gpu_model it.gpu)
    ∷ (label_instance_memory, quantity_mib it.memory)
    ∷ (label_instance_cpu, quantity_value it.cpu)
    ∷ (label_instance_size_canonical, instance_size it.name)
    ∷ (label_instance_size, instance_size it.name)
    ∷ (label_instance_generation, instance_generation it.name)
    ∷ (label_instance_category, instance_category it.name)
    ∷ (label_instance_family_canonical, instance_family it.name)
    ∷ (label_instance_family, instance_family it.name)
    ∷ []

attributes-Distinct : (it : InstanceType) → Distinct (keys (attributes it))
unfolding member
attributes-Distinct it = (
  refl,
  (refl, (refl, (refl, (refl, (refl, (refl, (refl, (refl, (refl, (refl, (refl, tt))))))))))),
)

tag_value-resolved_labels :
    (read : String) (it : InstanceType)
    → tag_value read (resolved_labels (some it)) ≡ value_in read (attributes it)
unfolding resolved_labels instance_type_labels quantity_labels put_each
tag_value-resolved_labels read it = tag_value-put_each read (attributes it) (attributes-Distinct it)

-- The keys of the labels of an instance type.
abbrev pub resolved_keys : List String
resolved_keys =
    label_instance_family ∷ label_instance_family_canonical ∷ label_instance_category
    ∷ label_instance_generation ∷ label_instance_size ∷ label_instance_size_canonical
    ∷ label_instance_cpu ∷ label_instance_memory ∷ label_instance_gpu_name
    ∷ label_instance_gpu_manufacturer ∷ label_instance_gpu_count ∷ label_instance_gpu_memory ∷ []

pub resolved_labels-Distinct : (it : InstanceType) → Distinct (keys (resolved_labels (some it)))
unfolding resolved_labels instance_type_labels quantity_labels put_each
resolved_labels-Distinct it = put_each-Distinct (attributes it) (attributes-Distinct it)

pub member-resolved_labels :
    (key : String) (it : InstanceType)
    → member key (keys (attributes it)) ≡ false
    → member key (keys (resolved_labels (some it))) ≡ false
unfolding resolved_labels instance_type_labels quantity_labels put_each member
member-resolved_labels key it h = member-put_each key (attributes it) h

-- For each key of the labels of an instance type, whatever the operator and the values: a requirement
-- for the key holds of the instance type exactly as it holds of its label, where a label that is
-- missing counts as empty.
pub matches_requirement-resolved_labels :
    (region : String) (it : InstanceType) (operator : InstanceTypeOperator) (values : List String)
    → All
        (λ key.
          matches_requirement region it (record { key = key; operator = operator; values = values })
          ≡ matches_string_requirement (tag_value key (resolved_labels (some it))) operator values)
        resolved_keys
unfolding matches_requirement attribute_of matches_attribute
matches_requirement-resolved_labels region it operator values = (
  same label_instance_family,
  (
    same label_instance_family_canonical,
    (
      same label_instance_category,
      (
        same label_instance_generation,
        (
          same label_instance_size,
          (
            same label_instance_size_canonical,
            (
              same label_instance_cpu,
              (
                same label_instance_memory,
                (
                  same label_instance_gpu_name,
                  (
                    same label_instance_gpu_manufacturer,
                    (same label_instance_gpu_count, (same label_instance_gpu_memory, tt)),
                  ),
                ),
              ),
            ),
          ),
        ),
      ),
    ),
  ),
)
  where
    same :
        (key : String)
        → matches_string_requirement (value_in key (attributes it)) operator values
          ≡ matches_string_requirement (tag_value key (resolved_labels (some it))) operator values
    same key =
        ap (λ v. matches_string_requirement v operator values)
          (sym (tag_value-resolved_labels key it))
