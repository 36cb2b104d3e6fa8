-- ===== src/Launch/Tags/Insertion.antt =====
-- The loop of BuildInstanceTags and of instanceLabelsFromInstance that copies a map into another.
use karpenter_provider_aliba.Prelude.{
  All, Distinct, String, [], arith, false, if◌then◌else◌, insert, insert-Distinct, keys, lookup,
  lookup-insert, member, refl, some, str_eq, str_eq_iff, ◌∙◌, ◌∷◌, ◌≡◌,
}
use karpenter_provider_aliba.Launch.Tags.{insert_all}
use karpenter_provider_aliba.Utils.Tags.{Tags}

-- A key that the copied map leaves alone keeps its value.
pub lookup-insert_all :
    (k : String) (more tags : Tags)
    → member k (keys more) ≡ false
    → lookup k (insert_all more tags) ≡ lookup k tags
unfolding insert_all member
lookup-insert_all k [] tags h = refl
lookup-insert_all k ((j, v) ∷ more) tags h =
    lookup-insert_all k more (insert j v tags) (ground arith)
    ∙ (lookup-insert j k v tags ∙ other (ground arith))
  where
    other : str_eq j k ≡ false → (if str_eq j k then some v else lookup k tags) ≡ lookup k tags
    other e = rw e refl

-- Every key of the copied map has its value from there.
pub insert_all-Copied :
    (more tags : Tags)
    → Distinct (keys more)
    → All (λ e. lookup e.0 (insert_all more tags) ≡ some e.1) more
unfolding insert_all
insert_all-Copied [] tags d = tt
insert_all-Copied ((k, v) ∷ more) tags d = (
  lookup-insert_all k more (insert k v tags) d.0
      ∙ (lookup-insert k k v tags ∙ rw ((str_eq_iff k k).1 refl) refl),
  insert_all-Copied more (insert k v tags) d.1,
)

pub insert_all-Distinct :
    (more tags : Tags) → Distinct (keys tags) → Distinct (keys (insert_all more tags))
unfolding insert_all
insert_all-Distinct [] tags d = d
insert_all-Distinct ((k, v) ∷ more) tags d =
    insert_all-Distinct more (insert k v tags) (insert-Distinct k v tags d)
