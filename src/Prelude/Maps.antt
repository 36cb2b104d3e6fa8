-- ===== src/Prelude/Maps.antt =====
-- Go's maps with text keys, as association lists. Go visits the entries of a map in no fixed order:
-- a theorem about every list of entries covers every order.
use Prim.Native.String.{String}
use mathlib.Core.Path.{◌≡◌, refl, ◌∙◌}
use mathlib.Core.Bool.{false, ◌||◌}
use mathlib.Core.Logic.{inl, inr}
use mathlib.Core.List.{List, [], ◌∷◌, ◌++◌, map}
use mathlib.Core.Option.{Option, none, some}
use native.Mathlib.Omega.{arith}
use text.Mathlib.Text.{◌==◌ as str_eq}
use text.Mathlib.TextEquality.{eq_iff}
use karpenter_provider_aliba.Prelude.Tests.{Bool-cases, if_intro, if◌then◌else◌}
use karpenter_provider_aliba.Prelude.Members.{Distinct, member}

module _ {ℓ} {V : Type ℓ} where
  -- `v, ok := m[k]`
  unfoldable pub lookup : String → List (String × V) → Option V
  lookup key [] = none
  lookup key (entry ∷ others) = if str_eq entry.0 key then some entry.1 else lookup key others

  -- `m[k] = v`
  unfoldable pub insert : String → V → List (String × V) → List (String × V)
  insert key value [] = (key, value) ∷ []
  insert key value (entry ∷ others) =
      if str_eq entry.0 key then (key, value) ∷ others else entry ∷ insert key value others

  -- `delete(m, k)`
  unfoldable pub remove : String → List (String × V) → List (String × V)
  remove k [] = []
  remove k ((j, w) ∷ m) = let rest = remove k m in if str_eq j k then rest else (j, w) ∷ rest

  abbrev pub keys : List (String × V) → List String
  keys m = map (λ e. e.0) m

  pub lookup-insert :
      (set read : String) (value : V) (entries : List (String × V))
      → lookup read (insert set value entries)
        ≡ (if str_eq set read then some value else lookup read entries)
  unfolding lookup insert
  lookup-insert set read value [] = refl
  lookup-insert set read value ((i, w) ∷ others) =
      ground
        (arith, eq_iff set read, eq_iff i set, eq_iff i read, lookup-insert set read value others)

  pub lookup-remove :
      (k j : String) (m : List (String × V))
      → lookup j (remove k m) ≡ (if str_eq k j then none else lookup j m)
  unfolding lookup remove
  lookup-remove k j [] = ground arith
  lookup-remove k j ((i, w) ∷ m) =
      ground (arith, eq_iff k j, eq_iff i k, eq_iff i j, lookup-remove k j m)

  -- A key is a member of the keys exactly when it is found.
  pub lookup-none_of_not-member :
      (k : String) (m : List (String × V)) → member k (keys m) ≡ false → lookup k m ≡ none
  unfolding lookup member
  lookup-none_of_not-member k [] h = refl
  lookup-none_of_not-member k ((j, v) ∷ m) h = ground (arith, lookup-none_of_not-member k m)

  -- The entry of a map that is read before another.
  abbrev pub or_else : Option V → Option V → Option V
  or_else none o = o
  or_else (some v) o = some v

  pub lookup-append :
      (k : String) (m n : List (String × V)) → lookup k (m ++ n) ≡ or_else (lookup k m) (lookup k n)
  unfolding lookup
  lookup-append k [] n = refl
  lookup-append k ((j, v) ∷ m) n = elim (Bool-cases (str_eq j k)) [
    | inl e ↦ rw e refl
    | inr e ↦ rw e (lookup-append k m n)
  ]

  -- The keys of a map stay distinct.
  pub member-insert :
      (k j : String) (v : V) (m : List (String × V))
      → member j (keys (insert k v m)) ≡ (str_eq k j || member j (keys m))
  unfolding member insert
  member-insert k j v [] = refl
  member-insert k j v ((i, w) ∷ m) =
      ground (arith, member-insert k j v m, eq_iff i k, eq_iff i j, eq_iff k j)

  pub insert-Distinct :
      (k : String) (v : V) (m : List (String × V))
      → Distinct (keys m)
      → Distinct (keys (insert k v m))
  unfolding insert member
  insert-Distinct k v [] h = (refl, tt)
  insert-Distinct k v ((i, w) ∷ m) h = elim (Bool-cases (str_eq i k)) [
    | inl e ↦ rw e (rw ((eq_iff i k).0 e) at h.0, h.1)
    | inr e ↦ rw e (
      member-insert k i v m ∙ ground (arith, eq_iff i k, eq_iff k i, h.0),
      insert-Distinct k v m h.1,
    )
  ]

  pub remove-absent :
      (k j : String) (m : List (String × V))
      → member j (keys m) ≡ false
      → member j (keys (remove k m)) ≡ false
  unfolding remove member
  remove-absent k j [] h = refl
  remove-absent k j ((i, w) ∷ m) h = ground (arith, remove-absent k j m)

  pub remove-Distinct :
      (k : String) (m : List (String × V)) → Distinct (keys m) → Distinct (keys (remove k m))
  unfolding remove
  remove-Distinct k [] h = tt
  remove-Distinct k ((i, w) ∷ m) h =
      if_intro (λ c. Distinct (keys c)) (str_eq i k) _ _ (λ e. remove-Distinct k m h.1)
        λ e. (remove-absent k i m h.0, remove-Distinct k m h.1)
