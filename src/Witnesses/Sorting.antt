-- ===== src/Witnesses/Sorting.antt =====
-- A sort that meets what Go documents of `sort.Slice`.
use mathlib.Core.List.{Permᴰ}
use mathlib.Core.List.Permᴰ
use karpenter_provider_aliba.Prelude.{
  All, All-imp, Bool, List, [], arith, false, if_intro, if◌then◌else◌, refl, true, ◌∷◌, ◌≡◌,
}
use karpenter_provider_aliba.Launch.Fallback.{more_addresses}
use karpenter_provider_aliba.Launch.Fallback.Cases.{Descending, SortLaws}
use karpenter_provider_aliba.NodeClass.{VSwitch}

insert_by : (VSwitch → VSwitch → Bool) → VSwitch → List VSwitch → List VSwitch
insert_by less v [] = v ∷ []
insert_by less v (u ∷ us) =
    let rest = insert_by less v us in if less u v then u ∷ rest else v ∷ u ∷ us

unfoldable pub sort_by : (VSwitch → VSwitch → Bool) → List VSwitch → List VSwitch
unfolding insert_by
sort_by less [] = []
sort_by less (v ∷ vs) = insert_by less v (sort_by less vs)

insert_by-permutes :
    (less : VSwitch → VSwitch → Bool) (v : VSwitch) (us : List VSwitch)
    → Permᴰ (v ∷ us) (insert_by less v us)
unfolding insert_by
insert_by-permutes less v [] = Permᴰ.cons refl Permᴰ.nil
insert_by-permutes less v (u ∷ us) =
    if_intro (Permᴰ (v ∷ u ∷ us)) (less u v) (u ∷ insert_by less v us) (v ∷ u ∷ us)
      (λ before.
        Permᴰ.trans (Permᴰ.swap refl refl) (Permᴰ.cons refl (insert_by-permutes less v us)))
      (λ after. Permᴰ.refl (v ∷ u ∷ us))

sort_by-permutes :
    (less : VSwitch → VSwitch → Bool) (vs : List VSwitch) → Permᴰ vs (sort_by less vs)
unfolding sort_by
sort_by-permutes less [] = Permᴰ.nil
sort_by-permutes less (v ∷ vs) =
    Permᴰ.trans (Permᴰ.cons refl (sort_by-permutes less vs))
      (insert_by-permutes less v (sort_by less vs))

abbrev NoneBefore : VSwitch → List VSwitch → Type 0
NoneBefore v us = All (λ u. more_addresses u v ≡ false) us

not_before : (u v : VSwitch) → more_addresses u v ≡ true → more_addresses v u ≡ false
not_before u v h = ground arith

not_before_trans :
    (u v w : VSwitch)
    → more_addresses v u ≡ false
    → more_addresses w v ≡ false
    → more_addresses w u ≡ false
not_before_trans u v w h k = ground arith

insert_by-NoneBefore :
    (u v : VSwitch) (us : List VSwitch)
    → more_addresses v u ≡ false
    → NoneBefore u us
    → NoneBefore u (insert_by more_addresses v us)
unfolding insert_by
insert_by-NoneBefore u v [] h k = (h, tt)
insert_by-NoneBefore u v (w ∷ us) h k =
    if_intro (NoneBefore u) (more_addresses w v) (w ∷ insert_by more_addresses v us) (v ∷ w ∷ us)
      (λ before. (k.0, insert_by-NoneBefore u v us h k.1)) (λ after. (h, k))

insert_by-Descending :
    (v : VSwitch) (us : List VSwitch) → Descending us → Descending (insert_by more_addresses v us)
unfolding insert_by
insert_by-Descending v [] h = (tt, tt)
insert_by-Descending v (u ∷ us) h =
    if_intro Descending (more_addresses u v) (u ∷ insert_by more_addresses v us) (v ∷ u ∷ us)
      (λ before.
        (insert_by-NoneBefore u v us (not_before u v before) h.0, insert_by-Descending v us h.1))
      (λ after. (
        (
          after,
          All-imp (λ w. more_addresses w u ≡ false) us (λ w k. not_before_trans v u w after k) h.0,
        ),
        h,
      ))

sort_by-Descending : (vs : List VSwitch) → Descending (sort_by more_addresses vs)
unfolding sort_by
sort_by-Descending [] = tt
sort_by-Descending (v ∷ vs) =
    insert_by-Descending v (sort_by more_addresses vs) (sort_by-Descending vs)

pub sort_by-SortLaws : SortLaws sort_by
sort_by-SortLaws = record {
  permutes = sort_by-permutes more_addresses;
  descends = sort_by-Descending;
}
