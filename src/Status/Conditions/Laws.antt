-- ===== src/Status/Conditions/Laws.antt =====
-- What a written condition reads back as.
use karpenter_provider_aliba.Prelude.{
  Bool-cases, List, Option, String, [], arith, false, if◌then◌else◌, inl, inr, none, refl, some,
  str_eq, str_eq_iff, str_eq_refl, true, ℕ, ◌∙◌, ◌∷◌, ◌≡◌,
}
use karpenter_provider_aliba.NodeClass.{Condition, ConditionStatus, EcsNodeClassStatus}
use karpenter_provider_aliba.Status.Conditions.{
  get_condition, put_condition, renew_condition, same_status, set_condition,
}

-- The status of a condition, if it is there.
unfoldable pub status_in : String → List Condition → Option ConditionStatus
status_in t [] = none
status_in t (c ∷ cs) =
    let rest = status_in t cs in if str_eq c.condition_type t then some c.status else rest

abbrev pub status_of : String → EcsNodeClassStatus → Option ConditionStatus
status_of t s = status_in t s.conditions

-- The condition that a list has for a type.
pub status_in-get_condition :
    (t : String) (cs : List Condition)
    → status_in t cs ≡ elim (get_condition t cs) as (λ _. Option ConditionStatus) [
      | none ↦ none
      | some c ↦ some c.status
    ]
unfolding status_in get_condition
status_in-get_condition t [] = refl
status_in-get_condition t (c ∷ cs) = elim (Bool-cases (str_eq c.condition_type t)) [
  | inl e ↦ rw e refl
  | inr e ↦ rw e (status_in-get_condition t cs)
]

status_in-put_condition :
    (now : ℕ) (t u : String) (status : ConditionStatus) (reason message : String)
    (cs : List Condition)
    → status_in u (put_condition now t status reason message cs)
      ≡ (if str_eq t u then some status else status_in u cs)
unfolding status_in put_condition renew_condition
status_in-put_condition now t u status reason message [] = refl
status_in-put_condition now t u status reason message (c ∷ cs) =
    elim (Bool-cases (str_eq c.condition_type t)) [
      | inl e ↦ rw e (cong_if ((str_eq_iff c.condition_type t).0 e))
      | inr e ↦ rw e (
          ground (
            arith,
            status_in-put_condition now t u status reason message cs,
            str_eq_iff c.condition_type t,
            str_eq_iff c.condition_type u,
            str_eq_iff t u,
          ))
    ]
  where
    cong_if :
        c.condition_type ≡ t
        → (if str_eq c.condition_type u then some status else status_in u cs) ≡ (
            if str_eq t u
            then some status
            else (if str_eq c.condition_type u then some c.status else status_in u cs))
    cong_if e = ground (arith, e)

-- A written condition has its new status; every other keeps its own.
pub status_of-set_condition :
    (now : ℕ) (t u : String) (status : ConditionStatus) (reason message : String)
    (s : EcsNodeClassStatus)
    → status_of u (set_condition now t status reason message s)
      ≡ (if str_eq t u then some status else status_of u s)
unfolding set_condition
status_of-set_condition now t u status reason message s =
    status_in-put_condition now t u status reason message s.conditions

get_condition-put_condition :
    (now : ℕ) (t u : String) (status : ConditionStatus) (reason message : String)
    (cs : List Condition) (c : Condition)
    → get_condition u cs ≡ some c
    → get_condition u (put_condition now t status reason message cs)
      ≡ some (if str_eq t u then renew_condition now status reason message c else c)
unfolding get_condition put_condition renew_condition
get_condition-put_condition now t u status reason message [] c h = ground arith
get_condition-put_condition now t u status reason message (d ∷ cs) c h =
    elim (Bool-cases (str_eq d.condition_type t)) [
      | inl e ↦ rw e (at_type e h)
      | inr e ↦ rw e (
          ground (
            arith,
            h,
            get_condition-put_condition now t u status reason message cs c,
            str_eq_iff d.condition_type t,
            str_eq_iff d.condition_type u,
            str_eq_iff t u,
          ))
    ]
  where
    at_type :
        str_eq d.condition_type t ≡ true
        → (if str_eq d.condition_type u then some d else get_condition u cs) ≡ some c
        → (if str_eq d.condition_type u
            then some (renew_condition now status reason message d)
            else get_condition u cs)
          ≡ some (if str_eq t u then renew_condition now status reason message c else c)
    at_type e k =
        ground (
          arith,
          e,
          k,
          str_eq_iff d.condition_type t,
          str_eq_iff d.condition_type u,
          str_eq_iff t u,
        )

-- Setting a condition that is there gives it the new status, and moves its time only if the status is
-- another one; every condition of another type stays as it is.
pub set_condition-last_transition_time :
    (now : ℕ) (t : String) (status : ConditionStatus) (reason message : String)
    (s : EcsNodeClassStatus) (c : Condition)
    → get_condition t s.conditions ≡ some c
    → let after = set_condition now t status reason message s in
      ((c' : Condition) × (get_condition t after.conditions ≡ some c')
        × (c'.status ≡ status)
        × (c'.last_transition_time
            ≡ (if same_status c.status status then c.last_transition_time else now)))
      × ((u : String) (d : Condition)
          → str_eq t u ≡ false
          → get_condition u s.conditions ≡ some d
          → get_condition u after.conditions ≡ some d)
unfolding set_condition renew_condition
set_condition-last_transition_time now t status reason message s c h = (
  (
    renew_condition now status reason message c,
    get_condition-put_condition now t t status reason message s.conditions c h
        ∙ rw (str_eq_refl t) refl,
    refl,
    refl,
  ),
  λ u d other k.
      get_condition-put_condition now t u status reason message s.conditions d k ∙ rw other refl,
)
