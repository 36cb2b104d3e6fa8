-- ===== src/Status/Reconcile/Ready.antt =====
-- When a reconcile leaves a node class ready.
use karpenter_provider_aliba.Prelude.{
  Bool, Bool-cases, List, Option, Option-cases, String, [], ap, arith, false, inl, inr, is_set,
  member, none, not, refl, some, str_eq, str_eq_iff, str_eq_refl, sym, true, ℕ, ◌∙◌, ◌∷◌, ◌≡◌, ◌⊎◌,
}
use karpenter_provider_aliba.NodeClass.{
  Condition, ConditionStatus, EcsNodeClassSpec, EcsNodeClassStatus, condition_false, condition_true,
}
use karpenter_provider_aliba.NodeClass.Labels.{condition_type_ready}
use karpenter_provider_aliba.Status.Conditions.{
  all_true, get_condition, is_ready, is_true, required_conditions, same_status,
}
use karpenter_provider_aliba.Status.Conditions.Laws.{
  status_in, status_in-get_condition, status_of, status_of-set_condition,
}
use karpenter_provider_aliba.Status.Reconcile.{
  accept_role, check_role, is_invalid, reject_role, resolve_resources, resolve_status,
}
use karpenter_provider_aliba.Status.Reconcile.Resources.{resolve_status-HasResources}
use karpenter_provider_aliba.Status.Reconcile.Selected.{HasResources, no_error}
use karpenter_provider_aliba.Status.Reconcile.Settled.{resolution-Settles}
use karpenter_provider_aliba.Status.Resolution.{Providers, RoleCheck, first_error, then_step}

is_true-get_condition :
    (t : String) (cs : List Condition) (status : ConditionStatus)
    → status_in t cs ≡ some status
    → is_true (get_condition t cs) ≡ same_status status condition_true
is_true-get_condition t cs status h = elim (Option-cases (get_condition t cs)) [
  | inl n ↦
      let read : status_in t cs ≡ none = status_in-get_condition t cs ∙ rw n refl in
      ground (arith, sym h ∙ read)
  | inr (c, n) ↦
      let read : status_in t cs ≡ some c.status = status_in-get_condition t cs ∙ rw n refl in
      rw n (ap (λ x. same_status x condition_true) (some_injective (sym read ∙ h)))
]
  where
    some_injective :
        {a b : ConditionStatus} → ◌≡◌ {A = Option ConditionStatus} (some a) (some b) → a ≡ b
    some_injective e = cc

all_true_of :
    (ts : List String) (cs : List Condition)
    → ((t : String) → member t ts ≡ true → status_in t cs ≡ some condition_true)
    → all_true ts cs ≡ true
unfolding all_true member
all_true_of [] cs h = refl
all_true_of (t ∷ ts) cs h =
    rw (is_true-get_condition t cs condition_true (h t (ground (arith, str_eq_refl t))))
      (all_true_of ts cs (λ u m. h u (ground (arith, m))))

not_all_true_of :
    (ts : List String) (cs : List Condition) (t : String)
    → member t ts ≡ true
    → status_in t cs ≡ some condition_false
    → all_true ts cs ≡ false
unfolding all_true member
not_all_true_of [] cs t m h = ground (arith, m)
not_all_true_of (u ∷ ts) cs t m h = elim (Bool-cases (str_eq u t)) [
  | inl e ↦
      rw
        (is_true-get_condition u cs condition_false
          (ap (λ x. status_in x cs) ((str_eq_iff u t).0 e) ∙ h))
        refl
  | inr e ↦ ground (arith, not_all_true_of ts cs t (ground (arith, m)) h)
]

-- Whether the role of the specification, if it names one, passes the validation.
abbrev pub role_fits : (String → Option RoleCheck) → Option String → Bool
role_fits answer none = true
role_fits answer (some role) = elim (answer role) [ none ↦ true | some check ↦ check.valid ]

fits_or_invalid :
    (c : Option RoleCheck)
    → (elim c as (λ _. Bool) [ none ↦ true | some check ↦ check.valid ]) ≡ not (is_invalid c)
fits_or_invalid none = refl
fits_or_invalid (some check) = sym (not_not check.valid)
  where
    not_not : (b : Bool) → not (not b) ≡ b
    not_not true = refl
    not_not false = refl

module _ (p : Providers) (now : ℕ) (spec : EcsNodeClassSpec) where
  -- The check refuses exactly the roles that do not fit.
  check_role-refuses :
      (s : EcsNodeClassStatus)
      → is_set (check_role p now spec s).1 ≡ not (role_fits p.validate_role spec.role)
  unfolding check_role accept_role reject_role
  check_role-refuses s = elim (Option-cases spec.role) [
    | inl n ↦ rw (n, check_role) refl
    | inr (role, n) ↦ elim (Bool-cases (is_invalid (p.validate_role role))) [
      | inl bad ↦
          rw (n, bad, check_role)
            (sym (ap not (fits_or_invalid (p.validate_role role) ∙ ap not bad)))
      | inr good ↦
          rw (n, good, check_role)
            (sym (ap not (fits_or_invalid (p.validate_role role) ∙ ap not good)))
    ]
  ]

  -- After the resolution of a node class, either there is no error, its Ready condition is True, the
  -- status has at least one vSwitch, security group and image (and, without a launch template, at most 5
  -- groups) and the role of the specification, and that role, if there is one, passes the validation; or
  -- there is an error, Ready is False, and a resource was not resolved or the role does not pass.
  pub resolve_status-ready :
      (s : EcsNodeClassStatus)
      → let (s', e) = resolve_status p now spec s in
        ((e ≡ none)
          × (status_of condition_type_ready s' ≡ some condition_true)
          × HasResources spec s'
          × (s'.ram_role ≡ spec.role)
          × (role_fits p.validate_role spec.role ≡ true))
        ⊎ ((m : String) × (e ≡ some m)
            × (status_of condition_type_ready s' ≡ some condition_false)
            × ((is_set (resolve_resources p now spec s).1 ≡ true)
                ⊎ (role_fits p.validate_role spec.role ≡ false)))
  unfolding resolve_status is_ready
  resolve_status-ready s =
      let s₁ = (resolve_resources p now spec s).0 in
      let refused = check_role-refuses s₁ in
      elim (resolution-Settles p now spec s).0 [
        | inl (n, all, kept) ↦
            let (has, role) = resolve_status-HasResources p now spec s n in
            let fits : is_set (check_role p now spec s₁).1 ≡ false = ap is_set (no_error _ _ n).1 in
            inl (
              n,
              rw (all_true_of required_conditions _ all) (
                  status_of-set_condition now condition_type_ready condition_type_ready
                    condition_true "Ready" "ECSNodeClass is ready"
                    (then_step (resolve_resources p now spec) (check_role p now spec) s).0),
              has,
              role,
              not_false (sym refused ∙ fits),
            )
        | inr (m, is, t, mem, wrong, ready) ↦ inr (
          m,
          is,
          rw (not_all_true_of required_conditions _ t mem wrong) ready,
          elim (Bool-cases (is_set (resolve_resources p now spec s).1)) [
            | inl unresolved ↦ inl unresolved
            | inr resolved ↦ inr (
                not_true (
                  sym refused
                  ∙ second_error (resolve_resources p now spec s).1 (check_role p now spec s₁).1
                      resolved is))
          ],
        )
      ]
    where
      not_false : {b : Bool} → not b ≡ false → b ≡ true
      not_false h = ground arith

      not_true : {b : Bool} → not b ≡ true → b ≡ false
      not_true h = ground arith

      second_error :
          {m : String} (a b : Option String)
          → is_set a ≡ false
          → first_error a b ≡ some m
          → is_set b ≡ true
      second_error none b h is = ap is_set is
      second_error (some d) b h is = ground (arith, h)
