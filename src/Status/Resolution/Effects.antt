-- ===== src/Status/Resolution/Effects.antt =====
-- What the steps of a resolution do to the conditions.
use karpenter_provider_aliba.Prelude.{
  Bool-cases, List, String, [], ap, apart, are_apart, arith, false, if◌then◌else◌, inl, inr, member,
  member-append, none, refl, some, str_eq, str_eq_iff, str_eq_refl, sym, true, ℕ, ◌++◌, ◌∙◌, ◌∷◌,
  ◌≡◌, ◌⊎◌,
}
use karpenter_provider_aliba.NodeClass.{EcsNodeClassStatus, condition_false, condition_true}
use karpenter_provider_aliba.NodeClass.Labels.{condition_type_ready}
use karpenter_provider_aliba.Status.Conditions.{set_condition}
use karpenter_provider_aliba.Status.Conditions.Laws.{status_of, status_of-set_condition}
use karpenter_provider_aliba.Status.Resolution.{Step, set_failed, set_resolved, then_step}

-- A step decides the conditions `ts`: all of them are true after it and `Ready` is as before, or it
-- has an error, one of them is false and `Ready` is false. It leaves every other condition alone.
abbrev pub Settles : List String → Step → Type 0
Settles ts f =
    (s : EcsNodeClassStatus)
    → (((f s).1 ≡ none)
          × ((t : String) → member t ts ≡ true → status_of t (f s).0 ≡ some condition_true)
          × (status_of condition_type_ready (f s).0 ≡ status_of condition_type_ready s)
        ⊎ ((m : String) × ((f s).1 ≡ some m)
            × (t : String) × (member t ts ≡ true)
            × (status_of t (f s).0 ≡ some condition_false)
            × (status_of condition_type_ready (f s).0 ≡ some condition_false)))
      × ((u : String)
          → member u ts ≡ false
          → str_eq condition_type_ready u ≡ false
          → status_of u (f s).0 ≡ status_of u s)

not_ready :
    (ts : List String) (t : String)
    → member condition_type_ready ts ≡ false
    → member t ts ≡ true
    → str_eq condition_type_ready t ≡ false
not_ready ts t h m = elim (Bool-cases (str_eq condition_type_ready t)) [
  | inl e ↦
      ground
        (arith, sym m ∙ (ap (λ x. member x ts) (sym ((str_eq_iff condition_type_ready t).0 e)) ∙ h))
  | inr e ↦ e
]

-- Two steps that decide different conditions decide all of them together.
pub then_step-Settles :
    (ts us : List String) (f g : Step)
    → are_apart ts us ≡ true
    → member condition_type_ready ts ≡ false
    → member condition_type_ready us ≡ false
    → Settles ts f
    → Settles us g
    → Settles (ts ++ us) (then_step f g)
then_step-Settles ts us f g disjoint r₁ r₂ p q s = (
  (elim (p s).0 [
    | inl (n, all, kept) ↦ elim (q (f s).0).0 [
      | inl (n', all', kept') ↦ inl (
        rw n n',
        λ t m. elim (Bool-cases (member t ts)) [
          | inl first ↦
              (q (f s).0).1 t (apart ts us disjoint t first) (not_ready ts t r₁ first) ∙ all t first
          | inr later ↦ all' t (ground (arith, member-append ts us t))
        ],
        kept' ∙ kept,
      )
      | inr (e, is, t, m, wrong, ready) ↦
          inr (e, rw n is, t, ground (arith, member-append ts us t), wrong, ready)
    ]
    | inr (e, is, t, m, wrong, ready) ↦
        let still = (q (f s).0).1 t (apart ts us disjoint t m) (not_ready ts t r₁ m) ∙ wrong in
        elim (q (f s).0).0 [
          | inl (n', all', kept') ↦
              inr (e, rw is refl, t, ground (arith, member-append ts us t), still, kept' ∙ ready)
          | inr (e', is', t', m', wrong', ready') ↦
              inr (e, rw is refl, t, ground (arith, member-append ts us t), still, ready')
        ]
  ]),
  λ u m r.
      (q (f s).0).1 u (ground (arith, member-append ts us u)) r
      ∙ (p s).1 u (ground (arith, member-append ts us u)) r,
)

-- The condition of a type after `set_failed`, `Ready` included.
pub status_of-set_failed :
    (now : ℕ) (t reason message ready_message : String) (s : EcsNodeClassStatus) (u : String)
    → status_of u (set_failed now t reason message ready_message s) ≡ (
        if str_eq condition_type_ready u
        then some condition_false
        else if str_eq t u
        then some condition_false
        else status_of u s)
unfolding set_failed
status_of-set_failed now t reason message ready_message s u =
    status_of-set_condition now condition_type_ready u _ _ _
      (set_condition now t condition_false reason message s)
    ∙ ap (λ o. if str_eq condition_type_ready u then some condition_false else o)
        (status_of-set_condition now t u condition_false reason message s)

pub status_of-set_resolved :
    (now : ℕ) (t reason message : String) (s : EcsNodeClassStatus) (u : String)
    → status_of u (set_resolved now t reason message s)
      ≡ (if str_eq t u then some condition_true else status_of u s)
unfolding set_resolved
status_of-set_resolved now t reason message s u =
    status_of-set_condition now t u condition_true reason message s

module _ (t : String) (other : str_eq t condition_type_ready ≡ false) where
  -- A step whose outcome is one of two: its condition set, without an error, or failed, with one.
  pub single-Settles :
      (f : Step)
      → ((s : EcsNodeClassStatus)
          → (((f s).1 ≡ none)
              × ((u : String)
                  → status_of u (f s).0
                    ≡ (if str_eq t u then some condition_true else status_of u s)))
            ⊎ ((m : String) × ((f s).1 ≡ some m)
                × ((u : String)
                    → status_of u (f s).0 ≡ (
                        if str_eq condition_type_ready u
                        then some condition_false
                        else if str_eq t u
                        then some condition_false
                        else status_of u s))))
      → Settles (t ∷ []) f
  unfolding member
  single-Settles f outcome s = elim (outcome s) [
    | inl (n, reads) ↦ (
      inl (n, λ u m. ground (arith, reads u), ground (arith, reads condition_type_ready)),
      λ u m r. ground (arith, reads u),
    )
    | inr (e, is, reads) ↦ (
      inr (
        e,
        is,
        t,
        ground (arith, str_eq_refl t),
        ground (arith, reads t, str_eq_refl t),
        ground (arith, reads condition_type_ready),
      ),
      λ u m r. ground (arith, reads u),
    )
  ]
