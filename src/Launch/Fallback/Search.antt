-- ===== src/Launch/Fallback/Search.antt =====
-- The specification of a launch: one search through a list of requests, for the first response that
-- is no shortage of capacity.
use karpenter_provider_aliba.Prelude.{
  Bool-cases, List, Option, Outcome, Outcome-cases, String, [], err, false, inl, inr, none, ok,
  refl, some, true, ◌++◌, ◌∷◌, ◌≡◌, ◌⊎◌,
}
use karpenter_provider_aliba.Errors.{is_insufficient_capacity_error}
use karpenter_provider_aliba.Instance.{CreateOptions}

pub data Verdict : Type 0 where
  launched : String → Verdict
  rejected : String → Verdict
  exhausted : Option String → Verdict

abbrev pub Create : Type 0 → Type 0
Create W = CreateOptions → W → Outcome String String × W

module _ {W : Type 0} (create : Create W) where
  unfoldable pub search : Option String → List CreateOptions → W → Verdict × W
  unfolding is_insufficient_capacity_error
  search last [] w = (exhausted last, w)
  search last (opts ∷ requests) w =
      let (response, w') = create opts w in
      elim response [
        | ok id ↦ (launched id, w')
        | err e ↦ elim (is_insufficient_capacity_error (some e)) [
          | true ↦ search (some e) requests w'
          | false ↦ (rejected e, w')
        ]
      ]

  pub search-nil : (last : Option String) (w : W) → search last [] w ≡ (exhausted last, w)
  unfolding search
  search-nil last w = refl

  module _ (last : Option String) (opts : CreateOptions) (requests : List CreateOptions)
      (w : W) where
    pub search-ok :
        (id : String)
        → (create opts w).0 ≡ ok id
        → search last (opts ∷ requests) w ≡ (launched id, (create opts w).1)
    unfolding search
    search-ok id h = rw (h, search) refl

    pub search-short :
        (e : String)
        → (create opts w).0 ≡ err e
        → is_insufficient_capacity_error (some e) ≡ true
        → search last (opts ∷ requests) w ≡ search (some e) requests (create opts w).1
    unfolding search
    search-short e h short = rw (h, short, search) refl

    pub search-other :
        (e : String)
        → (create opts w).0 ≡ err e
        → is_insufficient_capacity_error (some e) ≡ false
        → search last (opts ∷ requests) w ≡ (rejected e, (create opts w).1)
    unfolding search
    search-other e h other = rw (h, other, search) refl

  -- The three ways in which a response can go.
  pub response-cases :
      (opts : CreateOptions) (w : W)
      → ((id : String) × ((create opts w).0 ≡ ok id))
        ⊎ ((e : String) × ((create opts w).0 ≡ err e)
            × ((is_insufficient_capacity_error (some e) ≡ true)
                ⊎ (is_insufficient_capacity_error (some e) ≡ false)))
  response-cases opts w = elim (Outcome-cases (create opts w).0) [
    | inl (id, h) ↦ inl (id, h)
    | inr (e, h) ↦ inr (e, h, Bool-cases (is_insufficient_capacity_error (some e)))
  ]

  -- To go on with more requests after the search of some.
  abbrev pub search_on : List CreateOptions → Verdict × W → Verdict × W
  search_on requests (launched id, w) = (launched id, w)
  search_on requests (rejected e, w) = (rejected e, w)
  search_on requests (exhausted last, w) = search last requests w

  pub search-append :
      (last : Option String) (xs ys : List CreateOptions) (w : W)
      → search last (xs ++ ys) w ≡ search_on ys (search last xs w)
  search-append last [] ys w = rw (search-nil last w) refl
  search-append last (opts ∷ xs) ys w = elim (response-cases opts w) [
    | inl (id, h) ↦ rw (search-ok last opts (xs ++ ys) w id h, search-ok last opts xs w id h) refl
    | inr (e, h, inl short) ↦
        rw (search-short last opts (xs ++ ys) w e h short, search-short last opts xs w e h short)
          (search-append (some e) xs ys (create opts w).1)
    | inr (e, h, inr other) ↦
        rw (search-other last opts (xs ++ ys) w e h other, search-other last opts xs w e h other)
          refl
  ]

  pub search-last :
      (last last' : Option String) (opts : CreateOptions) (requests : List CreateOptions) (w : W)
      → search last (opts ∷ requests) w ≡ search last' (opts ∷ requests) w
  unfolding search
  search-last last last' opts requests w = refl

-- What a verdict says of the response that it rests on.
abbrev pub IsJust : Verdict → Type 0
IsJust (launched id) = Unit
IsJust (rejected e) = is_insufficient_capacity_error (some e) ≡ false
IsJust (exhausted none) = ⊥
IsJust (exhausted (some e)) = is_insufficient_capacity_error (some e) ≡ true

module _ {W : Type 0} (create : Create W) where
  search-some-IsJust :
      (e : String) (requests : List CreateOptions) (w : W)
      → is_insufficient_capacity_error (some e) ≡ true
      → IsJust (search create (some e) requests w).0
  search-some-IsJust e [] w short = rw (search-nil create (some e) w) short
  search-some-IsJust e (opts ∷ requests) w short = elim (response-cases create opts w) [
    | inl (id, h) ↦ rw (search-ok create (some e) opts requests w id h) tt
    | inr (e', h, inl short') ↦
        rw (search-short create (some e) opts requests w e' h short')
          (search-some-IsJust e' requests (create opts w).1 short')
    | inr (e', h, inr other) ↦ rw (search-other create (some e) opts requests w e' h other) other
  ]

  pub search-IsJust :
      (last : Option String) (opts : CreateOptions) (requests : List CreateOptions) (w : W)
      → IsJust (search create last (opts ∷ requests) w).0
  search-IsJust last opts requests w = elim (response-cases create opts w) [
    | inl (id, h) ↦ rw (search-ok create last opts requests w id h) tt
    | inr (e, h, inl short) ↦
        rw (search-short create last opts requests w e h short)
          (search-some-IsJust e requests (create opts w).1 short)
    | inr (e, h, inr other) ↦ rw (search-other create last opts requests w e h other) other
  ]
