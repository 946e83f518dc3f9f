-- ===== src/SafetyProfile/Limits.antt =====
-- safety_profile.py: a limit that the site sets binds what the fold returns.
use flyto_robotics.Prelude.{
  ◌≡◌, String, Bool-cases, inl, inr, true, false, Option, none, some, List, [], ◌∷◌, if_split,
  arith, lookup, All,
}
use flyto_robotics.Python.{Runtime}
use flyto_robotics.SafetyProfile.{
  Direction, at_most, at_least, constrainable, asked, fold_limit, adjustments_of, apply_limit,
  apply_asked, apply_profile,
}

module _ {F : Type 0} ⦃rt : Runtime F⦄ where
  -- The value is not beyond the limit.
  abbrev pub Keeps : Direction → F → F → Type 0
  Keeps at_most limit x = rt.lt limit x ≡ false
  Keeps at_least limit x = rt.lt x limit ≡ false

  -- The value is not beyond the limit, where there is one.
  abbrev pub Within : Option Direction → Option F → F → Type 0
  Within (some direction) (some limit) x = Keeps direction limit x
  Within _ _ x = Unit

module _ {F : Type 0} ⦃rt : Runtime F⦄ (irreflexive : (x : F) → rt.lt x x ≡ false) where
  Keeps-fold_limit : (d : Direction) (x limit : F) → Keeps d limit (fold_limit d x limit)
  unfolding fold_limit
  Keeps-fold_limit at_most x limit =
      if_split (Keeps at_most limit) (rt.lt limit x) (λ h. irreflexive limit) λ h. h
  Keeps-fold_limit at_least x limit =
      if_split (Keeps at_least limit) (rt.lt x limit) (λ h. irreflexive limit) λ h. h

  pub Within-apply_limit :
      (limit : Option F) (d : Option Direction) (name : String) (x : F)
      → Within d limit (apply_limit limit d name x).0
  unfolding apply_limit
  Within-apply_limit (some limit) (some d) name x = Keeps-fold_limit d x limit
  Within-apply_limit none none name x = tt
  Within-apply_limit none (some d) name x = tt
  Within-apply_limit (some limit) none name x = tt

  Within-apply_asked :
      (profile requested : List (String × F))
      → All
          (λ e. Within (lookup e.0 constrainable) (lookup e.0 profile) e.1)
          (apply_asked profile requested).values
  unfolding apply_asked
  Within-apply_asked profile [] = tt
  Within-apply_asked profile ((name, x) ∷ requested) = (
    Within-apply_limit (lookup name profile) (lookup name constrainable) name x,
    Within-apply_asked profile requested,
  )

  -- If no float is below itself, then no value that the fold returns is above the site's limit for
  -- its field where the site sets a ceiling, nor below it where the site sets a floor.
  pub Within-apply_profile :
      (profile : List (String × F)) (requested : List (String × Option F))
      → All
          (λ e. Within (lookup e.0 constrainable) (lookup e.0 profile) e.1)
          (apply_profile profile requested).values
  unfolding apply_profile
  Within-apply_profile profile requested = Within-apply_asked profile (asked requested)

-- No float is both below another and equal to it.
module _ {F : Type 0} ⦃rt : Runtime F⦄
    (exclusive : (x y : F) → rt.lt x y ≡ true → (rt.eq x y ≡ false) × (rt.eq y x ≡ false)) where
  Keeps-adjustments_of :
      (d : Direction) (name : String) (x limit : F)
      → adjustments_of name d x (fold_limit d x limit) ≡ []
      → Keeps d limit x
  unfolding fold_limit
  Keeps-adjustments_of at_most name x limit h = elim (Bool-cases (rt.lt limit x)) [
    | inl below ↦ let (differ, _) = exclusive limit x below in ground arith
    | inr not_below ↦ not_below
  ]
  Keeps-adjustments_of at_least name x limit h = elim (Bool-cases (rt.lt x limit)) [
    | inl below ↦ let (_, differ) = exclusive x limit below in ground arith
    | inr not_below ↦ not_below
  ]

  -- Where nothing was adjusted, what was asked for keeps the limit.
  pub Within-unadjusted :
      (limit : Option F) (d : Option Direction) (name : String) (x : F)
      → (apply_limit limit d name x).1 ≡ []
      → Within d limit x
  unfolding apply_limit
  Within-unadjusted (some limit) (some d) name x h = Keeps-adjustments_of d name x limit h
  Within-unadjusted none none name x h = tt
  Within-unadjusted none (some d) name x h = tt
  Within-unadjusted (some limit) none name x h = tt
