-- ===== src/SafetyProfile/Jobs.antt =====
-- safety_profile.py and contracts.py: the site's limits bind every job.
use flyto_robotics.Prelude.{
  ◌≡◌, refl, String, true, false, Option, none, some, List, [], ◌∷◌, ◌++◌, lookup,
}
use mathlib.Core.Path.{subst}
use flyto_robotics.Python.{Runtime, Result, ok, raised}
use flyto_robotics.Python.Platform.{Platform}
use flyto_robotics.Python.Checks.{◌>>=◌}
use flyto_robotics.Contracts.{SafetyLimits}
use flyto_robotics.SafetyProfile.{
  Direction, at_most, at_least, Adjustment, apply_limit, apply_asked, apply_profile,
}
use flyto_robotics.SafetyProfile.Limits.{Within, Within-apply_limit, Within-unadjusted}
use flyto_robotics.SafetyProfile.Site.{
  ProfileFile, ProfileCodec, requested_limits, replaced, folded, constrained_by,
  constrained_by_site, load_profile,
}

module _ {F : Type 0} ⦃rt : Runtime F⦄ where
  -- No limit of the job is beyond the profile's: a stop at the side counts where the job sets one.
  pub record IsWithin (profile : List (String × F)) (s : SafetyLimits F) : Type 0 where
    pub linear : Within (some at_most) (lookup "max_linear_speed" profile) s.max_linear_speed
    pub angular : Within (some at_most) (lookup "max_angular_speed" profile) s.max_angular_speed
    pub obstacle :
        Within (some at_least) (lookup "obstacle_stop_distance" profile) s.obstacle_stop_distance
    pub lateral :
        (x : F)
        → s.lateral_stop_distance ≡ some x
        → Within (some at_least) (lookup "lateral_stop_distance" profile) x
    pub emergency :
        Within (some at_least) (lookup "emergency_stop_distance" profile) s.emergency_stop_distance

some_inj : {A : Type 0} {x y : A} → some x ≡ some y → x ≡ y
some_inj e = cc

append_nil : {A : Type 0} (xs ys : List A) → xs ++ ys ≡ [] → (xs ≡ []) × (ys ≡ [])
append_nil [] ys h = (refl, h)
append_nil (x ∷ xs) ys h = cc

module _ {F : Type 0} ⦃rt : Runtime F⦄ (irreflexive : (x : F) → rt.lt x x ≡ false)
    (exclusive : (x y : F) → rt.lt x y ≡ true → (rt.eq x y ≡ false) × (rt.eq y x ≡ false))
    (profile : List (String × F)) where
  abbrev bound :
      (d : Direction) (name : String) (x : F)
      → Within (some d) (lookup name profile) (apply_limit (lookup name profile) (some d) name x).0
  bound d name x = Within-apply_limit irreflexive (lookup name profile) (some d) name x

  -- What the fold returns, when it adjusted something.
  IsWithin-replaced :
      (s : SafetyLimits F) (lateral : Option F)
      → IsWithin profile (
          replaced
            (apply_profile profile
              (requested_limits (record s { lateral_stop_distance = lateral }))).values
            (record s { lateral_stop_distance = lateral }))
  unfolding apply_profile apply_asked
  IsWithin-replaced s none = record {
    linear = bound at_most "max_linear_speed" s.max_linear_speed;
    angular = bound at_most "max_angular_speed" s.max_angular_speed;
    obstacle = bound at_least "obstacle_stop_distance" s.obstacle_stop_distance;
    lateral = λ x e. cc;
    emergency = bound at_least "emergency_stop_distance" s.emergency_stop_distance;
  }
  IsWithin-replaced s (some x) = record {
    linear = bound at_most "max_linear_speed" s.max_linear_speed;
    angular = bound at_most "max_angular_speed" s.max_angular_speed;
    obstacle = bound at_least "obstacle_stop_distance" s.obstacle_stop_distance;
    lateral = λ y e.
        subst (Within (some at_least) (lookup "lateral_stop_distance" profile)) (some_inj e)
          (bound at_least "lateral_stop_distance" x);
    emergency = bound at_least "emergency_stop_distance" s.emergency_stop_distance;
  }

  abbrev kept :
      (d : Direction) (name : String) (x : F)
      → (apply_limit (lookup name profile) (some d) name x).1 ≡ []
      → Within (some d) (lookup name profile) x
  kept d name x h = Within-unadjusted exclusive (lookup name profile) (some d) name x h

  -- What the job asked for, when the fold adjusted nothing.
  IsWithin-unadjusted :
      (s : SafetyLimits F) (lateral : Option F)
      → (apply_profile profile
          (requested_limits (record s { lateral_stop_distance = lateral }))).adjustments
        ≡ []
      → IsWithin profile (record s { lateral_stop_distance = lateral })
  unfolding apply_profile apply_asked
  IsWithin-unadjusted s none h =
      let (h1, t1) = append_nil _ _ h in
      let (h2, t2) = append_nil _ _ t1 in
      let (h3, t3) = append_nil _ _ t2 in
      let (h4, t4) = append_nil _ _ t3 in
      record {
        linear = kept at_most "max_linear_speed" s.max_linear_speed h1;
        angular = kept at_most "max_angular_speed" s.max_angular_speed h2;
        obstacle = kept at_least "obstacle_stop_distance" s.obstacle_stop_distance h3;
        lateral = λ x e. cc;
        emergency = kept at_least "emergency_stop_distance" s.emergency_stop_distance h4;
      }
  IsWithin-unadjusted s (some x) h =
      let (h1, t1) = append_nil _ _ h in
      let (h2, t2) = append_nil _ _ t1 in
      let (h3, t3) = append_nil _ _ t2 in
      let (h4, t4) = append_nil _ _ t3 in
      let (h5, t5) = append_nil _ _ t4 in
      record {
        linear = kept at_most "max_linear_speed" s.max_linear_speed h1;
        angular = kept at_most "max_angular_speed" s.max_angular_speed h2;
        obstacle = kept at_least "obstacle_stop_distance" s.obstacle_stop_distance h3;
        lateral = λ y e.
            subst (Within (some at_least) (lookup "lateral_stop_distance" profile)) (some_inj e)
              (kept at_least "lateral_stop_distance" x h4);
        emergency = kept at_least "emergency_stop_distance" s.emergency_stop_distance h5;
      }

  IsWithin-folded :
      (s : SafetyLimits F) (adjustments : List (Adjustment F))
      → (apply_profile profile (requested_limits s)).adjustments ≡ adjustments
      → IsWithin profile (
          folded
            (record {
              values = (apply_profile profile (requested_limits s)).values;
              adjustments = adjustments;
            })
            s)
  IsWithin-folded s [] e = IsWithin-unadjusted s s.lateral_stop_distance e
  IsWithin-folded s (a ∷ rest) e = IsWithin-replaced s s.lateral_stop_distance

module _ {F : Type 0} ⦃rt : Runtime F⦄ (irreflexive : (x : F) → rt.lt x x ≡ false)
    (exclusive : (x y : F) → rt.lt x y ≡ true → (rt.eq x y ≡ false) × (rt.eq y x ≡ false)) where
  IsWithin-constrained_by :
      (profile : List (String × F)) (s : SafetyLimits F)
      → IsWithin profile (constrained_by profile s)
  unfolding constrained_by
  IsWithin-constrained_by [] s = record {
    linear = tt;
    angular = tt;
    obstacle = tt;
    lateral = λ x e. tt;
    emergency = tt;
  }
  IsWithin-constrained_by ((name, x) ∷ profile) s =
      IsWithin-folded irreflexive exclusive ((name, x) ∷ profile) s _ refl

-- The job's limits keep those of the profile that the site's file holds.
abbrev pub KeepsSite :
    {F : Type 0} ⦃rt : Runtime F⦄ → Result (List (String × F)) → Result (SafetyLimits F) → Type 0
KeepsSite (ok profile) (ok s) = IsWithin profile s
KeepsSite (raised e) r = r ≡ raised e
KeepsSite (ok profile) (raised e) = ⊥

module _ {F : Type 0} ⦃rt : Runtime F⦄ ⦃platform : Platform⦄ ⦃codec : ProfileCodec F⦄
    (irreflexive : (x : F) → rt.lt x x ≡ false)
    (exclusive : (x y : F) → rt.lt x y ≡ true → (rt.eq x y ≡ false) × (rt.eq y x ≡ false)) where
  KeepsSite-after :
      (profile : Result (List (String × F))) (s : SafetyLimits F)
      → KeepsSite profile (profile >>= λ p. ok (constrained_by p s))
  KeepsSite-after (ok profile) s = IsWithin-constrained_by irreflexive exclusive profile s
  KeepsSite-after (raised e) s = refl

  -- If the floats' order is irreflexive and excludes equality, then a job gets limits exactly if the
  -- site's file is absent or parses, an error of the file is raised, and else no limit of the job is
  -- beyond the site's; the distance at the side is bound where the job sets it.
  pub KeepsSite-constrained_by_site :
      (path : String) (file : ProfileFile) (s : SafetyLimits F)
      → KeepsSite (load_profile path file) (constrained_by_site path file s)
  unfolding constrained_by_site
  KeepsSite-constrained_by_site path file s = KeepsSite-after (load_profile path file) s

module _ {F : Type 0} ⦃rt : Runtime F⦄ where
  lateral-folded :
      (profile : List (String × F)) (s : SafetyLimits F) (adjustments : List (Adjustment F))
      → (folded
          (record {
            values =
                (apply_profile profile
                  (requested_limits (record s { lateral_stop_distance = none }))).values;
            adjustments = adjustments;
          })
          (record s { lateral_stop_distance = none })).lateral_stop_distance
        ≡ none
  unfolding apply_profile apply_asked
  lateral-folded profile s [] = refl
  lateral-folded profile s (a ∷ rest) = refl

  -- A job that leaves out the distance at the side gets none, whatever floor the site sets for it.
  pub constrained_by-lateral :
      (profile : List (String × F)) (s : SafetyLimits F)
      → (constrained_by profile (record s { lateral_stop_distance = none })).lateral_stop_distance
        ≡ none
  unfolding constrained_by
  constrained_by-lateral [] s = refl
  constrained_by-lateral ((name, x) ∷ profile) s = lateral-folded ((name, x) ∷ profile) s _
