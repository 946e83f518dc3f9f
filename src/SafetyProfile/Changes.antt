-- ===== src/SafetyProfile/Changes.antt =====
-- safety_profile.py: what the audit says of a change, and what a change that fails leaves.
use flyto_robotics.Prelude.{
  ◌≡◌, refl, ◌∙◌, ◌⊎◌, inl, inr, String, Bool, Bool-cases, true, false, not, Option, none, some,
  List, [], ◌∷◌, ◌++◌, if◌then◌else◌, arith, eq_iff, lookup, str_eq, contains, format, text_le,
  contains-sort_by,
}
use mathlib.Core.Path.{subst}
use flyto_robotics.Python.{Runtime, Fields, Result, ok, raised}
use flyto_robotics.Python.Platform.{Platform}
use flyto_robotics.Python.Mappings.{without, is_nothing}
use flyto_robotics.Python.Checks.{OkAnd, OkAnd-then, ◌>>=◌}
use flyto_robotics.SafetyProfile.{names, is_more_conservative}
use flyto_robotics.SafetyProfile.Site.{holds, ProfileCodec}
use flyto_robotics.SafetyProfile.Audit.{
  ChangeRecord, all_names, relaxes, relaxed_of, change_record, Site, profile_text, audit_line,
  write_profile, write_audit, make_folder, write_change, planned_change, update_profile,
}

tighter : (r : Result Bool) → (r >>= λ b. ok (not b)) ≡ ok false → r ≡ ok true
tighter (ok true) e = refl
tighter (ok false) e = cc
tighter (raised e') e = cc

by_equality :
    (same : Bool) (r : Result Bool)
    → (if same then ok false else (r >>= λ b. ok (not b))) ≡ ok false
    → (same ≡ true) ⊎ (r ≡ ok true)
by_equality true r e = inl refl
by_equality false r e = inr (tighter r e)

module _ {F : Type 0} ⦃rt : Runtime F⦄ where
  -- The limit is still set, to the same value or a more conservative one.
  abbrev pub IsTighter : String → F → Option F → Type 0
  IsTighter name old none = ⊥
  IsTighter name old (some new) =
      (rt.eq old new ≡ true) ⊎ (is_more_conservative name new old ≡ ok true)

  IsTighter-relaxes :
      (name : String) (old : F) (new : Option F)
      → relaxes name (some old) new ≡ ok false
      → IsTighter name old new
  unfolding relaxes
  IsTighter-relaxes name old none e = cc
  IsTighter-relaxes name old (some new) e =
      by_equality (rt.eq old new) (is_more_conservative name new old) e

  module _ (name : String) (before after : List (String × F)) where
    -- Where nothing is noted, this limit is not relaxed.
    abbrev Unrelaxed : List String → List String → Type 0
    Unrelaxed ns noted =
        is_nothing noted ≡ true
        → contains name ns ≡ true
        → relaxes name (lookup name before) (lookup name after) ≡ ok false

    Unrelaxed-cons :
        (n : String) (ns rest : List String) (b : Bool)
        → relaxes n (lookup n before) (lookup n after) ≡ ok b
        → Unrelaxed ns rest
        → Unrelaxed (n ∷ ns) (if b then n ∷ rest else rest)
    Unrelaxed-cons n ns rest true e h nothing found = cc
    Unrelaxed-cons n ns rest false e h nothing found = elim (Bool-cases (str_eq n name)) [
      | inl same ↦
          subst (λ m. relaxes m (lookup m before) (lookup m after) ≡ ok false)
            ((eq_iff n name).0 same) e
      | inr differ ↦ h nothing (ground arith)
    ]

    Unrelaxed-relaxed_of : (ns : List String) → OkAnd (Unrelaxed ns) (relaxed_of ns before after)
    unfolding relaxed_of
    Unrelaxed-relaxed_of [] = λ nothing found. cc
    Unrelaxed-relaxed_of (n ∷ ns) =
        OkAnd-then (Unrelaxed (n ∷ ns)) (relaxes n (lookup n before) (lookup n after)) _ λ b e.
          OkAnd-then (Unrelaxed (n ∷ ns)) (relaxed_of ns before after) _ λ rest same.
            Unrelaxed-cons n ns rest b e
              (subst (OkAnd (Unrelaxed ns)) same (Unrelaxed-relaxed_of ns))

contains-names :
    {A : Type 0} (name : String) (d : List (String × A)) (a : A)
    → lookup name d ≡ some a
    → contains name (names d) ≡ true
contains-names name [] a e = cc
contains-names name ((n, b) ∷ d) a e = ground (arith, contains-names name d a)

contains-append :
    (k : String) (xs ys : List String) → contains k xs ≡ true → contains k (xs ++ ys) ≡ true
contains-append k [] ys e = cc
contains-append k (x ∷ xs) ys e = ground (arith, contains-append k xs ys)

module _ {F : Type 0} ⦃rt : Runtime F⦄ where
  -- The record is of what it was given, and what it notes as relaxed is what the tests found.
  abbrev Notes : List (String × F) → List (String × F) → ChangeRecord F → Type 0
  Notes before after r =
      (relaxed_of (all_names before after) before after ≡ ok r.relaxed_limits)
      × (r.relaxes_safety ≡ not (is_nothing r.relaxed_limits))

  Notes-change_record :
      (changed_by at : String) (before after : List (String × F)) (reason : String)
      → OkAnd (Notes before after) (change_record changed_by at before after reason)
  unfolding change_record
  Notes-change_record changed_by at before after reason =
      OkAnd-then (Notes before after) (relaxed_of (all_names before after) before after) _
        λ relaxed e. (e, refl)

  -- A change whose record says that it does not relax safety keeps every limit that was set, at the
  -- same value or at one that is more conservative.
  pub IsTighter-change_record :
      (changed_by at : String) (before after : List (String × F)) (reason : String)
      (r : ChangeRecord F)
      → change_record changed_by at before after reason ≡ ok r
      → r.relaxes_safety ≡ false
      → (name : String) (old : F) → lookup name before ≡ some old
      → IsTighter name old (lookup name after)
  IsTighter-change_record changed_by at before after reason r e safe name old found =
      let (noted, says) =
        subst (OkAnd (Notes before after)) e
          (Notes-change_record changed_by at before after reason) in
      let unrelaxed =
        subst (OkAnd (Unrelaxed name before after (all_names before after))) noted
          (Unrelaxed-relaxed_of name before after (all_names before after)) in
      let is_there : contains name (all_names before after) ≡ true =
        contains-sort_by text_le name (names before ++ without (names before) (names after))
        ∙ contains-append name (names before) _ (contains-names name before old found) in
      let kept = unrelaxed (ground arith) is_there in
      IsTighter-relaxes name old (lookup name after)
        (subst (λ o. relaxes name o (lookup name after) ≡ ok false) found kept)

module _ {F : Type 0} ⦃rt : Runtime F⦄ ⦃platform : Platform⦄ ⦃codec : ProfileCodec F⦄ where
  -- A change that raises leaves the profile as it was. One that returns has a record, which is what
  -- was planned; it has put the record's line behind the audit, and the new limits into the profile.
  abbrev pub Recorded : Site → Result (ChangeRecord F) → Result (ChangeRecord F) × Site → Type 0
  Recorded site planned (raised e, after) = after.profile ≡ site.profile
  Recorded site planned (ok r, after) =
      (planned ≡ ok r)
      × (after.profile ≡ holds (profile_text r))
      × (after.audit ≡ format (site.audit ∷ audit_line r ∷ []))

  Recorded-write_audit :
      (fault profile_fault : Option String) (path : String) (r : ChangeRecord F) (site : Site)
      → Recorded site
          (ok r)
          (write_audit fault path r (record site { profile_fault = profile_fault }))
  unfolding write_audit write_profile
  Recorded-write_audit (some left) profile_fault path r site = refl
  Recorded-write_audit none (some message) path r site = refl
  Recorded-write_audit none none path r site = (refl, refl, refl)

  Recorded-make_folder :
      (fault : Option String) (path : String) (r : ChangeRecord F) (site : Site)
      → Recorded site (ok r) (make_folder fault path r site)
  unfolding make_folder
  Recorded-make_folder (some message) path r site = refl
  Recorded-make_folder none path r site =
      Recorded-write_audit site.audit_fault site.profile_fault path r site

  Recorded-write_change :
      (path : String) (planned : Result (ChangeRecord F)) (site : Site)
      → Recorded site planned (write_change path planned site)
  unfolding write_change
  Recorded-write_change path (raised x) site = refl
  Recorded-write_change path (ok r) site = Recorded-make_folder site.folder_fault path r site

  -- A change of the profile that raises, whichever write failed, leaves the profile as it was. One
  -- that returns a record returns the one that was planned from the file and the limits that were
  -- parsed; the audit has that record's line behind what it held, and the profile has the new limits.
  pub Recorded-update_profile :
      (is_blank : String → Bool) (profile_path audit_path : String) (limits : Fields F)
      (changed_by reason at : String) (site : Site)
      → Recorded site
          (planned_change is_blank profile_path site.profile limits changed_by reason at)
          (update_profile is_blank profile_path audit_path limits changed_by reason at site)
  unfolding update_profile
  Recorded-update_profile is_blank profile_path audit_path limits changed_by reason at site =
      Recorded-write_change audit_path _ site
