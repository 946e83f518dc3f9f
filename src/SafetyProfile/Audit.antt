-- ===== src/SafetyProfile/Audit.antt =====
-- safety_profile.py: the record of a change of the site's profile, and the change itself.
use flyto_robotics.Prelude.{
  String, Bool, true, false, not, Option, none, some, List, [], ◌∷◌, ◌++◌, if◌then◌else◌, lookup,
  format, sort_by, text_le,
}
use flyto_robotics.Python.{
  Value, flag, number, text, array, object, Fields, end, entry, Runtime, Result, ok, raised,
  safety_profile_error, os_error,
}
use flyto_robotics.Python.Platform.{Platform}
use flyto_robotics.Python.Mappings.{items, without, is_nothing}
use flyto_robotics.Python.Checks.{raise_if, ◌>>=◌, ◌>>◌}
use flyto_robotics.SafetyProfile.{
  profile_contract_version, names, refused, parse_profile, is_more_conservative,
}
use flyto_robotics.SafetyProfile.Site.{ProfileFile, holds, ProfileCodec, load_profile}

pub record ChangeRecord (F : Type 0) : Type 0 where
  pub changed_by : String
  pub at : String
  pub reason : String
  pub before : List (String × F)
  pub after : List (String × F)
  pub relaxed_limits : List String
  pub relaxes_safety : Bool

-- `sorted(set(before) | set(after))`
abbrev pub all_names {ℓ} : {A : Type ℓ} → List (String × A) → List (String × A) → List String
all_names before after = sort_by text_le (names before ++ without (names before) (names after))

module _ {F : Type 0} ⦃rt : Runtime F⦄ where
  -- The tests of one limit: it was there before, and is there now.
  unfoldable pub relaxes : String → Option F → Option F → Result Bool
  relaxes name (some old) (some new) =
      if rt.eq old new
      then ok false
      else is_more_conservative name new old >>= λ tighter. ok (not tighter)
  relaxes name (some old) none = ok true
  relaxes name none new = ok false

  unfoldable pub relaxed_of :
      List String → List (String × F) → List (String × F) → Result (List String)
  relaxed_of [] before after = ok []
  relaxed_of (name ∷ more) before after = do
    relaxed ← relaxes name (lookup name before) (lookup name after)
    rest ← relaxed_of more before after
    ok (if relaxed then name ∷ rest else rest)

  unfoldable pub change_record :
      String → String → List (String × F) → List (String × F) → String → Result (ChangeRecord F)
  change_record changed_by at before after reason = do
    relaxed ← relaxed_of (all_names before after) before after
    ok (record {
      changed_by = changed_by;
      at = at;
      reason = reason;
      before = before;
      after = after;
      relaxed_limits = relaxed;
      relaxes_safety = not (is_nothing relaxed);
    })

  abbrev pub limit_fields : List (String × F) → Fields F
  limit_fields [] = end
  limit_fields ((name, x) ∷ limits) = entry name (number x) (limit_fields limits)

  abbrev pub record_document : ChangeRecord F → Value F
  record_document r = object (
      entry "contract_version" (text profile_contract_version) (
        entry "changed_by" (text r.changed_by) (
          entry "at" (text r.at) (
            entry "reason" (text r.reason) (
              entry "before" (object (limit_fields r.before)) (
                entry "after" (object (limit_fields r.after)) (
                  entry "relaxed_limits" (array (items r.relaxed_limits))
                    (entry "relaxes_safety" (flag r.relaxes_safety) end))))))))

  abbrev pub profile_document : Fields F → Value F
  profile_document limits = object (
      entry "contract_version" (text profile_contract_version) (entry "limits" (object limits) end))

-- The two files, and the faults of the next writes: making the audit's folder, appending to the
-- audit, which may leave any text in it, and replacing the profile, which leaves the old one.
pub record Site : Type 0 where
  pub profile : ProfileFile
  pub audit : String
  pub folder_fault : Option String
  pub audit_fault : Option String
  pub profile_fault : Option String

module _ {F : Type 0} ⦃rt : Runtime F⦄ ⦃platform : Platform⦄ ⦃codec : ProfileCodec F⦄ where
  abbrev pub profile_text : ChangeRecord F → String
  profile_text r = format (codec.indented (profile_document (limit_fields r.after)) ∷ "\n" ∷ [])

  abbrev pub audit_line : ChangeRecord F → String
  audit_line r = format (codec.one_line (record_document r) ∷ "\n" ∷ [])

  -- Each write has the fault that it meets as its first argument.
  unfoldable pub write_profile :
      Option String → ChangeRecord F → Site → Result (ChangeRecord F) × Site
  write_profile (some message) r site = (raised (os_error message), site)
  write_profile none r site = (ok r, record site { profile = holds (profile_text r) })

  -- The audit is written first.
  unfoldable pub write_audit :
      Option String → String → ChangeRecord F → Site → Result (ChangeRecord F) × Site
  write_audit (some left) audit_path r site = (
    refused (audit_path ∷ " could not be written, so the change was not made" ∷ []),
    record site { audit = left },
  )
  write_audit none audit_path r site =
      write_profile site.profile_fault r
        (record site { audit = format (site.audit ∷ audit_line r ∷ []) })

  unfoldable pub make_folder :
      Option String → String → ChangeRecord F → Site → Result (ChangeRecord F) × Site
  make_folder (some message) audit_path r site = (raised (os_error message), site)
  make_folder none audit_path r site = write_audit site.audit_fault audit_path r site

  unfoldable pub write_change :
      String → Result (ChangeRecord F) → Site → Result (ChangeRecord F) × Site
  write_change audit_path (raised e) site = (raised e, site)
  write_change audit_path (ok r) site = make_folder site.folder_fault audit_path r site

  -- What is tested and computed before anything is written; `is_blank s` is `not s.strip()`.
  unfoldable pub planned_change :
      (String → Bool)
      → String
      → ProfileFile
      → Fields F
      → String
      → String
      → String
      → Result (ChangeRecord F)
  planned_change is_blank path file limits changed_by reason at = do
    raise_if (is_blank changed_by)
        (safety_profile_error "changed_by is required; an unattributed change is not an audit")
    raise_if (is_blank reason) (safety_profile_error "reason is required")
    validated ← parse_profile (profile_document limits)
    before ← load_profile path file
    change_record changed_by at before validated reason

  unfoldable pub update_profile :
      (String → Bool)
      → String
      → String
      → Fields F
      → String
      → String
      → String
      → Site
      → Result (ChangeRecord F) × Site
  update_profile is_blank profile_path audit_path limits changed_by reason at site =
      write_change audit_path
        (planned_change is_blank profile_path site.profile limits changed_by reason at) site
