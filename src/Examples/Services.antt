-- ===== src/Examples/Services.antt =====
-- Concrete services: a platform whose digests are constant, and codecs that know one text.
use flyto_robotics.Prelude.{String, true, none, some, length, codes}
use flyto_robotics.Prelude.Int.{ℤ, pos}
use flyto_robotics.Python.{Value, text, number, object, end, entry}
use flyto_robotics.Python.Platform.{Platform, Json}
use flyto_robotics.SafetyProfile.Site.{ProfileCodec}

abbrev pub digest : String
digest = "0123456789abcdef0123456789abcdef0123456789abcdef0123456789abcdef"

instance abbrev pub platform : Platform
platform = record {
  sha256 = λ s. digest;
  is_alnum = λ c. true;
  utf8_length = λ s. length (codes s);
  str_of_count = λ n. "?";
  hmac_sha256 = λ key message. digest;
}

instance abbrev pub json : Json ℤ
json = record { loads = λ s. none; dumps = λ v. some "{}" }

-- A site's profile: at most 0.25 m/s, and 0.6 m to both sides.
abbrev pub site_profile : Value ℤ
site_profile = object (
    entry "contract_version" (text "flyto.robotics.safety-profile.v1") (
      entry "limits"
        (object (
          entry "max_linear_speed" (number (pos 250))
            (entry "lateral_stop_distance" (number (pos 600)) end)))
        end))

instance abbrev pub codec : ProfileCodec ℤ
codec = record { decode = λ s. some site_profile; indented = λ v. "{}"; one_line = λ v. "{}" }
