-- ===== src/Capabilities.antt =====
-- flyto_robotics/capabilities.py: the pattern of safe identifiers, `[A-Za-z0-9][A-Za-z0-9._:-]{0,127}`.
use flyto_robotics.Prelude.{
  ℕ, String, Bool, true, false, ◌&&◌, ◌||◌, List, [], ◌∷◌, leb, ◌==◌, codes, length,
}

unfoldable pub is_alphanumeric : ℕ → Bool
is_alphanumeric c =
    (leb b'A' c && leb c b'Z') || (leb b'a' c && leb c b'z') || (leb b'0' c && leb c b'9')

is_safe : ℕ → Bool
unfolding is_alphanumeric
is_safe c = is_alphanumeric c || c == b'.' || c == b'_' || c == b':' || c == b'-'

all_safe : List ℕ → Bool
unfolding is_safe
all_safe [] = true
all_safe (c ∷ cs) = is_safe c && all_safe cs

matches_safe : List ℕ → Bool
unfolding all_safe is_alphanumeric
matches_safe [] = false
matches_safe (c ∷ cs) = is_alphanumeric c && all_safe cs && leb (length cs) 127

-- `SAFE_TEXT.fullmatch(s)`
unfoldable pub safe_text : String → Bool
unfolding matches_safe
safe_text s = matches_safe (codes s)
