-- ===== src/Names.antt =====
-- Tests on texts: release identifiers (adpulse/pagination.py, adpulse/releases.py) and `str.strip`.
use Prim.Native.Char.{code}
use ad_pulse.Prelude.{
  ℕ, zero, suc, String, Bool, true, false, ◌&&◌, ◌||◌, List, [], ◌∷◌, leb, ◌==◌, nat_eq, ℕ_discrete,
}
use ad_pulse.Prelude.Distinct.{member}

-- The code points of a text.
unfoldable pub codes : String → List ℕ
codes String.[] = []
codes (String.◌∷◌ c s) = code c ∷ codes s

-- `[a-zA-Z0-9_-]`
unfoldable pub is_name_code : ℕ → Bool
unfolding ℕ_discrete
is_name_code n =
    (leb b'a' n && leb n b'z')
    || ((leb b'A' n && leb n b'Z') || ((leb b'0' n && leb n b'9') || (n == b'_' || n == b'-')))

-- All codes pass, and there are at most `room` of them.
unfoldable pub all_within : ℕ → List ℕ → Bool
unfolding is_name_code
all_within room [] = true
all_within zero (n ∷ l) = false
all_within (suc room) (n ∷ l) = is_name_code n && all_within room l

-- `re.fullmatch(r"[a-zA-Z0-9_-]{1,80}", value) is not None`
unfoldable pub valid_codes : List ℕ → Bool
unfolding all_within
valid_codes [] = false
valid_codes (n ∷ l) = all_within 80 (n ∷ l)

unfoldable pub valid_release : String → Bool
unfolding valid_codes codes
valid_release value = valid_codes (codes value)

-- The code points that `str.strip` removes.
spaces : List ℕ
spaces =
    9 ∷ 10 ∷ 11 ∷ 12 ∷ 13 ∷ 28 ∷ 29 ∷ 30 ∷ 31 ∷ 32 ∷ 133 ∷ 160 ∷ 5760 ∷ 8192 ∷ 8193 ∷ 8194 ∷ 8195
    ∷ 8196 ∷ 8197 ∷ 8198 ∷ 8199 ∷ 8200 ∷ 8201 ∷ 8202 ∷ 8232 ∷ 8233 ∷ 8239 ∷ 8287 ∷ 12288 ∷ []

all_spaces : List ℕ → Bool
unfolding spaces member ℕ_discrete
all_spaces [] = true
all_spaces (n ∷ l) = member n spaces && all_spaces l

-- `not value.strip()`
unfoldable pub is_blank : String → Bool
unfolding all_spaces codes
is_blank value = all_spaces (codes value)
