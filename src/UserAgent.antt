-- ===== src/UserAgent.antt =====
-- src/shared/utils/user-agent.ts: the first pattern of a list that occurs in the User-Agent text,
-- upper and lower case alike. Letters outside ASCII are left as they are.
use Prim.Native.Char.{code}
use Prim.Native.String.{String}
use Prim.Native.String
use backend_foundation.Prelude.{
  ℕ, ◌+◌, ◌==◌, ◌≡◌, refl, Bool, true, false, ◌&&◌, ◌||◌, leb, Option, none, some, List, [], ◌∷◌,
  map, or_else, if◌then◌else◌,
}

abbrev pub codes : String → List ℕ
codes String.[] = []
codes (String.◌∷◌ c s) = code c ∷ codes s

unfoldable pub to_lower : ℕ → ℕ
to_lower c = if leb b'A' c && leb c b'Z' then c + 32 else c

unfoldable pub is_prefix : List ℕ → List ℕ → Bool
is_prefix [] s = true
is_prefix (p ∷ ps) [] = false
is_prefix (p ∷ ps) (c ∷ s) = p == c && is_prefix ps s

unfoldable pub contains : List ℕ → List ℕ → Bool
unfolding is_prefix
contains p [] = is_prefix p []
contains p (c ∷ s) = is_prefix p (c ∷ s) || contains p s

-- A regular expression `a|b|…` of literal texts, with the flag `i`.
unfoldable pub matches_any : List String → List ℕ → Bool
unfolding contains
matches_any [] s = false
matches_any (p ∷ ps) s = contains (codes p) s || matches_any ps s

abbrev pub browser_patterns : List (List String × String)
browser_patterns =
    ("edg/" ∷ [], "Edge")
    ∷ ("opr/" ∷ "opera" ∷ [], "Opera")
    ∷ ("chrome" ∷ "crios" ∷ [], "Chrome")
    ∷ ("firefox" ∷ "fxios" ∷ [], "Firefox")
    ∷ ("safari" ∷ [], "Safari")
    ∷ []

abbrev pub os_patterns : List (List String × String)
os_patterns =
    ("windows" ∷ [], "Windows")
    ∷ ("iphone" ∷ "ipad" ∷ "ios" ∷ [], "iOS")
    ∷ ("mac os x" ∷ "macintosh" ∷ [], "macOS")
    ∷ ("android" ∷ [], "Android")
    ∷ ("linux" ∷ [], "Linux")
    ∷ []

unfoldable pub match_patterns : List (List String × String) → List ℕ → Option String
unfolding matches_any
match_patterns [] s = none
match_patterns ((ps, name) ∷ rest) s = if matches_any ps s then some name else match_patterns rest s

pub record ParsedUserAgent : Type 0 where
  pub browser : Option String
  pub operating_system : Option String
  pub device_name : String

abbrev pub unknown_device : String
unknown_device = "Perangkat tidak dikenal"

unfoldable pub name_device : Option String → Option String → String
name_device (some browser) (some os) = String.◌++◌ browser (String.◌++◌ " di " os)
name_device (some browser) none = browser
name_device none os = or_else os unknown_device

-- `!userAgent` holds of null and of the empty text.
unfoldable pub parse_codes : List ℕ → ParsedUserAgent
unfolding match_patterns name_device to_lower
parse_codes [] = record { browser = none; operating_system = none; device_name = unknown_device }
parse_codes (c ∷ s) =
    let lowered = map to_lower (c ∷ s) in
    let browser = match_patterns browser_patterns lowered in
    let os = match_patterns os_patterns lowered in
    record { browser = browser; operating_system = os; device_name = name_device browser os }

unfoldable pub parse_user_agent : Option String → ParsedUserAgent
unfolding parse_codes
parse_user_agent none = record {
  browser = none;
  operating_system = none;
  device_name = unknown_device;
}
parse_user_agent (some s) = parse_codes (codes s)

iphone_test :
    (parse_user_agent
      (some "Mozilla/5.0 (iPhone; CPU iPhone OS 17_0 like Mac OS X) Safari/604.1")).device_name
    ≡ "Safari di iOS"
unfolding parse_user_agent
iphone_test = refl
