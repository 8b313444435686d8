-- ===== src/CoreApi/Repositories/Url.antt =====
-- core-api/src/core_api/repositories/schemas.py: the check and the normal form of a GitHub URL.
pub mod Forms
use Prim.Native.Char.{Char, code}
use mathlib.Core.Bool.{false≢true}
use repo_viva.Base.{
  ℕ, ◌≤◌, text_length, ◌≡◌, refl, sym, ap, ap₂, ◌∙◌, String, Bool, true, false, not, ◌&&◌, ◌||◌,
  Option, none, some, List, [], ◌∷◌, inl, inr, Bool-cases, both_true, arith, All, leb, ◌==◌,
  if◌then◌else◌, str_eq, eq_iff, drop_prefix, text_append, strip, lstrip, rstrip, is_space,
  is_empty, keep_char,
}

abbrev pub github : String
github = "https://github.com/"

-- `[A-Za-z0-9._-]`.
abbrev pub name_char : ℕ → Bool
name_char c =
    (leb b'A' c && leb c b'Z')
    || (leb b'a' c && leb c b'z')
    || (leb b'0' c && leb c b'9')
    || c == b'.'
    || c == b'_'
    || c == b'-'

-- What follows the longest run of name characters.
abbrev pub after_name : String → String
after_name String.[] = String.[]
after_name (String.◌∷◌ c s) =
    let rest = after_name s in if name_char (code c) then rest else String.◌∷◌ c s

abbrev pub starts_with_name : String → Bool
starts_with_name String.[] = false
starts_with_name (String.◌∷◌ c s) = name_char (code c)

-- Behind the name of the repository, whose characters take in `.git`: `/?(?:\.git)?$`.
abbrev pub matches_end : String → Bool
matches_end s = is_empty s || str_eq s "/" || str_eq s "/.git"

abbrev pub matches_repo : Option String → Bool
matches_repo none = false
matches_repo (some s) = starts_with_name s && matches_end (after_name s)

abbrev pub matches_owner : Option String → Bool
matches_owner none = false
matches_owner (some s) = starts_with_name s && matches_repo (drop_prefix "/" (after_name s))

-- `GITHUB_URL_RE.match` on a text without space at its ends.
abbrev pub matches_url : String → Bool
matches_url s = matches_owner (drop_prefix github s)

-- `rstrip("/")`.
abbrev pub keep_slash : Char → String → String
keep_slash c s = if code c == b'/' && is_empty s then String.[] else String.◌∷◌ c s

abbrev pub rstrip_slash : String → String
rstrip_slash String.[] = String.[]
rstrip_slash (String.◌∷◌ c s) = keep_slash c (rstrip_slash s)

-- `removesuffix(".git")`.
abbrev pub remove_git : String → String
remove_git String.[] = String.[]
remove_git (String.◌∷◌ c s) =
    let rest = remove_git s in
    if str_eq (String.◌∷◌ c s) ".git" then String.[] else String.◌∷◌ c rest

-- None is the ValueError.
unfoldable pub validate_github_url : String → Option String
validate_github_url v =
    if matches_url (strip v) then some (remove_git (rstrip_slash (strip v))) else none

abbrev pub are_name_chars : String → Bool
are_name_chars String.[] = true
are_name_chars (String.◌∷◌ c s) = name_char (code c) && are_name_chars s

abbrev pub url_of : String → String → String
url_of owner repo = text_append github (text_append owner (text_append "/" repo))
