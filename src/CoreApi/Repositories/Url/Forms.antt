-- ===== src/CoreApi/Repositories/Url/Forms.antt =====
-- One normal form for a repository's addresses: core-api/src/core_api/repositories/schemas.py.
use Prim.Native.Char.{code}
use mathlib.Core.Bool.{false≢true}
use repo_viva.Base.{
  ℕ, ◌≤◌, text_length, ◌≡◌, refl, sym, ap, ◌∙◌, String, Bool, true, false, not, ◌&&◌, ◌||◌, none,
  some, [], ◌∷◌, inl, inr, Bool-cases, both_true, arith, All, ◌==◌, if◌then◌else◌, str_eq, eq_iff,
  text_append, strip, lstrip, rstrip, is_space, is_empty,
}
use repo_viva.CoreApi.Repositories.Url.{
  github, name_char, after_name, starts_with_name, matches_end, matches_url, rstrip_slash,
  remove_git, validate_github_url, are_name_chars, url_of,
}

append_assoc : (s t u : String) → text_append (text_append s t) u ≡ text_append s (text_append t u)
append_assoc String.[] t u = refl
append_assoc (String.◌∷◌ c s) t u = ap (λ (x : String). String.◌∷◌ c x) (append_assoc s t u)

append_nil : (s : String) → text_append s "" ≡ s
append_nil String.[] = refl
append_nil (String.◌∷◌ c s) = ap (λ (x : String). String.◌∷◌ c x) (append_nil s)

-- Names as parts of a text.
after_name-append :
    (s t : String) → are_name_chars s ≡ true → after_name (text_append s t) ≡ after_name t
after_name-append String.[] t h = refl
after_name-append (String.◌∷◌ c s) t h =
    let (first, others) = both_true (name_char (code c)) (are_name_chars s) h in
    rw first (after_name-append s t others)

starts-append :
    (s t : String)
    → are_name_chars s ≡ true
    → is_empty s ≡ false
    → starts_with_name (text_append s t) ≡ true
starts-append String.[] t h n = cc
starts-append (String.◌∷◌ c s) t h n = (both_true (name_char (code c)) (are_name_chars s) h).0

name-not_slash : (c : ℕ) → name_char c ≡ true → (c == b'/') ≡ false
name-not_slash c h = ground arith

name-not_space : (c : ℕ) → name_char c ≡ true → is_space c ≡ false
name-not_space c h = ground arith

rstrip_slash-name :
    (s t : String)
    → are_name_chars s ≡ true
    → rstrip_slash (text_append s t) ≡ text_append s (rstrip_slash t)
rstrip_slash-name String.[] t h = refl
rstrip_slash-name (String.◌∷◌ c s) t h =
    let (first, others) = both_true (name_char (code c)) (are_name_chars s) h in
    rw (name-not_slash (code c) first, rstrip_slash-name s t others) refl

rstrip_slash-append :
    (s t : String)
    → is_empty (rstrip_slash t) ≡ false
    → (rstrip_slash (text_append s t) ≡ text_append s (rstrip_slash t))
      × (is_empty (text_append s (rstrip_slash t)) ≡ false)
rstrip_slash-append String.[] t h = (refl, h)
rstrip_slash-append (String.◌∷◌ c s) t h =
    let (same, more) = rstrip_slash-append s t h in
    let kept : ((code c == b'/') && is_empty (text_append s (rstrip_slash t))) ≡ false =
      ground (arith, more) in
    (rw (same, kept) refl, refl)

-- A text with a slash is not the suffix `.git`.
slashed : String → Bool
slashed String.[] = false
slashed (String.◌∷◌ c s) = code c == b'/' || slashed s

slashed-append : (s t : String) → slashed t ≡ true → slashed (text_append s t) ≡ true
unfolding slashed
slashed-append String.[] t h = h
slashed-append (String.◌∷◌ c s) t h = ground (arith, slashed-append s t h)

slashed-differs : (s : String) → slashed s ≡ true → str_eq s ".git" ≡ false
unfolding slashed
slashed-differs s h = elim (Bool-cases (str_eq s ".git")) [
  | inl e ↦ absurd (false≢true (ap slashed (sym ((eq_iff s ".git").0 e)) ∙ h))
  | inr e ↦ e
]

remove_git-append :
    (s t : String)
    → remove_git (text_append s (String.◌∷◌ "/" t)) ≡ text_append s (String.◌∷◌ "/" (remove_git t))
unfolding slashed
remove_git-append String.[] t = rw (slashed-differs (String.◌∷◌ "/" t) refl) refl
remove_git-append (String.◌∷◌ c s) t =
    rw
      (
        slashed-differs (String.◌∷◌ c (text_append s (String.◌∷◌ "/" t)))
            (slashed-append (String.◌∷◌ c s) (String.◌∷◌ "/" t) refl),
        remove_git-append s t,
      )
      refl

remove_git-repo : (repo : String) → remove_git (text_append repo ".git") ≡ repo
remove_git-repo String.[] = refl
remove_git-repo (String.◌∷◌ c s) = rw (longer, remove_git-repo s) refl
  where
    long : (r : String) → 4 ≤ text_length (text_append r ".git")
    long String.[] = omega arith
    long (String.◌∷◌ d r) = omega (arith, long r)

    longer : str_eq (String.◌∷◌ c (text_append s ".git")) ".git" ≡ false
    longer = elim (Bool-cases (str_eq (String.◌∷◌ c (text_append s ".git")) ".git")) [
      | inl e ↦ absurd (
          omega (
            arith,
            long s,
            ap text_length ((eq_iff (String.◌∷◌ c (text_append s ".git")) ".git").0 e),
          ))
      | inr e ↦ e
    ]

abbrev no_space : String → Bool
no_space String.[] = true
no_space (String.◌∷◌ c s) = not (is_space (code c)) && no_space s

no_space-append :
    (s t : String) → no_space s ≡ true → no_space t ≡ true → no_space (text_append s t) ≡ true
no_space-append String.[] t h k = k
no_space-append (String.◌∷◌ c s) t h k =
    let (first, others) = both_true (not (is_space (code c))) (no_space s) h in
    rw first (no_space-append s t others k)

no_space-name : (s : String) → are_name_chars s ≡ true → no_space s ≡ true
no_space-name String.[] h = refl
no_space-name (String.◌∷◌ c s) h =
    let (first, others) = both_true (name_char (code c)) (are_name_chars s) h in
    rw (name-not_space (code c) first) (no_space-name s others)

not_space : (b : Bool) → not b ≡ true → b ≡ false
not_space true h = cc
not_space false h = refl

strip-no_space : (s : String) → no_space s ≡ true → strip s ≡ s
strip-no_space s h = ap lstrip (right s h) ∙ left s h
  where
    right : (t : String) → no_space t ≡ true → rstrip t ≡ t
    right String.[] k = refl
    right (String.◌∷◌ c t) k =
        let (first, others) = both_true (not (is_space (code c))) (no_space t) k in
        rw (not_space (is_space (code c)) first)
          (ap (λ (x : String). String.◌∷◌ c x) (right t others))

    left : (t : String) → no_space t ≡ true → lstrip t ≡ t
    left String.[] k = refl
    left (String.◌∷◌ c t) k =
        let (first, _) = both_true (not (is_space (code c))) (no_space t) k in
        rw (not_space (is_space (code c)) first) refl

validated :
    (v : String)
    → strip v ≡ v
    → matches_url v ≡ true
    → validate_github_url v ≡ some (remove_git (rstrip_slash v))
unfolding validate_github_url
validated v e m = go (strip v) e
  where
    go :
        (u : String)
        → u ≡ v
        → (if matches_url u then some (remove_git (rstrip_slash u)) else none)
          ≡ some (remove_git (rstrip_slash v))
    go u same = rw (same, m) refl

module _ (owner repo : String) (owner_chars : are_name_chars owner ≡ true)
    (owner_given : is_empty owner ≡ false) (repo_chars : are_name_chars repo ≡ true)
    (repo_given : is_empty repo ≡ false) where
  -- The form with an ending, from the right; its part before the repository.
  abbrev form : String → String
  form t = text_append github (text_append owner (String.◌∷◌ "/" (text_append repo t)))

  abbrev front : String
  front = text_append github (text_append owner "/")

  form-front : (t : String) → text_append front (text_append repo t) ≡ form t
  form-front t = ap (text_append github) (append_assoc owner "/" (text_append repo t))

  form-url : (t : String) → text_append (url_of owner repo) t ≡ form t
  form-url t = ap (text_append github) (append_assoc owner (String.◌∷◌ "/" repo) t)

  form-matches : (t : String) → matches_end (after_name t) ≡ true → matches_url (form t) ≡ true
  form-matches t h =
      rw
        (
          starts-append owner (String.◌∷◌ "/" (text_append repo t)) owner_chars owner_given,
          after_name-append owner (String.◌∷◌ "/" (text_append repo t)) owner_chars,
          starts-append repo t repo_chars repo_given,
          after_name-append repo t repo_chars,
        )
        h

  form-strip : (t : String) → no_space t ≡ true → strip (form t) ≡ form t
  form-strip t h = strip-no_space (form t) (
      no_space-append github (text_append owner (String.◌∷◌ "/" (text_append repo t))) refl (
        no_space-append owner (String.◌∷◌ "/" (text_append repo t))
          (no_space-name owner owner_chars)
          (no_space-append repo t (no_space-name repo repo_chars) h)))

  given : (s t : String) → is_empty s ≡ false → is_empty (text_append s t) ≡ false
  given String.[] t h = cc
  given (String.◌∷◌ c s) t h = refl

  form-rstrip : (t : String) → rstrip_slash (form t) ≡ form (rstrip_slash t)
  form-rstrip t =
      ap rstrip_slash (sym (form-front t))
      ∙ (rstrip_slash-append front (text_append repo t) rest).0
      ∙ ap (text_append front) (rstrip_slash-name repo t repo_chars)
      ∙ form-front (rstrip_slash t)
    where
      rest : is_empty (rstrip_slash (text_append repo t)) ≡ false
      rest =
          ap is_empty (rstrip_slash-name repo t repo_chars) ∙ given repo (rstrip_slash t) repo_given

  normal_form :
      (t : String)
      → no_space t ≡ true
      → matches_end (after_name t) ≡ true
      → remove_git (text_append repo (rstrip_slash t)) ≡ repo
      → validate_github_url (text_append (url_of owner repo) t) ≡ some (url_of owner repo)
  normal_form t plain ends short =
      ap validate_github_url (form-url t)
      ∙ validated (form t) (form-strip t plain) (form-matches t ends)
      ∙ ap some (
          ap remove_git (form-rstrip t)
          ∙ remove_git-append (text_append github owner) (text_append repo (rstrip_slash t))
          ∙ ap (λ (r : String). text_append github (text_append owner (String.◌∷◌ "/" r))) short)

-- The four forms of a repository's address, with a slash, `.git` or both at the end, are accepted
-- and have one normal form, the address itself, where owner and repository are names and the name
-- of the repository does not end with `.git` itself.
pub validate_forms :
    (owner repo : String)
    → are_name_chars owner ≡ true
    → is_empty owner ≡ false
    → are_name_chars repo ≡ true
    → is_empty repo ≡ false
    → remove_git repo ≡ repo
    → All
        (λ t. validate_github_url (text_append (url_of owner repo) t) ≡ some (url_of owner repo))
        ("" ∷ "/" ∷ ".git" ∷ ".git/" ∷ [])
validate_forms owner repo oc og rc rg short =
    let normal = normal_form owner repo oc og rc rg in
    (
      normal "" refl refl (ap remove_git (append_nil repo) ∙ short),
      (
        normal "/" refl refl (ap remove_git (append_nil repo) ∙ short),
        (
          normal ".git" refl refl (remove_git-repo repo),
          (normal ".git/" refl refl (remove_git-repo repo), tt),
        ),
      ),
    )
