-- ===== src/Common/Hmac.antt =====
-- libs/repoviva-common/src/repoviva_common/hmac_auth.py and dependencies.py. HMAC-SHA256 as hex is
-- the argument `hexdigest` of a key and a payload in bytes.
pub mod Signed
use Prim.Native.Char.{code}
use repo_viva.Base.{
  ℕ, ◌+◌, ◌*◌, ◌/◌, ◌%◌, String, Bool, true, false, ◌&&◌, Option, none, some, List, [], ◌∷◌, ◌++◌,
  Result, ok, err, ltb, ◌==◌, if◌then◌else◌, ℤ, distance, str_eq, text_append, drop_prefix,
}
use repo_viva.Common.Decimal.{str_of, int_of}

-- `encode()` of one code point.
abbrev pub utf8 : ℕ → List ℕ
utf8 c =
    if ltb c 128
    then c ∷ []
    else if ltb c 2048
    then (192 + c / 64) ∷ (128 + c % 64) ∷ []
    else if ltb c 65536
    then (224 + c / 4096) ∷ (128 + c / 64 % 64) ∷ (128 + c % 64) ∷ []
    else (240 + c / 262144) ∷ (128 + c / 4096 % 64) ∷ (128 + c / 64 % 64) ∷ (128 + c % 64) ∷ []

abbrev pub encode : String → List ℕ
encode String.[] = []
encode (String.◌∷◌ c s) = utf8 (code c) ++ encode s

abbrev pub Hexdigest : Type 0
Hexdigest = List ℕ → List ℕ → String

-- `_digest`.
unfoldable pub digest : Hexdigest → String → String → List ℕ → String
digest hexdigest secret timestamp body =
    hexdigest (encode secret) (encode (text_append timestamp ".") ++ body)

abbrev pub signature_prefix : String
signature_prefix = "sha256="

abbrev pub max_age_seconds : ℕ
max_age_seconds = 60

-- The two headers.
pub record Headers : Type 0 where
  pub timestamp : Option String
  pub signature : Option String

unfoldable pub sign : Hexdigest → List ℕ → String → ℕ → Headers
unfolding digest
sign hexdigest body secret timestamp = record {
  timestamp = some (str_of timestamp);
  signature = some (text_append signature_prefix (digest hexdigest secret (str_of timestamp) body));
}

-- HmacVerificationError by its message; the other is the TypeError that `compare_digest` raises
-- on texts that are not ASCII.
pub data VerifyError : Type 0 where
  hmac_verification_error : String → VerifyError
  type_error : VerifyError

abbrev pub is_ascii : String → Bool
is_ascii String.[] = true
is_ascii (String.◌∷◌ c s) = ltb (code c) 128 && is_ascii s

-- `hmac.compare_digest` on two texts.
abbrev pub compare_digest : String → String → Result VerifyError Bool
compare_digest s t = if is_ascii s && is_ascii t then ok (str_eq s t) else err type_error

abbrev pub matched : Result VerifyError Bool → Result VerifyError (Unit {0})
matched (err e) = err e
matched (ok true) = ok tt
matched (ok false) = err (hmac_verification_error "signature mismatch")

abbrev pub check_signature : Option String → String → Result VerifyError (Unit {0})
check_signature none expected = err (hmac_verification_error "unsupported signature algorithm")
check_signature (some received) expected = matched (compare_digest received expected)

abbrev pub check_fresh :
    Hexdigest → List ℕ → String → ℕ → String → String → Option ℤ → Result VerifyError (Unit {0})
check_fresh hexdigest body secret now timestamp signature none =
    err (hmac_verification_error "invalid timestamp")
check_fresh hexdigest body secret now timestamp signature (some ts) =
    if ltb max_age_seconds (distance now ts)
    then err (hmac_verification_error "timestamp outside freshness window")
    else check_signature (drop_prefix signature_prefix signature)
        (digest hexdigest secret timestamp body)

abbrev pub check_headers :
    Hexdigest → List ℕ → String → ℕ → Option String → Option String → Result VerifyError (Unit {0})
check_headers hexdigest body secret now none signature =
    err (hmac_verification_error "missing signature headers")
check_headers hexdigest body secret now (some timestamp) none =
    err (hmac_verification_error "missing signature headers")
check_headers hexdigest body secret now (some timestamp) (some signature) =
    check_fresh hexdigest body secret now timestamp signature (int_of timestamp)

unfoldable pub verify : Hexdigest → List ℕ → Headers → String → ℕ → Result VerifyError (Unit {0})
unfolding digest int_of
verify hexdigest body headers secret now =
    check_headers hexdigest body secret now headers.timestamp headers.signature

-- `verify_hmac` of dependencies.py: the status that a request gets before its handler runs, none
-- when the handler runs; an exception that is not caught is answered with 500.
abbrev pub rejection : Result VerifyError (Unit {0}) → Option ℕ
rejection (ok _) = none
rejection (err (hmac_verification_error _)) = some 401
rejection (err type_error) = some 500

unfoldable pub verify_hmac : Hexdigest → List ℕ → Headers → String → ℕ → Option ℕ
unfolding verify
verify_hmac hexdigest body headers secret now = rejection (verify hexdigest body headers secret now)
