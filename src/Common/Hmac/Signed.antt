-- ===== src/Common/Hmac/Signed.antt =====
-- What a signature shows: libs/repoviva-common/src/repoviva_common/hmac_auth.py.
use repo_viva.Base.{
  ℕ, ◌≤◌, ◌≡◌, refl, ap, ◌∙◌, ◌↔◌, String, true, false, ◌&&◌, Option, none, some, List, ◌++◌, ok,
  err, ltb, arith, ℤ, pos, distance, str_eq, eq_iff, eq_refl, text_append, drop_prefix,
  drop_prefix_sound, text_length, inl, inr, Bool-cases,
}
use repo_viva.Common.Decimal.{str_of, int_of, max_str_digits}
use repo_viva.Common.Decimal.RoundTrip.{int_of-str_of}
use repo_viva.Common.Hmac.{
  Hexdigest, digest, Headers, sign, type_error, hmac_verification_error, is_ascii, compare_digest,
  matched, check_signature, check_fresh, check_headers, verify, signature_prefix, max_age_seconds,
  encode,
}

-- The digest is the text of hexadecimal digits that `hexdigest` documents.
abbrev pub IsAscii : Hexdigest → Type 0
IsAscii hexdigest = (key payload : List ℕ) → is_ascii (hexdigest key payload) ≡ true

compare_digest-same : (s : String) → is_ascii s ≡ true → matched (compare_digest s s) ≡ ok tt
compare_digest-same s h = rw (h, eq_refl s) refl

compare_digest_sound : (s t : String) → matched (compare_digest s t) ≡ ok tt → s ≡ t
compare_digest_sound s t h = elim (Bool-cases (is_ascii s && is_ascii t)) [
  | inr e ↦ absurd (let wrong : err type_error ≡ ok tt = rw e at h in cc)
  | inl e ↦ elim (Bool-cases (str_eq s t)) [
    | inl same ↦ (eq_iff s t).0 same
    | inr differ ↦ absurd (
        let wrong : err (hmac_verification_error "signature mismatch") ≡ ok tt =
          rw (e, differ) at h in
        cc)
  ]
]

-- What headers must hold to be accepted.
abbrev pub Signs : Hexdigest → List ℕ → Headers → String → ℕ → Type 0
Signs hexdigest body headers secret now =
    (timestamp : String) × (ts : ℤ) × (headers.timestamp ≡ some timestamp)
    × (int_of timestamp ≡ some ts)
    × (distance now ts ≤ max_age_seconds)
    × (headers.signature
        ≡ some (text_append signature_prefix (digest hexdigest secret timestamp body)))

module _ (hexdigest : Hexdigest) (body : List ℕ) (secret : String) (now : ℕ) where
  accepted_prefix :
      (timestamp signature : String) (o : Option String)
      → drop_prefix signature_prefix signature ≡ o
      → check_signature o (digest hexdigest secret timestamp body) ≡ ok tt
      → signature ≡ text_append signature_prefix (digest hexdigest secret timestamp body)
  accepted_prefix timestamp signature none e h = cc
  accepted_prefix timestamp signature (some received) e h =
      drop_prefix_sound signature_prefix signature received e
      ∙ ap (text_append signature_prefix)
          (compare_digest_sound received (digest hexdigest secret timestamp body) h)

  accepted_fresh :
      (timestamp signature : String) (o : Option ℤ)
      → int_of timestamp ≡ o
      → check_fresh hexdigest body secret now timestamp signature o ≡ ok tt
      → Signs hexdigest body
          (record { timestamp = some timestamp; signature = some signature })
          secret
          now
  accepted_fresh timestamp signature none e h = cc
  accepted_fresh timestamp signature (some ts) e h =
      elim (Bool-cases (ltb max_age_seconds (distance now ts))) [
        | inl late ↦ absurd (
            let wrong : err (hmac_verification_error "timestamp outside freshness window") ≡ ok tt =
              rw late at h in
            cc)
        | inr fresh ↦ (
          timestamp,
          ts,
          refl,
          e,
          ground (arith, fresh),
          ap some (
              accepted_prefix timestamp signature (drop_prefix signature_prefix signature) refl
                (rw fresh at h)),
        )
      ]

  accepted-Signs :
      (t s : Option String)
      → check_headers hexdigest body secret now t s ≡ ok tt
      → Signs hexdigest body (record { timestamp = t; signature = s }) secret now
  accepted-Signs none s h = cc
  accepted-Signs (some timestamp) none h = cc
  accepted-Signs (some timestamp) (some signature) h =
      accepted_fresh timestamp signature (int_of timestamp) refl h

  digest_accepted :
      (timestamp : String) (ts : ℤ)
      → IsAscii hexdigest
      → int_of timestamp ≡ some ts
      → distance now ts ≤ max_age_seconds
      → check_headers hexdigest body secret now
          (some timestamp)
          (some (text_append signature_prefix (digest hexdigest secret timestamp body)))
        ≡ ok tt
  unfolding digest
  digest_accepted timestamp ts ascii reads fresh =
      let in_time : ltb max_age_seconds (distance now ts) ≡ false = ground (arith, fresh) in
      rw (reads, in_time)
        (compare_digest-same (digest hexdigest secret timestamp body)
          (ascii (encode secret) (encode (text_append timestamp ".") ++ body)))

-- Headers are accepted exactly when both are there, the timestamp reads as a number within 60
-- seconds of the clock, and the signature is the prefix and the digest of that timestamp and the
-- body, where the digest is hexadecimal.
pub verify_iff :
    (hexdigest : Hexdigest) (body : List ℕ) (headers : Headers) (secret : String) (now : ℕ)
    → IsAscii hexdigest
    → (verify hexdigest body headers secret now ≡ ok tt) ↔ Signs hexdigest body headers secret now
unfolding verify digest
verify_iff hexdigest body headers secret now ascii =
    (accepted-Signs hexdigest body secret now headers.timestamp headers.signature, back)
  where
    back :
        Signs hexdigest body headers secret now → verify hexdigest body headers secret now ≡ ok tt
    back (timestamp, ts, at_time, reads, fresh, signed) =
        rw (at_time, signed)
          (digest_accepted hexdigest body secret now timestamp ts ascii reads fresh)

-- What is signed at a time is accepted, for the same body and secret, by every clock that differs
-- from it by at most 60 seconds, where the digest is hexadecimal and the timestamp is not too
-- long to be read as a number.
pub verify-sign :
    (hexdigest : Hexdigest) (body : List ℕ) (secret : String) (ts now : ℕ)
    → IsAscii hexdigest
    → text_length (str_of ts) ≤ max_str_digits
    → distance now (pos ts) ≤ max_age_seconds
    → verify hexdigest body (sign hexdigest body secret ts) secret now ≡ ok tt
unfolding verify sign
verify-sign hexdigest body secret ts now ascii short fresh =
    digest_accepted hexdigest body secret now (str_of ts) (pos ts) ascii (int_of-str_of ts short)
      fresh
