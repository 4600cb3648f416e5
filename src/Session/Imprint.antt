-- ===== src/Session/Imprint.antt =====
-- The digest of what a timestamp or a reference covers: src/lib/core/policy/ImprintDigest.cpp and
-- `ResolveTspImprint` of src/lib/core/session/SessionHelpers.ipp, in a build with the cryptographic
-- library. Its hash functions, SHA-256, the digest by a certificate's parameters and the reading of a
-- signer's digest algorithm are parameters. An answer is the text of an error or a result; `out` is
-- written only with a result.
pub mod Laws
use tamga.Prelude.{
  ℕ, ◌+◌, Bool, true, false, not, ◌&&◌, ◌||◌, List, [], ◌∷◌, map, Option, none, some, Bytes, codes,
  length, leb, ◌==◌, ◌⊎◌, inl, inr, if◌then◌else◌,
}
use tamga.Prelude.Order.{bytes_eq}

pub data ImprintDigest : Type 0 where
  kupyna256 gost34311 sha256 sha384 sha512 : ImprintDigest

pub record ImprintResult : Type 0 where
  pub digest_oid : Bytes
  pub hash : Bytes

-- The messages.
pub data ImprintError : Type 0 where
  kupyna_failed gost_failed sha384_failed sha512_failed : ImprintError
  certificate_aware_failed : Bytes → ImprintError
  unsupported_oid : Bytes → ImprintError

abbrev pub Answer : Type 0
Answer = ImprintError ⊎ ImprintResult

-- What the build links: the hash functions, of which `none` is a failure, the digest with the
-- parameters of a certificate, with the text of its error, and the signer's digest algorithm.
pub record Digests : Type 0 where
  pub compute_kupyna256 : Bytes → Option Bytes
  pub compute_gost34311 : Bytes → Option Bytes
  pub sha256 : Bytes → Bytes
  pub compute_sha384 : Bytes → Option Bytes
  pub compute_sha512 : Bytes → Option Bytes
  pub assign_digest_from_certificate_adapter : Bytes → ImprintDigest → Bytes → Bytes ⊎ Bytes
  pub get_signer_digest_algorithm_oid : Bytes → Option Bytes

-- `std::tolower` of the C locale.
abbrev pub to_lower : ℕ → ℕ
to_lower ch = if leb 65 ch && leb ch 90 then ch + 32 else ch

-- One of the texts.
abbrev pub is_one_of : Bytes → List Bytes → Bool
is_one_of text [] = false
is_one_of text (name ∷ names) = bytes_eq text name || is_one_of text names

-- The lambda `starts_with`.
unfoldable pub starts_with : Bytes → Bytes → Bool
starts_with text [] = true
starts_with [] (p ∷ prefix) = false
starts_with (ch ∷ text) (p ∷ prefix) = ch == p && starts_with text prefix

-- `ImprintFromDigestOid` on a text in lower case.
unfoldable pub imprint_of : Bytes → Option ImprintDigest
unfolding bytes_eq starts_with
imprint_of oid_lower =
    if is_one_of oid_lower (
        codes "1.2.804.2.1.1.1.1.2.2.1"
        ∷ codes "kupyna256"
        ∷ codes "kupyna-256"
        ∷ codes "dstu7564-256"
        ∷ codes "dstu7564_256"
        ∷ codes "dstu7564"
        ∷ [])
      || starts_with oid_lower (codes "1.2.804.2.1.1.1.1.3")
    then some ImprintDigest.kupyna256
    else if is_one_of oid_lower
        (codes "1.2.804.2.1.1.1.1.2.1" ∷ codes "gost34311" ∷ codes "gost-34311" ∷ [])
    then some ImprintDigest.gost34311
    else if is_one_of oid_lower (
        codes "2.16.840.1.101.3.4.2.1"
        ∷ codes "sha-256"
        ∷ codes "sha256"
        ∷ codes "1.2.840.113549.1.1.11"
        ∷ codes "1.2.840.10045.4.3.2"
        ∷ [])
    then some ImprintDigest.sha256
    else if is_one_of oid_lower (
        codes "2.16.840.1.101.3.4.2.2"
        ∷ codes "sha-384"
        ∷ codes "sha384"
        ∷ codes "1.2.840.113549.1.1.12"
        ∷ codes "1.2.840.10045.4.3.3"
        ∷ [])
    then some ImprintDigest.sha384
    else if is_one_of oid_lower (
        codes "2.16.840.1.101.3.4.2.3"
        ∷ codes "sha-512"
        ∷ codes "sha512"
        ∷ codes "1.2.840.113549.1.1.13"
        ∷ codes "1.2.840.10045.4.3.4"
        ∷ [])
    then some ImprintDigest.sha512
    else none

unfoldable pub imprint_from_digest_oid : Bytes → Option ImprintDigest
unfolding imprint_of
imprint_from_digest_oid digest_oid = imprint_of (map to_lower digest_oid)

unfoldable pub imprint_digest_oid : ImprintDigest → Bytes
imprint_digest_oid ImprintDigest.kupyna256 = codes "1.2.804.2.1.1.1.1.2.2.1"
imprint_digest_oid ImprintDigest.gost34311 = codes "1.2.804.2.1.1.1.1.2.1"
imprint_digest_oid ImprintDigest.sha256 = codes "2.16.840.1.101.3.4.2.1"
imprint_digest_oid ImprintDigest.sha384 = codes "2.16.840.1.101.3.4.2.2"
imprint_digest_oid ImprintDigest.sha512 = codes "2.16.840.1.101.3.4.2.3"

-- What a hash function gave, or the message of its failure.
unfoldable pub answer : ImprintDigest → ImprintError → Option Bytes → Answer
answer alg failed none = inl failed
answer alg failed (some hash) = inr (record { digest_oid = imprint_digest_oid alg; hash = hash })

abbrev pub is_gost : ImprintDigest → Bool
is_gost ImprintDigest.gost34311 = true
is_gost _ = false

-- `ShouldUseCertificateAdapter`.
unfoldable pub should_use_certificate_adapter : ImprintDigest → Bool
should_use_certificate_adapter alg = is_gost alg

module _ (digests : Digests) where
  unfoldable pub compute_imprint : ImprintDigest → Bytes → Answer
  unfolding answer
  compute_imprint ImprintDigest.kupyna256 data' =
      answer ImprintDigest.kupyna256 ImprintError.kupyna_failed (digests.compute_kupyna256 data')
  compute_imprint ImprintDigest.gost34311 data' =
      answer ImprintDigest.gost34311 ImprintError.gost_failed (digests.compute_gost34311 data')
  compute_imprint ImprintDigest.sha256 data' =
      inr (record {
        digest_oid = imprint_digest_oid ImprintDigest.sha256;
        hash = digests.sha256 data';
      })
  compute_imprint ImprintDigest.sha384 data' =
      answer ImprintDigest.sha384 ImprintError.sha384_failed (digests.compute_sha384 data')
  compute_imprint ImprintDigest.sha512 data' =
      answer ImprintDigest.sha512 ImprintError.sha512_failed (digests.compute_sha512 data')

  -- What the adapter gave.
  abbrev pub adapter_answer : ImprintDigest → Bytes ⊎ Bytes → Answer
  adapter_answer alg (inl error) = inl (ImprintError.certificate_aware_failed error)
  adapter_answer alg (inr hash) = inr (record { digest_oid = imprint_digest_oid alg; hash = hash })

  unfoldable pub compute_imprint_by_certificate : Bytes → ImprintDigest → Bytes → Answer
  unfolding should_use_certificate_adapter
  compute_imprint_by_certificate certificate_der fallback_alg data' =
      if not (should_use_certificate_adapter fallback_alg) || length certificate_der == 0
      then compute_imprint fallback_alg data'
      else adapter_answer fallback_alg
          (digests.assign_digest_from_certificate_adapter certificate_der fallback_alg data')

  -- The signer's algorithm where it can be read and is known.
  abbrev pub detected : Option Bytes → ImprintDigest
  detected none = ImprintDigest.kupyna256
  detected (some signer_digest_oid) = elim (imprint_from_digest_oid signer_digest_oid) [
    | none ↦ ImprintDigest.kupyna256
    | some alg ↦ alg
  ]

  -- `ResolveTspImprint`; the setting is the OID of `TspSettings`.
  unfoldable pub resolve_tsp_imprint :
      (imprint_digest_oid data_to_stamp cms_for_detect : Bytes) → Answer
  resolve_tsp_imprint configured data_to_stamp cms_for_detect =
      if not (length configured == 0) && not (bytes_eq configured (codes "auto"))
      then elim (imprint_from_digest_oid configured) [
        | none ↦ inl (ImprintError.unsupported_oid configured)
        | some alg ↦ compute_imprint alg data_to_stamp
      ]
      else if not (length cms_for_detect == 0)
      then compute_imprint (detected (digests.get_signer_digest_algorithm_oid cms_for_detect))
          data_to_stamp
      else compute_imprint ImprintDigest.kupyna256 data_to_stamp
