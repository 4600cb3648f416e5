-- ===== src/Session/Imprint/Laws.antt =====
-- A result names the algorithm that was asked for.
use tamga.Prelude.{
  not, false, Option, none, some, Bytes, codes, length, ◌==◌, ◌≡◌, refl, inl, inr, Option-cases,
  Bool-cases, arith, ◌||◌, ◌⊎◌, ◌≢◌, subst,
}
use tamga.Prelude.Order.{bytes_eq}
use tamga.Session.Imprint.{
  ImprintDigest, ImprintResult, ImprintError, Answer, Digests, imprint_from_digest_oid,
  imprint_digest_oid, answer, compute_imprint, compute_imprint_by_certificate, resolve_tsp_imprint,
  adapter_answer, should_use_certificate_adapter,
}

-- `ImprintFromDigestOid` undoes `ImprintDigestOid`.
pub imprint_from_digest_oid-imprint_digest_oid :
    (alg : ImprintDigest) → imprint_from_digest_oid (imprint_digest_oid alg) ≡ some alg
unfolding imprint_from_digest_oid imprint_digest_oid
imprint_from_digest_oid-imprint_digest_oid ImprintDigest.kupyna256 = refl
imprint_from_digest_oid-imprint_digest_oid ImprintDigest.gost34311 = refl
imprint_from_digest_oid-imprint_digest_oid ImprintDigest.sha256 = refl
imprint_from_digest_oid-imprint_digest_oid ImprintDigest.sha384 = refl
imprint_from_digest_oid-imprint_digest_oid ImprintDigest.sha512 = refl

-- An answer is an error or a result under the name of the algorithm.
abbrev pub Names : ImprintDigest → Answer → Type 0
Names alg (inl failed) = Unit
Names alg (inr result) = result.digest_oid ≡ imprint_digest_oid alg

answer-Names :
    (alg : ImprintDigest) (failed : ImprintError) (hash : Option Bytes)
    → Names alg (answer alg failed hash)
unfolding answer
answer-Names alg failed none = tt
answer-Names alg failed (some hash) = refl

module _ (digests : Digests) where
  -- Whatever the hash functions give, the result names the algorithm that was asked for.
  pub compute_imprint-Names :
      (alg : ImprintDigest) (data' : Bytes) → Names alg (compute_imprint digests alg data')
  unfolding compute_imprint
  compute_imprint-Names ImprintDigest.kupyna256 data' =
      answer-Names ImprintDigest.kupyna256 ImprintError.kupyna_failed
        (digests.compute_kupyna256 data')
  compute_imprint-Names ImprintDigest.gost34311 data' =
      answer-Names ImprintDigest.gost34311 ImprintError.gost_failed
        (digests.compute_gost34311 data')
  compute_imprint-Names ImprintDigest.sha256 data' = refl
  compute_imprint-Names ImprintDigest.sha384 data' =
      answer-Names ImprintDigest.sha384 ImprintError.sha384_failed (digests.compute_sha384 data')
  compute_imprint-Names ImprintDigest.sha512 data' =
      answer-Names ImprintDigest.sha512 ImprintError.sha512_failed (digests.compute_sha512 data')

  adapter_answer-Names :
      (alg : ImprintDigest) (hash : Bytes ⊎ Bytes) → Names alg (adapter_answer digests alg hash)
  adapter_answer-Names alg (inl error) = tt
  adapter_answer-Names alg (inr hash) = refl

  -- Also a certificate does not change it.
  pub compute_imprint_by_certificate-Names :
      (certificate_der : Bytes) (alg : ImprintDigest) (data' : Bytes)
      → Names alg (compute_imprint_by_certificate digests certificate_der alg data')
  unfolding compute_imprint_by_certificate
  compute_imprint_by_certificate-Names certificate_der alg data' =
      elim (Bool-cases (not (should_use_certificate_adapter alg) || length certificate_der == 0)) [
        | inl e ↦ rw e (compute_imprint-Names alg data')
        | inr e ↦ rw e (adapter_answer-Names alg _)
      ]

  -- A configured OID decides: the result's OID stands for the same algorithm.
  pub resolve_tsp_imprint-configured :
      (configured data_to_stamp cms_for_detect : Bytes) (result : ImprintResult)
      → length configured ≢ 0
      → bytes_eq configured (codes "auto") ≡ false
      → resolve_tsp_imprint digests configured data_to_stamp cms_for_detect ≡ inr result
      → imprint_from_digest_oid result.digest_oid ≡ imprint_from_digest_oid configured
  unfolding resolve_tsp_imprint
  resolve_tsp_imprint-configured configured data_to_stamp cms_for_detect result given named h =
      elim (Option-cases (imprint_from_digest_oid configured)) [
        | inl unknown ↦ absurd (ground (arith, given, named, h, unknown))
        | inr (alg, known) ↦
            let answered : compute_imprint digests alg data_to_stamp ≡ inr result =
              ground (arith, given, named, h, known) in
            let named_so : result.digest_oid ≡ imprint_digest_oid alg =
              subst (Names alg) answered (compute_imprint-Names alg data_to_stamp) in
            rw (named_so, known) (imprint_from_digest_oid-imprint_digest_oid alg)
      ]
