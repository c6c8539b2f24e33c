-- ===== src/Crypto/Signatures.antt =====
-- What votes.py demands of a signature, with crypto.py behind it.
use Prim.Native.String
use electa.Base.{
  ℕ, String, Bool, true, false, ◌&&◌, ◌≡◌, refl, Option, none, some, arith, Option-cases, inl, inr,
  truthy, text_of, ◌⊎◌, Bool-cases,
}
use electa.Settings.{Settings}
use electa.Http.{returned}
use electa.Model.Tables.{User}
use electa.Model.Schemas.{VoteCast}
use electa.Votes.{check_signature}
use electa.Crypto.{
  CryptoLibraries, Verdict, verified, invalid_signature, failed, canonical_vote_payload,
  verify_signature, crypto_of, is_verified,
}

-- The library accepts the signature under the key.
pub record IsVerified (libs : CryptoLibraries) (pem signature message : String) : Type 0 where
  pub bytes : libs.Bytes
  pub key : libs.Key
  pub decoded : libs.urlsafe_b64decode (String.◌++◌ signature "==") ≡ some bytes
  pub loaded : libs.load_pem_public_key pem ≡ some key
  pub accepted : libs.verify key bytes message ≡ verified

verified_of : (v : Verdict) → is_verified v ≡ true → v ≡ verified
verified_of verified h = refl
verified_of invalid_signature h = ground arith
verified_of failed h = ground arith

verify_signature-IsVerified :
    (libs : CryptoLibraries) (pem signature message : String)
    → libs.crypto_available ≡ true
    → verify_signature libs pem signature message ≡ true
    → IsVerified libs pem signature message
unfolding verify_signature
verify_signature-IsVerified libs pem signature message available h =
    elim (Option-cases (libs.urlsafe_b64decode (String.◌++◌ signature "=="))) [
      | inl e ↦ ground arith
      | inr (bytes, decoded) ↦ elim (Option-cases (libs.load_pem_public_key pem)) [
        | inl e ↦ ground arith
        | inr (key, loaded) ↦ record {
          bytes = bytes;
          key = key;
          decoded = decoded;
          loaded = loaded;
          accepted = verified_of (libs.verify key bytes message) (ground arith);
        }
      ]
    ]

module _ {F : Type 0} where
  -- Where signatures are required and the library is installed, a vote that passes the check of its
  -- signature either carries one that the library accepts, under the stored key of the voter, for
  -- the payload of the vote, and is marked as verified; or it carries no signature, or the voter has
  -- no key, and it passes unverified.
  pub check_signature-IsVerified :
      (libs : CryptoLibraries) (settings : Settings F) (now : ℕ) (body : VoteCast F)
      (voter : User F) (mark : Option Bool)
      → libs.crypto_available ≡ true
      → settings.require_crypto_signatures ≡ true
      → check_signature (crypto_of libs) settings now body voter ≡ returned mark
      → ((mark ≡ some true)
          × IsVerified libs
              (text_of voter.public_key)
              (text_of body.signature)
              (canonical_vote_payload libs body.proposal_id body.voter_id body.choice now))
        ⊎ ((mark ≡ none) × ((truthy body.signature && truthy voter.public_key) ≡ false))
  unfolding check_signature
  check_signature-IsVerified libs settings now body voter mark available required h =
      let payload = canonical_vote_payload libs body.proposal_id body.voter_id body.choice now in
      let key = text_of voter.public_key in
      let signature = text_of body.signature in
      elim (Bool-cases (truthy body.signature && truthy voter.public_key)) [
        | inr e ↦ inr (ground arith, e)
        | inl e ↦ elim (Bool-cases (verify_signature libs key signature payload)) [
          | inl ok ↦
              inl
                (ground arith, verify_signature-IsVerified libs key signature payload available ok)
          | inr bad ↦ absurd (ground arith)
        ]
      ]
