-- ===== src/Crypto.antt =====
-- crypto.py: the payload that a voter signs and the verification of a signature. The `cryptography`
-- package, `base64` and the text that `json.dumps` makes of a string are parameters.
pub mod Signatures
use Prim.Native.String
use electa.Base.{ℕ, String, Bool, true, false, not, Option, none, some, if◌then◌else◌}
use electa.Text.{decimal}
use electa.Votes.{Crypto}

-- What `pubkey.verify` comes to.
pub data Verdict : Type 0 where
  verified invalid_signature failed : Verdict

pub record CryptoLibraries : Type 1 where
  pub Key : Type 0
  pub Bytes : Type 0
  pub crypto_available : Bool
  pub json_string : String → String
  pub urlsafe_b64decode : String → Option Bytes
  pub load_pem_public_key : String → Option Key
  pub verify : Key → Bytes → String → Verdict
  pub sha256_hexdigest : Bytes → String

abbrev json_choice : CryptoLibraries → Option String → String
json_choice libs none = "null"
json_choice libs (some choice) = libs.json_string choice

-- The keys are sorted.
unfoldable pub canonical_vote_payload :
    CryptoLibraries → String → String → Option String → ℕ → String
canonical_vote_payload libs proposal_id voter_id choice timestamp = String.◌++◌ "{\"choice\":" (
    String.◌++◌ (json_choice libs choice) (
      String.◌++◌ ",\"proposal_id\":" (
        String.◌++◌ (libs.json_string proposal_id) (
          String.◌++◌ ",\"timestamp\":" (
            String.◌++◌ (decimal timestamp)
              (String.◌++◌ ",\"voter_id\":" (String.◌++◌ (libs.json_string voter_id) "}")))))))

abbrev pub is_verified : Verdict → Bool
is_verified verified = true
is_verified _ = false

unfoldable pub verify_signature : CryptoLibraries → String → String → String → Bool
verify_signature libs public_key_pem signature_b64 message =
    let checked : Bool = elim (libs.urlsafe_b64decode (String.◌++◌ signature_b64 "==")) [
      | none ↦ false
      | some signature ↦ elim (libs.load_pem_public_key public_key_pem) [
        | none ↦ false
        | some pubkey ↦ is_verified (libs.verify pubkey signature message)
      ]
    ] in
    if not libs.crypto_available then true else checked

abbrev pub fingerprint : (libs : CryptoLibraries) → libs.Bytes → String
fingerprint libs bytes = libs.sha256_hexdigest bytes

-- The two functions as votes.py calls them.
abbrev pub crypto_of : CryptoLibraries → Crypto
crypto_of libs = record {
  canonical_vote_payload = canonical_vote_payload libs;
  verify_signature = verify_signature libs;
}
