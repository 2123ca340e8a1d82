-- ===== src/Cosign.antt =====
-- internal/verify/cosign.go: the arguments of `cosign verify`, its run, and the key of a policy.
pub mod Validated
pub mod Loaded
use ribat.Base.{
  Bool, true, false, not, List, [], ◌∷◌, ◌++◌, Option, none, some, if◌then◌else◌, Text, codes,
  text_eq, is_empty, trim_space, join, Result, ok, err, ◌>>=◌, ◌>>◌, guard,
}
use ribat.Image.{Reference}
use ribat.Policy.{CosignPolicy}
use ribat.Policy.Validate.{key_mode, keyless_mode, effective_mode}

pub record CosignResult : Type 0 where
  pub success : Bool
  pub reason : Text
  pub command : List Text

pub data CosignError : Type 0 where
  digest_required key_missing unsupported_mode : CosignError

unfoldable pub digest_reference : Reference → Text → Text
digest_reference ref digest = ref.registry ++ (b'/' ∷ (ref.repository ++ (b'@' ∷ digest)))

-- `args = append(args, flag, value)` where the value is set.
pub option_args : Text → Text → List Text
option_args flag [] = []
option_args flag (c ∷ s) = flag ∷ (c ∷ s) ∷ []

-- The mode of the source: the one that is set, or key with a key, or keyless.
unfoldable pub verify_mode : CosignPolicy → Text
unfolding effective_mode
verify_mode cfg = if is_empty (effective_mode cfg) then keyless_mode else effective_mode cfg

-- The arguments that the `switch` on the mode adds.
unfoldable pub mode_args : Text → CosignPolicy → Result CosignError (List Text)
unfolding option_args
mode_args mode cfg =
    if text_eq mode key_mode
    then (if is_empty cfg.key then err key_missing else ok (codes "--key" ∷ cfg.key ∷ []))
    else if text_eq mode keyless_mode
    then ok (
        option_args (codes "--certificate-oidc-issuer") cfg.issuer
        ++ (option_args (codes "--certificate-identity") cfg.identity
            ++ option_args (codes "--certificate-identity-regexp") cfg.identity_regex))
    else err unsupported_mode

unfoldable pub cosign_verify_args : Reference → Text → CosignPolicy → Result CosignError (List Text)
unfolding verify_mode mode_args digest_reference
cosign_verify_args ref digest cfg = do
  guard (not (is_empty digest)) digest_required
  args ← mode_args (verify_mode cfg) cfg
  ok (codes "verify" ∷ (args ++ digest_reference ref digest ∷ []))

-- The result of a command that has ended: its output and its error, if it failed.
unfoldable pub command_result : List Text → Text × Option Text → CosignResult
command_result command (output, none) = record {
  success = true;
  reason = codes "cosign verification succeeded";
  command = command;
}
command_result command (output, some e) = record {
  success = false;
  reason = if is_empty (trim_space output) then e else trim_space output;
  command = command;
}

-- `run` stands for the external program: a command and its arguments give the combined output, and
-- an error when it could not start or did not exit with 0.
unfoldable pub verify :
    (Text → List Text → Text × Option Text)
    → Text
    → Reference
    → Text
    → CosignPolicy
    → Result CosignError CosignResult
unfolding command_result
verify run command ref digest cfg =
    let program = if is_empty command then codes "cosign" else command in
    do
      args ← cosign_verify_args ref digest cfg
      ok (command_result (program ∷ args) (run program args))

-- `sha256_hex` stands for the hexadecimal SHA-256 sum.
unfoldable pub cosign_policy_key : (Text → Text) → CosignPolicy → Text
cosign_policy_key sha256_hex cfg =
    codes "sha256:"
    ++ sha256_hex
        (join (0 ∷ []) (cfg.mode ∷ cfg.key ∷ cfg.issuer ∷ cfg.identity ∷ cfg.identity_regex ∷ []))
