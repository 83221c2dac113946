-- ===== src/Presentation/Errors.antt =====
-- The errors of the check of a presentation.
use did_rust.Prelude.{
  ℕ, suc, Text, str, List, [], ◌∷◌, Result-cases, inl, inr, err, ◌≡◌, ◌≢◌, arith,
}
use did_rust.Services.{Services}
use did_rust.Credential.{internal_verify_vc}
use did_rust.Credential.Accepts.{internal_verify_vc-err-nonempty}
use did_rust.Presentation.{
  credential_error, check_signature, verify_credentials, internal_verify_vp,
}

module _ (S : Services) where
  open S use {json, chrono}

  credential_error-nonempty : (e : Text) → e ≢ [] → credential_error S e ≢ []
  unfolding credential_error str
  credential_error-nonempty e h = ground arith

  verify_credentials-err-nonempty :
      (clock : ℕ → chrono.Time) (i : ℕ) (vcs : List json.Value) (e : Text)
      → verify_credentials S clock i vcs ≡ err e
      → e ≢ []
  unfolding verify_credentials
  verify_credentials-err-nonempty clock i [] e h = cc
  verify_credentials-err-nonempty clock i (vc ∷ vcs) e h =
      elim (Result-cases (internal_verify_vc S (clock i) vc)) [
        | inl (_, accepted) ↦ verify_credentials-err-nonempty clock (suc i) vcs e (ground arith)
        | inr (inl (e', refused)) ↦
            let inner =
              credential_error-nonempty e'
                (internal_verify_vc-err-nonempty S (clock i) vc e' refused) in
            ground (arith, inner)
        | inr (inr broken) ↦ absurd (ground arith)
      ]

  -- An error that a presentation is refused with says something.
  pub internal_verify_vp-err-nonempty :
      (clock : ℕ → chrono.Time) (vp : json.Value) (e : Text)
      → internal_verify_vp S clock vp ≡ err e
      → e ≢ []
  unfolding internal_verify_vp check_signature str
  internal_verify_vp-err-nonempty clock vp e h =
      grind (arith, verify_credentials-err-nonempty clock 0)
