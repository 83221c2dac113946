-- ===== src/Presentation/Verdict.antt =====
-- The reply to a presentation that is to be verified, as a client reads it.
use did_rust.Prelude.{
  ℕ, Text, str, Bool, true, false, [], ⊎-cases, Result-cases, ◌⊎◌, inl, inr, ok, ◌≡◌, ◌≢◌,
}
use did_rust.Crates.Json.{IsJson}
use did_rust.Services.{Services, network}
use did_rust.Resolver.Safety.{HasClient}
use did_rust.Credential.Verdict.{IsVerdict, verdict-IsVerdict}
use did_rust.Presentation.Errors.{internal_verify_vp-err-nonempty}
use did_rust.Presentation.Accepts.{
  IsAuthenticVp, internal_verify_vp_iff, internal_verify_vp-ne-panic,
}
use did_rust.Presentation.{internal_verify_vp, verify_vp}

module _ (S : Services) where
  open S use {json, chrono}

  -- What `verify_vp` returns is the print of a verdict.
  abbrev pub SaysVp : (ℕ → chrono.Time) → Text → Bool → Text → Type 0
  SaysVp clock vp_json valid error =
      (v : json.Value) × (verify_vp S clock vp_json ≡ ok (json.to_string v))
      × IsVerdict S v valid error

  -- If the JSON package is lawful, and the HTTP client can be built where the feature
  -- `http-resolver` is on, `verify_vp` always answers, without a panic, with the print of an
  -- object whose fields `valid`, `error` and `details` say: for a text that is not JSON, that it
  -- is invalid, for that reason; for a presentation that is authentic, that it is valid, with no
  -- error; for any other, that it is invalid, with an error that is not empty.
  pub verify_vp-cases :
      IsJson json
      → HasClient (network S)
      → (clock : ℕ → chrono.Time) (vp_json : Text)
      → ((e : Text) × (json.from_str vp_json ≡ inl e)
          × SaysVp clock vp_json false (str "Invalid JSON"))
        ⊎ ((vp : json.Value) × (json.from_str vp_json ≡ inr vp)
            × IsAuthenticVp S clock vp
            × SaysVp clock vp_json true [])
        ⊎ ((vp : json.Value) × (e : Text) × (json.from_str vp_json ≡ inr vp)
            × (¬ IsAuthenticVp S clock vp)
            × (e ≢ [])
            × SaysVp clock vp_json false e)
  unfolding verify_vp
  verify_vp-cases L H clock vp_json = elim (⊎-cases (json.from_str vp_json)) [
    | inl (e, failed) ↦ inl (e, failed, (_, rw (failed, verify_vp), verdict-IsVerdict S L false _))
    | inr (vp, parsed) ↦ elim (Result-cases (internal_verify_vp S clock vp)) [
      | inl (_, accepted) ↦ inr (
          inl (
            vp,
            parsed,
            (internal_verify_vp_iff S clock vp).0 accepted,
            (_, rw (parsed, verify_vp, accepted), verdict-IsVerdict S L true []),
          ))
      | inr (inl (e, refused)) ↦ inr (
          inr (
            vp,
            e,
            parsed,
            (λ a. cc ((internal_verify_vp_iff S clock vp).1 a)),
            internal_verify_vp-err-nonempty S clock vp e refused,
            (_, rw (parsed, verify_vp, refused), verdict-IsVerdict S L false e),
          ))
      | inr (inr broken) ↦ absurd (internal_verify_vp-ne-panic S L H clock vp broken)
    ]
  ]
