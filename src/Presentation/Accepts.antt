-- ===== src/Presentation/Accepts.antt =====
-- Exactly when a presentation is accepted.
use did_rust.Prelude.{
  ℕ, suc, Text, str, Bytes, List, [], ◌∷◌, Option, none, some, Option-cases, ⊎-cases, Result-cases,
  ◌⊎◌, inl, inr, ok, panic, ◌≡◌, ◌≢◌, ◌↔◌, refl, ap, sym, ◌∙◌, arith,
}
use did_rust.Crates.Json.{Json, IsJson, null, bool, number, string, array, object}
use did_rust.Services.{Services, network}
use did_rust.Resolver.Safety.{HasClient}
use did_rust.Signature.Accepts.{
  SignedBy, internal_verify_signature_iff, internal_verify_signature-ne-panic,
}
use did_rust.Credential.{get_str, get_object, map_get_str, payload_value, internal_verify_vc}
use did_rust.Credential.Accepts.{
  IsAuthentic, get_str-is_utf8, internal_verify_vc_iff, internal_verify_vc-ne-panic,
}
use did_rust.Presentation.{credentials, check_signature, verify_credentials, internal_verify_vp}

module _ (J : Json) where
  -- The credentials that a value holds: the elements of an array, or the value if it is an object.
  abbrev pub Holds : J.Value → List J.Value → Type 0
  Holds v vcs =
      (J.variant v ≡ array vcs) ⊎ ((m : J.Map) × (J.variant v ≡ object m) × (vcs ≡ v ∷ []))

  pub credentials-Holds :
      (field : Option J.Value) (vcs : List J.Value)
      → credentials J field ≡ some vcs
      → (v : J.Value) × (field ≡ some v) × Holds v vcs
  unfolding credentials
  credentials-Holds none vcs h = absurd (ground arith)
  credentials-Holds (some v) vcs h = (
    v,
    refl,
    elim (J.variant v) as (λ w. J.variant v ≡ w → Holds v vcs) [
      | array xs ↦ λ e. let same : xs ≡ vcs = ground arith in inl (e ∙ ap array same)
      | object m ↦ λ e. let same : v ∷ [] ≡ vcs = ground arith in inr (m, e, sym same)
      | null ↦ λ e. absurd (ground arith)
      | bool b ↦ λ e. absurd (ground arith)
      | number n ↦ λ e. absurd (ground arith)
      | string t ↦ λ e. absurd (ground arith)
    ]
        refl,
  )

  Holds-credentials :
      (v : J.Value) (vcs : List J.Value) → Holds v vcs → credentials J (some v) ≡ some vcs
  unfolding credentials
  Holds-credentials v vcs (inl e) = rw (e, credentials)
  Holds-credentials v vcs (inr (m, e, same)) = rw (e, credentials, same)

module _ (S : Services) where
  open S use {json, chrono}

  -- Each credential is authentic when the clock is read for it.
  abbrev pub AllAuthentic : (ℕ → chrono.Time) → ℕ → List json.Value → Type 0
  AllAuthentic clock i [] = Unit
  AllAuthentic clock i (vc ∷ vcs) = IsAuthentic S (clock i) vc × AllAuthentic clock (suc i) vcs

  -- A presentation is authentic if a key of its holder has signed all of it but the proof, and
  -- each credential in its field `verifiableCredential`, an array or one object, is authentic.
  pub record IsAuthenticVp (clock : ℕ → chrono.Time) (vp : json.Value) : Type 0 where
    pub proof : json.Map
    pub has_proof : get_object S vp (str "proof") ≡ some proof
    pub holder : Text
    pub has_holder : get_str S vp (str "holder") ≡ some holder
    pub sig_hex : Text
    pub has_sig : map_get_str S proof (str "proofValue") ≡ some sig_hex
    pub payload : Bytes
    pub serialized : json.to_vec (payload_value S vp) ≡ inr payload
    pub signed : SignedBy S payload sig_hex holder
    pub vcs : List json.Value
    pub field : json.Value
    pub has_vcs : json.value_get vp (str "verifiableCredential") ≡ some field
    pub holds : Holds json field vcs
    pub authentic : AllAuthentic clock 0 vcs

  verify_credentials-AllAuthentic :
      (clock : ℕ → chrono.Time) (i : ℕ) (vcs : List json.Value)
      → verify_credentials S clock i vcs ≡ ok tt
      → AllAuthentic clock i vcs
  unfolding verify_credentials
  verify_credentials-AllAuthentic clock i [] h = tt
  verify_credentials-AllAuthentic clock i (vc ∷ vcs) h =
      elim (Result-cases (internal_verify_vc S (clock i) vc)) [
        | inl (_, e) ↦ (
          (internal_verify_vc_iff S (clock i) vc).0 e,
          verify_credentials-AllAuthentic clock (suc i) vcs (ground arith),
        )
        | inr (inl (_, e)) ↦ absurd (ground arith)
        | inr (inr e) ↦ absurd (ground arith)
      ]

  AllAuthentic-verify_credentials :
      (clock : ℕ → chrono.Time) (i : ℕ) (vcs : List json.Value)
      → AllAuthentic clock i vcs
      → verify_credentials S clock i vcs ≡ ok tt
  unfolding verify_credentials
  AllAuthentic-verify_credentials clock i [] a = refl
  AllAuthentic-verify_credentials clock i (vc ∷ vcs) a =
      rw ((internal_verify_vc_iff S (clock i) vc).1 a.0, verify_credentials)
        (AllAuthentic-verify_credentials clock (suc i) vcs a.1)

  verify_credentials-ne-panic :
      IsJson json
      → HasClient (network S)
      → (clock : ℕ → chrono.Time) (i : ℕ) (vcs : List json.Value)
      → verify_credentials S clock i vcs ≢ panic
  unfolding verify_credentials
  verify_credentials-ne-panic L H clock i [] = cc
  verify_credentials-ne-panic L H clock i (vc ∷ vcs) = ground (
    arith,
    verify_credentials-ne-panic L H clock (suc i) vcs,
    internal_verify_vc-ne-panic S L H (clock i) vc,
  )

  module _ (clock : ℕ → chrono.Time) (vp : json.Value) where
    internal_verify_vp-IsAuthenticVp :
        internal_verify_vp S clock vp ≡ ok tt → IsAuthenticVp clock vp
    unfolding internal_verify_vp check_signature
    internal_verify_vp-IsAuthenticVp h = elim (Option-cases (get_object S vp (str "proof"))) [
      | inl e ↦ absurd (ground arith)
      | inr (proof, has_proof) ↦ elim (Option-cases (get_str S vp (str "holder"))) [
        | inl e ↦ absurd (ground arith)
        | inr (holder, has_holder) ↦ elim (Option-cases (map_get_str S proof (str "proofValue"))) [
          | inl e ↦ absurd (ground arith)
          | inr (sig_hex, has_sig) ↦ elim (⊎-cases (json.to_vec (payload_value S vp))) [
            | inl (_, e) ↦ absurd (ground arith)
            | inr (payload, serialized) ↦
                elim (Option-cases
                  (credentials json (json.value_get vp (str "verifiableCredential")))) [
                    | inl e ↦ absurd (ground arith)
                    | inr (vcs, has_vcs) ↦
                        let found = credentials-Holds json _ vcs has_vcs in
                        record {
                          proof = proof;
                          has_proof = has_proof;
                          holder = holder;
                          has_holder = has_holder;
                          sig_hex = sig_hex;
                          has_sig = has_sig;
                          payload = payload;
                          serialized = serialized;
                          signed =
                              (internal_verify_signature_iff S payload sig_hex holder).0
                                (ground arith);
                          vcs = vcs;
                          field = found.0;
                          has_vcs = found.1;
                          holds = found.2;
                          authentic = verify_credentials-AllAuthentic clock 0 vcs (ground arith);
                        }
                  ]
          ]
        ]
      ]
    ]

    IsAuthenticVp-internal_verify_vp :
        IsAuthenticVp clock vp → internal_verify_vp S clock vp ≡ ok tt
    unfolding internal_verify_vp check_signature
    IsAuthenticVp-internal_verify_vp a =
        rw
          (
            a.has_proof,
            a.has_holder,
            a.has_sig,
            a.serialized,
            (internal_verify_signature_iff S a.payload a.sig_hex a.holder).1 a.signed,
            a.has_vcs,
            Holds-credentials json a.field a.vcs a.holds,
          )
          (AllAuthentic-verify_credentials clock 0 a.vcs a.authentic)

    -- `internal_verify_vp` accepts a presentation exactly if it is authentic: it has a proof
    -- object with a `proofValue` and a holder, a key of the holder's document verifies the
    -- signature of the presentation without its proof, and its field `verifiableCredential` is
    -- an array, each element of which is authentic when the clock is read for it, or an object
    -- that is authentic at the first reading.
    pub internal_verify_vp_iff : (internal_verify_vp S clock vp ≡ ok tt) ↔ IsAuthenticVp clock vp
    internal_verify_vp_iff = (internal_verify_vp-IsAuthenticVp, IsAuthenticVp-internal_verify_vp)

  pub internal_verify_vp-ne-panic :
      IsJson json
      → HasClient (network S)
      → (clock : ℕ → chrono.Time) (vp : json.Value) → internal_verify_vp S clock vp ≢ panic
  unfolding internal_verify_vp check_signature
  internal_verify_vp-ne-panic L H clock vp = grind (
    arith,
    internal_verify_signature-ne-panic S,
    verify_credentials-ne-panic L H clock 0,
    get_str-is_utf8 S L vp (str "holder"),
  )
