-- ===== src/Credential/Accepts.antt =====
-- Exactly when a credential is accepted.
use did_rust.Prelude.{
  Text, str, Bytes, true, false, [], Option, none, some, Option-cases, ⊎-cases, inl, inr, ok, err,
  panic, ◌≡◌, ◌≢◌, ◌↔◌, refl, arith,
}
use did_rust.Prelude.Utf8.{is_utf8}
use did_rust.Crates.Json.{IsJson}
use did_rust.Services.{Services, network}
use did_rust.Resolver.Safety.{HasClient}
use did_rust.Signature.Accepts.{
  SignedBy, internal_verify_signature_iff, internal_verify_signature-ne-panic,
}
use did_rust.Credential.{
  get_str, get_object, map_get_str, is_expired, payload_value, internal_verify_vc,
}

module _ (S : Services) where
  open S use {json, chrono}

  -- At `now` a credential is authentic if it has a proof and an issuer, no date of expiry that can
  -- be read has passed, and a key of the issuer has signed all of it but the proof.
  pub record IsAuthentic (now : chrono.Time) (vc : json.Value) : Type 0 where
    pub proof : json.Map
    pub has_proof : get_object S vc (str "proof") ≡ some proof
    pub issuer : Text
    pub has_issuer : get_str S vc (str "issuer") ≡ some issuer
    pub not_expired :
        (exp : Text) (t : chrono.Time)
        → get_str S vc (str "expirationDate") ≡ some exp
        → chrono.parse_from_rfc3339 exp ≡ some t
        → chrono.is_after now t ≡ false
    pub sig_hex : Text
    pub has_sig : map_get_str S proof (str "proofValue") ≡ some sig_hex
    pub payload : Bytes
    pub serialized : json.to_vec (payload_value S vc) ≡ inr payload
    pub signed : SignedBy S payload sig_hex issuer

  is_expired-false :
      (now : chrono.Time) (date : Option Text)
      → is_expired S now date ≡ false
      → (exp : Text) (t : chrono.Time) → date ≡ some exp
      → chrono.parse_from_rfc3339 exp ≡ some t
      → chrono.is_after now t ≡ false
  unfolding is_expired
  is_expired-false now date h exp t e p = ground arith

  is_expired_of_dates :
      (now : chrono.Time) (date : Option Text)
      → ((exp : Text) (t : chrono.Time)
          → date ≡ some exp
          → chrono.parse_from_rfc3339 exp ≡ some t
          → chrono.is_after now t ≡ false)
      → is_expired S now date ≡ false
  unfolding is_expired
  is_expired_of_dates now none h = refl
  is_expired_of_dates now (some exp) h = elim (Option-cases (chrono.parse_from_rfc3339 exp)) [
    | inl e ↦ rw (e, is_expired)
    | inr (t, e) ↦ rw (e, is_expired) (h exp t refl e)
  ]

  module _ (now : chrono.Time) (vc : json.Value) where
    internal_verify_vc-IsAuthentic : internal_verify_vc S now vc ≡ ok tt → IsAuthentic now vc
    unfolding internal_verify_vc
    internal_verify_vc-IsAuthentic h = elim (Option-cases (get_object S vc (str "proof"))) [
      | inl e ↦ absurd (ground arith)
      | inr (proof, has_proof) ↦ elim (Option-cases (get_str S vc (str "issuer"))) [
        | inl e ↦ absurd (ground arith)
        | inr (issuer, has_issuer) ↦ elim (Option-cases (map_get_str S proof (str "proofValue"))) [
          | inl e ↦ absurd (ground arith)
          | inr (sig_hex, has_sig) ↦ elim (⊎-cases (json.to_vec (payload_value S vc))) [
            | inl (_, e) ↦ absurd (ground arith)
            | inr (payload, serialized) ↦ record {
              proof = proof;
              has_proof = has_proof;
              issuer = issuer;
              has_issuer = has_issuer;
              not_expired = is_expired-false now _ (ground arith);
              sig_hex = sig_hex;
              has_sig = has_sig;
              payload = payload;
              serialized = serialized;
              signed = (internal_verify_signature_iff S payload sig_hex issuer).0 (ground arith);
            }
          ]
        ]
      ]
    ]

    IsAuthentic-internal_verify_vc : IsAuthentic now vc → internal_verify_vc S now vc ≡ ok tt
    unfolding internal_verify_vc
    IsAuthentic-internal_verify_vc a = rw (
      a.has_proof,
      a.has_issuer,
      is_expired_of_dates now _ a.not_expired,
      a.has_sig,
      a.serialized,
      (internal_verify_signature_iff S a.payload a.sig_hex a.issuer).1 a.signed,
    )

    -- `internal_verify_vc` accepts a credential at `now` exactly if it is authentic: it has a
    -- proof object with a `proofValue` and an issuer, no date of expiry that can be read has
    -- passed, and a key of the issuer's document verifies the signature of the credential
    -- without its proof.
    pub internal_verify_vc_iff : (internal_verify_vc S now vc ≡ ok tt) ↔ IsAuthentic now vc
    internal_verify_vc_iff = (internal_verify_vc-IsAuthentic, IsAuthentic-internal_verify_vc)

  pub get_str-is_utf8 :
      IsJson json → (v : json.Value) (k t : Text) → get_str S v k ≡ some t → is_utf8 t ≡ true
  get_str-is_utf8 L v k t h = elim (Option-cases (json.value_get v k)) [
    | inl e ↦ absurd (ground arith)
    | inr (x, e) ↦ L.as_str-is_utf8 x (ground arith)
  ]

  pub internal_verify_vc-ne-panic :
      IsJson json
      → HasClient (network S)
      → (now : chrono.Time) (vc : json.Value) → internal_verify_vc S now vc ≢ panic
  unfolding internal_verify_vc
  internal_verify_vc-ne-panic L H now vc =
      grind (arith, internal_verify_signature-ne-panic S, get_str-is_utf8 L vc (str "issuer"))

  pub internal_verify_vc-err-nonempty :
      (now : chrono.Time) (vc : json.Value) (e : Text)
      → internal_verify_vc S now vc ≡ err e
      → e ≢ []
  unfolding internal_verify_vc str
  internal_verify_vc-err-nonempty now vc e h = ground arith
