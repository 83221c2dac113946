-- ===== src/Did/Issues.antt =====
-- A credential issued with what `generate_did` generated.
use did_rust.Prelude.{Text, str, Bytes, true, false, [], ◌++◌, none, some, inr, ok, ◌≡◌, sym, subst}
use did_rust.Prelude.Utf8.{is_utf8}
use did_rust.Crates.Json.{object}
use did_rust.Services.{Services, IsLawful}
use did_rust.Resolver.Key.{multikey-IsBytes}
use did_rust.Signature.Signs.{HasKey, HasKey-key_did}
use did_rust.Credential.{map_get_str, issue_vc, verify_vc, report}
use did_rust.Credential.Issue.{unsigned, issued_document, verify_vc-issue_vc}
use did_rust.Did.{web_domain, ed25519_multibase, key_reply, generate_did}
use did_rust.Did.Generate.{generated_did, did_text}

module _ (S : Services) where
  open S use {primitives, json, chrono}
  open primitives use {bs58, ed25519}

  module _ (sk : ed25519.SigningKey) where
    abbrev public_key : Bytes
    public_key = ed25519.verifying_key_as_bytes (ed25519.verifying_key sk)

    -- The identifier and the private key of a reply.
    abbrev pub generated : Text
    generated = str "did:key:" ++ ed25519_multibase S public_key

    abbrev pub generated_key : Text
    generated_key = bs58.encode (ed25519.signing_key_to_bytes sk)

    abbrev pub certified : json.Map → Bytes → json.Value
    certified credential payload =
        issued_document S credential generated (ed25519.signing_key_to_bytes sk) payload

    module _ (L : IsLawful S) where
      pub generated-HasKey : HasKey S generated (
          ed25519.verifying_key_as_bytes
            (ed25519.verifying_key (ed25519.signing_key (ed25519.signing_key_to_bytes sk))))
      generated-HasKey =
          subst
            (λ d. HasKey S d (
              ed25519.verifying_key_as_bytes
                (ed25519.verifying_key (ed25519.signing_key (ed25519.signing_key_to_bytes sk)))))
            (sym (generated_did S sk [] L)) (HasKey-key_did S L (ed25519.signing_key_to_bytes sk))

      pub generated-is_utf8 : is_utf8 generated ≡ true
      generated-is_utf8 =
          let array =
            L.primitives.ed25519.verifying_key_as_bytes-IsArray (ed25519.verifying_key sk) in
          did_text S sk [] L public_key
            (L.primitives.bs58.encode-is_utf8 _ (multikey-IsBytes public_key array))

      -- The private key of a reply decodes to the bytes of the key.
      pub decode-generated_key : bs58.decode generated_key ≡ inr (ed25519.signing_key_to_bytes sk)
      decode-generated_key =
          let array = L.primitives.ed25519.signing_key_to_bytes-IsArray sk in
          L.primitives.bs58.decode-encode _ array.bytes

      pub verify_vc-generate_did :
          (method credential_json : Text) (vc : json.Value) (credential : json.Map)
          (payload : Bytes) (now : chrono.Time)
          → web_domain method ≡ none
          → json.from_str credential_json ≡ inr vc
          → json.as_object vc ≡ some credential
          → json.to_vec (json.value (object (unsigned S credential generated))) ≡ inr payload
          → json.get credential (str "proof") ≡ none
          → ((exp : Text) (t : chrono.Time)
              → map_get_str S credential (str "expirationDate") ≡ some exp
              → chrono.parse_from_rfc3339 exp ≡ some t
              → chrono.is_after now t ≡ false)
          → json.from_str (json.to_string (certified credential payload))
            ≡ inr (certified credential payload)
          → (generate_did S sk method ≡ ok (json.to_string (key_reply S generated_key public_key)))
            × (issue_vc S credential_json generated generated_key
                ≡ ok (json.to_string (certified credential payload)))
            × (verify_vc S now (json.to_string (certified credential payload)) ≡ report S true [])
      unfolding generate_did
      verify_vc-generate_did method credential_json vc credential payload now method_key parsed
            is_object serialized absent not_expired printed =
          let sk_array = L.primitives.ed25519.signing_key_to_bytes-IsArray sk in
          let (issues, verifies) =
            verify_vc-issue_vc S L credential_json generated generated_key vc credential
              (ed25519.signing_key_to_bytes sk) payload parsed is_object decode-generated_key
              sk_array.size serialized absent generated-is_utf8 generated-HasKey now not_expired
              printed in
          (rw (method_key, generate_did), issues, verifies)
