-- ===== src/Ffi/Written.antt =====
-- A credential that a client of the C interface writes field by field, and issues with what was
-- generated. No hypothesis says that it is read back.
use did_rust.Prelude.{
  ℕ, suc, Text, List, str, true, false, [], ◌∷◌, ◌++◌, none, some, inr, ok, ◌≡◌, refl, ap, ◌∙◌,
  subst, strip_prefix,
}
use did_rust.Prelude.Utf8.{is_utf8, is_utf8-append}
use did_rust.Crates.Json.{Json, IsJson, object, json_object}
use did_rust.Crates.Json.Fields.{as_object-object, field_of}
use did_rust.Crates.Json.Tree.{
  IsReadBack, build, build_onto, fields, text, Members, member, end, MembersAreWritable,
}
use did_rust.Services.{Services, IsLawful}
use did_rust.Credential.{map_get_str, vc_proof, sign_hex, verdict}
use did_rust.Credential.Issue.{unsigned, issue_vc_lem}
use did_rust.Did.{web_domain}
use did_rust.Did.Issues.{
  generated, generated_key, certified, generated-is_utf8, decode-generated_key,
}
use did_rust.Ffi.{issue_vc_ffi, verify_vc_ffi}
use did_rust.Ffi.EndToEnd.{verify_vc_ffi-generate_did_ffi, issue_vc_ffi-text, generated_key-is_utf8}
use did_rust.Ffi.Strings.{c_string-to_string}

abbrev pub extend : Members → Members → Members
extend end ns = ns
extend (member k t ms) ns = member k t (extend ms ns)

extend-AreWritable :
    (n : ℕ) (ms ns : Members)
    → MembersAreWritable n ms
    → MembersAreWritable n ns
    → MembersAreWritable n (extend ms ns)
extend-AreWritable n end ns h k = k
extend-AreWritable n (member j t ms) ns h k = (h.0, h.1, extend-AreWritable n ms ns h.2 k)

module _ (J : Json) where
  build_onto-extend :
      (m : J.Map) (ms ns : Members)
      → build_onto J m (extend ms ns) ≡ build_onto J (build_onto J m ms) ns
  build_onto-extend m end ns = refl
  build_onto-extend m (member k t ms) ns = build_onto-extend (J.insert m k (build J t)) ms ns

  abbrev pub written : Members → List (Text × J.Value)
  written end = []
  written (member k t ms) = (k, build J t) ∷ written ms

  get-build_onto :
      (L : IsJson J) (m : J.Map) (ms : Members) (k : Text)
      → J.get (build_onto J m ms) k ≡ field_of (written ms) k (J.get m k)
  get-build_onto L m end k = refl
  get-build_onto L m (member j t ms) k =
      get-build_onto L (J.insert m j (build J t)) ms k
      ∙ ap (field_of (written ms) k) (L.get-insert m j k (build J t))

  -- A field of an object that is written.
  pub get-written :
      (L : IsJson J) (ms : Members) (k : Text)
      → J.get (build_onto J J.new ms) k ≡ field_of (written ms) k none
  get-written L ms k = get-build_onto L J.new ms k ∙ ap (field_of (written ms) k) (L.get-new k)

  pub written-reads :
      IsReadBack J
      → (ms : Members) → MembersAreWritable 126 ms
      → J.from_str (J.to_string (build J (fields ms))) ≡ inr (build J (fields ms))
  written-reads R ms h = R.from_str-to_string (fields ms) h

module _ (S : Services) (L : IsLawful S) (R : IsReadBack S.json)
    (sk : S.primitives.ed25519.SigningKey) (ms : Members) where
  open S use {primitives, json, chrono}
  open primitives use {ed25519}

  abbrev pub credential : json.Map
  credential = build_onto json json.new ms

  abbrev pub credential_json : Text
  credential_json = json.to_string (build json (fields ms))

  abbrev pub payload : Text
  payload = json.to_string (json.value (object (unsigned S credential (generated S sk))))

  -- The document that is issued, as a value and as it is written.
  abbrev pub certificate : json.Value
  certificate = certified S sk credential payload

  abbrev pub signature : Text
  signature = sign_hex S (ed25519.signing_key_to_bytes sk) payload

  pub signature-is_utf8 : is_utf8 signature ≡ true
  unfolding sign_hex
  signature-is_utf8 =
      let array = L.primitives.ed25519.signature_to_bytes-IsArray _ in
      L.primitives.hex.encode-is_utf8 _ array.bytes

  abbrev pub certificate_members : Members
  certificate_members = extend ms (
      member (str "issuer") (text (generated S sk)) (
        member (str "proof")
          (fields (
            member (str "type") (text (str "Ed25519Signature2018")) (
              member (str "verificationMethod") (text (generated S sk ++ str "#keys-1"))
                (member (str "proofValue") (text signature) end))))
          end))

  pub certificate-IsWritten : build json (fields certificate_members) ≡ certificate
  unfolding vc_proof json_object
  certificate-IsWritten = ap (λ m. json.value (object m)) (build_onto-extend json json.new ms _)

  pub certificate_AreWritable :
      (n : ℕ) → MembersAreWritable (suc n) ms → MembersAreWritable (suc n) certificate_members
  unfolding str is_utf8
  certificate_AreWritable n w =
      let did = generated-is_utf8 S sk L in
      extend-AreWritable (suc n) ms _ w (
        refl,
        did,
        (
          refl,
          (
            refl,
            refl,
            (
              refl,
              is_utf8-append (generated S sk) (str "#keys-1") did refl,
              (refl, signature-is_utf8, tt),
            ),
          ),
          tt,
        ),
      )

  module _ (w : MembersAreWritable 126 ms) where
    pub credential-reads : json.from_str credential_json ≡ inr (build json (fields ms))
    credential-reads = written-reads json R ms w

    pub issue_vc_ffi-written :
        issue_vc_ffi S (some credential_json) (some (generated S sk)) (some (generated_key S sk))
        ≡ ok (some (json.to_string certificate))
    issue_vc_ffi-written =
        let array = L.primitives.ed25519.signing_key_to_bytes-IsArray sk in
        rw (
          issue_vc_ffi-text S sk L credential_json _ _ (R.to_string-is_utf8 _)
              (generated-is_utf8 S sk L) (generated_key-is_utf8 S sk L),
          issue_vc_lem S L credential_json (generated S sk) (generated_key S sk)
              (build json (fields ms)) credential (ed25519.signing_key_to_bytes sk) payload
              credential-reads (as_object-object json L.json credential)
              (decode-generated_key S sk L) array.size (R.to_vec_lem _),
          c_string-to_string json L.json certificate,
        )

    pub certificate-reads : json.from_str (json.to_string certificate) ≡ inr certificate
    certificate-reads =
        subst (λ v. json.from_str (json.to_string v) ≡ inr v) certificate-IsWritten
          (written-reads json R certificate_members (certificate_AreWritable 125 w))

    pub verify_vc_ffi-written :
        (now : chrono.Time)
        → json.get credential (str "proof") ≡ none
        → ((exp : Text) (t : chrono.Time)
            → map_get_str S credential (str "expirationDate") ≡ some exp
            → chrono.parse_from_rfc3339 exp ≡ some t
            → chrono.is_after now t ≡ false)
        → verify_vc_ffi S now (some (json.to_string certificate))
          ≡ ok (some (json.to_string (verdict S true [])))
    unfolding web_domain strip_prefix str is_utf8
    verify_vc_ffi-written now absent not_expired =
        (verify_vc_ffi-generate_did_ffi S sk L [] credential_json (build json (fields ms))
          credential payload now refl credential-reads (as_object-object json L.json credential)
          (R.to_vec_lem _) absent not_expired certificate-reads refl (R.to_string-is_utf8 _)
          (R.to_string-is_utf8 _)).2

    -- Let the packages be lawful, and serde_json read back what it printed. Let a credential be
    -- written field by field, without numbers, with valid texts and nested at most 127 deep,
    -- itself included, with no proof, and its date of expiry, if it has one that can be read,
    -- not before `now`. Then through the C interface, with a generated identifier and its
    -- private key, `issue_vc_ffi` returns the print of the credential with its issuer and the
    -- proof, the print is read back as that document, and `verify_vc_ffi` at `now` reports it as
    -- valid.
    pub verify_vc_ffi-issue_vc_ffi :
        (now : chrono.Time)
        → json.get credential (str "proof") ≡ none
        → ((exp : Text) (t : chrono.Time)
            → map_get_str S credential (str "expirationDate") ≡ some exp
            → chrono.parse_from_rfc3339 exp ≡ some t
            → chrono.is_after now t ≡ false)
        → (issue_vc_ffi S (some credential_json) (some (generated S sk)) (some (generated_key S sk))
            ≡ ok (some (json.to_string certificate)))
          × (json.from_str (json.to_string certificate) ≡ inr certificate)
          × (verify_vc_ffi S now (some (json.to_string certificate))
              ≡ ok (some (json.to_string (verdict S true []))))
    verify_vc_ffi-issue_vc_ffi now absent not_expired =
        (issue_vc_ffi-written, certificate-reads, verify_vc_ffi-written now absent not_expired)
