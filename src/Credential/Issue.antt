-- ===== src/Credential/Issue.antt =====
-- What `issue_vc` issues, and that `verify_vc` accepts it.
use did_rust.Prelude.{
  Text, str, text_eq, Bytes, length, true, false, [], ◌++◌, none, some, inr, ok, ◌≡◌, refl, ap, sym,
  ◌∙◌, ==_iff,
}
use did_rust.Prelude.Utf8.{is_utf8}
use did_rust.Crates.Json.{object, string_value, json_object}
use did_rust.Crates.Json.Fields.{as_object-object, get-insert_self, get-insert_ne}
use did_rust.Services.{Services, IsLawful}
use did_rust.Signature.Signs.{HasKey, SignedBy-sign}
use did_rust.Credential.{
  map_get_str, payload_value, private_key, sign_hex, vc_proof, issue_vc, report, verify_vc,
}
use did_rust.Credential.Fields.{
  get_str-object, get_object-object, map_get_str-insert_ne, map_get_str-insert_self,
  payload_value-insert,
}
use did_rust.Credential.Accepts.{IsAuthentic, internal_verify_vc_iff}

pub keys_differ :
    (text_eq (str "issuer") (str "proof") ≡ false)
    × (text_eq (str "issuer") (str "expirationDate") ≡ false)
    × (text_eq (str "proof") (str "issuer") ≡ false)
    × (text_eq (str "proof") (str "expirationDate") ≡ false)
unfolding str text_eq
keys_differ = (refl, refl, refl, refl)

module _ (S : Services) where
  open S use {primitives, json, chrono}
  open primitives use {bs58, ed25519}

  -- The document that is signed, and the one that is issued.
  abbrev pub unsigned : json.Map → Text → json.Map
  unsigned credential did = json.insert credential (str "issuer") (string_value json did)

  abbrev pub issued : json.Map → Text → Bytes → Bytes → json.Map
  issued credential did key_bytes payload =
      json.insert (unsigned credential did) (str "proof")
        (vc_proof S did (sign_hex S key_bytes payload))

  abbrev pub issued_document : json.Map → Text → Bytes → Bytes → json.Value
  issued_document credential did key_bytes payload =
      json.value (object (issued credential did key_bytes payload))

  abbrev pub vc_proof_map : Text → Text → json.Map
  vc_proof_map did sig_hex =
      let typed =
        json.insert json.new (str "type") (string_value json (str "Ed25519Signature2018")) in
      json.insert
        (json.insert typed (str "verificationMethod") (string_value json (did ++ str "#keys-1")))
        (str "proofValue") (string_value json sig_hex)

  module _ (L : IsLawful S) where
    pub private_key_lem :
        (key_b58 : Text) (key_bytes : Bytes)
        → bs58.decode key_b58 ≡ inr key_bytes
        → length key_bytes ≡ 32
        → private_key S key_b58 ≡ ok key_bytes
    unfolding private_key
    private_key_lem key_b58 key_bytes e h = rw (e, (==_iff (length key_bytes) 32).1 h)

    module _ (credential_json did key_b58 : Text) (vc : json.Value) (credential : json.Map)
        (key_bytes payload : Bytes) (parsed : json.from_str credential_json ≡ inr vc)
        (is_object : json.as_object vc ≡ some credential)
        (key : bs58.decode key_b58 ≡ inr key_bytes) (key_size : length key_bytes ≡ 32)
        (serialized : json.to_vec (json.value (object (unsigned credential did)))
          ≡ inr payload) where
      pub issue_vc_lem :
          issue_vc S credential_json did key_b58
          ≡ ok (json.to_string (json.value (object (issued credential did key_bytes payload))))
      unfolding issue_vc
      issue_vc_lem = rw (
        parsed,
        is_object,
        private_key_lem key_b58 key_bytes key key_size,
        serialized,
        as_object-object json L.json (unsigned credential did),
      )

      module _ (absent : json.get credential (str "proof") ≡ none) (did_text : is_utf8 did ≡ true)
          (has_key : HasKey S did (
            ed25519.verifying_key_as_bytes (ed25519.verifying_key (ed25519.signing_key key_bytes))))
          (now : chrono.Time)
          (not_expired : (exp : Text) (t : chrono.Time)
            → map_get_str S credential (str "expirationDate") ≡ some exp
            → chrono.parse_from_rfc3339 exp ≡ some t
            → chrono.is_after now t ≡ false) where
        pub issued-IsAuthentic :
            IsAuthentic S now (json.value (object (issued credential did key_bytes payload)))
        unfolding vc_proof json_object sign_hex payload_value
        issued-IsAuthentic =
            let signed = unsigned credential did in
            let sig = sign_hex S key_bytes payload in
            let array = L.primitives.ed25519.signature_to_bytes-IsArray _ in
            let sig_text = L.primitives.hex.encode-is_utf8 _ array.bytes in
            let m = issued credential did key_bytes payload in
            record {
              proof = vc_proof_map did sig;
              has_proof =
                  get_object-object S L m (vc_proof_map did sig) (str "proof")
                    (get-insert_self json L.json signed (str "proof") (vc_proof S did sig));
              issuer = did;
              has_issuer =
                  get_str-object S L m (str "issuer")
                  ∙ map_get_str-insert_ne S L signed (str "proof") (str "issuer") _ keys_differ.2
                  ∙ map_get_str-insert_self S L credential (str "issuer") did did_text;
              not_expired = λ exp t e. not_expired exp t (
                  sym (
                    map_get_str-insert_ne S L credential (str "issuer") (str "expirationDate") _
                      keys_differ.1)
                  ∙ sym (
                      map_get_str-insert_ne S L signed (str "proof") (str "expirationDate") _
                        keys_differ.3)
                  ∙ sym (get_str-object S L m (str "expirationDate"))
                  ∙ e);
              sig_hex = sig;
              has_sig = map_get_str-insert_self S L _ (str "proofValue") sig sig_text;
              payload = payload;
              serialized =
                  ap json.to_vec (
                    payload_value-insert S L signed (vc_proof S did sig) (
                      get-insert_ne json L.json credential (str "issuer") (str "proof") _
                        keys_differ.0
                      ∙ absent))
                  ∙ serialized;
              signed = SignedBy-sign S L (ed25519.signing_key key_bytes) payload did has_key;
            }

        -- Let a credential parse to an object with no proof, whose date of expiry, if it has one
        -- that can be read, is not before `now`; let the key decode from base 58 to 32 bytes,
        -- and the identifier be valid UTF-8 whose document lists the public key of these bytes;
        -- let the credential with its issuer serialize, and the document that is issued parse
        -- back from its print. If the packages are lawful, then `issue_vc` returns the print of
        -- that document, and `verify_vc` at `now` reports it as valid.
        pub verify_vc-issue_vc :
            json.from_str (json.to_string (issued_document credential did key_bytes payload))
              ≡ inr (issued_document credential did key_bytes payload)
            → (issue_vc S credential_json did key_b58
                ≡ ok (json.to_string (issued_document credential did key_bytes payload)))
              × (verify_vc S now (json.to_string (issued_document credential did key_bytes payload))
                  ≡ report S true [])
        unfolding verify_vc
        verify_vc-issue_vc printed = (
          issue_vc_lem,
          rw (printed, verify_vc, (internal_verify_vc_iff S now _).1 issued-IsAuthentic),
        )
