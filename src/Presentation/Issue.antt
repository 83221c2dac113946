-- ===== src/Presentation/Issue.antt =====
-- What `issue_vp` issues, and that `verify_vp` accepts it.
use did_rust.Prelude.{
  ℕ, Text, str, text_eq, Bytes, length, true, false, [], ◌∷◌, ◌++◌, none, some, inr, ok, ◌≡◌, refl,
  ap, ◌∙◌,
}
use did_rust.Prelude.Utf8.{is_utf8}
use did_rust.Crates.Json.{array, object, string_value, json_object}
use did_rust.Crates.Json.Fields.{as_object-object, get-insert_self, get-insert_ne}
use did_rust.Services.{Services, IsLawful}
use did_rust.Signature.Signs.{HasKey, SignedBy-sign}
use did_rust.Credential.{map_get_str, sign_hex, report}
use did_rust.Credential.Accepts.{IsAuthentic}
use did_rust.Credential.Fields.{
  get_str-object, get_object-object, map_get_str-insert_ne, map_get_str-insert_self,
  payload_value-insert,
}
use did_rust.Credential.Issue.{private_key_lem}
use did_rust.Presentation.{credentials, text_array, unsigned_vp, vp_proof, issue_vp, verify_vp}
use did_rust.Presentation.Accepts.{IsAuthenticVp, credentials-Holds, internal_verify_vp_iff}

keys_differ :
    (text_eq (str "challenge") (str "holder") ≡ false)
    × (text_eq (str "verifiableCredential") (str "holder") ≡ false)
    × (text_eq (str "proof") (str "holder") ≡ false)
    × (text_eq (str "proof") (str "verifiableCredential") ≡ false)
unfolding str text_eq
keys_differ = (refl, refl, refl, refl)

proof_keys_differ :
    (text_eq (str "challenge") (str "proofValue") ≡ false)
    × (text_eq (str "verifiableCredential") (str "proof") ≡ false)
    × (text_eq (str "challenge") (str "proof") ≡ false)
    × (text_eq (str "holder") (str "proof") ≡ false)
    × (text_eq (str "type") (str "proof") ≡ false)
    × (text_eq (str "@context") (str "proof") ≡ false)
unfolding str text_eq
proof_keys_differ = (refl, refl, refl, refl, refl, refl)

module _ (S : Services) where
  open S use {primitives, json, chrono}
  open primitives use {bs58, ed25519}

  -- The fields of the presentation, the last first.
  abbrev pub headed : json.Map
  headed =
      json.insert
        (json.insert json.new (str "@context")
          (text_array S (str "https://www.w3.org/2018/credentials/v1")))
        (str "type") (text_array S (str "VerifiablePresentation"))

  abbrev pub held : Text → json.Map
  held holder_did = json.insert headed (str "holder") (string_value json holder_did)

  abbrev pub challenged : Text → Text → json.Map
  challenged holder_did challenge =
      json.insert (held holder_did) (str "challenge") (string_value json challenge)

  abbrev pub unsigned : json.Value → Text → Text → json.Map
  unsigned vc holder_did challenge =
      json.insert (challenged holder_did challenge) (str "verifiableCredential")
        (json.value (array (vc ∷ [])))

  pub unsigned_vp-object :
      (vc : json.Value) (holder_did challenge : Text)
      → unsigned_vp S vc holder_did challenge
        ≡ json.value (object (unsigned vc holder_did challenge))
  unfolding unsigned_vp json_object
  unsigned_vp-object vc holder_did challenge = refl

  abbrev vp_proof_map : Text → Text → Text → json.Map
  vp_proof_map holder_did sig_hex challenge =
      let typed =
        json.insert json.new (str "type") (string_value json (str "Ed25519Signature2018")) in
      let method =
        json.insert typed (str "verificationMethod")
          (string_value json (holder_did ++ str "#keys-1")) in
      json.insert (json.insert method (str "proofValue") (string_value json sig_hex))
        (str "challenge") (string_value json challenge)

  -- The presentation that is issued.
  abbrev pub issued : json.Value → Text → Text → Bytes → Bytes → json.Map
  issued vc holder_did challenge key_bytes payload =
      json.insert (unsigned vc holder_did challenge) (str "proof")
        (vp_proof S holder_did (sign_hex S key_bytes payload) challenge)

  abbrev pub issued_document : json.Value → Text → Text → Bytes → Bytes → json.Value
  issued_document vc holder_did challenge key_bytes payload =
      json.value (object (issued vc holder_did challenge key_bytes payload))

  module _ (L : IsLawful S) where
    absent-proof :
        (vc : json.Value) (holder_did challenge : Text)
        → json.get (unsigned vc holder_did challenge) (str "proof") ≡ none
    absent-proof vc holder_did challenge =
        let d = proof_keys_differ in
        get-insert_ne json L.json (challenged holder_did challenge) _ _ _ d.1
        ∙ get-insert_ne json L.json (held holder_did) _ _ _ d.2
        ∙ get-insert_ne json L.json headed _ _ _ d.3
        ∙ get-insert_ne json L.json _ _ _ _ d.4
        ∙ get-insert_ne json L.json json.new _ _ _ d.5
        ∙ L.json.get-new (str "proof")

    holder-unsigned :
        (vc : json.Value) (holder_did challenge : Text)
        → is_utf8 holder_did ≡ true
        → map_get_str S (unsigned vc holder_did challenge) (str "holder") ≡ some holder_did
    holder-unsigned vc holder_did challenge h =
        map_get_str-insert_ne S L (challenged holder_did challenge) _ _ _ keys_differ.1
        ∙ map_get_str-insert_ne S L (held holder_did) _ _ _ keys_differ.0
        ∙ map_get_str-insert_self S L headed (str "holder") holder_did h

    credentials-issued :
        (vc : json.Value) (holder_did challenge : Text) (proof : json.Value)
        → credentials json (
            json.get
              (json.insert (unsigned vc holder_did challenge) (str "proof") proof)
              (str "verifiableCredential"))
          ≡ some (vc ∷ [])
    unfolding credentials
    credentials-issued vc holder_did challenge proof = rw (
      get-insert_ne json L.json (unsigned vc holder_did challenge) (str "proof")
          (str "verifiableCredential") proof keys_differ.3,
      get-insert_self json L.json (challenged holder_did challenge) (str "verifiableCredential")
          (json.value (array (vc ∷ []))),
      credentials,
      L.json.variant-value (array (vc ∷ [])) tt,
    )

    module _ (vc_json holder_did challenge key_b58 : Text) (vc : json.Value)
        (key_bytes payload : Bytes) (parsed : json.from_str vc_json ≡ inr vc)
        (key : bs58.decode key_b58 ≡ inr key_bytes) (key_size : length key_bytes ≡ 32)
        (serialized : json.to_vec (json.value (object (unsigned vc holder_did challenge)))
          ≡ inr payload) where
      pub issue_vp_lem :
          issue_vp S vc_json holder_did challenge key_b58
          ≡ ok (
              json.to_string
                (json.value (object (issued vc holder_did challenge key_bytes payload))))
      unfolding issue_vp
      issue_vp_lem = rw (
        parsed,
        unsigned_vp-object vc holder_did challenge,
        private_key_lem S L key_b58 key_bytes key key_size,
        serialized,
        as_object-object json L.json (unsigned vc holder_did challenge),
      )

      module _ (holder_text : is_utf8 holder_did ≡ true)
          (has_key : HasKey S holder_did (
            ed25519.verifying_key_as_bytes (ed25519.verifying_key (ed25519.signing_key key_bytes))))
          (clock : ℕ → chrono.Time) (authentic : IsAuthentic S (clock 0) vc) where
        issued-IsAuthenticVp :
            IsAuthenticVp S clock
              (json.value (object (issued vc holder_did challenge key_bytes payload)))
        unfolding vp_proof json_object sign_hex
        issued-IsAuthenticVp =
            let signed = unsigned vc holder_did challenge in
            let sig = sign_hex S key_bytes payload in
            let array = L.primitives.ed25519.signature_to_bytes-IsArray _ in
            let sig_text = L.primitives.hex.encode-is_utf8 _ array.bytes in
            let m = issued vc holder_did challenge key_bytes payload in
            let proof = vp_proof S holder_did sig challenge in
            let held = credentials-Holds json _ (vc ∷ []) (
              ap (credentials json) (L.json.value_get-object m (str "verifiableCredential"))
              ∙ credentials-issued vc holder_did challenge proof) in
            record {
              proof = vp_proof_map holder_did sig challenge;
              has_proof =
                  get_object-object S L m (vp_proof_map holder_did sig challenge) (str "proof")
                    (get-insert_self json L.json signed (str "proof") proof);
              holder = holder_did;
              has_holder =
                  get_str-object S L m (str "holder")
                  ∙ map_get_str-insert_ne S L signed (str "proof") (str "holder") _ keys_differ.2
                  ∙ holder-unsigned vc holder_did challenge holder_text;
              sig_hex = sig;
              has_sig =
                  map_get_str-insert_ne S L _ (str "challenge") (str "proofValue") _
                    proof_keys_differ.0
                  ∙ map_get_str-insert_self S L _ (str "proofValue") sig sig_text;
              payload = payload;
              serialized =
                  ap json.to_vec
                    (payload_value-insert S L signed proof (absent-proof vc holder_did challenge))
                  ∙ serialized;
              signed = SignedBy-sign S L (ed25519.signing_key key_bytes) payload holder_did has_key;
              vcs = vc ∷ [];
              field = held.0;
              has_vcs = held.1;
              holds = held.2;
              authentic = (authentic, tt);
            }

        -- Let a credential parse and be authentic at the first reading of the clock; let the key
        -- decode from base 58 to 32 bytes, and the holder be valid UTF-8 whose document lists
        -- the public key of these bytes; let the unsigned presentation serialize, and the one
        -- that is issued parse back from its print. If the packages are lawful, then `issue_vp`
        -- returns the print of that presentation, and `verify_vp` reports it as valid.
        pub verify_vp-issue_vp :
            json.from_str
                (json.to_string (issued_document vc holder_did challenge key_bytes payload))
              ≡ inr (issued_document vc holder_did challenge key_bytes payload)
            → (issue_vp S vc_json holder_did challenge key_b58
                ≡ ok (json.to_string (issued_document vc holder_did challenge key_bytes payload)))
              × (verify_vp S clock
                    (json.to_string (issued_document vc holder_did challenge key_bytes payload))
                  ≡ report S true [])
        unfolding verify_vp
        verify_vp-issue_vp printed = (
          issue_vp_lem,
          rw (printed, verify_vp, (internal_verify_vp_iff S clock _).1 issued-IsAuthenticVp),
        )
