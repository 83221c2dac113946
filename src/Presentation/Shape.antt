-- ===== src/Presentation/Shape.antt =====
-- What `issue_vp` issues has the shape of the struct `VerifiablePresentation`.
use did_rust.Prelude.{
  Text, str, text_eq, length, inr, Bytes, true, List, [], ◌∷◌, ◌++◌, none, some, ok, ◌≡◌, refl,
}
use did_rust.Prelude.Utf8.{is_utf8, is_utf8-append}
use did_rust.Crates.Json.{string, array, object, json_object, string_value}
use did_rust.Crates.Json.Fields.{object_map, get-object_map, field_of}
use did_rust.Services.{Services, IsLawful}
use did_rust.Document.{
  Proof, VerifiablePresentation, Read, read_all, read_str, read_array, read_optional, defaulted,
  maybe, proof_of_map, proof_of_seq, proof_of_value, presentation_of_map, presentation_of_seq,
  presentation_of_value,
}
use did_rust.Document.RoundTrip.{
  read_struct-object, read_str-string, required-object_map, defaulted-object_map, read_array-array,
}
use did_rust.Credential.{sign_hex}
use did_rust.Presentation.{text_array, vp_proof, issue_vp}
use did_rust.Presentation.Issue.{unsigned, issued, issued_document, issue_vp_lem}

literals-is_utf8 :
    (is_utf8 (str "#keys-1") ≡ true)
    × (is_utf8 (str "Ed25519Signature2018") ≡ true)
    × (is_utf8 (str "VerifiablePresentation") ≡ true)
    × (is_utf8 (str "https://www.w3.org/2018/credentials/v1") ≡ true)
unfolding is_utf8 str
literals-is_utf8 = (refl, refl, refl, refl)

module _ (S : Services) (L : IsLawful S) where
  open S use {primitives, json}
  open primitives use {bs58, hex, ed25519}

  abbrev proof_fields : Text → Text → Text → List (Text × json.Value)
  proof_fields holder sig_hex challenge =
      (str "type", string_value json (str "Ed25519Signature2018"))
      ∷ (str "verificationMethod", string_value json (holder ++ str "#keys-1"))
      ∷ (str "proofValue", string_value json sig_hex)
      ∷ (str "challenge", string_value json challenge)
      ∷ []

  abbrev pub issued_proof : Text → Text → Text → Proof
  issued_proof holder sig_hex challenge = record {
    type_ = str "Ed25519Signature2018";
    verification_method = holder ++ str "#keys-1";
    proof_value = sig_hex;
    created = none;
    challenge = some challenge;
    domain = none;
  }

  -- A field that was not written is read as its default.
  absent-object_map :
      {A : Type 0} (d : A) (read : json.Value → Read json A) (fields : List (Text × json.Value))
      (k : Text)
      → field_of fields k none ≡ none
      → defaulted json d read (object_map json L.json fields) k ≡ ok d
  unfolding defaulted
  absent-object_map d read fields k h = rw (get-object_map json L.json fields k, defaulted, h)

  optional_str :
      (t : Text)
      → is_utf8 t ≡ true
      → read_optional json (read_str json) (string_value json t) ≡ ok (some t)
  unfolding read_optional
  optional_str t h =
      rw (L.json.variant-value (string t) h, read_optional, read_str-string json L.json t h)

  variant-vp_proof :
      (holder sig_hex challenge : Text)
      → json.variant (vp_proof S holder sig_hex challenge)
        ≡ object (object_map json L.json (proof_fields holder sig_hex challenge))
  unfolding vp_proof json_object
  variant-vp_proof holder sig_hex challenge = L.json.variant-value (object _) tt

  proof_of_value-vp_proof :
      (holder sig_hex challenge : Text)
      → is_utf8 holder ≡ true
      → is_utf8 sig_hex ≡ true
      → is_utf8 challenge ≡ true
      → proof_of_value json (vp_proof S holder sig_hex challenge)
        ≡ ok (issued_proof holder sig_hex challenge)
  unfolding proof_of_value proof_of_map vp_proof maybe text_eq str
  proof_of_value-vp_proof holder sig_hex challenge h s c =
      let fields = proof_fields holder sig_hex challenge in
      let text = defaulted-object_map json L.json (read_str json) fields in
      rw (
        read_struct-object json L.json (proof_of_map json) (proof_of_seq json) _ _
            (variant-vp_proof holder sig_hex challenge),
        text (str "type") _ refl [] (str "Ed25519Signature2018")
            (read_str-string json L.json _ literals-is_utf8.1),
        text (str "verificationMethod") _ refl [] (holder ++ str "#keys-1")
            (read_str-string json L.json _ (is_utf8-append holder _ h literals-is_utf8.0)),
        required-object_map json L.json (read_str json) fields (str "proofValue") _ refl sig_hex
            (read_str-string json L.json sig_hex s),
        absent-object_map none (read_optional json (read_str json)) fields (str "created") refl,
        defaulted-object_map json L.json (read_optional json (read_str json)) fields
            (str "challenge") _ refl none (some challenge) (optional_str challenge c),
        absent-object_map none (read_optional json (read_str json)) fields (str "domain") refl,
      )

  optional_proof :
      (holder sig_hex challenge : Text)
      → is_utf8 holder ≡ true
      → is_utf8 sig_hex ≡ true
      → is_utf8 challenge ≡ true
      → read_optional json (proof_of_value json) (vp_proof S holder sig_hex challenge)
        ≡ ok (some (issued_proof holder sig_hex challenge))
  unfolding read_optional
  optional_proof holder sig_hex challenge h s c = rw (
    variant-vp_proof holder sig_hex challenge,
    read_optional,
    proof_of_value-vp_proof holder sig_hex challenge h s c,
  )

  read_array-text_array :
      (t : Text) → is_utf8 t ≡ true → read_array json (read_str json) (text_array S t) ≡ ok (t ∷ [])
  unfolding read_all
  read_array-text_array t h =
      rw (read_array-array json L.json (read_str json), read_str-string json L.json t h)

  module _ (vc : json.Value) (holder challenge : Text) (key_bytes payload : Bytes) where
    abbrev fields : List (Text × json.Value)
    fields =
        (str "@context", text_array S (str "https://www.w3.org/2018/credentials/v1"))
        ∷ (str "type", text_array S (str "VerifiablePresentation"))
        ∷ (str "holder", string_value json holder)
        ∷ (str "challenge", string_value json challenge)
        ∷ (str "verifiableCredential", json.value (array (vc ∷ [])))
        ∷ (str "proof", vp_proof S holder (sign_hex S key_bytes payload) challenge)
        ∷ []

    abbrev pub issued_presentation : VerifiablePresentation json
    issued_presentation = record {
      context = str "https://www.w3.org/2018/credentials/v1" ∷ [];
      type_ = str "VerifiablePresentation" ∷ [];
      holder = holder;
      verifiable_credential = vc ∷ [];
      proof = some (issued_proof holder (sign_hex S key_bytes payload) challenge);
    }

    presentation_of_value-issued :
        is_utf8 holder ≡ true
        → is_utf8 challenge ≡ true
        → presentation_of_value json (issued_document S vc holder challenge key_bytes payload)
          ≡ ok issued_presentation
    unfolding presentation_of_value presentation_of_map maybe text_eq str read_all sign_hex
    presentation_of_value-issued h c =
        let array = L.primitives.ed25519.signature_to_bytes-IsArray _ in
        let sig_text = L.primitives.hex.encode-is_utf8 _ array.bytes in
        let texts = read_array json (read_str json) in
        rw (
          read_struct-object json L.json (presentation_of_map json) (presentation_of_seq json) _ _
              (L.json.variant-value (object (issued S vc holder challenge key_bytes payload)) tt),
          defaulted-object_map json L.json texts fields (str "@context") _ refl [] _
              (read_array-text_array _ literals-is_utf8.3),
          defaulted-object_map json L.json texts fields (str "type") _ refl [] _
              (read_array-text_array _ literals-is_utf8.2),
          defaulted-object_map json L.json (read_str json) fields (str "holder") _ refl [] holder
              (read_str-string json L.json holder h),
          defaulted-object_map json L.json (read_array json (λ v. ok v)) fields
              (str "verifiableCredential") _ refl [] (vc ∷ [])
              (read_array-array json L.json (λ v. ok v) (vc ∷ [])),
          defaulted-object_map json L.json (read_optional json (proof_of_value json)) fields
              (str "proof") _ refl none _
              (optional_proof holder (sign_hex S key_bytes payload) challenge h sig_text c),
        )

    -- Let a credential parse, the key decode from base 58 to 32 bytes, the unsigned presentation
    -- serialize, and the holder and the challenge be valid UTF-8. If the packages are lawful,
    -- then `issue_vp` returns the print of a presentation that is read as a
    -- `VerifiablePresentation` with the one credential, the holder, and a `Proof` with the
    -- signature and the challenge.
    pub presentation_of_value-issue_vp :
        (vc_json key_b58 : Text)
        → json.from_str vc_json ≡ inr vc
        → bs58.decode key_b58 ≡ inr key_bytes
        → length key_bytes ≡ 32
        → json.to_vec (json.value (object (unsigned S vc holder challenge))) ≡ inr payload
        → is_utf8 holder ≡ true
        → is_utf8 challenge ≡ true
        → (issue_vp S vc_json holder challenge key_b58
            ≡ ok (json.to_string (issued_document S vc holder challenge key_bytes payload)))
          × (presentation_of_value json (issued_document S vc holder challenge key_bytes payload)
              ≡ ok issued_presentation)
    presentation_of_value-issue_vp vc_json key_b58 parsed key size serialized h c = (
      issue_vp_lem S L vc_json holder challenge key_b58 vc key_bytes payload parsed key size
          serialized,
      presentation_of_value-issued h c,
    )
