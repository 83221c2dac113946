-- ===== src/Credential/Verdict.antt =====
-- The reply to a document that is to be verified, as a client reads it.
use did_rust.Prelude.{
  Text, str, text_eq, Bool, [], ◌++◌, List, none, some, ◌≡◌, ◌≢◌, ◌∙◌, ap, true, false, ok, inl,
  inr, ◌⊎◌, ⊎-cases, Result-cases,
}
use did_rust.Prelude.Utf8.{is_utf8}
use did_rust.Crates.Json.{IsJson, bool, string_value, json_object}
use did_rust.Crates.Json.Fields.{field_of, as_str-string, object_map, get-object_map}
use did_rust.Services.{Services, network}
use did_rust.Resolver.Safety.{HasClient}
use did_rust.Credential.Accepts.{
  IsAuthentic, internal_verify_vc_iff, internal_verify_vc-ne-panic, internal_verify_vc-err-nonempty,
}
use did_rust.Credential.{get_str, verdict, internal_verify_vc, verify_vc}

module _ (S : Services) where
  open S use {json, chrono}

  -- An object that says whether a document is valid, and an error, with no details.
  pub record IsVerdict (v : json.Value) (valid : Bool) (error : Text) : Type 0 where
    pub has_valid : json.value_get v (str "valid") ≡ some (json.value (bool valid))
    pub has_error : json.value_get v (str "error") ≡ some (string_value json error)
    pub has_details : json.value_get v (str "details") ≡ some (json_object json [])

  module _ (L : IsJson json) where
    pub value_get-json_object :
        (fields : List (Text × json.Value)) (k : Text)
        → json.value_get (json_object json fields) k ≡ field_of fields k none
    unfolding json_object
    value_get-json_object fields k =
        L.value_get-object (object_map json L fields) k ∙ get-object_map json L fields k

    pub get_str-json_object :
        (fields : List (Text × json.Value)) (k t : Text)
        → field_of fields k none ≡ some (string_value json t)
        → is_utf8 t ≡ true
        → get_str S (json_object json fields) k ≡ some t
    get_str-json_object fields k t h u =
        ap (λ o. elim o [ none ↦ none | some x ↦ json.as_str x ])
          (value_get-json_object fields k ∙ h)
        ∙ as_str-string json L t u

    pub verdict-IsVerdict :
        (valid : Bool) (error : Text) → IsVerdict (verdict S valid error) valid error
    unfolding verdict str text_eq
    verdict-IsVerdict valid error = record {
      has_valid = value_get-json_object _ (str "valid");
      has_error = value_get-json_object _ (str "error");
      has_details = value_get-json_object _ (str "details");
    }

  -- What `verify_vc` returns is the print of a verdict.
  abbrev pub SaysVc : chrono.Time → Text → Bool → Text → Type 0
  SaysVc now vc_json valid error =
      (v : json.Value) × (verify_vc S now vc_json ≡ ok (json.to_string v)) × IsVerdict v valid error

  -- If the JSON package is lawful, and the HTTP client can be built where the feature
  -- `http-resolver` is on, `verify_vc` always answers, without a panic, with the print of an
  -- object whose fields `valid`, `error` and `details` say: for a text that is not JSON, that it
  -- is invalid, with the parser's error; for a credential that is authentic, that it is valid,
  -- with no error; for any other, that it is invalid, with an error that is not empty.
  pub verify_vc-cases :
      IsJson json
      → HasClient (network S)
      → (now : chrono.Time) (vc_json : Text)
      → ((e : Text) × (json.from_str vc_json ≡ inl e)
          × SaysVc now vc_json false (str "Invalid JSON: " ++ e))
        ⊎ ((vc : json.Value) × (json.from_str vc_json ≡ inr vc)
            × IsAuthentic S now vc
            × SaysVc now vc_json true [])
        ⊎ ((vc : json.Value) × (e : Text) × (json.from_str vc_json ≡ inr vc)
            × (¬ IsAuthentic S now vc)
            × (e ≢ [])
            × SaysVc now vc_json false e)
  unfolding verify_vc
  verify_vc-cases L H now vc_json = elim (⊎-cases (json.from_str vc_json)) [
    | inl (e, failed) ↦ inl (e, failed, (_, rw (failed, verify_vc), verdict-IsVerdict L false _))
    | inr (vc, parsed) ↦ elim (Result-cases (internal_verify_vc S now vc)) [
      | inl (_, accepted) ↦ inr (
          inl (
            vc,
            parsed,
            (internal_verify_vc_iff S now vc).0 accepted,
            (_, rw (parsed, verify_vc, accepted), verdict-IsVerdict L true []),
          ))
      | inr (inl (e, refused)) ↦ inr (
          inr (
            vc,
            e,
            parsed,
            (λ a. cc ((internal_verify_vc_iff S now vc).1 a)),
            internal_verify_vc-err-nonempty S now vc e refused,
            (_, rw (parsed, verify_vc, refused), verdict-IsVerdict L false e),
          ))
      | inr (inr broken) ↦ absurd (internal_verify_vc-ne-panic S L H now vc broken)
    ]
  ]
