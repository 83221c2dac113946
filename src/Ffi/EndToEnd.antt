-- ===== src/Ffi/EndToEnd.antt =====
-- A client of the C interface that generates, issues and verifies.
use did_rust.Prelude.{Text, str, Bytes, true, false, [], none, some, inr, ok, ◌≡◌}
use did_rust.Prelude.Utf8.{is_utf8}
use did_rust.Crates.Json.{object}
use did_rust.Services.{Services, IsLawful}
use did_rust.Credential.{map_get_str, verdict, issue_vc}
use did_rust.Credential.Issue.{unsigned}
use did_rust.Did.{web_domain, key_reply, generate_did}
use did_rust.Did.Issues.{
  generated-is_utf8, generated, generated_key, certified, verify_vc-generate_did,
}
use did_rust.Ffi.Strings.{c_string-to_string}
use did_rust.Ffi.{to_str_or, reply_or_null, generate_did_ffi, issue_vc_ffi, verify_vc_ffi}

pub to_str_or_text : (default t : Text) → is_utf8 t ≡ true → to_str_or default t ≡ t
to_str_or_text default t h = rw (h, to_str_or)

module _ (S : Services) (sk : S.primitives.ed25519.SigningKey) (L : IsLawful S) where
  open S use {primitives, json, chrono}
  open primitives use {ed25519}

  pub generate_did_ffi-text :
      (method : Text)
      → is_utf8 method ≡ true
      → generate_did_ffi S sk (some method) ≡ reply_or_null (generate_did S sk method)
  unfolding generate_did_ffi
  generate_did_ffi-text method m =
      let m' = to_str_or_text [] method m in λ i. reply_or_null (generate_did S sk (m' i))

  pub issue_vc_ffi-text :
      (credential did key : Text)
      → is_utf8 credential ≡ true
      → is_utf8 did ≡ true
      → is_utf8 key ≡ true
      → issue_vc_ffi S (some credential) (some did) (some key)
        ≡ reply_or_null (issue_vc S credential did key)
  unfolding issue_vc_ffi
  issue_vc_ffi-text credential did key c d k =
      let c' = to_str_or_text (str "{}") credential c in
      let d' = to_str_or_text [] did d in
      let k' = to_str_or_text [] key k in λ i. reply_or_null (issue_vc S (c' i) (d' i) (k' i))

  pub generated_key-is_utf8 : is_utf8 (generated_key S sk) ≡ true
  generated_key-is_utf8 =
      let array = L.primitives.ed25519.signing_key_to_bytes-IsArray sk in
      L.primitives.bs58.encode-is_utf8 _ array.bytes

  -- Let a method that is valid UTF-8 begin with neither `web:` nor `did:web:`; let a credential
  -- be valid UTF-8 and parse to an object with no proof, whose date of expiry, if it has one
  -- that can be read, is not before `now`; let the credential with the generated identifier as
  -- its issuer serialize, and the document that is issued be printed as valid UTF-8 and parse
  -- back. If the packages are lawful, then through the C interface, and with no null,
  -- `generate_did_ffi` returns an identifier and a private key, `issue_vc_ffi` issues the
  -- credential with both, and `verify_vc_ffi` at `now` reports it as valid.
  pub verify_vc_ffi-generate_did_ffi :
      (method credential_json : Text) (vc : json.Value) (credential : json.Map) (payload : Bytes)
      (now : chrono.Time)
      → web_domain method ≡ none
      → json.from_str credential_json ≡ inr vc
      → json.as_object vc ≡ some credential
      → json.to_vec (json.value (object (unsigned S credential (generated S sk)))) ≡ inr payload
      → json.get credential (str "proof") ≡ none
      → ((exp : Text) (t : chrono.Time)
          → map_get_str S credential (str "expirationDate") ≡ some exp
          → chrono.parse_from_rfc3339 exp ≡ some t
          → chrono.is_after now t ≡ false)
      → json.from_str (json.to_string (certified S sk credential payload))
        ≡ inr (certified S sk credential payload)
      → is_utf8 method ≡ true
      → is_utf8 credential_json ≡ true
      → is_utf8 (json.to_string (certified S sk credential payload)) ≡ true
      → (generate_did_ffi S sk (some method)
          ≡ ok (
              some (
                json.to_string (
                  key_reply S
                    (generated_key S sk)
                    (ed25519.verifying_key_as_bytes (ed25519.verifying_key sk))))))
        × (issue_vc_ffi S (some credential_json) (some (generated S sk)) (some (generated_key S sk))
            ≡ ok (some (json.to_string (certified S sk credential payload))))
        × (verify_vc_ffi S now (some (json.to_string (certified S sk credential payload)))
            ≡ ok (some (json.to_string (verdict S true []))))
  unfolding verify_vc_ffi
  verify_vc_ffi-generate_did_ffi method credential_json vc credential payload now web parsed
        is_object serialized absent not_expired printed m c p =
      let (generates, issues, verifies) =
        verify_vc-generate_did S sk L method credential_json vc credential payload now web parsed
          is_object serialized absent not_expired printed in
      let said = c_string-to_string json L.json in
      (
        rw (generate_did_ffi-text method m, generates, said),
        rw (
          issue_vc_ffi-text credential_json _ _ c (generated-is_utf8 S sk L) generated_key-is_utf8,
          issues,
          said,
        ),
        rw (p, verify_vc_ffi, verifies, said),
      )
