-- ===== src/Suite/Presenting.antt =====
-- src/lib.rs: the test of `verify_vp_ffi`.
use did_rust.Prelude.{
  ℕ, Text, str, text_eq, Bool, true, false, Option, none, some, [], ◌∷◌, ◌≡◌, ◌≢◌, refl, ap, suc,
  ok,
}
use did_rust.Prelude.Utf8.{is_utf8}
use did_rust.Crates.Json.{object, json_object}
use did_rust.Crates.Json.Fields.{as_object-object, object_map}
use did_rust.Crates.Json.Tree.{
  IsReadBack, build, fields, text, Members, member, end, MembersAreWritable,
}
use did_rust.Services.{Services, IsLawful}
use did_rust.Credential.{map_get_str, sign_hex, vc_proof, verdict}
use did_rust.Credential.Verdict.{verdict-IsVerdict}
use did_rust.Did.Issues.{generated, generated-is_utf8, decode-generated_key}
use did_rust.Did.Presents.{certified-IsAuthentic}
use did_rust.Ffi.{generate_did_ffi, issue_vc_ffi, verify_vp_ffi}
use did_rust.Ffi.Memory.{Memory, Allocator, IsAllocator}
use did_rust.Suite.Program.{
  Program, ◌>>=◌, ◌>>◌, unwrap_inr, return, copy_from_slice, assert, call, c_str, c_string_new,
  free, from_str, str_at, bool_at,
}
use did_rust.Suite.Steps.{
  ◌⨾◌, step, assert_lem, unwrap_inr_lem, copy_from_slice_lem, c_string_new_lem, from_str_lem,
  str_at_lem, free_under,
}
use did_rust.Suite.Sessions.{call_json, call_identified, call_issued}
use did_rust.Suite.Generated.{generated_reply, get_str-did}
use did_rust.Ffi.Written.{
  credential, credential_json, certificate, certificate-reads, credential-reads, get-written,
}
use did_rust.Suite.Verdicts.{verdict-reads, bool_at-verdict}
use did_rust.Suite.Presented.{
  vp_fields, vc, unsigned, sig, presentation, verify_vp_ffi-presentation,
}

-- The credential that the test writes.
abbrev pub membership_credential : Text → Members
membership_credential holder_did =
    member (str "credentialSubject")
      (fields
        (member (str "id") (text holder_did) (member (str "membership") (text (str "Gold")) end)))
      end

abbrev pub is_some {ℓ} : {A : Type ℓ} → Option A → Bool
is_some none = false
is_some (some a) = true

module _ (S : Services) where
  open S use {json}

  -- The `if let Value::Object(ref mut map) = vp` that puts the proof in.
  unfoldable pub insert_proof : json.Value → json.Value → Text → Program json.Value
  insert_proof vp holder_info sig_hex = elim (json.as_object vp) [
    | none ↦ return vp
    | some map ↦ do
      did ← str_at S holder_info (str "did")
      return (json.value (object (json.insert map (str "proof") (vc_proof S did sig_hex))))
  ]

module _ (S : Services) (A : Allocator) (issuer holder : S.primitives.ed25519.SigningKey)
    (clock : ℕ → S.chrono.Time) where
  open S use {json, primitives}

  unfoldable pub test_verify_vp : Program (Unit {0})
  test_verify_vp = do
    issuer_ptr ← call A (generate_did_ffi S issuer none)
    issuer_str ← c_str issuer_ptr
    issuer_info ← from_str S issuer_str
    issuer_did ← str_at S issuer_info (str "did")
    issuer_key ← str_at S issuer_info (str "private_key_base58")
    holder_ptr ← call A (generate_did_ffi S holder none)
    holder_str ← c_str holder_ptr
    holder_info ← from_str S holder_str
    holder_did ← str_at S holder_info (str "did")
    holder_key ← str_at S holder_info (str "private_key_base58")
    let cred = json.to_string (build json (fields (membership_credential holder_did)))
    cred_c ← c_string_new cred
    did_c ← c_string_new issuer_did
    key_c ← c_string_new issuer_key
    vc_ptr ← call A (issue_vc_ffi S (some cred_c) (some did_c) (some key_c))
    vc_str ← c_str vc_ptr
    vc ← from_str S vc_str
    let vp = json_object json (vp_fields S vc holder_did)
    payload_bytes ← unwrap_inr (json.to_vec vp)
    holder_key_bytes ← unwrap_inr (primitives.bs58.decode holder_key)
    arr ← copy_from_slice holder_key_bytes
    let sig_hex = sign_hex S arr payload_bytes
    signed ← insert_proof S vp holder_info sig_hex
    vp_c ← c_string_new (json.to_string signed)
    res_ptr ← call A (verify_vp_ffi S clock (some vp_c))
    res_str ← c_str res_ptr
    res_val ← from_str S res_str
    valid ← bool_at S res_val (str "valid")
    assert valid
    assert (is_some (json.value_get res_val (str "details")))
    free res_ptr

  module _ (L : IsLawful S) (R : IsReadBack json) (I : IsAllocator A) where
    abbrev ms : Members
    ms = membership_credential (generated S holder)

    writable : (n : ℕ) → MembersAreWritable (suc n) ms
    unfolding str is_utf8
    writable n = (refl, (refl, generated-is_utf8 S holder L, (refl, refl, tt)), tt)

    no_proof : json.get (credential S L R issuer ms) (str "proof") ≡ none
    unfolding str text_eq
    no_proof = get-written json L.json ms (str "proof")

    no_date : json.get (credential S L R issuer ms) (str "expirationDate") ≡ none
    unfolding str text_eq
    no_date = get-written json L.json ms (str "expirationDate")

    undated :
        (exp : Text) → map_get_str S (credential S L R issuer ms) (str "expirationDate") ≢ some exp
    undated exp = rw (no_date, map_get_str) (λ e. cc)

    empty_text : is_utf8 [] ≡ true
    unfolding is_utf8
    empty_text = refl

    verifies :
        verify_vp_ffi S clock (some (json.to_string (presentation S L R issuer holder ms)))
        ≡ ok (some (json.to_string (verdict S true [])))
    verifies = verify_vp_ffi-presentation S L R issuer holder ms clock (writable 123) (
        certified-IsAuthentic S issuer holder L (credential_json S L R issuer ms)
          (build json (fields ms)) (credential S L R issuer ms) _ (clock 0)
          (credential-reads S L R issuer ms (writable 125)) (as_object-object json L.json _)
          (R.to_vec_lem _) no_proof (λ exp t dated parsed. absurd (undated exp dated)))

    insert_proof_lem :
        (m : Memory)
        → insert_proof S
            (unsigned S L R issuer holder ms)
            (generated_reply S L holder)
            (sig S L R issuer holder ms)
            m
          ≡ some (presentation S L R issuer holder ms, m)
    unfolding insert_proof json_object
    insert_proof_lem m =
        rw
          (
            as_object-object json L.json (
                object_map json L.json
                  (vp_fields S (certificate S L R issuer ms) (generated S holder))),
            insert_proof,
          )
          (step _ _ (str_at_lem S _ (str "did") _ (get_str-did S L holder)) refl)

    has_details : is_some (json.value_get (verdict S true []) (str "details")) ≡ true
    has_details = ap is_some (verdict-IsVerdict S L.json true []).has_details

    -- Let the packages be lawful, serde_json read back what it printed, and the allocator be
    -- lawful. Then whatever keys are drawn for the issuer and the holder, whatever the clock and
    -- the memory, `test_verify_vp` runs to its end: the credential of the test is issued, the
    -- presentation that the test writes and signs itself with the holder's key is reported as
    -- valid, with `details`; the memory is left with the three strings that the test does not
    -- free.
    pub test_verify_vp_lem :
        (m : Memory)
        → let m1 = (A.fresh m, json.to_string (generated_reply S L issuer)) ∷ m in
          let m2 = (A.fresh m1, json.to_string (generated_reply S L holder)) ∷ m1 in
          test_verify_vp m
          ≡ some (tt, (A.fresh m2, json.to_string (certificate S L R issuer ms)) ∷ m2)
    unfolding test_verify_vp
    test_verify_vp_lem m =
        let m1 = (A.fresh m, json.to_string (generated_reply S L issuer)) ∷ m in
        let m2 = (A.fresh m1, json.to_string (generated_reply S L holder)) ∷ m1 in
        let m3 = (A.fresh m2, json.to_string (certificate S L R issuer ms)) ∷ m2 in
        let array = L.primitives.ed25519.signing_key_to_bytes-IsArray holder in
        call_identified S A L R I m issuer _
        ⨾ call_identified S A L R I m1 holder _
        ⨾ call_issued S A L R I m2 issuer _ ms (writable 125)
        ⨾ step _ _ (from_str_lem S _ _ (certificate-reads S L R issuer ms (writable 125)))
        ⨾ step _ _ (unwrap_inr_lem (R.to_vec_lem _))
        ⨾ step _ _ (unwrap_inr_lem (decode-generated_key S holder L))
        ⨾ step _ _ (copy_from_slice_lem _ array.size)
        ⨾ step _ _ (insert_proof_lem m3)
        ⨾ step _ _ (c_string_new_lem _ (L.json.to_string-has_nul _))
        ⨾ call_json S A L R I m3 _ _ (verdict S true []) verifies
            (verdict-reads S L R true [] empty_text)
        ⨾ step _ _ (bool_at-verdict S L R true [] empty_text _)
        ⨾ step _ _ (assert_lem refl)
        ⨾ step _ _ (assert_lem has_details)
        ⨾ free_under [] m3 (A.fresh m3) _ (I.fresh-ne-null m3) tt
