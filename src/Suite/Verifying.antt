-- ===== src/Suite/Verifying.antt =====
-- src/lib.rs: the tests of `verify_vc_ffi` on what is no credential, and on one that has expired.
use did_rust.Prelude.{
  Text, str, contains, contains-append, has_nul, true, false, [], ◌++◌, some, inl, ok, not, ◌≡◌,
  refl,
}
use did_rust.Prelude.Utf8.{is_utf8}
use did_rust.Crates.Json.Tree.{IsReadBack}
use did_rust.Services.{Services, IsLawful}
use did_rust.Credential.{verdict, verify_vc}
use did_rust.Ffi.{verify_vc_ffi}
use did_rust.Ffi.Strings.{c_string-to_string}
use did_rust.Ffi.Memory.{Memory, Allocator, IsAllocator}
use did_rust.Suite.Program.{
  Program, ◌>>=◌, ◌>>◌, assert, call, c_str, c_string_new, free, from_str, str_at, bool_at,
}
use did_rust.Suite.Steps.{◌⨾◌, step, assert_lem, c_string_new_lem, free_under}
use did_rust.Suite.Sessions.{call_json}
use did_rust.Suite.Verdicts.{verdict-reads, bool_at-verdict, str_at-verdict}

module _ (S : Services) (A : Allocator) (now : S.chrono.Time) where
  open S use {json}

  unfoldable pub test_verify_vc_invalid_json : Program (Unit {0})
  test_verify_vc_invalid_json = do
    vc ← c_string_new (str "not valid json")
    res_ptr ← call A (verify_vc_ffi S now (some vc))
    result ← c_str res_ptr
    res ← from_str S result
    valid ← bool_at S res (str "valid")
    assert (not valid)
    error ← str_at S res (str "error")
    assert (contains error (str "Invalid JSON"))
    free res_ptr

  module _ (L : IsLawful S) (R : IsReadBack json) (I : IsAllocator A) where
    verify_vc_ffi-unread :
        (s e : Text)
        → is_utf8 s ≡ true
        → json.from_str s ≡ inl e
        → verify_vc_ffi S now (some s)
          ≡ ok (some (json.to_string (verdict S false (str "Invalid JSON: " ++ e))))
    unfolding verify_vc_ffi verify_vc
    verify_vc_ffi-unread s e u h =
        rw (u, verify_vc_ffi, h, verify_vc, c_string-to_string json L.json _)

    invalid_is_utf8 : is_utf8 (str "not valid json") ≡ true
    unfolding str is_utf8
    invalid_is_utf8 = refl

    invalid_no_nul : has_nul (str "not valid json") ≡ false
    unfolding str
    invalid_no_nul = refl

    contains-invalid : (e : Text) → contains (str "Invalid JSON: " ++ e) (str "Invalid JSON") ≡ true
    unfolding str
    contains-invalid e = contains-append (str "Invalid JSON") (str ": " ++ e)

    error_is_utf8 : (e : Text) → is_utf8 e ≡ true → is_utf8 (str "Invalid JSON: " ++ e) ≡ true
    unfolding str is_utf8
    error_is_utf8 e h = h

    pub test_verify_vc_invalid_json_lem :
        (m : Memory) (e : Text)
        → json.from_str (str "not valid json") ≡ inl e
        → test_verify_vc_invalid_json m ≡ some (tt, m)
    unfolding test_verify_vc_invalid_json
    test_verify_vc_invalid_json_lem m e failed =
        let error = str "Invalid JSON: " ++ e in
        let says = verdict S false error in
        let text = error_is_utf8 e (R.from_str-error_is_utf8 _ failed) in
        step _ _ (c_string_new_lem _ invalid_no_nul)
        ⨾ call_json S A L R I m _ _ says (verify_vc_ffi-unread _ e invalid_is_utf8 failed)
            (verdict-reads S L R false error text)
        ⨾ step _ _ (bool_at-verdict S L R false error text _)
        ⨾ step _ _ (assert_lem refl)
        ⨾ step _ _ (str_at-verdict S L R false error text _)
        ⨾ step _ _ (assert_lem (contains-invalid e))
        ⨾ free_under [] m (A.fresh m) _ (I.fresh-ne-null m) tt
