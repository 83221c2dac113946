-- ===== src/Suite/Sessions.antt =====
-- What several unit tests do in the same order, whatever comes after.
use did_rust.Prelude.{ℕ, Text, str, ◌∷◌, Option, none, some, inr, Result, ok, ◌≡◌}
use did_rust.Crates.Json.Tree.{IsReadBack, Members, MembersAreWritable}
use did_rust.Services.{Services, IsLawful}
use did_rust.Did.Issues.{generated, generated_key}
use did_rust.Ffi.{generate_did_ffi, issue_vc_ffi}
use did_rust.Ffi.Memory.{Memory, Allocator, IsAllocator}
use did_rust.Suite.Program.{
  Program, ◌>>=◌, ◌>>◌, assert, is_live, call, c_str, c_string_new, from_str, str_at,
}
use did_rust.Suite.Steps.{
  ◌⨾◌, step, assert_lem, is_live-ne, c_string_new_lem, call_string, c_str_top, from_str_lem,
  str_at_lem,
}
use did_rust.Suite.Generated.{
  generated_reply, generated_reply-reads, replies_to_null, get_str-did, get_str-private_key,
  generated-has_nul, generated_key-has_nul,
}
use did_rust.Ffi.Written.{credential_json, certificate, issue_vc_ffi-written}

module _ {ℓ} (S : Services) (A : Allocator) (L : IsLawful S) (R : IsReadBack S.json)
    (I : IsAllocator A) (m : Memory) {B : Type ℓ} {result : Option (B × Memory)} where
  open S use {json}

  -- A call that replies with a document, which is read back.
  pub call_json :
      (K : ℕ → Text → json.Value → Program B) (reply : Result ⊥ (Option Text)) (v : json.Value)
      → reply ≡ ok (some (json.to_string v))
      → json.from_str (json.to_string v) ≡ inr v
      → K (A.fresh m) (json.to_string v) v ((A.fresh m, json.to_string v) ∷ m) ≡ result
      → (call A reply >>= λ ptr. c_str ptr >>= λ s. from_str S s >>= K ptr s) m ≡ result
  call_json K reply v replies reads rest =
      step _ _ (call_string A reply _ replies)
      ⨾ step _ _ (c_str_top (A.fresh m) _ (I.fresh-ne-null m) (R.to_string-is_utf8 v))
      ⨾ step _ _ (from_str_lem S _ v reads)
      ⨾ rest

  -- A call whose reply is tested for null first.
  pub call_live :
      (K : ℕ → Text → Program B) (reply : Result ⊥ (Option Text)) (v : json.Value)
      → reply ≡ ok (some (json.to_string v))
      → K (A.fresh m) (json.to_string v) ((A.fresh m, json.to_string v) ∷ m) ≡ result
      → (call A reply >>= λ ptr. assert (is_live ptr) >> (c_str ptr >>= K ptr)) m ≡ result
  call_live K reply v replies rest =
      let live = I.fresh-ne-null m in
      step _ _ (call_string A reply _ replies)
      ⨾ step _ _ (assert_lem (is_live-ne _ live))
      ⨾ step _ _ (c_str_top (A.fresh m) _ live (R.to_string-is_utf8 v))
      ⨾ rest

  module _ (sk : S.primitives.ed25519.SigningKey) where
    -- An identifier generated, and its two texts read from the reply.
    pub call_identified :
        (K : ℕ → Text → json.Value → Text → Text → Program B)
        → let reply = generated_reply S L sk in
          K
              (A.fresh m)
              (json.to_string reply)
              reply
              (generated S sk)
              (generated_key S sk)
              ((A.fresh m, json.to_string reply) ∷ m)
            ≡ result
          → (call A (generate_did_ffi S sk none) >>= λ ptr. c_str ptr >>= λ s. from_str S s >>= λ v.
                str_at S v (str "did") >>= λ did.
                str_at S v (str "private_key_base58") >>= λ key. K ptr s v did key)
              m
            ≡ result
    call_identified K rest =
        let reply = generated_reply S L sk in
        call_json _ _ reply (replies_to_null S L sk) (generated_reply-reads S L sk R)
        ⨾ step _ _ (str_at_lem S reply (str "did") _ (get_str-did S L sk))
        ⨾ step _ _ (str_at_lem S reply (str "private_key_base58") _ (get_str-private_key S L sk))
        ⨾ rest

    -- A credential that is written, and issued with what was generated.
    pub call_issued :
        (K : Text → Text → Text → ℕ → Text → Program B) (ms : Members)
        → MembersAreWritable 126 ms
        → let vc = json.to_string (certificate S L R sk ms) in
          K
              (credential_json S L R sk ms)
              (generated S sk)
              (generated_key S sk)
              (A.fresh m)
              vc
              ((A.fresh m, vc) ∷ m)
            ≡ result
          → (c_string_new (credential_json S L R sk ms) >>= λ cred_c.
                c_string_new (generated S sk) >>= λ did_c.
                c_string_new (generated_key S sk) >>= λ key_c.
                call A (issue_vc_ffi S (some cred_c) (some did_c) (some key_c)) >>= λ ptr.
                c_str ptr >>= K cred_c did_c key_c ptr)
              m
            ≡ result
    call_issued K ms w rest =
        step _ _ (c_string_new_lem _ (L.json.to_string-has_nul _))
        ⨾ step _ _ (c_string_new_lem _ (generated-has_nul S L sk))
        ⨾ step _ _ (c_string_new_lem _ (generated_key-has_nul S L sk))
        ⨾ step _ _ (call_string A _ _ (issue_vc_ffi-written S L R sk ms w))
        ⨾ step _ _ (c_str_top (A.fresh m) _ (I.fresh-ne-null m) (R.to_string-is_utf8 _))
        ⨾ rest
