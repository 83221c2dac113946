-- ===== src/Suite/Verdicts.antt =====
-- What a unit test reads from a verdict.
use did_rust.Prelude.{Text, str, Bool, true, inr, none, some, ◌≡◌, refl, ap, ◌∙◌}
use did_rust.Prelude.Utf8.{is_utf8}
use did_rust.Crates.Json.{json_object}
use did_rust.Crates.Json.Fields.{as_str-string}
use did_rust.Crates.Json.Tree.{IsReadBack, fields, text, truth, member, end}
use did_rust.Services.{Services, IsLawful}
use did_rust.Credential.{verdict}
use did_rust.Credential.Verdict.{verdict-IsVerdict}
use did_rust.Ffi.Memory.{Memory}
use did_rust.Suite.Program.{bool_at, str_at}
use did_rust.Suite.Steps.{bool_at_lem, str_at_lem}

module _ (S : Services) (L : IsLawful S) (R : IsReadBack S.json) (valid : Bool) (error : Text)
    (h : is_utf8 error ≡ true) where
  open S use {json}

  pub verdict-reads :
      json.from_str (json.to_string (verdict S valid error)) ≡ inr (verdict S valid error)
  unfolding verdict json_object str is_utf8
  verdict-reads =
      R.from_str-to_string
        (fields (
          member (str "valid") (truth valid)
            (member (str "error") (text error) (member (str "details") (fields end) end))))
        (refl, tt, (refl, h, (refl, tt, tt)))

  pub bool_at-verdict :
      (m : Memory) → bool_at S (verdict S valid error) (str "valid") m ≡ some (valid, m)
  bool_at-verdict m =
      bool_at_lem S L.json _ (str "valid") valid (verdict-IsVerdict S L.json valid error).has_valid

  pub str_at-verdict :
      (m : Memory) → str_at S (verdict S valid error) (str "error") m ≡ some (error, m)
  str_at-verdict m = str_at_lem S _ (str "error") error (
      ap (λ o. elim o [ none ↦ none | some x ↦ json.as_str x ])
        (verdict-IsVerdict S L.json valid error).has_error
      ∙ as_str-string json L.json error h)
