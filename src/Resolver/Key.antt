-- ===== src/Resolver/Key.antt =====
-- `KeyResolver`: which identifiers resolve, and to what.
use did_rust.Prelude.{
  Result, returned, guard, ◌>>=◌, ◌>>◌, err, panic, ◌⊎◌, inl, inr, ◌≢◌, drop, Bool-cases, false,
  starts_with-eq, >>=-eq-ok, Text, str, starts_with, Bytes, length, IsBytes, IsArray, ◌∷◌, [], ◌++◌,
  ◌≡◌, ◌∙◌, sym, ◌↔◌, ap, true, ok, arith,
}
use did_rust.Prelude.Utf8.{is_utf8, is_char_boundary, is_char_boundary-append, is_utf8-append_ascii}
use did_rust.Crates.Codec.{Codec, IsCodec}
use did_rust.Crypto.{ed25519_multicodec}
use did_rust.Resolver.{
  DidDocument, Network, did_key, is_ed25519_multikey, key_document, resolve_key, resolve,
}

abbrev pub multikey : Bytes → Bytes
multikey key = ed25519_multicodec ++ key

pub multikey-IsBytes : (key : Bytes) → IsArray 32 key → IsBytes (multikey key)
multikey-IsBytes key a = (omega arith, (omega arith, a.bytes))

pub is_ed25519_multikey-multikey :
    (key : Bytes) → length key ≡ 32 → is_ed25519_multikey (multikey key) ≡ true
unfolding is_ed25519_multikey
is_ed25519_multikey-multikey key h = ground arith

-- A boundary of a text behind `z`, and behind `did:key:`.
boundary-z : (s : Text) → is_utf8 s ≡ true → is_char_boundary (b'z' ∷ s) 1 ≡ true
unfolding is_utf8
boundary-z s h = is_char_boundary-append (b'z' ∷ []) s (omega arith) h

boundary-did_key : (s : Text) → is_utf8 s ≡ true → is_char_boundary (did_key ++ (b'z' ∷ s)) 8 ≡ true
unfolding is_utf8 str
boundary-did_key s h = is_char_boundary-append did_key (b'z' ∷ s) (omega arith) h

-- The two bytes and the key of a multikey.
pub is_ed25519_multikey-eq :
    (b : Bytes)
    → is_ed25519_multikey b ≡ true
    → (b ≡ multikey (drop 2 b)) × (length (drop 2 b) ≡ 32)
unfolding is_ed25519_multikey
is_ed25519_multikey-eq [] h = cc
is_ed25519_multikey-eq (a ∷ []) h = cc
is_ed25519_multikey-eq (a ∷ b ∷ key) h = ground arith

-- What the resolver does behind the prefix, which is all of it where the prefix is there.
module _ (bs58 : Codec) where
  pub resolve_digits : Text → Result Text DidDocument
  resolve_digits digits = do
    decoded ← returned (bs58.decode digits)
    guard (is_ed25519_multikey decoded) (str "Only Ed25519 keys are supported")
    ok (key_document (str "did:key:z" ++ digits) (str "z" ++ digits) (bs58.encode (drop 2 decoded)))

  resolve_key-append :
      (digits : Text)
      → is_utf8 digits ≡ true
      → resolve_key bs58 (str "did:key:z" ++ digits) ≡ resolve_digits digits
  unfolding resolve_key resolve_digits starts_with
  resolve_key-append digits h = rw (boundary-did_key digits h, boundary-z digits h)

  resolve_key_other :
      (did : Text)
      → starts_with did (str "did:key:z") ≡ false
      → resolve_key bs58 did ≡ err (str "Invalid did:key format")
  unfolding resolve_key
  resolve_key_other did h = rw h

  -- Either the prefix is missing, or what stands behind it decides.
  pub resolve_key-cases :
      (did : Text)
      → is_utf8 did ≡ true
      → (resolve_key bs58 did ≡ err (str "Invalid did:key format"))
        ⊎ ((digits : Text) × (did ≡ str "did:key:z" ++ digits)
            × (resolve_key bs58 did ≡ resolve_digits digits))
  unfolding str
  resolve_key-cases did h = elim (Bool-cases (starts_with did (str "did:key:z"))) [
    | inl e ↦
        let (digits, same) = starts_with-eq did (str "did:key:z") e in
        let valid = is_utf8-append_ascii (str "did:key:z") digits (omega arith) (rw same at h) in
        inr (digits, same, ap (resolve_key bs58) same ∙ resolve_key-append digits valid)
    | inr e ↦ inl (resolve_key_other did e)
  ]

  resolve_digits-ne-panic : (digits : Text) → resolve_digits digits ≢ panic
  unfolding resolve_digits
  resolve_digits-ne-panic digits = ground arith

  -- On a valid text no slice of the resolver is out of place.
  pub resolve_key-ne-panic : (did : Text) → is_utf8 did ≡ true → resolve_key bs58 did ≢ panic
  resolve_key-ne-panic did h e = elim (resolve_key-cases did h) [
    | inl failed ↦ cc
    | inr (digits, same, found) ↦ resolve_digits-ne-panic digits (cc)
  ]

  resolve_digits-eq-ok :
      (digits : Text) (doc : DidDocument)
      → resolve_digits digits ≡ ok doc
      → (key : Bytes) × (length key ≡ 32)
        × (bs58.decode digits ≡ inr (multikey key))
        × (doc ≡ key_document (str "did:key:z" ++ digits) (str "z" ++ digits) (bs58.encode key))
  unfolding resolve_digits
  resolve_digits-eq-ok digits doc h =
      let (decoded, e, f) = >>=-eq-ok (returned (bs58.decode digits)) _ h in
      elim (Bool-cases (is_ed25519_multikey decoded)) [
        | inl fits ↦
            let (same, size) = is_ed25519_multikey-eq decoded fits in
            (drop 2 decoded, size, ground arith, ground arith)
        | inr other ↦ absurd (ground arith)
      ]

-- If a valid text resolves as a `did:key`, then to the document of the key in it.
pub resolve_key-eq-ok :
    (bs58 : Codec) (did : Text) (doc : DidDocument)
    → is_utf8 did ≡ true
    → resolve_key bs58 did ≡ ok doc
    → (digits : Text) × (key : Bytes) × (did ≡ str "did:key:z" ++ digits)
      × (bs58.decode digits ≡ inr (multikey key))
      × (length key ≡ 32)
      × (doc ≡ key_document did (str "z" ++ digits) (bs58.encode key))
resolve_key-eq-ok bs58 did doc h e = elim (resolve_key-cases bs58 did h) [
  | inl failed ↦ cc
  | inr (digits, same, found) ↦
      let (key, size, decoded, shown) = resolve_digits-eq-ok bs58 digits doc (cc) in
      (digits, key, same, decoded, size, cc)
]

resolve_digits-multikey :
    (bs58 : Codec) (digits : Text) (key : Bytes)
    → bs58.decode digits ≡ inr (multikey key)
    → length key ≡ 32
    → resolve_digits bs58 digits
      ≡ ok (key_document (str "did:key:z" ++ digits) (str "z" ++ digits) (bs58.encode key))
unfolding resolve_digits
resolve_digits-multikey bs58 digits key decoded size =
    rw (decoded, resolve_digits, is_ed25519_multikey-multikey key size)

-- A valid UTF-8 text resolves as a `did:key` to a document exactly if it is `did:key:z` and
-- digits that decode from base 58 to the multicodec prefix and a key of 32 bytes, and the
-- document is that key's.
pub resolve_key_iff :
    (bs58 : Codec) (did : Text) (doc : DidDocument)
    → is_utf8 did ≡ true
    → (resolve_key bs58 did ≡ ok doc) ↔ (
        (digits : Text) × (key : Bytes) × (did ≡ str "did:key:z" ++ digits)
        × (bs58.decode digits ≡ inr (multikey key))
        × (length key ≡ 32)
        × (doc ≡ key_document did (str "z" ++ digits) (bs58.encode key)))
unfolding str
resolve_key_iff bs58 did doc h = (
  resolve_key-eq-ok bs58 did doc h,
  λ (digits, key, same, decoded, size, shown).
      let valid = is_utf8-append_ascii (str "did:key:z") digits (omega arith) (rw same at h) in
      let found = resolve_digits-multikey bs58 digits key decoded size in
      ap (resolve_key bs58) same
      ∙ resolve_key-append bs58 digits valid
      ∙ found
      ∙ ap (λ d. ok (key_document d (str "z" ++ digits) (bs58.encode key))) (sym same)
      ∙ ap (λ d. ok d) (sym shown),
)

module _ (bs58 : Codec) (L : IsCodec bs58) where
  pub resolve_key-multikey :
      (key : Bytes)
      → IsArray 32 key
      → let digits = bs58.encode (multikey key) in
        resolve_key bs58 (str "did:key:z" ++ digits)
        ≡ ok (key_document (str "did:key:z" ++ digits) (str "z" ++ digits) (bs58.encode key))
  resolve_key-multikey key a =
      let bytes = multikey-IsBytes key a in
      let digits = bs58.encode (multikey key) in
      resolve_key-append bs58 digits (L.encode-is_utf8 (multikey key) bytes)
      ∙ resolve_digits-multikey bs58 digits key (L.decode-encode (multikey key) bytes) a.size

pub resolve-multikey :
    (N : Network)
    → IsCodec N.bs58
    → (key : Bytes) → IsArray 32 key
    → let digits = N.bs58.encode (multikey key) in
      resolve N (str "did:key:z" ++ digits)
      ≡ ok (key_document (str "did:key:z" ++ digits) (str "z" ++ digits) (N.bs58.encode key))
unfolding resolve starts_with str
resolve-multikey N L key a = resolve_key-multikey N.bs58 L key a
