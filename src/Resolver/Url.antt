-- ===== src/Resolver/Url.antt =====
-- The URL of a `did:web`.
use did_rust.Prelude.{
  ℕ, Text, str, All, flatten, map, ◌≢◌, ◌≡◌, refl, List, [], ◌∷◌, ◌++◌, append_assoc, append-nil,
  ap, ◌∙◌, sym, arith, ◌==◌, ok, strip_prefix-append, Bool-cases, ==_iff, inl, inr, ◌↔◌,
  strip_prefix, strip_prefix-eq-some, Option-cases, subst,
}
use did_rust.Resolver.{did_web, add_char, split, join, web_url, build_did_web_url}

-- No separator in a text.
abbrev pub Lacks : ℕ → Text → Type 0
Lacks sep = All (λ c. c ≢ sep)

split-ne-nil : (sep : ℕ) (s : Text) → split sep s ≢ []
unfolding split
split-ne-nil sep [] e = cc
split-ne-nil sep (c ∷ s) e = ground (arith, split-ne-nil sep s)

split_one : (sep : ℕ) (part : Text) → Lacks sep part → split sep part ≡ part ∷ []
unfolding split
split_one sep [] h = refl
split_one sep (c ∷ part) h = rw (split_one sep part h.1) (ground (arith, h.0))

split_more :
    (sep : ℕ) (part rest : Text)
    → Lacks sep part
    → split sep (part ++ (sep ∷ rest)) ≡ part ∷ split sep rest
unfolding split
split_more sep [] rest h = ground (arith, split-ne-nil sep rest)
split_more sep (c ∷ part) rest h = rw (split_more sep part rest h.1) (ground (arith, h.0))

-- Splitting what was joined gives the parts back.
pub split-join :
    (sep : ℕ) (part : Text) (parts : List Text)
    → All (Lacks sep) (part ∷ parts)
    → split sep (join (sep ∷ []) (part ∷ parts)) ≡ part ∷ parts
unfolding join
split-join sep part [] h = split_one sep part h.0
split-join sep part (next ∷ parts) h =
    rw (split_more sep part (join (sep ∷ []) (next ∷ parts)) h.0, split-join sep next parts h.1)

join-cons_cons :
    (sep : ℕ) (c : ℕ) (part : Text) (parts : List Text)
    → join (sep ∷ []) ((c ∷ part) ∷ parts) ≡ c ∷ join (sep ∷ []) (part ∷ parts)
unfolding join
join-cons_cons sep c part [] = refl
join-cons_cons sep c part (next ∷ parts) = refl

join-nil_cons :
    (sep : ℕ) (parts : List Text)
    → parts ≢ []
    → join (sep ∷ []) ([] ∷ parts) ≡ sep ∷ join (sep ∷ []) parts
unfolding join
join-nil_cons sep [] h = absurd (h refl)
join-nil_cons sep (next ∷ parts) h = refl

join-add_char :
    (sep : ℕ) (c : ℕ) (parts : List Text)
    → parts ≢ []
    → join (sep ∷ []) (add_char (c == sep) c parts) ≡ c ∷ join (sep ∷ []) parts
join-add_char sep c [] h = absurd (h refl)
join-add_char sep c (part ∷ parts) h = elim (Bool-cases (c == sep)) [
  | inl same ↦ rw same (
      join-nil_cons sep (part ∷ parts) h
      ∙ ap (λ x. x ∷ join (sep ∷ []) (part ∷ parts)) (sym ((==_iff c sep).0 same)))
  | inr other ↦ rw other (join-cons_cons sep c part parts)
]

-- Joining what was split gives the text back.
pub join-split : (sep : ℕ) (s : Text) → join (sep ∷ []) (split sep s) ≡ s
unfolding split join
join-split sep [] = refl
join-split sep (c ∷ s) =
    join-add_char sep c (split sep s) (split-ne-nil sep s) ∙ ap (λ x. c ∷ x) (join-split sep s)

-- The path of a URL: each part behind a slash.
abbrev pub url_path : List Text → Text
url_path parts = flatten (map (λ part. str "/" ++ part) parts)

-- A domain alone has its document at a well-known place, else it lies at the path.
pub document_url : Text → List Text → Text
document_url domain [] = str "https://" ++ (domain ++ str "/.well-known/did.json")
document_url domain (part ∷ parts) =
    str "https://" ++ (domain ++ (url_path (part ∷ parts) ++ str "/did.json"))

join-url_path :
    (part : Text) (parts : List Text)
    → str "/" ++ join (str "/") (part ∷ parts) ≡ url_path (part ∷ parts)
unfolding join
join-url_path part [] = rw append-nil
join-url_path part (next ∷ parts) =
    rw (join-url_path next parts) (sym (append_assoc (str "/") part (url_path (next ∷ parts))))

web_url-document_url :
    (domain : Text) (path : List Text) → web_url (domain ∷ path) ≡ ok (document_url domain path)
unfolding web_url document_url
web_url-document_url domain [] = refl
web_url-document_url domain (part ∷ parts) =
    ap (λ (t : Text). ok (str "https://" ++ (domain ++ t)))
      (sym (append_assoc (str "/") (join (str "/") (part ∷ parts)) (str "/did.json"))
        ∙ ap (λ (t : Text). t ++ str "/did.json") (join-url_path part parts))

-- The parts of a text have no separator.
add_char-Lacks :
    (sep c : ℕ) (parts : List Text)
    → All (Lacks sep) parts
    → All (Lacks sep) (add_char (c == sep) c parts)
add_char-Lacks sep c [] h = tt
add_char-Lacks sep c (part ∷ parts) h = elim (Bool-cases (c == sep)) [
  | inl same ↦ rw same (tt, h)
  | inr other ↦ rw other (((λ e. cc ((==_iff c sep).1 e)), h.0), h.1)
]

split-Lacks : (sep : ℕ) (s : Text) → All (Lacks sep) (split sep s)
unfolding split
split-Lacks sep [] = (tt, tt)
split-Lacks sep (c ∷ s) = add_char-Lacks sep c (split sep s) (split-Lacks sep s)

split-cons :
    (sep : ℕ) (s : Text) → (part : Text) × (parts : List Text) × (split sep s ≡ part ∷ parts)
split-cons sep s =
    elim (split sep s)
        as (λ parts.
          split sep s ≡ parts → (part : Text) × (rest : List Text) × (split sep s ≡ part ∷ rest)) [
            | [] ↦ λ e. absurd (split-ne-nil sep s e)
            | part ∷ parts ↦ λ e. (part, parts, e)
          ]
      refl

-- The parts of a `did:web` give the URL of its document.
build_did_web_url-join :
    (domain : Text) (path : List Text)
    → All (Lacks b':') (domain ∷ path)
    → build_did_web_url (did_web ++ join (b':' ∷ []) (domain ∷ path))
      ≡ ok (document_url domain path)
unfolding build_did_web_url
build_did_web_url-join domain path h =
    rw
      (
        strip_prefix-append did_web (join (b':' ∷ []) (domain ∷ path)),
        split-join b':' domain path h,
      )
      (web_url-document_url domain path)

document_url-append :
    (domain : Text) (path : List Text)
    → (url : Text) × (document_url domain path ≡ str "https://" ++ url)
unfolding document_url
document_url-append domain [] = (_, refl)
document_url-append domain (part ∷ parts) = (_, refl)

-- Each text that begins with `did:web:` gives a URL.
pub build_did_web_url-append :
    (rest : Text)
    → (url : Text) × (build_did_web_url (did_web ++ rest) ≡ ok (str "https://" ++ url))
unfolding build_did_web_url
build_did_web_url-append rest =
    let (domain, path, parts) = split-cons b':' rest in
    let (url, shown) = document_url-append domain path in
    (
      url,
      rw (strip_prefix-append did_web rest, parts)
          (web_url-document_url domain path ∙ ap (λ u. ok u) shown),
    )

-- `build_did_web_url` gives a URL exactly for `did:web:` with a domain and the parts of a path
-- behind it, none with a colon, joined by colons; the URL is that of the file `did.json` at the
-- path on the domain, and for a domain alone that of its well-known file.
pub build_did_web_url_iff :
    (did url : Text)
    → (build_did_web_url did ≡ ok url) ↔ (
        (domain : Text) × (path : List Text) × All (Lacks b':') (domain ∷ path)
        × (did ≡ did_web ++ join (b':' ∷ []) (domain ∷ path))
        × (url ≡ document_url domain path))
unfolding build_did_web_url
build_did_web_url_iff did url = (
  (λ h. elim (Option-cases (strip_prefix did did_web)) [
    | inl e ↦ absurd (ground arith)
    | inr (rest, e) ↦
        let (domain, path, parts) = split-cons b':' rest in
        let found : web_url (split b':' rest) ≡ ok url = ground arith in
        (
          domain,
          path,
          subst (All (Lacks b':')) parts (split-Lacks b':' rest),
          strip_prefix-eq-some did did_web rest e
              ∙ ap (λ t. did_web ++ t) (sym (join-split b':' rest) ∙ ap (join (b':' ∷ [])) parts),
          cc (sym found ∙ ap web_url parts ∙ web_url-document_url domain path),
        )
  ]),
  λ (domain, path, lacks, same, shown).
      ap build_did_web_url same
      ∙ build_did_web_url-join domain path lacks
      ∙ ap (λ u. ok u) (sym shown),
)
