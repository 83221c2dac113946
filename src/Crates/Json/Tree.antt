-- ===== src/Crates/Json/Tree.antt =====
-- The values that are written out, as `json!` writes them, and when they are read back.
use did_rust.Prelude.{
  contains, leb, ◌&&◌, ◌||◌, not, ◌==◌, some, inl, ℕ, zero, suc, Text, Bool, List, [], ◌∷◌, ◌≡◌,
  true, inr,
}
use did_rust.Prelude.Utf8.{is_utf8}
use did_rust.Crates.Json.{Json, null, bool, string, array, object}

mutual
  pub data Tree : Type 0 where
    nothing : Tree
    truth : Bool → Tree
    text : Text → Tree
    items : Trees → Tree
    fields : Members → Tree

  pub data Trees : Type 0 where
    nil : Trees
    cons : Tree → Trees → Trees

  pub data Members : Type 0 where
    end : Members
    member : Text → Tree → Members → Members

module _ (J : Json) where
  open J use {Value, Map, value, new, insert}

  abbrev mutual
    pub build : Tree → Value
    build nothing = value null
    build (truth b) = value (bool b)
    build (text t) = value (string t)
    build (items ts) = value (array (build_items ts))
    build (fields ms) = value (object (build_onto new ms))

    pub build_items : Trees → List Value
    build_items nil = []
    build_items (cons t ts) = build t ∷ build_items ts

    pub build_onto : Map → Members → Map
    build_onto m end = m
    build_onto m (member k t ms) = build_onto (insert m k (build t)) ms

-- At most `n` arrays and objects stand within one another, and the texts are valid.
abbrev mutual
  pub IsWritable : ℕ → Tree → Type 0
  IsWritable n nothing = Unit
  IsWritable n (truth b) = Unit
  IsWritable n (text t) = is_utf8 t ≡ true
  IsWritable zero (items ts) = ⊥
  IsWritable (suc n) (items ts) = AreWritable n ts
  IsWritable zero (fields ms) = ⊥
  IsWritable (suc n) (fields ms) = MembersAreWritable n ms

  pub AreWritable : ℕ → Trees → Type 0
  AreWritable n nil = Unit
  AreWritable n (cons t ts) = IsWritable n t × AreWritable n ts

  pub MembersAreWritable : ℕ → Members → Type 0
  MembersAreWritable n end = Unit
  MembersAreWritable n (member k t ms) =
      (is_utf8 k ≡ true) × IsWritable n t × MembersAreWritable n ms

-- The printable characters of ASCII but the quote and the backslash.
abbrev pub is_plain : ℕ → Bool
is_plain c = leb 32 c && (leb c 126 && not (c == 34 || c == 92))

abbrev pub all_plain : Text → Bool
all_plain [] = true
all_plain (c ∷ t) = is_plain c && all_plain t

-- What serde_json promises of its two directions: the print of a value is a `String`, the bytes
-- that are written are those of the print, and a value without numbers that is nested at most 127
-- deep, its recursion limit, is read back from its print.
pub record IsReadBack (J : Json) : Type 0 where
  pub to_string-is_utf8 : (v : J.Value) → is_utf8 (J.to_string v) ≡ true
  pub to_vec_lem : (v : J.Value) → J.to_vec v ≡ inr (J.to_string v)
  pub from_str-to_string :
      (t : Tree) → IsWritable 127 t → J.from_str (J.to_string (build J t)) ≡ inr (build J t)
  pub from_str-error_is_utf8 : (s : Text) {e : Text} → J.from_str s ≡ inl e → is_utf8 e ≡ true
  -- A key that needs no escape stands in the print of its object as it is.
  pub to_string-contains :
      (m : J.Map) (k : Text) {v : J.Value}
      → J.get m k ≡ some v
      → all_plain k ≡ true
      → contains (J.to_string (J.value (object m))) k ≡ true
