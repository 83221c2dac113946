-- ===== src/Tests/Fixture/Values.antt =====
-- JSON values as a tree, maps as lists of fields, and a prefix code in place of JSON's syntax.
use did_rust.Prelude.{
  ℕ, zero, suc, ◌+◌, ◌*◌, ◌/◌, ◌%◌, Text, str, text_eq, has_nul, text_eq_refl, text_eq-eq, length,
  Bool, true, false, List, [], ◌∷◌, Option, none, some, ◌⊎◌, inl, inr, ◌≡◌, refl, ap, if◌then◌else◌,
  arith, Bool-cases, ◌==◌, ◌-◌,
}
use did_rust.Crates.Json.Tree.{is_plain}
use did_rust.Prelude.Utf8.{is_utf8}
use did_rust.Crates.Json.{
  Json, IsJson, Variant, null, bool, number, string, array, object, str_variant, object_variant,
  IsValid,
}

mutual
  pub data Value : Type 0 where
    nothing : Value
    truth : Bool → Value
    num : ℕ → Value
    text : Text → Value
    arr : Items → Value
    obj : Fields → Value

  pub data Items : Type 0 where
    nil : Items
    cons : Value → Items → Items

  pub data Fields : Type 0 where
    end : Fields
    field : Text → Value → Fields → Fields

abbrev pub to_list : Items → List Value
to_list nil = []
to_list (cons v xs) = v ∷ to_list xs

abbrev pub of_list : List Value → Items
of_list [] = nil
of_list (v ∷ vs) = cons v (of_list vs)

abbrev pub get : Fields → Text → Option Value
get end k = none
get (field j v m) k = if text_eq j k then some v else get m k

abbrev pub insert : Fields → Text → Value → Fields
insert end k v = field k v end
insert (field j w m) k v = if text_eq j k then field j v m else field j w (insert m k v)

abbrev remove : Fields → Text → Fields
remove end k = end
remove (field j v m) k = let rest = remove m k in if text_eq j k then rest else field j v rest

abbrev pub value : Variant Value Fields ℕ → Value
value null = nothing
value (bool b) = truth b
value (number n) = num n
value (string t) = text t
value (array vs) = arr (of_list vs)
value (object m) = obj m

abbrev variant : Value → Variant Value Fields ℕ
variant nothing = null
variant (truth b) = bool b
variant (num n) = number n
variant (text t) = if is_utf8 t then string t else null
variant (arr xs) = array (to_list xs)
variant (obj m) = object m

abbrev as_str : Value → Option Text
as_str (text t) = if is_utf8 t then some t else none
as_str _ = none

abbrev as_object : Value → Option Fields
as_object (obj m) = some m
as_object _ = none

abbrev value_get : Value → Text → Option Value
value_get (obj m) k = get m k
value_get _ k = none

-- A text is its characters and a 0: one that is plain is itself, less what `raise` adds, and
-- another is a 1 and two digits in base 16.
abbrev pub print_text : Text → Text → Text
print_text [] rest = 0 ∷ rest
print_text (c ∷ t) rest =
    let more = print_text t rest in
    if is_plain c then (c - 1) ∷ more else 1 ∷ (c / 16 % 16) ∷ (c % 16) ∷ more

abbrev mutual
  pub print : Value → Text → Text
  print nothing rest = 0 ∷ rest
  print (truth true) rest = 1 ∷ rest
  print (truth false) rest = 2 ∷ rest
  print (num n) rest = 3 ∷ (n / 16 % 16) ∷ (n % 16) ∷ rest
  print (text t) rest = 4 ∷ print_text t rest
  print (arr xs) rest = 5 ∷ print_items xs rest
  print (obj m) rest = 6 ∷ print_fields m rest

  pub print_items : Items → Text → Text
  print_items nil rest = 0 ∷ rest
  print_items (cons v xs) rest = 1 ∷ print v (print_items xs rest)

  pub print_fields : Fields → Text → Text
  print_fields end rest = 0 ∷ rest
  print_fields (field k v m) rest = 1 ∷ print_text k (print v (print_fields m rest))

abbrev pub then_ :
    {A B : Type 0} → Option (A × Text) → (A → Text → Option (B × Text)) → Option (B × Text)
then_ none f = none
then_ (some (a, rest)) f = f a rest

abbrev pub add_char : ℕ → Option (Text × Text) → Option (Text × Text)
add_char c none = none
add_char c (some (t, rest)) = some (c ∷ t, rest)

-- Between characters, after the 1, and after the 1 and the first digit.
pub data Place : Type 0 where
  start : Place
  high : Place
  low : ℕ → Place

abbrev pub parse_from : Place → Text → Option (Text × Text)
parse_from p [] = none
parse_from start (m ∷ s) = elim (m == 0) [
  | true ↦ some ([], s)
  | false ↦ elim (m == 1) [
    | true ↦ parse_from high s
    | false ↦ add_char (m + 1) (parse_from start s)
  ]
]
parse_from high (h ∷ s) = parse_from (low h) s
parse_from (low h) (l ∷ s) = add_char (16 * h + l) (parse_from start s)

abbrev pub parse_text : Text → Option (Text × Text)
parse_text s = parse_from start s

abbrev pub parse_number : Text → Option (ℕ × Text)
parse_number (h ∷ l ∷ rest) = some (16 * h + l, rest)
parse_number _ = none

abbrev mutual
  pub parse : ℕ → Text → Option (Value × Text)
  parse zero s = none
  parse (suc fuel) [] = none
  parse (suc fuel) (c ∷ s) =
      let number = then_ (parse_number s) (λ n rest. some (num n, rest)) in
      let literal = then_ (parse_text s) (λ t rest. some (text t, rest)) in
      let items = then_ (parse_items fuel s) (λ xs rest. some (arr xs, rest)) in
      let fields = then_ (parse_fields fuel s) (λ m rest. some (obj m, rest)) in
      if c == 0
      then some (nothing, s)
      else if c == 1
      then some (truth true, s)
      else if c == 2
      then some (truth false, s)
      else if c == 3
      then number
      else if c == 4
      then literal
      else if c == 5
      then items
      else if c == 6
      then fields
      else none

  pub parse_items : ℕ → Text → Option (Items × Text)
  parse_items zero s = none
  parse_items (suc fuel) [] = none
  parse_items (suc fuel) (c ∷ s) =
      let more =
        then_ (parse fuel s)
          (λ v rest. then_ (parse_items fuel rest) (λ xs rest'. some (cons v xs, rest'))) in
      if c == 0 then some (nil, s) else more

  pub parse_fields : ℕ → Text → Option (Fields × Text)
  parse_fields zero s = none
  parse_fields (suc fuel) [] = none
  parse_fields (suc fuel) (c ∷ s) =
      let more = then_ (parse_text s) (λ k rest.
        then_ (parse fuel rest)
          (λ v rest'. then_ (parse_fields fuel rest') (λ m rest''. some (field k v m, rest'')))) in
      if c == 0 then some (end, s) else more

abbrev pub whole : Option (Value × Text) → Text ⊎ Value
whole (some (v, [])) = inr v
whole _ = inl (str "not a document")

-- The print has no NUL: every character is one more than in the code.
abbrev pub raise : Text → Text
raise [] = []
raise (c ∷ s) = suc c ∷ raise s

abbrev pub lower_one : ℕ → ℕ
lower_one zero = zero
lower_one (suc c) = c

abbrev pub lower : Text → Text
lower [] = []
lower (c ∷ s) = lower_one c ∷ lower s

raise-has_nul : (s : Text) → has_nul (raise s) ≡ false
raise-has_nul [] = refl
raise-has_nul (c ∷ s) = ground (arith, raise-has_nul s)

abbrev pub tree : Json
tree = record {
  Value = Value;
  Map = Fields;
  Number = ℕ;
  value = value;
  variant = variant;
  as_str = as_str;
  as_object = as_object;
  value_get = value_get;
  new = end;
  get = get;
  insert = insert;
  remove = remove;
  from_str = λ s. whole (parse (length s) (lower s));
  to_vec = λ v. inr (raise (print v []));
  to_string = λ v. raise (print v []);
}

to_list-of_list : (vs : List Value) → to_list (of_list vs) ≡ vs
to_list-of_list [] = refl
to_list-of_list (v ∷ vs) = ap (λ ws. v ∷ ws) (to_list-of_list vs)

variant-value : (x : Variant Value Fields ℕ) → IsValid x → variant (value x) ≡ x
variant-value null h = refl
variant-value (bool b) h = refl
variant-value (number n) h = refl
variant-value (string t) h = rw h
variant-value (array vs) h = ap array (to_list-of_list vs)
variant-value (object m) h = refl

as_str_lem : (v : Value) → as_str v ≡ str_variant tree (variant v)
as_str_lem (text t) = ground arith
as_str_lem nothing = refl
as_str_lem _ = refl

as_object_lem : (v : Value) → as_object v ≡ object_variant tree (variant v)
as_object_lem (text t) = ground arith
as_object_lem nothing = refl
as_object_lem _ = refl

value_get_none :
    (v : Value) (k : Text) → object_variant tree (variant v) ≡ none → value_get v k ≡ none
value_get_none (obj m) k h = cc
value_get_none nothing k h = refl
value_get_none _ k h = refl

as_str-is_utf8 : (v : Value) {t : Text} → as_str v ≡ some t → is_utf8 t ≡ true
as_str-is_utf8 (text t) h = ground arith
as_str-is_utf8 nothing h = cc
as_str-is_utf8 _ h = cc

get-insert :
    (m : Fields) (j k : Text) (v : Value)
    → get (insert m j v) k ≡ (if text_eq j k then some v else get m k)
get-insert end j k v = refl
get-insert (field i w m) j k v = elim (Bool-cases (text_eq i j)) [
  | inl same ↦ ground (arith, text_eq-eq i j same)
  | inr other ↦ elim (Bool-cases (text_eq j k)) [
    | inl same ↦ ground (arith, get-insert m j k v, text_eq-eq j k same)
    | inr apart ↦ ground (arith, get-insert m j k v)
  ]
]

get-remove :
    (m : Fields) (j k : Text) → get (remove m j) k ≡ (if text_eq j k then none else get m k)
get-remove end j k = ground arith
get-remove (field i w m) j k = elim (Bool-cases (text_eq i j)) [
  | inl same ↦ ground (arith, get-remove m j k, text_eq-eq i j same)
  | inr other ↦ elim (Bool-cases (text_eq j k)) [
    | inl same ↦ ground (arith, get-remove m j k, text_eq-eq j k same)
    | inr apart ↦ ground (arith, get-remove m j k)
  ]
]

remove_absent : (m : Fields) (k : Text) → get m k ≡ none → remove m k ≡ m
remove_absent end k h = refl
remove_absent (field j v m) k h = ground (arith, remove_absent m k)

remove-insert : (m : Fields) (k : Text) (v : Value) → get m k ≡ none → remove (insert m k v) k ≡ m
remove-insert end k v h = ground (arith, text_eq_refl k)
remove-insert (field j w m) k v h = ground (arith, remove-insert m k v)

pub tree-IsJson : IsJson tree
tree-IsJson = record {
  variant-value = variant-value;
  as_str_lem = as_str_lem;
  as_object_lem = as_object_lem;
  value_get-object = λ m k. refl;
  value_get_none = value_get_none;
  as_str-is_utf8 = as_str-is_utf8;
  get-new = λ k. refl;
  get-insert = get-insert;
  get-remove = get-remove;
  remove-insert = remove-insert;
  to_string-has_nul = λ v. raise-has_nul (print v []);
}
