-- ===== src/Dem/Json/Printing.antt =====
-- A printer of JSON documents, which the parser of src/dem.cpp is compared with.
use ph_k_battle_server.Base.{
  ℕ, suc, ◌+◌, ◌≤◌, ◌<◌, ◌≡◌, refl, sym, ap, ◌∙◌, Bool, true, false, ◌||◌, [], ◌∷◌, ◌++◌, none,
  arith, ◌==◌, Bytes, codes,
}
use ph_k_battle_server.Ticket.Digits.{is_digit, is_plain_number}
use ph_k_battle_server.Dem.Json.{
  DemJsonValue, null, boolean, number, string, array, object, Elements, no_elements, element,
  Members, no_members, member, dem_json_escape, skip_whitespace, expect, value_start, digits,
}
use ph_k_battle_server.Dem.Json.Numbers.{IsInteger, plain, negative}

-- A string in front of a text.
unfoldable pub string_onto : Bytes → Bytes → Bytes
string_onto value rest = b'"' ∷ (dem_json_escape value ++ (b'"' ∷ rest))

-- The comma in front of what follows, where something follows.
unfoldable pub before_elements : Elements → Bytes → Bytes
before_elements no_elements text = text
before_elements (element v r) text = b',' ∷ text

unfoldable pub before_members : Members → Bytes → Bytes
before_members no_members text = text
before_members (member k v r) text = b',' ∷ text

-- A value in front of a text, and what follows the opening bracket of an array or an object.
unfoldable mutual
  pub value_onto : DemJsonValue → Bytes → Bytes
  value_onto null rest = codes "null" ++ rest
  value_onto (boolean true) rest = codes "true" ++ rest
  value_onto (boolean false) rest = codes "false" ++ rest
  value_onto (number text) rest = text ++ rest
  value_onto (string text) rest = string_onto text rest
  value_onto (array elements) rest = b'[' ∷ elements_onto elements rest
  value_onto (object members) rest = b'{' ∷ members_onto members rest

  pub elements_onto : Elements → Bytes → Bytes
  elements_onto no_elements rest = b']' ∷ rest
  elements_onto (element v r) rest = value_onto v (before_elements r (elements_onto r rest))

  pub members_onto : Members → Bytes → Bytes
  members_onto no_members rest = b'}' ∷ rest
  members_onto (member k v r) rest =
      string_onto k (b':' ∷ value_onto v (before_members r (members_onto r rest)))

-- The fuel that the parser needs.
unfoldable mutual
  pub need : DemJsonValue → ℕ
  need null = 1
  need (boolean b) = 1
  need (number text) = 1
  need (string text) = 1
  need (array elements) = suc (elements_need elements)
  need (object members) = suc (members_need members)

  pub elements_need : Elements → ℕ
  elements_need no_elements = 0
  elements_need (element v r) = suc (need v + elements_need r)

  pub members_need : Members → ℕ
  members_need no_members = 0
  members_need (member k v r) = suc (need v + members_need r)

pub need-positive : (v : DemJsonValue) → 0 < need v
unfolding need
need-positive null = omega arith
need-positive (boolean b) = omega arith
need-positive (number text) = omega arith
need-positive (string text) = omega arith
need-positive (array es) = omega arith
need-positive (object ms) = omega arith

-- Documents of strings, integers, arrays and objects that are not nested too deep.
mutual
  pub data IsPrinted : ℕ → DemJsonValue → Type 0 where
    of_string : (depth : ℕ) (text : Bytes) → depth ≤ 32 → IsPrinted depth (string text)
    of_number :
        (depth : ℕ) (text : Bytes) → depth ≤ 32 → IsInteger text → IsPrinted depth (number text)
    of_array :
        (depth : ℕ) (elements : Elements)
        → depth ≤ 32
        → AreElements depth elements
        → IsPrinted depth (array elements)
    of_object :
        (depth : ℕ) (members : Members)
        → depth ≤ 32
        → AreMembers depth members
        → IsPrinted depth (object members)

  pub data AreElements : ℕ → Elements → Type 0 where
    end_of_elements : (depth : ℕ) → AreElements depth no_elements
    more_elements :
        (depth : ℕ) (v : DemJsonValue) (r : Elements)
        → IsPrinted (depth + 1) v
        → AreElements depth r
        → AreElements depth (element v r)

  pub data AreMembers : ℕ → Members → Type 0 where
    end_of_members : (depth : ℕ) → AreMembers depth no_members
    more_members :
        (depth : ℕ) (k : Bytes) (v : DemJsonValue) (r : Members)
        → IsPrinted (depth + 1) v
        → AreMembers depth r
        → AreMembers depth (member k v r)

-- What a printed value can begin with.
abbrev pub is_head : ℕ → Bool
is_head ch = (ch == b'"') || ((ch == b'{') || ((ch == b'[') || ((ch == b'-') || is_digit ch)))

pub integer_head :
    (text : Bytes)
    → IsInteger text
    → (ch : ℕ) × (rest : Bytes) × (text ≡ ch ∷ rest)
      × (value_start ch ≡ digits)
      × (is_head ch ≡ true)
unfolding value_start is_plain_number is_digit
integer_head text (plain [] h) = cc
integer_head text (plain (ch ∷ rest) h) = (ch, rest, refl, ground (arith, h), ground (arith, h))
integer_head text (negative rest h) = (b'-', rest, refl, refl, refl)

value_head :
    (depth : ℕ) (v : DemJsonValue) (rest : Bytes)
    → IsPrinted depth v
    → (ch : ℕ) × (tail : Bytes) × (value_onto v rest ≡ ch ∷ tail) × (is_head ch ≡ true)
unfolding value_onto string_onto
value_head depth v rest (of_string _ text _) = (b'"', _, refl, refl)
value_head depth v rest (of_number _ text _ i) =
    let (ch, tail, same, _, head) = integer_head text i in
    (ch, tail ++ rest, ap (λ t. t ++ rest) same, head)
value_head depth v rest (of_array _ _ _ _) = (b'[', _, refl, refl)
value_head depth v rest (of_object _ _ _ _) = (b'{', _, refl, refl)

skip-head : (ch : ℕ) (tail : Bytes) → is_head ch ≡ true → skip_whitespace (ch ∷ tail) ≡ ch ∷ tail
unfolding skip_whitespace is_digit
skip-head ch tail h = ground (arith, h)

expect-head : (ch : ℕ) (tail : Bytes) → is_head ch ≡ true → expect b']' (ch ∷ tail) ≡ none
unfolding expect is_digit
expect-head ch tail h = ground (arith, h)

pub skip-value :
    (depth : ℕ) (v : DemJsonValue) (rest : Bytes)
    → IsPrinted depth v
    → skip_whitespace (value_onto v rest) ≡ value_onto v rest
skip-value depth v rest p =
    let (ch, tail, same, head) = value_head depth v rest p in
    ap skip_whitespace same ∙ skip-head ch tail head ∙ sym same

pub expect-value :
    (depth : ℕ) (v : DemJsonValue) (rest : Bytes)
    → IsPrinted depth v
    → expect b']' (value_onto v rest) ≡ none
expect-value depth v rest p =
    let (ch, tail, same, head) = value_head depth v rest p in
    ap (expect b']') same ∙ expect-head ch tail head
