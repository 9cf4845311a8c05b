-- ===== src/Dem/Json/RoundTrip.antt =====
-- `DemJsonParser` of src/dem.cpp reads printed documents back.
use ph_k_battle_server.Base.{
  ℕ, zero, suc, ◌+◌, ◌*◌, ◌≤◌, ◌≡◌, refl, sym, ap, ◌∙◌, true, false, [], ◌∷◌, ◌++◌, Option, none,
  some, arith, ltb, length, Bytes, ◌>>=◌,
}
use ph_k_battle_server.Ticket.Digits.{is_digit}
use ph_k_battle_server.Dem.Json.{
  DemJsonValue, number, string, array, object, Elements, no_elements, element, Members, no_members,
  member, skip_whitespace, expect, value_start, digits, separator, comma, closing, neither,
  parse_number, parse_string, parse_value, parse_members, parse_elements, parse_json,
}
use ph_k_battle_server.Dem.Json.Strings.{parse_string-escape}
use ph_k_battle_server.Dem.Json.Numbers.{IsInteger, stops, parse_number-IsInteger}
use ph_k_battle_server.Dem.Json.Printing.{
  string_onto, before_elements, before_members, value_onto, elements_onto, members_onto, need,
  elements_need, members_need, need-positive, IsPrinted, of_string, of_number, of_array, of_object,
  AreElements, end_of_elements, more_elements, AreMembers, end_of_members, more_members,
  integer_head, skip-value, expect-value,
}
use ph_k_battle_server.Dem.Json.Lengths.{lengths}

shallow : (depth : ℕ) → depth ≤ 32 → ltb 32 depth ≡ false
shallow depth h = ground arith

parse_string-onto :
    (value rest : Bytes) → parse_string (string_onto value rest) ≡ some (value, rest)
unfolding string_onto
parse_string-onto value rest = parse_string-escape value rest

-- What the three parsers do with that much fuel.
record Reads (fuel : ℕ) : Type 0 where
  values :
      (v : DemJsonValue) (depth : ℕ) (rest : Bytes)
      → IsPrinted depth v
      → need v ≤ fuel
      → stops rest ≡ true
      → parse_value fuel depth (value_onto v rest) ≡ some (v, rest)
  elements :
      (v : DemJsonValue) (r : Elements) (depth : ℕ) (rest : Bytes)
      → IsPrinted (depth + 1) v
      → AreElements depth r
      → elements_need (element v r) ≤ fuel
      → parse_elements fuel depth (elements_onto (element v r) rest) ≡ some (element v r, rest)
  members :
      (k : Bytes) (v : DemJsonValue) (r : Members) (depth : ℕ) (rest : Bytes)
      → IsPrinted (depth + 1) v
      → AreMembers depth r
      → members_need (member k v r) ≤ fuel
      → parse_members fuel depth (members_onto (member k v r) rest) ≡ some (member k v r, rest)

string_value :
    (fuel depth : ℕ) (text rest : Bytes)
    → depth ≤ 32
    → parse_value (suc fuel) depth (value_onto (string text) rest) ≡ some (string text, rest)
unfolding parse_value value_onto string_onto value_start
string_value fuel depth text rest h = simp (shallow depth h, parse_string-escape text rest) refl

number_at :
    (fuel depth ch : ℕ) (text : Bytes)
    → depth ≤ 32
    → value_start ch ≡ digits
    → parse_value (suc fuel) depth (ch ∷ text) ≡ parse_number (ch ∷ text)
unfolding parse_value
number_at fuel depth ch text h start = simp (shallow depth h, start) refl

number_value :
    (fuel depth : ℕ) (text rest : Bytes)
    → depth ≤ 32
    → IsInteger text
    → stops rest ≡ true
    → parse_value (suc fuel) depth (value_onto (number text) rest) ≡ some (number text, rest)
unfolding value_onto
number_value fuel depth text rest h i k =
    let (ch, tail, same, start, _) = integer_head text i in
    ap (λ t. parse_value (suc fuel) depth (t ++ rest)) same
    ∙ number_at fuel depth ch (tail ++ rest) h start
    ∙ ap (λ t. parse_number (t ++ rest)) (sym same)
    ∙ parse_number-IsInteger text rest i k

object_value :
    (fuel depth : ℕ) (ms : Members) (rest : Bytes)
    → Reads fuel
    → depth ≤ 32
    → AreMembers depth ms
    → need (object ms) ≤ suc fuel
    → parse_value (suc fuel) depth (value_onto (object ms) rest) ≡ some (object ms, rest)
unfolding parse_value value_onto members_onto string_onto value_start skip_whitespace expect need
    members_need
object_value fuel depth ms rest reads h (end_of_members _) k = simp (shallow depth h) refl
object_value fuel depth ms rest reads h (more_members _ key v r p ps) k =
    simp (shallow depth h, reads.members key v r depth rest p ps (omega arith)) refl

array_at :
    (fuel depth : ℕ) (text : Bytes) (es : Elements) (rest : Bytes)
    → depth ≤ 32
    → expect b']' (skip_whitespace text) ≡ none
    → parse_elements fuel depth text ≡ some (es, rest)
    → parse_value (suc fuel) depth (b'[' ∷ text) ≡ some (array es, rest)
unfolding parse_value value_start
array_at fuel depth text es rest h filled read = ground (arith, shallow depth h, filled, read)

array_start :
    (fuel depth : ℕ) (v : DemJsonValue) (r : Elements) (rest : Bytes)
    → depth ≤ 32
    → IsPrinted (depth + 1) v
    → parse_elements fuel depth (elements_onto (element v r) rest) ≡ some (element v r, rest)
    → parse_value (suc fuel) depth (value_onto (array (element v r)) rest)
      ≡ some (array (element v r), rest)
unfolding value_onto elements_onto
array_start fuel depth v r rest h p read =
    let text = before_elements r (elements_onto r rest) in
    array_at fuel depth (value_onto v text) (element v r) rest h
      (ap (expect b']') (skip-value (depth + 1) v text p) ∙ expect-value (depth + 1) v text p) read

array_value :
    (fuel depth : ℕ) (es : Elements) (rest : Bytes)
    → Reads fuel
    → depth ≤ 32
    → AreElements depth es
    → need (array es) ≤ suc fuel
    → parse_value (suc fuel) depth (value_onto (array es) rest) ≡ some (array es, rest)
unfolding parse_value value_onto elements_onto value_start skip_whitespace expect need elements_need
array_value fuel depth es rest reads h (end_of_elements _) k = simp (shallow depth h) refl
array_value fuel depth es rest reads h (more_elements _ v r p ps) k =
    array_start fuel depth v r rest h p (reads.elements v r depth rest p ps (omega arith))

-- What stands behind an element or a member ends a number.
elements-stop :
    (r : Elements) (rest : Bytes) → stops (before_elements r (elements_onto r rest)) ≡ true
unfolding before_elements elements_onto is_digit
elements-stop no_elements rest = refl
elements-stop (element v r) rest = refl

members-stop : (r : Members) (rest : Bytes) → stops (before_members r (members_onto r rest)) ≡ true
unfolding before_members members_onto is_digit
members-stop no_members rest = refl
members-stop (member k v r) rest = refl

-- What the parsers do behind an element and behind a member, with fuel for the rest.
after_element : ℕ → ℕ → DemJsonValue → Bytes → Option (Elements × Bytes)
after_element fuel depth v text = elim (separator b']' (skip_whitespace text)) [
  | comma t2 ↦ parse_elements fuel depth t2 >>= λ (es, t3). some (element v es, t3)
  | closing t2 ↦ some (element v no_elements, t2)
  | neither ↦ none
]

after_member : ℕ → ℕ → Bytes → DemJsonValue → Bytes → Option (Members × Bytes)
after_member fuel depth key v text = elim (separator b'}' (skip_whitespace text)) [
  | comma t4 ↦ parse_members fuel depth t4 >>= λ (ms, t5). some (member key v ms, t5)
  | closing t4 ↦ some (member key v no_members, t4)
  | neither ↦ none
]

element_at :
    (fuel depth : ℕ) (v : DemJsonValue) (text : Bytes)
    → IsPrinted (depth + 1) v
    → parse_value fuel (depth + 1) (value_onto v text) ≡ some (v, text)
    → parse_elements (suc fuel) depth (value_onto v text) ≡ after_element fuel depth v text
unfolding parse_elements after_element
element_at fuel depth v text p read = simp (skip-value (depth + 1) v text p, read) refl

member_at :
    (fuel depth : ℕ) (key : Bytes) (v : DemJsonValue) (text : Bytes)
    → IsPrinted (depth + 1) v
    → parse_value fuel (depth + 1) (value_onto v text) ≡ some (v, text)
    → parse_members (suc fuel) depth (string_onto key (b':' ∷ value_onto v text))
      ≡ after_member fuel depth key v text
unfolding parse_members after_member string_onto skip_whitespace expect
member_at fuel depth key v text p read =
    simp (parse_string-escape key (b':' ∷ value_onto v text), skip-value (depth + 1) v text p, read)
      refl

rest_of_elements :
    (fuel depth : ℕ) (v : DemJsonValue) (r : Elements) (rest : Bytes)
    → Reads fuel
    → AreElements depth r
    → elements_need r ≤ fuel
    → after_element fuel depth v (before_elements r (elements_onto r rest))
      ≡ some (element v r, rest)
unfolding after_element before_elements skip_whitespace separator
rest_of_elements fuel depth v r rest reads (end_of_elements _) k = (unfold elements_onto in refl)
rest_of_elements fuel depth v r rest reads (more_elements _ w r' p ps) k =
    simp (reads.elements w r' depth rest p ps k) refl

rest_of_members :
    (fuel depth : ℕ) (key : Bytes) (v : DemJsonValue) (r : Members) (rest : Bytes)
    → Reads fuel
    → AreMembers depth r
    → members_need r ≤ fuel
    → after_member fuel depth key v (before_members r (members_onto r rest))
      ≡ some (member key v r, rest)
unfolding after_member before_members skip_whitespace separator
rest_of_members fuel depth key v r rest reads (end_of_members _) k = (unfold members_onto in refl)
rest_of_members fuel depth key v r rest reads (more_members _ key' w r' p ps) k =
    simp (reads.members key' w r' depth rest p ps k) refl

values_step :
    (fuel depth : ℕ) (v : DemJsonValue) (rest : Bytes)
    → Reads fuel
    → IsPrinted depth v
    → need v ≤ suc fuel
    → stops rest ≡ true
    → parse_value (suc fuel) depth (value_onto v rest) ≡ some (v, rest)
values_step fuel depth v rest reads (of_string _ text h) k s = string_value fuel depth text rest h
values_step fuel depth v rest reads (of_number _ text h i) k s =
    number_value fuel depth text rest h i s
values_step fuel depth v rest reads (of_array _ es h p) k s =
    array_value fuel depth es rest reads h p k
values_step fuel depth v rest reads (of_object _ ms h p) k s =
    object_value fuel depth ms rest reads h p k

reads : (fuel : ℕ) → Reads fuel
unfolding elements_need members_need elements_onto value_onto
reads zero = record {
  values = λ v depth rest p k s. absurd (omega (arith, k, need-positive v));
  elements = λ v r depth rest p ps k. absurd (omega arith);
  members = λ key v r depth rest p ps k. absurd (omega arith);
}
reads (suc fuel) =
    let before = reads fuel in
    record {
      values = λ v depth rest p k s. values_step fuel depth v rest before p k s;
      elements = λ v r depth rest p ps k.
          let text = before_elements r (elements_onto r rest) in
          element_at fuel depth v text p
            (before.values v (depth + 1) text p (omega arith) (elements-stop r rest))
          ∙ rest_of_elements fuel depth v r rest before ps (omega arith);
      members = λ key v r depth rest p ps k.
          let text = before_members r (members_onto r rest) in
          member_at fuel depth key v text p
            (before.values v (depth + 1) text p (omega arith) (members-stop r rest))
          ∙ rest_of_members fuel depth key v r rest before ps (omega arith);
    }

-- A printed document is read back.
pub parse_json-onto : (v : DemJsonValue) → IsPrinted 0 v → parse_json (value_onto v []) ≡ some v
unfolding parse_json skip_whitespace
parse_json-onto v p =
    let text = value_onto v [] in
    let enough = (lengths (need v)).values v 0 [] p (omega arith) in
    let read = (reads (2 * length text + 1)).values v 0 [] p (omega (arith, enough)) refl in
    simp (skip-value 0 v [] p, read) refl
