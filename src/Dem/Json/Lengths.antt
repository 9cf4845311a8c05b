-- ===== src/Dem/Json/Lengths.antt =====
-- The fuel that the parser of src/dem.cpp needs for a printed document.
use ph_k_battle_server.Base.{
  ℕ, zero, suc, ◌+◌, ◌≤◌, ap, ◌∷◌, ◌++◌, arith, length, length-append, Bytes,
}
use ph_k_battle_server.Dem.Json.{
  DemJsonValue, Elements, no_elements, element, Members, no_members, member, dem_json_escape,
}
use ph_k_battle_server.Dem.Json.Numbers.{IsInteger}
use ph_k_battle_server.Dem.Json.Printing.{
  string_onto, before_elements, before_members, value_onto, elements_onto, members_onto, need,
  elements_need, members_need, need-positive, IsPrinted, of_string, of_number, of_array, of_object,
  AreElements, end_of_elements, more_elements, AreMembers, end_of_members, more_members,
  integer_head,
}

-- The fuel needed is not more than the length of the printed text.
pub record Lengths (bound : ℕ) : Type 0 where
  pub values :
      (v : DemJsonValue) (depth : ℕ) (rest : Bytes)
      → IsPrinted depth v
      → need v ≤ bound
      → need v + length rest ≤ length (value_onto v rest)
  pub elements :
      (es : Elements) (depth : ℕ) (rest : Bytes)
      → AreElements depth es
      → elements_need es ≤ bound
      → elements_need es + length rest ≤ length (elements_onto es rest)
  pub members :
      (ms : Members) (depth : ℕ) (rest : Bytes)
      → AreMembers depth ms
      → members_need ms ≤ bound
      → members_need ms + 1 + length rest ≤ length (members_onto ms rest)

length-string_onto : (value rest : Bytes) → 2 + length rest ≤ length (string_onto value rest)
unfolding string_onto
length-string_onto value rest = omega (arith, length-append (dem_json_escape value) (b'"' ∷ rest))

length-number : (text rest : Bytes) → IsInteger text → 1 + length rest ≤ length (text ++ rest)
length-number text rest i =
    let (ch, tail, same, _, _) = integer_head text i in
    omega (arith, ap length same, length-append text rest)

values_length :
    (bound depth : ℕ) (v : DemJsonValue) (rest : Bytes)
    → Lengths bound
    → IsPrinted depth v
    → need v ≤ suc bound
    → need v + length rest ≤ length (value_onto v rest)
unfolding value_onto need
values_length bound depth v rest before (of_string _ text h) k =
    omega (arith, length-string_onto text rest)
values_length bound depth v rest before (of_number _ text h i) k =
    omega (arith, length-number text rest i)
values_length bound depth v rest before (of_array _ es h p) k =
    omega (arith, before.elements es depth rest p (omega arith))
values_length bound depth v rest before (of_object _ ms h p) k =
    omega (arith, before.members ms depth rest p (omega arith))

elements_length :
    (bound depth : ℕ) (es : Elements) (rest : Bytes)
    → Lengths bound
    → AreElements depth es
    → elements_need es ≤ suc bound
    → elements_need es + length rest ≤ length (elements_onto es rest)
unfolding elements_onto elements_need before_elements
elements_length bound depth es rest before (end_of_elements _) k = omega arith
elements_length bound depth es rest before (more_elements _ v no_elements p ps) k =
    omega (arith, before.values v (depth + 1) (b']' ∷ rest) p (omega arith))
elements_length bound depth es rest before (more_elements _ v (element w r) p ps) k =
    let later = elements_onto (element w r) rest in
    omega (
      arith,
      before.values v (depth + 1) (b',' ∷ later) p (omega arith),
      before.elements (element w r) depth rest ps (omega arith),
    )

members_length :
    (bound depth : ℕ) (ms : Members) (rest : Bytes)
    → Lengths bound
    → AreMembers depth ms
    → members_need ms ≤ suc bound
    → members_need ms + 1 + length rest ≤ length (members_onto ms rest)
unfolding members_onto members_need before_members
members_length bound depth ms rest before (end_of_members _) k = omega arith
members_length bound depth ms rest before (more_members _ key v no_members p ps) k = omega (
  arith,
  length-string_onto key (b':' ∷ value_onto v (b'}' ∷ rest)),
  before.values v (depth + 1) (b'}' ∷ rest) p (omega arith),
)
members_length bound depth ms rest before (more_members _ key v (member key' w r) p ps) k =
    let later = members_onto (member key' w r) rest in
    omega (
      arith,
      length-string_onto key (b':' ∷ value_onto v (b',' ∷ later)),
      before.values v (depth + 1) (b',' ∷ later) p (omega arith),
      before.members (member key' w r) depth rest ps (omega arith),
    )

elements_length_zero :
    (es : Elements) (depth : ℕ) (rest : Bytes)
    → AreElements depth es
    → elements_need es ≤ 0
    → elements_need es + length rest ≤ length (elements_onto es rest)
unfolding elements_onto elements_need
elements_length_zero es depth rest (end_of_elements _) k = omega arith
elements_length_zero es depth rest (more_elements _ v r p ps) k = absurd (omega arith)

members_length_zero :
    (ms : Members) (depth : ℕ) (rest : Bytes)
    → AreMembers depth ms
    → members_need ms ≤ 0
    → members_need ms + 1 + length rest ≤ length (members_onto ms rest)
unfolding members_onto members_need
members_length_zero ms depth rest (end_of_members _) k = omega arith
members_length_zero ms depth rest (more_members _ key v r p ps) k = absurd (omega arith)

pub lengths : (bound : ℕ) → Lengths bound
unfolding elements_onto elements_need members_need
lengths zero = record {
  values = λ v depth rest p k. absurd (omega (arith, k, need-positive v));
  elements = λ es depth rest p k. elements_length_zero es depth rest p k;
  members = λ ms depth rest p k. members_length_zero ms depth rest p k;
}
lengths (suc bound) = record {
  values = λ v depth rest p k. values_length bound depth v rest (lengths bound) p k;
  elements = λ es depth rest p k. elements_length bound depth es rest (lengths bound) p k;
  members = λ ms depth rest p k. members_length bound depth ms rest (lengths bound) p k;
}
