-- ===== src/Base/Ordered.antt =====
-- `std::map` as the list of its entries in the order of the keys.
use Prim.Native.Nat.{ℕ, ◌+◌, ◌≤◌}
use mathlib.Core.Path.{subst, ◌≡◌, refl}
use mathlib.Core.Logic.{◌↔◌, inl, inr}
use mathlib.Core.Bool.{Bool, true, false}
use mathlib.Core.List.{List, [], ◌∷◌}
use mathlib.Core.Option.{Option, none, some}
use native.Mathlib.Omega.{arith}
use ph_k_battle_server.Base.Tests.{ltb, ◌==◌, ==_iff, if◌then◌else◌, Bool-cases}
use ph_k_battle_server.Base.Lists.{length, All}
use ph_k_battle_server.Base.ByteString.{
  Bytes, bytes_eq, bytes_eq_iff, bytes_lt, bytes_lt_irrefl, bytes_lt_trans, bytes_lt_total,
}

pub record Key {ℓ} (K : Type ℓ) : Type ℓ where
  pub eqb : K → K → Bool
  pub eqb_iff : (a b : K) → (eqb a b ≡ true) ↔ (a ≡ b)
  pub before : K → K → Bool
  pub before_irrefl : (a : K) → before a a ≡ false
  pub before_trans : (a b c : K) → before a b ≡ true → before b c ≡ true → before a c ≡ true
  pub before_total : (a b : K) → eqb a b ≡ false → before a b ≡ false → before b a ≡ true

pub ltb_irrefl : (a : ℕ) → ltb a a ≡ false
ltb_irrefl a = ground arith

pub ltb_trans : (a b c : ℕ) → ltb a b ≡ true → ltb b c ≡ true → ltb a c ≡ true
ltb_trans a b c h k = ground arith

pub ltb_total : (a b : ℕ) → (a == b) ≡ false → ltb a b ≡ false → ltb b a ≡ true
ltb_total a b h k = ground arith

instance abbrev pub nat_key : Key ℕ
nat_key = record {
  eqb = λ a b. a == b;
  eqb_iff = ==_iff;
  before = ltb;
  before_irrefl = ltb_irrefl;
  before_trans = ltb_trans;
  before_total = ltb_total;
}

instance abbrev pub bytes_key : Key Bytes
bytes_key = record {
  eqb = bytes_eq;
  eqb_iff = bytes_eq_iff;
  before = bytes_lt;
  before_irrefl = bytes_lt_irrefl;
  before_trans = bytes_lt_trans;
  before_total = bytes_lt_total;
}

eqb-sym {ℓ} : {K : Type ℓ} ⦃e : Key K⦄ (a b : K) → e.eqb a b ≡ false → e.eqb b a ≡ false
eqb-sym ⦃e⦄ a b h = ground (arith, e.eqb_iff a b, e.eqb_iff b a)

abbrev pub Map {ℓ κ} : Type ℓ → Type κ → Type (ℓ ⊔ κ)
Map K V = List (K × V)

module _ {ℓ κ} {K : Type ℓ} {V : Type κ} ⦃e : Key K⦄ where
  unfoldable pub find : K → Map K V → Option V
  find k [] = none
  find k ((j, v) ∷ m) = if e.eqb j k then some v else find k m

  -- `m[k] = v`.
  unfoldable pub insert : K → V → Map K V → Map K V
  insert k v [] = (k, v) ∷ []
  insert k v ((j, w) ∷ m) =
      if e.eqb j k
      then (k, v) ∷ m
      else (if e.before k j then (k, v) ∷ (j, w) ∷ m else (j, w) ∷ insert k v m)

  unfoldable pub erase : K → Map K V → Map K V
  erase k [] = []
  erase k ((j, w) ∷ m) = let rest = erase k m in if e.eqb j k then rest else (j, w) ∷ rest

  pub find-insert :
      (k j : K) (v : V) (m : Map K V)
      → find j (insert k v m) ≡ (if e.eqb k j then some v else find j m)
  unfolding find insert
  find-insert k j v [] = refl
  find-insert k j v ((i, w) ∷ m) =
      ground (arith, e.eqb_iff i k, e.eqb_iff i j, e.eqb_iff k j, find-insert k j v m)

  pub find-insert_self : (k : K) (v : V) (m : Map K V) → find k (insert k v m) ≡ some v
  find-insert_self k v m = ground (arith, find-insert k k v m, e.eqb_iff k k)

  pub find-erase :
      (k j : K) (m : Map K V) → find j (erase k m) ≡ (if e.eqb k j then none else find j m)
  unfolding find erase
  find-erase k j [] = ground arith
  find-erase k j ((i, w) ∷ m) =
      ground (arith, e.eqb_iff i k, e.eqb_iff i j, e.eqb_iff k j, find-erase k j m)

  pub length-insert-le : (k : K) (v : V) (m : Map K V) → length (insert k v m) ≤ length m + 1
  unfolding insert
  length-insert-le k v [] = omega arith
  length-insert-le k v ((j, w) ∷ m) = ground (arith, length-insert-le k v m)

  -- The keys rise along the list, as in a `std::map`.
  abbrev pub Above : K → Map K V → Type 0
  Above k [] = Unit
  Above k ((j, w) ∷ m) = (e.before k j ≡ true) × Above k m

  abbrev pub IsOrdered : Map K V → Type 0
  IsOrdered [] = Unit
  IsOrdered ((j, w) ∷ m) = Above j m × IsOrdered m

  pub Above-trans : (k j : K) (m : Map K V) → e.before k j ≡ true → Above j m → Above k m
  Above-trans k j [] h a = tt
  Above-trans k j ((i, w) ∷ m) h a = (e.before_trans k j i h a.0, Above-trans k j m h a.1)

  Above-insert :
      (j k : K) (v : V) (m : Map K V) → e.before j k ≡ true → Above j m → Above j (insert k v m)
  unfolding insert
  Above-insert j k v [] h a = (h, tt)
  Above-insert j k v ((i, w) ∷ m) h a = ground (arith, Above-insert j k v m)

  pub insert-IsOrdered : (k : K) (v : V) (m : Map K V) → IsOrdered m → IsOrdered (insert k v m)
  unfolding insert
  insert-IsOrdered k v [] o = (tt, tt)
  insert-IsOrdered k v ((j, w) ∷ m) o = elim (Bool-cases (e.eqb j k)) [
    | inl same ↦ rw same (let same_key = (e.eqb_iff j k).0 same in rw (← same_key) (o.0, o.1))
    | inr other ↦ elim (Bool-cases (e.before k j)) [
      | inl first ↦ rw (other, first) ((first, Above-trans k j m first o.0), (o.0, o.1))
      | inr later ↦
          rw (other, later)
            (
              Above-insert j k v m (e.before_total k j (eqb-sym j k other) later) o.0,
              insert-IsOrdered k v m o.1,
            )
    ]
  ]

  pub find-Above : (k : K) (m : Map K V) → Above k m → find k m ≡ none
  unfolding find
  find-Above k [] a = refl
  find-Above k ((j, w) ∷ m) a = ground (arith, find-Above k m a.1, e.eqb_iff j k, e.before_irrefl k)

  pub length-insert_found :
      (k : K) (v old : V) (m : Map K V)
      → IsOrdered m
      → find k m ≡ some old
      → length (insert k v m) ≡ length m
  unfolding insert find
  length-insert_found k v old [] o h = cc
  length-insert_found k v old ((j, w) ∷ m) o h =
      ground (arith, length-insert_found k v old m o.1, find-Above k m, Above-trans k j m)

  pub find-All_entry {μ} :
      (P : K × V → Type μ) (k : K) (v : V) (m : Map K V) → find k m ≡ some v → All P m → P (k, v)
  unfolding find
  find-All_entry P k v [] h hs = cc
  find-All_entry P k v ((j, w) ∷ m) h hs = elim (Bool-cases (e.eqb j k)) [
    | inl same ↦
        let found : w ≡ v = ground arith in
        let keys : j ≡ k = (e.eqb_iff j k).0 same in
        subst (λ i. P (i, v)) keys (subst (λ u. P (j, u)) found hs.0)
    | inr other ↦ find-All_entry P k v m (ground arith) hs.1
  ]

  pub find-All {μ} :
      (P : V → Type μ) (k : K) (v : V) (m : Map K V)
      → find k m ≡ some v
      → All (λ entry. P entry.1) m
      → P v
  find-All P k v m h hs = find-All_entry (λ entry. P entry.1) k v m h hs

  pub All-insert {μ} :
      (P : K × V → Type μ) (k : K) (v : V) (m : Map K V) → P (k, v) → All P m → All P (insert k v m)
  unfolding insert
  All-insert P k v [] p h = (p, tt)
  All-insert P k v ((j, w) ∷ m) p h = elim (Bool-cases (e.eqb j k)) [
    | inl same ↦ rw same (p, h.1)
    | inr other ↦ elim (Bool-cases (e.before k j)) [
      | inl first ↦ rw (other, first) (p, h)
      | inr later ↦ rw (other, later) (h.0, All-insert P k v m p h.1)
    ]
  ]

-- `std::set`.
module _ {ℓ} {K : Type ℓ} ⦃e : Key K⦄ where
  unfoldable pub member : K → List K → Bool
  member k [] = false
  member k (j ∷ s) = if e.eqb j k then true else member k s

  unfoldable pub include : K → List K → List K
  include k [] = k ∷ []
  include k (j ∷ s) =
      if e.eqb j k then j ∷ s else (if e.before k j then k ∷ j ∷ s else j ∷ include k s)

  pub member-include :
      (k j : K) (s : List K) → member j (include k s) ≡ (if e.eqb k j then true else member j s)
  unfolding member include
  member-include k j [] = refl
  member-include k j (i ∷ s) =
      ground (arith, e.eqb_iff i k, e.eqb_iff i j, e.eqb_iff k j, member-include k j s)
