-- ===== src/Disassembler/Aarch64/Addresses.antt =====
-- `std::set` of addresses.
pub mod Laws
use reil.Base.{ℕ, List, [], ◌∷◌, arith, ltb, ◌==◌, ==_iff}
use reil.Flow.Containers.{Order, insert}

instance abbrev pub address_order : Order ℕ
address_order = record {
  less = ltb;
  same = ◌==◌;
  same_iff_eq = ==_iff;
  total = λ a b p q. ground arith;
}

-- `insert` of a range.
abbrev pub insert_all : List ℕ → List ℕ → List ℕ
insert_all [] s = s
insert_all (a ∷ rest) s = insert_all rest (insert a s)
