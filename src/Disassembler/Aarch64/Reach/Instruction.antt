-- ===== src/Disassembler/Aarch64/Reach/Instruction.antt =====
-- `DisassembleInstruction` always returns, with the addresses to which control flows.
use reil.Base.{
  ℕ, zero, suc, ◌+◌, ◌^◌, ◌≤◌, ◌<◌, ◌≡◌, refl, ◌⊎◌, inl, inr, ◌↔◌, true, leb, arith, some, List, [],
  ◌∷◌, length, get_elem?, All, u64, Returns,
}
use native.Mathlib.Nat.{mod-lt}
use reil.Aarch64.Decoder.Types.{Operand, Immediate}
use reil.MemoryImage.{MemoryImage, read}
use reil.Flow.Containers.{member, insert}
use reil.Flow.Containers.Laws.{member-insert}
use reil.Flow.Native.{NativeFlowGraph}
use reil.Disassembler.Aarch64.{
  Role, role, decode_at, pc_relative_address, with_operand, word, follow, branch, maybe_branch,
  call, disassemble_instruction,
}
use reil.Disassembler.Aarch64.Addresses.{address_order}
use reil.Disassembler.Aarch64.Addresses.Laws.{insert-All, length-insert_le}
use reil.Disassembler.Aarch64.Complete.{
  needed, IsComplete, if-IsComplete, unallocated-IsComplete, has_operands,
}
use reil.Disassembler.Aarch64.Complete.Decoded.{decode-IsComplete}
use reil.Disassembler.Aarch64.Reach.{JumpsTo, Follows, Flows}

-- The set of next addresses: two at most, and just those that follow.
pub record IsNext (Next : ℕ → Type 0) (next : List ℕ) : Type 0 where
  pub few : length next ≤ 2
  pub in_range : All (λ a. a < 2 ^ 64) next
  pub members : (a : ℕ) → (member a next ≡ true) ↔ Next a

member-one : (a b : ℕ) → (member b (a ∷ []) ≡ true) ↔ (b ≡ a)
unfolding member
member-one a b = (λ h. ground arith, λ e. ground arith)

member-two : (t a b : ℕ) → (member b (insert t (a ∷ [])) ≡ true) ↔ ((b ≡ a) ⊎ (b ≡ t))
member-two t a b =
    let put = member-insert t b (a ∷ []) in
    let one = member-one a b in (λ h. ground (arith, put, one), λ e. ground (arith, put, one))

or_nothing : (P Q : Type 0) → P ↔ Q → P ↔ (Q ⊎ ⊥)
or_nothing P Q both =
    (λ h. inl (both.0 h), λ h. elim h [ inl q ↦ both.1 q | inr no_way ↦ absurd no_way ])

onward_in_range : (a : ℕ) → u64 a < 2 ^ 64
onward_in_range a = mod-lt a (omega arith)

pc_relative_address-lt :
    (address : ℕ) (offset : Immediate) → pc_relative_address address offset < 2 ^ 64
unfolding pc_relative_address
pc_relative_address-lt address offset = ground arith

only-IsNext : (address : ℕ) → IsNext (λ b. b ≡ u64 (address + 4)) (u64 (address + 4) ∷ [])
only-IsNext address = record {
  few = omega arith;
  in_range = (onward_in_range (address + 4), tt);
  members = λ a. member-one (u64 (address + 4)) a;
}

nowhere-IsNext : IsNext (λ b. ⊥) []
unfolding member
nowhere-IsNext = record { few = omega arith; in_range = tt; members = λ a. ground arith }

branch-IsNext :
    (g : NativeFlowGraph) (address : ℕ) (dst : Operand)
    → IsNext (JumpsTo address (some dst)) (branch g address dst).1
unfolding branch insert
branch-IsNext g address (Operand.immediate offset) = record {
  few = omega arith;
  in_range = (pc_relative_address-lt address offset, tt);
  members = λ a. member-one (pc_relative_address address offset) a;
}
branch-IsNext g address (Operand.register r) = nowhere-IsNext
branch-IsNext g address (Operand.system_register r) = nowhere-IsNext
branch-IsNext g address (Operand.shift s) = nowhere-IsNext
branch-IsNext g address (Operand.extend e) = nowhere-IsNext
branch-IsNext g address (Operand.immediate_offset o) = nowhere-IsNext
branch-IsNext g address (Operand.register_offset o) = nowhere-IsNext

nowhere_else-IsNext :
    (address : ℕ) → IsNext (λ b. (b ≡ u64 (address + 4)) ⊎ ⊥) (u64 (address + 4) ∷ [])
nowhere_else-IsNext address = record {
  few = omega arith;
  in_range = (onward_in_range (address + 4), tt);
  members = λ a. or_nothing _ _ (member-one (u64 (address + 4)) a);
}

maybe_branch-IsNext :
    (g : NativeFlowGraph) (address : ℕ) (dst : Operand)
    → IsNext
        (λ b. (b ≡ u64 (address + 4)) ⊎ JumpsTo address (some dst) b)
        (maybe_branch g address dst).1
unfolding maybe_branch
maybe_branch-IsNext g address (Operand.immediate offset) = record {
  few = length-insert_le (pc_relative_address address offset) (u64 (address + 4) ∷ []);
  in_range =
      insert-All (λ a. a < 2 ^ 64) (pc_relative_address address offset) (u64 (address + 4) ∷ [])
        (pc_relative_address-lt address offset) (onward_in_range (address + 4), tt);
  members = λ a. member-two (pc_relative_address address offset) (u64 (address + 4)) a;
}
maybe_branch-IsNext g address (Operand.register r) = nowhere_else-IsNext address
maybe_branch-IsNext g address (Operand.system_register r) = nowhere_else-IsNext address
maybe_branch-IsNext g address (Operand.shift s) = nowhere_else-IsNext address
maybe_branch-IsNext g address (Operand.extend e) = nowhere_else-IsNext address
maybe_branch-IsNext g address (Operand.immediate_offset o) = nowhere_else-IsNext address
maybe_branch-IsNext g address (Operand.register_offset o) = nowhere_else-IsNext address

call-IsNext :
    (g : NativeFlowGraph) (address : ℕ) (dst : Operand)
    → IsNext (λ b. b ≡ u64 (address + 4)) (call g address dst).1
unfolding call
call-IsNext g address dst = only-IsNext address

found_operand-IsNext :
    (g : NativeFlowGraph) (address : ℕ) (operands : List Operand) (i : ℕ)
    → leb (suc i) (length operands) ≡ true
    → Returns
        (with_operand operands i (maybe_branch g address))
        (λ r. IsNext (λ b. (b ≡ u64 (address + 4)) ⊎ JumpsTo address (get_elem? operands i) b) r.1)
found_operand-IsNext g address [] i h = absurd (ground arith)
found_operand-IsNext g address (dst ∷ operands) zero h =
    (maybe_branch g address dst, refl, maybe_branch-IsNext g address dst)
found_operand-IsNext g address (dst ∷ operands) (suc i) h =
    found_operand-IsNext g address operands i (ground arith)

-- An instruction that has the operand which is read: the step returns what control flows to.
pub follow-IsNext :
    (g : NativeFlowGraph) (address : ℕ) (operands : List Operand) (r : Role)
    → leb (needed r) (length operands) ≡ true
    → Returns (follow g address operands r) (λ result. IsNext (Follows address operands r) result.1)
follow-IsNext g address operands (Role.may_branch i) h = found_operand-IsNext g address operands i h
follow-IsNext g address [] Role.branches h = absurd (ground arith)
follow-IsNext g address (dst ∷ operands) Role.branches h =
    (branch g address dst, refl, branch-IsNext g address dst)
follow-IsNext g address [] Role.calls h = absurd (ground arith)
follow-IsNext g address (dst ∷ operands) Role.calls h =
    (call g address dst, refl, call-IsNext g address dst)
follow-IsNext g address operands (Role.ends kind) h = (_, refl, nowhere-IsNext)
follow-IsNext g address operands Role.plain h = (_, refl, only-IsNext address)

pub decode_at-IsComplete :
    (image : MemoryImage) (address : ℕ) → IsComplete (decode_at image address)
unfolding decode_at
decode_at-IsComplete image address =
    if-IsComplete _ _ _ (decode-IsComplete address (word (read image address)))
      (unallocated-IsComplete address)

-- Disassembling one instruction never reads an operand that is not there, and returns the
-- addresses to which the instruction passes control.
pub disassemble_instruction-IsNext :
    (image : MemoryImage) (g : NativeFlowGraph) (address : ℕ)
    → Returns (disassemble_instruction image g address) (λ r. IsNext (Flows image address) r.1)
unfolding disassemble_instruction
disassemble_instruction-IsNext image g address =
    let i = decode_at image address in
    follow-IsNext g address i.operands (role i.opcode)
      (has_operands i (decode_at-IsComplete image address))
