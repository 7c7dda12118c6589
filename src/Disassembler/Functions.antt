-- ===== src/Disassembler/Functions.antt =====
-- disassembler/aarch64/find_functions.cpp: the search for prologues of functions.
pub mod Starts
mod Tests
use reil.Base.{
  ℕ, ◌+◌, ◌==◌, not, ◌&&◌, ◌||◌, if◌then◌else◌, Bool, true, false, List, [], ◌∷◌, u64, bit_and, Run,
  ok, check, check_failed, ◌>>=◌, ◌>>◌,
}
use reil.MemoryImage.{MemoryImage, Mapping}
use reil.Flow.Containers.{insert}
use reil.Disassembler.Aarch64.{word}
use reil.Disassembler.Aarch64.Addresses.{address_order}

-- `paciasp` and `pacibsp`
abbrev pub is_pac : ℕ → Bool
is_pac opcode =
    bit_and opcode 0b11111111111111111111111110111111 == 0b11010101000000110010001100111111

-- `sub sp, sp, #value`
abbrev pub is_sub : ℕ → Bool
is_sub opcode =
    bit_and opcode 0b11111111000000000000001111111111 == 0b11010001000000000000001111111111

-- `stp x?, x?, [sp, #offset]`, with or without `!`
abbrev pub is_store : ℕ → Bool
is_store opcode =
    bit_and opcode 0b11111111010000000000001111100000 == 0b10101001000000000000001111100000

-- `stp d?, d?, [sp, #offset]`, with or without `!`
abbrev pub is_vector_store : ℕ → Bool
is_vector_store opcode =
    bit_and opcode 0b11111111010000000000001111100000 == 0b01101101000000000000001111100000

-- Whether the search may start a function at the instruction.
abbrev pub is_prologue : ℕ → Bool
is_prologue opcode = is_pac opcode || (is_sub opcode || (is_store opcode || is_vector_store opcode))

-- `add x29, sp, #value`
abbrev pub is_frame : ℕ → Bool
is_frame opcode =
    bit_and opcode 0b11111111000000000000001111111111 == 0b10010001000000000000001111111101

-- The local variables of a mapping's loop, with the results.
pub record Scan : Type 0 where
  pub start_address : ℕ
  pub pacsp : Bool
  pub sub : Bool
  pub stp : Bool
  pub results : List ℕ

-- The body of the loop over the words of a mapping.
unfoldable pub scan_word : Scan → ℕ → ℕ → Run Scan
scan_word s address opcode =
    if not s.pacsp && is_pac opcode
    then check (not s.sub && not s.stp) check_failed
      >> ok (record {
        start_address = address;
        pacsp = true;
        sub = false;
        stp = false;
        results = s.results;
      })
    else if not s.sub && is_sub opcode
    then ok (record s {
      start_address = if not s.pacsp then address else s.start_address;
      sub = true;
      stp = false;
    })
    else if is_store opcode
    then ok (record s {
      start_address = if not s.pacsp && (not s.sub && not s.stp) then address else s.start_address;
      stp = true;
    })
    else if is_vector_store opcode
    then ok (record s {
      start_address = if not s.sub && not s.stp then address else s.start_address;
      stp = true;
    })
    else if s.stp && is_frame opcode
    then ok (record {
      start_address = s.start_address;
      pacsp = false;
      sub = false;
      stp = false;
      results = insert s.start_address s.results;
    })
    else if s.pacsp || (s.sub || s.stp)
    then ok
        (record { start_address = 0; pacsp = false; sub = false; stp = false; results = s.results })
    else ok s

-- The loop while `offset + 4 < mapping.data.size()`, which leaves the last word out.
unfoldable pub scan_bytes : Scan → ℕ → List ℕ → Run Scan
scan_bytes s address (b0 ∷ b1 ∷ b2 ∷ b3 ∷ b4 ∷ rest) =
    scan_word s address (word (b0 ∷ b1 ∷ b2 ∷ b3 ∷ [])) >>= λ t.
    scan_bytes t (u64 (address + 4)) (b4 ∷ rest)
scan_bytes s address bytes = ok s

unfoldable pub scan_mappings : List ℕ → List Mapping → Run (List ℕ)
scan_mappings results [] = ok results
scan_mappings results (m ∷ ms) =
    if m.executable
    then (scan_bytes
          (record { start_address = 0; pacsp = false; sub = false; stp = false; results = results })
          m.address m.bytes
        >>= λ s. scan_mappings s.results ms)
    else scan_mappings results ms

unfoldable pub find_functions : MemoryImage → Run (List ℕ)
find_functions image = scan_mappings [] image.mappings
