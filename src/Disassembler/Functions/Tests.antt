-- ===== src/Disassembler/Functions/Tests.antt =====
-- The search for functions, on a mapping with one function.
use reil.Base.{ℕ, ◌≡◌, refl, true, false, [], ◌∷◌, ok, arith}
use reil.MemoryImage.{MemoryImage, Mapping}
use reil.Flow.Containers.{member}
use reil.Disassembler.Aarch64.Addresses.{address_order}
use reil.Disassembler.Functions.{find_functions}
use reil.Disassembler.Functions.Starts.{Checked, StartInAny, find_functions-StartInAny}

-- `stp x29, x30, [sp, #-16]!`, `add x29, sp, #0` and `ret`, at 4096.
abbrev code : Mapping
code = record {
  address = 4096;
  bytes = 0xfd ∷ 0x7b ∷ 0xbf ∷ 0xa9 ∷ 0xfd ∷ 0x03 ∷ 0x00 ∷ 0x91 ∷ 0xc0 ∷ 0x03 ∷ 0x5f ∷ 0xd6 ∷ [];
  readable = true;
  writable = false;
  executable = true;
}

abbrev image : MemoryImage
image = record { mappings = code ∷ []; architecture_name = "aarch64" }

finds_it : find_functions image ≡ ok (4096 ∷ [])
unfolding find_functions reil.Disassembler.Functions.scan_mappings
    reil.Disassembler.Functions.scan_bytes reil.Disassembler.Functions.scan_word
    reil.Flow.Containers.insert
finds_it = refl

find_functions-StartInAny_example :
    Checked
      (find_functions image)
      (λ found. (a : ℕ) → member a found ≡ true → StartInAny image.mappings a)
find_functions-StartInAny_example = find_functions-StartInAny image (omega arith, tt)
