-- ===== src/MemoryImage/Tests.antt =====
-- An image of one mapping, and the theorems on images at it.
use reil.Base.{◌-◌, ◌^◌, ◌≡◌, refl, true, false, ◌∷◌, [], arith}
use reil.MemoryImage.{readable, Mapping, MemoryImage, access_ok, executable, read, add_mapping}
use reil.MemoryImage.Space.{access_ok-covers, readable_past_space}
use reil.MemoryImage.Access.{read-add_mapping, executable_past_end}

abbrev code : Mapping
code = record {
  address = 4096;
  bytes = 0x1f ∷ 0x20 ∷ 0x03 ∷ 0xd5 ∷ [];
  readable = true;
  writable = false;
  executable = true;
}

abbrev image : MemoryImage
image = record { mappings = code ∷ []; architecture_name = "aarch64" }

access_ok-covers_example : access_ok image 4096 4 true false true ≡ true
access_ok-covers_example =
    access_ok-covers image 4096 4 true false true (omega arith) (omega arith, tt)

readable_past_space_example : readable image 4097 (2 ^ 64 - 1) ≡ true
readable_past_space_example =
    readable_past_space image code 4097 (2 ^ 64 - 1) refl refl (omega arith) (omega arith)
      (omega arith) (omega arith) (omega arith)

read-add_mapping_example :
    (read (add_mapping image code) 4098 ≡ 0x03 ∷ 0xd5 ∷ [])
    × (read (record image { mappings = [] }) 4098 ≡ [])
read-add_mapping_example = read-add_mapping image code 4098

executable_past_end_example : (executable image 4100 0 ≡ true) × (read image 4100 ≡ [])
executable_past_end_example = executable_past_end image code refl refl (omega arith)
