-- ===== src/MemoryImage.antt =====
-- memory_image/memory_image.h and memory_image/memory_image.cpp: the class `MemoryImage`.
-- `Load`, which reads a file with the protocol buffer library, is left out.
pub mod Access
pub mod Space
mod Tests
use Prim.Native.String.{String}
use reil.Base.{
  ℕ, ◌+◌, ◌-◌, Bool, true, false, not, ◌&&◌, List, [], ◌∷◌, ◌++◌, ltb, leb, if◌then◌else◌, u64,
  length, drop,
}

pub record Mapping : Type 0 where
  pub address : ℕ
  pub bytes : List ℕ
  pub readable : Bool
  pub writable : Bool
  pub executable : Bool

pub record MemoryImage : Type 0 where
  pub mappings : List Mapping
  pub architecture_name : String

-- `==` of two `bool`s
abbrev pub same_bool : Bool → Bool → Bool
same_bool true b = b
same_bool false b = not b

-- The local variables of `AccessOk`.
pub record Flags : Type 0 where
  pub found : Bool
  pub readable : Bool
  pub writable : Bool
  pub executable : Bool

-- The test of the loop: the mapping contains the range. Sums of `uint64_t`s wrap.
unfoldable pub contains : Mapping → ℕ → ℕ → Bool
contains m address size =
    leb m.address address && leb (u64 (address + size)) (u64 (m.address + length m.bytes))

-- The loop of `AccessOk` over the mappings.
access_loop : ℕ → ℕ → List Mapping → Flags → Flags
access_loop address size [] f = f
access_loop address size (m ∷ ms) f = access_loop address size ms (
    if contains m address size
    then record {
      found = true;
      readable = f.readable && m.readable;
      writable = f.writable && m.writable;
      executable = f.executable && m.executable;
    }
    else f)

unfoldable pub access_ok : MemoryImage → ℕ → ℕ → Bool → Bool → Bool → Bool
unfolding access_loop
access_ok image address size read write execute =
    let f =
      access_loop address size image.mappings
        (record { found = false; readable = read; writable = write; executable = execute }) in
    if f.found
    then same_bool read f.readable && same_bool write f.writable && same_bool execute f.executable
    else false

unfoldable pub readable : MemoryImage → ℕ → ℕ → Bool
readable image address size = access_ok image address size true false false

unfoldable pub writable : MemoryImage → ℕ → ℕ → Bool
writable image address size = access_ok image address size false true false

unfoldable pub executable : MemoryImage → ℕ → ℕ → Bool
executable image address size = access_ok image address size false false true

-- The loop of `Read`; a span is the bytes that it shows.
read_loop : ℕ → List Mapping → List ℕ → List ℕ
read_loop address [] result = result
read_loop address (m ∷ ms) result = read_loop address ms (
    if leb m.address address && ltb (address - m.address) (length m.bytes)
    then drop (address - m.address) m.bytes
    else result)

unfoldable pub read : MemoryImage → ℕ → List ℕ
unfolding read_loop
read image address = read_loop address image.mappings []

unfoldable pub add_mapping : MemoryImage → Mapping → MemoryImage
add_mapping image m = record image { mappings = image.mappings ++ m ∷ [] }
