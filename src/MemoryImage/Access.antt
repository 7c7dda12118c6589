-- ===== src/MemoryImage/Access.antt =====
-- What `AccessOk` decides and what `Read` returns.
use reil.Base.{
  ℕ, ◌+◌, ◌-◌, ◌<◌, ◌^◌, ◌≡◌, refl, sym, ◌∙◌, ap, Bool, true, false, not, ◌&&◌, ◌||◌, List, [], ◌∷◌,
  ◌++◌, ltb, leb, if◌then◌else◌, length, drop, arith, Bool-cases, inl, inr,
}
use reil.MemoryImage.{
  Mapping, MemoryImage, Flags, same_bool, contains, access_loop, access_ok, executable, read_loop,
  read, add_mapping,
}

-- Some mapping contains the range.
abbrev pub any_contains : ℕ → ℕ → List Mapping → Bool
any_contains address size [] = false
any_contains address size (m ∷ ms) = contains m address size || any_contains address size ms

-- The mapping grants every kind of access that is asked for.
abbrev pub grants : Bool → Bool → Bool → Mapping → Bool
grants r w x m = (not r || m.readable) && ((not w || m.writable) && (not x || m.executable))

-- Every mapping that contains the range grants the access.
abbrev pub all_grant : ℕ → ℕ → Bool → Bool → Bool → List Mapping → Bool
all_grant address size r w x [] = true
all_grant address size r w x (m ∷ ms) =
    (not (contains m address size) || grants r w x m) && all_grant address size r w x ms

-- The result of `AccessOk` from the variables at the end of its loop.
abbrev verdict : Bool → Bool → Bool → Flags → Bool
verdict r w x f =
    if f.found
    then same_bool r f.readable && same_bool w f.writable && same_bool x f.executable
    else false

-- What the flags say of the access asked for, so far.
abbrev kept : Bool → Bool → Bool → Flags → Bool
kept r w x f = same_bool r f.readable && (same_bool w f.writable && same_bool x f.executable)

-- The flags never grant what was not asked for.
record IsBelow (r w x : Bool) (f : Flags) : Type 0 where
  readable : r ≡ false → f.readable ≡ false
  writable : w ≡ false → f.writable ≡ false
  executable : x ≡ false → f.executable ≡ false

narrowed :
    (asked now granted : Bool)
    → (asked ≡ false → now ≡ false)
    → same_bool asked (now && granted) ≡ same_bool asked now && (not asked || granted)
narrowed true true granted h = refl
narrowed true false granted h = refl
narrowed false true granted h = cc (h refl)
narrowed false false granted h = refl

-- A conjunction of three conjunctions, regrouped.
regroup :
    (a b c d e f g : Bool)
    → ((a && b) && ((c && d) && (e && f))) && g ≡ (a && (c && e)) && ((b && (d && f)) && g)
regroup true b true d true f g = refl
regroup false b c d e f g = refl
regroup true b false d e f g = ground arith
regroup true b true d false f g = ground arith

record_grants : Flags → Mapping → Flags
record_grants f m = record {
  found = true;
  readable = f.readable && m.readable;
  writable = f.writable && m.writable;
  executable = f.executable && m.executable;
}

IsBelow-grants :
    (r w x : Bool) (f : Flags) (m : Mapping) → IsBelow r w x f → IsBelow r w x (record_grants f m)
unfolding record_grants
IsBelow-grants r w x f m b = record {
  readable = λ e. ground (arith, b.readable e);
  writable = λ e. ground (arith, b.writable e);
  executable = λ e. ground (arith, b.executable e);
}

narrowed_all :
    (r w x : Bool) (f : Flags) (m : Mapping) (any all : Bool)
    → IsBelow r w x f
    → ((record_grants f m).found || any) && (kept r w x (record_grants f m) && all)
      ≡ (f.found || true) && (kept r w x f && (grants r w x m && all))
unfolding record_grants
narrowed_all r w x f m any all below =
    rw
      (
        narrowed r f.readable m.readable below.readable,
        narrowed w f.writable m.writable below.writable,
        narrowed x f.executable m.executable below.executable,
        regroup (same_bool r f.readable) (not r || m.readable) (same_bool w f.writable)
            (not w || m.writable) (same_bool x f.executable) (not x || m.executable) all,
      )
      (ground arith)

access_loop-step :
    (address size : ℕ) (m : Mapping) (ms : List Mapping) (f : Flags) {b : Bool}
    → contains m address size ≡ b
    → access_loop address size (m ∷ ms) f
      ≡ access_loop address size ms (if b then record_grants f m else f)
unfolding access_loop record_grants
access_loop-step address size m ms f e =
    ap (λ b. access_loop address size ms (if b then record_grants f m else f)) e

access_loop-verdict :
    (address size : ℕ) (r w x : Bool) (ms : List Mapping) (f : Flags)
    → IsBelow r w x f
    → verdict r w x (access_loop address size ms f)
      ≡ (f.found || any_contains address size ms)
        && (kept r w x f && all_grant address size r w x ms)
unfolding access_loop
access_loop-verdict address size r w x [] f below = ground arith
access_loop-verdict address size r w x (m ∷ ms) f below =
    elim (Bool-cases (contains m address size)) [
      | inl inside ↦
          ap (verdict r w x) (access_loop-step address size m ms f inside)
          ∙ access_loop-verdict address size r w x ms (record_grants f m)
              (IsBelow-grants r w x f m below)
          ∙ narrowed_all r w x f m (any_contains address size ms) (all_grant address size r w x ms)
              below
          ∙ ap
              (λ b.
                (f.found || (b || any_contains address size ms))
                && (kept r w x f && ((not b || grants r w x m) && all_grant address size r w x ms)))
              (sym inside)
      | inr outside ↦
          ap (verdict r w x) (access_loop-step address size m ms f outside)
          ∙ access_loop-verdict address size r w x ms f below
          ∙ ap
              (λ b.
                (f.found || (b || any_contains address size ms))
                && (kept r w x f && ((not b || grants r w x m) && all_grant address size r w x ms)))
              (sym outside)
    ]

-- `AccessOk` holds exactly when some mapping contains the range and every mapping that contains it
-- grants each kind of access that is asked for.
pub access_ok-grants :
    (image : MemoryImage) (address size : ℕ) (r w x : Bool)
    → access_ok image address size r w x
      ≡ any_contains address size image.mappings && all_grant address size r w x image.mappings
unfolding access_ok
access_ok-grants image address size r w x =
    access_loop-verdict address size r w x image.mappings _
      (record { readable = λ e. e; writable = λ e. e; executable = λ e. e })
    ∙ ground arith

-- The address is that of a byte of the mapping.
abbrev pub holds : Mapping → ℕ → Bool
holds m address = leb m.address address && ltb (address - m.address) (length m.bytes)

read_loop-append :
    (address : ℕ) (ms : List Mapping) (m : Mapping) (result : List ℕ)
    → read_loop address (ms ++ m ∷ []) result ≡ (
        if holds m address then drop (address - m.address) m.bytes else read_loop address ms result)
unfolding read_loop
read_loop-append address [] m result = refl
read_loop-append address (k ∷ ms) m result = read_loop-append address ms m _

-- `Read` shows the bytes of the mapping added last that holds the address, from the address to
-- the mapping's end, and nothing in an image without mappings.
pub read-add_mapping :
    (image : MemoryImage) (m : Mapping) (address : ℕ)
    → (read (add_mapping image m) address
        ≡ (if holds m address then drop (address - m.address) m.bytes else read image address))
      × (read (record image { mappings = [] }) address ≡ [])
unfolding read add_mapping read_loop
read-add_mapping image m address = (read_loop-append address image.mappings m [], refl)

-- An address just behind the only mapping, an executable one, counts as executable, but `Read`
-- shows no byte there.
pub executable_past_end :
    (image : MemoryImage) (m : Mapping)
    → image.mappings ≡ m ∷ []
    → m.executable ≡ true
    → m.address + length m.bytes < 2 ^ 64
    → (executable image (m.address + length m.bytes) 0 ≡ true)
      × (read image (m.address + length m.bytes) ≡ [])
unfolding executable read read_loop contains
executable_past_end image m only ex fits = (
  access_ok-grants image (m.address + length m.bytes) 0 false false true ∙ rw only (ground arith),
  rw only (ground arith),
)
