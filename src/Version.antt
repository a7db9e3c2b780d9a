-- ===== src/Version.antt =====
-- src/mulle-fifo.h, src/mulle-fifo.c: the version of the library, packed into one number; and
-- src/reflect/_mulle-fifo-versioncheck.h, which refuses dependencies of another version.
use Prim.Native.Nat.{bit_and, bit_or}
use native.Mathlib.Nat.{mod-eq_of_lt}
use mulle_fifo.Common.{
  ℕ, ◌+◌, ◌*◌, ◌/◌, ◌%◌, ◌^◌, ◌≤◌, ◌≡◌, ◌↔◌, Option, none, some, ltb, leb, ◌||◌, if◌then◌else◌,
  arith,
}

-- `a << k` and `a >> k` on an `unsigned long` that is wide enough.
abbrev shl : ℕ → ℕ → ℕ
shl a k = a * 2 ^ k

abbrev shr : ℕ → ℕ → ℕ
shr a k = a / 2 ^ k

-- MULLE__FIFO_VERSION
abbrev pub fifo_version : ℕ
fifo_version = bit_or (bit_or (shl 0 20) (shl 1 8)) 9

module _ (uint_mod : ℕ) where
  unfoldable pub get_version_major : ℕ
  get_version_major = shr fifo_version 20 % uint_mod

  unfoldable pub get_version_minor : ℕ
  get_version_minor = bit_and (shr fifo_version 8) 0xFFF % uint_mod

  unfoldable pub get_version_patch : ℕ
  get_version_patch = bit_and fifo_version 0xFF % uint_mod

-- `mulle_fifo_get_version`, a `uint32_t`
unfoldable pub get_version : ℕ
get_version = fifo_version % 2 ^ 32

-- The outcome of compiling the header: `#error` or not.
pub data Verdict : Type 0 where
  compiles too_old too_new : Verdict

-- A macro that is defined already keeps its value.
abbrev pub defined_or : Option ℕ → ℕ → ℕ
defined_or none d = d
defined_or (some v) d = v

-- The `#if` of one dependency, whose version macro may be undefined.
unfoldable pub check_version : Option ℕ → ℕ → ℕ → Verdict
check_version none low high = compiles
check_version (some v) low high =
    if ltb v low || leb high v then (if ltb v low then too_old else too_new) else compiles

-- MULLE__ALLOCATOR_VERSION, and the bounds if they are defined before
unfoldable pub check_allocator : Option ℕ → Option ℕ → Option ℕ → Verdict
check_allocator v low high =
    check_version v (defined_or low (bit_or (bit_or (shl 9 20) (shl 0 8)) 0))
      (defined_or high (bit_or (bit_or (shl 10 20) (shl 0 8)) 0))

-- MULLE__THREAD_VERSION, and the bounds if they are defined before
unfoldable pub check_thread : Option ℕ → Option ℕ → Option ℕ → Verdict
check_thread v low high =
    check_version v (defined_or low (bit_or (bit_or (shl 4 20) (shl 11 8)) 0))
      (defined_or high (bit_or (bit_or (shl 5 20) (shl 0 8)) 0))

module _ (uint_mod : ℕ) (wide : 65536 ≤ uint_mod) where
  major_part : get_version_major uint_mod ≡ 0
  unfolding get_version_major
  major_part = mod-eq_of_lt {n = 0} (omega arith)

  minor_part : get_version_minor uint_mod ≡ 1
  unfolding get_version_minor
  minor_part = mod-eq_of_lt {n = 1} (omega arith)

  patch_part : get_version_patch uint_mod ≡ 9
  unfolding get_version_patch
  patch_part = mod-eq_of_lt {n = 9} (omega arith)

  version_parts :
      (get_version_major uint_mod ≡ 0)
      × (get_version_minor uint_mod ≡ 1)
      × (get_version_patch uint_mod ≡ 9)
      × (get_version_major uint_mod * 2 ^ 20
            + get_version_minor uint_mod * 2 ^ 8
            + get_version_patch uint_mod
          ≡ get_version)
  unfolding get_version
  version_parts = (major_part, minor_part, patch_part, rw (major_part, minor_part, patch_part))

accepted_dependencies :
    (v : ℕ)
    → ((check_allocator (some v) none none ≡ compiles) ↔ (v / 2 ^ 20 ≡ 9))
      × ((check_thread (some v) none none ≡ compiles)
          ↔ ((v / 2 ^ 20 ≡ 4) × (11 ≤ v / 2 ^ 8 % 2 ^ 12)))
unfolding check_allocator check_thread check_version
accepted_dependencies v = ground arith

-- If an unsigned int has at least 16 bits, the accessors take the parts 0, 1 and 9 out of the
-- packed version of the library, and these make up the number that `mulle_fifo_get_version`
-- returns; and with the default bounds the version check lets a defined version of
-- mulle-allocator pass exactly if its major version is 9, and a defined version of mulle-thread
-- exactly if its major version is 4 and its minor version at least 11.
pub version_numbers :
    (uint_mod v : ℕ)
    → 65536 ≤ uint_mod
    → ((get_version_major uint_mod ≡ 0)
        × (get_version_minor uint_mod ≡ 1)
        × (get_version_patch uint_mod ≡ 9)
        × (get_version_major uint_mod * 2 ^ 20
              + get_version_minor uint_mod * 2 ^ 8
              + get_version_patch uint_mod
            ≡ get_version))
      × ((check_allocator (some v) none none ≡ compiles) ↔ (v / 2 ^ 20 ≡ 9))
      × ((check_thread (some v) none none ≡ compiles)
          ↔ ((v / 2 ^ 20 ≡ 4) × (11 ≤ v / 2 ^ 8 % 2 ^ 12)))
version_numbers uint_mod v wide =
    let (allocator, thread) = accepted_dependencies v in
    (version_parts uint_mod wide, allocator, thread)
