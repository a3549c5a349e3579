-- ===== src/Common.antt =====
-- The names that the models share: the libraries', passed on, and those of the children.
mod Tests
mod Lists
mod Search
mod Copy
mod Bits
mod Word
pub use Word.*
mod Bytes
mod Strings
unfoldable pub use Bytes.{le16, le32, le64, has_chars}
pub use Bytes.{byte_at, IsBytes, le16_lem, le32_lem, le16-lt, le32-lt, all_bytes, all_bytes-IsBytes}
unfoldable pub use Strings.{c_string, upper_ascii, streq, streq_ci, copy_chars, split_path}
pub use Strings.{
  streq_iff, streq_ci_iff, length-copy_chars, is_separator, skip_slash, continues, prepend,
}
pub use Bits.{
  bit_or-high_low, bit_and-mask, bit_and-round, bit_and-round_16, bit_and-round_4096,
  bit_and-round_2m, bit_or-split, bit_or-lt, bit_or-one, bit_or-zero, zero-bit_or, bit_and-one,
  bit_and-0x80,
}
pub use Tests.*
pub use Lists.*
unfoldable pub use Search.{find_index, find_entry}
pub use Search.{
  FirstMatch, here, later, find_entry-FirstMatch, FirstMatch-find_entry, IsFirst,
  find_index-IsFirst, find_index-none, find_index_all_fail,
}
unfoldable pub use Copy.{copy}
pub use Copy.{length-copy, get_or-copy_outside, get_or-copy_inside}
pub use Prim.Native.Nat.{ℕ, zero, suc, ◌+◌, ◌-◌, ◌*◌, ◌/◌, ◌%◌, ◌^◌, ◌≤◌, ◌<◌, min, max}
pub use Prim.Native.Nat.{bit_and, bit_or, bit_xor}
pub use mathlib.Core.Path.{◌≡◌, refl, sym, ap, ap₂, ◌∙◌, subst}
pub use mathlib.Core.Logic.{◌≢◌, ◌↔◌, ◌⊎◌, inl, inr}
pub use mathlib.Core.Bool.{Bool, true, false, ◌&&◌, ◌||◌, not}
pub use mathlib.Core.Option.{Option, none, some}
pub use mathlib.Core.List.{List, [], ◌∷◌, ◌++◌, map}
pub use native.Mathlib.Omega.{arith}
unfoldable pub use native.Mathlib.Decide.{dec_lt, dec_le, ℕ_discrete}
