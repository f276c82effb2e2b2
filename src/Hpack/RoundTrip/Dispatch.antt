-- ===== src/Hpack/RoundTrip/Dispatch.antt =====
-- Which representation the decoder takes a field for, by the value of its first byte.
use x.Base.{ℕ, ◌<◌, ◌≤◌, ◌≡◌, arith, Bytes}
use x.Base.Bits.{bit_and_top, bit_and_sixty_four, bit_and_thirty_two, bit_and_sixteen}
use x.Hpack.Parser.{
  Parser, parse_field, indexed_header_field, incremental_indexed_field, update_table_size,
  literal_header_no_index, literal_header_never_index,
}

module _ (octet : ℕ) (p : Parser) (src : Bytes) where
  pub parse_field_indexed :
      128 ≤ octet → octet < 256 → parse_field octet p src ≡ indexed_header_field p src
  unfolding parse_field
  parse_field_indexed lo hi = ground (arith, bit_and_top octet)

  pub parse_field_incremental :
      64 ≤ octet → octet < 128 → parse_field octet p src ≡ incremental_indexed_field p src
  unfolding parse_field
  parse_field_incremental lo hi = ground (arith, bit_and_top octet, bit_and_sixty_four octet)

  pub parse_field_update :
      32 ≤ octet → octet < 64 → parse_field octet p src ≡ update_table_size p src
  unfolding parse_field
  parse_field_update lo hi =
      ground (arith, bit_and_top octet, bit_and_sixty_four octet, bit_and_thirty_two octet)

  pub parse_field_never :
      16 ≤ octet → octet < 32 → parse_field octet p src ≡ literal_header_never_index p src
  unfolding parse_field
  parse_field_never lo hi = ground (
    arith,
    bit_and_top octet,
    bit_and_sixty_four octet,
    bit_and_thirty_two octet,
    bit_and_sixteen octet,
  )

  pub parse_field_no_index : octet < 16 → parse_field octet p src ≡ literal_header_no_index p src
  unfolding parse_field
  parse_field_no_index hi = ground (
    arith,
    bit_and_top octet,
    bit_and_sixty_four octet,
    bit_and_thirty_two octet,
    bit_and_sixteen octet,
  )
