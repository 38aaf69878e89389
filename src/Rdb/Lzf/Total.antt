-- ===== src/Rdb/Lzf/Total.antt =====
-- The fuel of the decompression loop is enough.
use runedb.Base.{Bytes, ℕ, Result, ok, err}
use runedb.Rdb.Lzf.{LzfError, lzf_no_fuel, decompress_lzf}
use runedb.Rdb.Lzf.Format.{
  Unpacks, finished, unfilled, literal, cut_literal, large_literal, match, cut_length, cut_offset,
  far_match, large_match,
}
use runedb.Rdb.Lzf.Unpacking.{decompress_lzf-Unpacks}

-- An error that is no lack of fuel.
abbrev pub HasFuel : LzfError → Type 0
HasFuel lzf_no_fuel = ⊥
HasFuel _ = Unit

abbrev pub Ends : Result LzfError Bytes → Type 0
Ends (ok out) = Unit
Ends (err e) = HasFuel e

Unpacks-Ends :
    {n : ℕ} {rest out : Bytes} {r : Result LzfError Bytes} → Unpacks n rest out r → Ends r
Unpacks-Ends (finished h) = tt
Unpacks-Ends (unfilled h) = tt
Unpacks-Ends (literal a b c u) = Unpacks-Ends u
Unpacks-Ends (cut_literal a b) = tt
Unpacks-Ends (large_literal a b c) = tt
Unpacks-Ends (match a b c d u) = Unpacks-Ends u
Unpacks-Ends (cut_length a b) = tt
Unpacks-Ends (cut_offset a b) = tt
Unpacks-Ends (far_match a b c) = tt
Unpacks-Ends (large_match a b c d) = tt

pub decompress_lzf-Ends : (input : Bytes) (n : ℕ) → Ends (decompress_lzf input n)
decompress_lzf-Ends input n = Unpacks-Ends (decompress_lzf-Unpacks input n)
