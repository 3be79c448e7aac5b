-- ===== src/Json.antt =====
-- pxcutils/pxc/utils/JsonBuilder.h and JsonBuilder.cpp: strings, values and objects of JSON. A
-- text is the list of its bytes, and a parser is the part of it that is not read yet. Errors
-- stand for their messages. `json_string_decode` writes into the text that it reads; it writes
-- no more than it has read, so it reads what was there.
pub mod Strings
pub mod Values
pub mod Objects
pub mod Bounds
pub mod Ends
pub mod Skip
pub mod Escapes
pub mod Texts
mod Tests
use pxc_core.Prelude.{ℕ, List, Result, error, ok}

pub data Error : Type 0 where
  too_deep wrong_token unexpected_end unexpected_symbol colon_expected : Error
  no_opening_quote no_closing_quote short_escape wrong_escape : Error
  end_expected : Error
  -- The fuel of a loop ran out.
  out_of_fuel : Error

abbrev pub Parsed : Type 0 → Type 0
Parsed A = Result Error (A × List ℕ)
