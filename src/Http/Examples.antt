-- ===== src/Http/Examples.antt =====
-- The HTTP reader at a concrete message.
use rstun.Base.{ℕ, ◌≡◌, ◌++◌, refl, true, false, some, List, [], ◌∷◌, arith, All}
use rstun.Target.Utf8.{is_utf8}
use rstun.Config.Words.{parse_number, parse_digits, trim, trim_start, trim_end}
use rstun.Http.{
  Httparse, complete, invalid, Header, message, new, parse_head, find_header_end, content_length,
  content_length_name, eq_ignore_ascii_case, read_message,
}
use rstun.Http.Conserve.{all_bytes, Accounts, read_message-Accounts}
use rstun.Http.Framing.{IsMessage, reads_of, NotEmpty, read_message-chunks}

-- A head of one byte and the end of the headers, with a content length of 2.
abbrev head : List ℕ
head = 71 ∷ 13 ∷ 10 ∷ 13 ∷ 10 ∷ []

abbrev body : List ℕ
body = 1 ∷ 2 ∷ []

abbrev length_two : List Header
length_two = (content_length_name, 50 ∷ []) ∷ []

abbrev parser : Httparse
parser = record {
  parse_request = λ bs. complete (some 1) length_two;
  parse_response = λ bs. invalid;
}

head-IsMessage : IsMessage parser head body
unfolding find_header_end parse_head content_length eq_ignore_ascii_case is_utf8 parse_number
    parse_digits trim trim_start trim_end
head-IsMessage = record {
  header_end = refl;
  header_size = omega arith;
  parsed = length_two;
  parses = refl;
  body_length = refl;
  fits = omega arith;
}

abbrev pieces : List (List ℕ)
pieces = (71 ∷ 13 ∷ 10 ∷ []) ∷ (13 ∷ 10 ∷ 1 ∷ []) ∷ (2 ∷ []) ∷ []

pieces-NotEmpty : All NotEmpty pieces
pieces-NotEmpty = (omega arith, (omega arith, (omega arith, tt)))

read_message-chunks_example :
    read_message parser
      (record { buf = []; initialized = false; drain_mode = false })
      (reads_of pieces)
    ≡ message (head ++ body) (record { buf = []; initialized = true; drain_mode = false }) []
read_message-chunks_example =
    read_message-chunks parser head body false pieces head-IsMessage pieces-NotEmpty refl

read_message-Accounts_example :
    Accounts ([] ++ all_bytes (reads_of pieces)) (read_message parser new (reads_of pieces))
read_message-Accounts_example = read_message-Accounts parser new (reads_of pieces)
