-- ===== src/Journal.antt =====
-- angelus/modules/execution_module/journal_tail.py: pages of an NDJSON journal, newest first, read
-- backwards in blocks. A file is the list of its bytes. `json.loads` on the bytes of a line is a
-- parameter, and so is the size of a block (65,536 in the code). The loop takes fuel, and `none`
-- means that the fuel ran out.
pub mod Lines
pub mod Tail
pub mod Seams
pub mod Records
pub mod Pages
pub mod Paging
mod Tests
use mathlib.Core.List.{reverse}
use angelus.Prelude.{
  ℕ, zero, suc, ◌+◌, ◌-◌, min, max, Bool, true, false, ◌&&◌, ◌||◌, Option, none, some, List, [],
  ◌∷◌, ◌++◌, map, if◌then◌else◌, ltb, leb, length, take, drop, Result, ok, err, ◌>>=◌,
}

-- What `json.loads` makes of a line: a dict, another JSON value, a `JSONDecodeError`, or another
-- exception, such as the `UnicodeDecodeError` of a multi-byte character cut short.
pub data Loaded (V : Type 0) : Type 0 where
  object : V → Loaded V
  scalar malformed undecodable : Loaded V

-- The exception that leaves the reader.
pub data JournalError : Type 0 where
  unicode_decode_error : JournalError

pub record JournalPage (V : Type 0) : Type 0 where
  pub events : List V
  pub next_before : Option ℕ
  pub has_more : Bool

abbrev pub is_newline : ℕ → Bool
is_newline c = leb 10 c && leb c 10

-- The bytes that `bytes.strip` removes.
abbrev pub is_blank_byte : ℕ → Bool
is_blank_byte c = leb 9 c && leb c 13 || leb 32 c && leb c 32

abbrev pub push_front : ℕ → List (List ℕ) → List (List ℕ)
push_front c [] = (c ∷ []) ∷ []
push_front c (line ∷ lines) = (c ∷ line) ∷ lines

-- `data.split(b"\n")`
unfoldable pub split_lines : List ℕ → List (List ℕ)
split_lines [] = [] ∷ []
split_lines (c ∷ cs) =
    let lines = split_lines cs in if is_newline c then [] ∷ lines else push_front c lines

unfoldable pub left_strip : List ℕ → List ℕ
left_strip [] = []
left_strip (c ∷ cs) = let rest = left_strip cs in if is_blank_byte c then rest else c ∷ cs

unfoldable pub strip : List ℕ → List ℕ
unfolding left_strip
strip line = reverse (left_strip (reverse (left_strip line)))

-- The offsets of the lines, of which the first begins at `running`.
unfoldable pub numbered : ℕ → List (List ℕ) → List (ℕ × List ℕ)
numbered running [] = []
numbered running (line ∷ lines) = (running, line) ∷ numbered (running + length line + 1) lines

abbrev pub first_line : List (List ℕ) → List ℕ
first_line [] = []
first_line (line ∷ _) = line

-- What one block gives: the line at its beginning, carried to the older block if there is one, and
-- the lines to parse.
pub record BlockLines : Type 0 where
  pub carry : List ℕ
  pub pairs : List (ℕ × List ℕ)

unfoldable pub split_block : Bool → ℕ → List (List ℕ) → BlockLines
split_block true start lines = record {
  carry = first_line lines;
  pairs = drop 1 (numbered start lines);
}
split_block false start lines = record { carry = []; pairs = numbered start lines }

module _ {V : Type 0} (loads : List ℕ → Loaded V) where
  -- A blank line is skipped before it is decoded.
  unfoldable pub load_text : List ℕ → Loaded V
  load_text [] = malformed
  load_text (c ∷ cs) = loads (c ∷ cs)

  unfoldable pub parse_line : List ℕ → Loaded V
  unfolding load_text strip
  parse_line line = load_text (strip line)

  -- One turn of the inner loop; `more` is the rest of it.
  unfoldable pub after_line :
      ℕ
      → List (ℕ × V)
      → ℕ
      → Loaded V
      → (List (ℕ × V) → Result JournalError (List (ℕ × V)))
      → Result JournalError (List (ℕ × V))
  after_line maximum records offset (object v) more =
      let records' = records ++ (offset, v) ∷ [] in
      if ltb maximum (length records') then ok records' else more records'
  after_line maximum records offset scalar more = more records
  after_line maximum records offset malformed more = more records
  after_line maximum records offset undecodable more = err unicode_decode_error

  -- The inner loop, over the lines newest first.
  unfoldable pub collect : ℕ → List (ℕ × V) → List (ℕ × List ℕ) → Result JournalError (List (ℕ × V))
  unfolding after_line parse_line
  collect maximum records [] = ok records
  collect maximum records ((offset, line) ∷ pairs) =
      after_line maximum records offset (parse_line line) (λ r. collect maximum r pairs)

  unfoldable pub after_block :
      Result JournalError (List (ℕ × V))
      → (List (ℕ × V) → Option (Result JournalError (List (ℕ × V))))
      → Option (Result JournalError (List (ℕ × V)))
  after_block (ok records) more = more records
  after_block (err e) more = some (err e)

  -- The outer loop, block by block towards the beginning of the file.
  unfoldable pub read_blocks :
      ℕ → ℕ → List ℕ → ℕ → ℕ → List ℕ → List (ℕ × V) → Option (Result JournalError (List (ℕ × V)))
  unfolding after_block split_block
  read_blocks block maximum file zero position carry records = none
  read_blocks block maximum file (suc fuel) position carry records =
      let start = position - block in
      let lines = split_lines (take (position - start) (drop start file) ++ carry) in
      let part = split_block (ltb 0 start) start lines in
      let next =
        after_block (collect maximum records (reverse part.pairs))
          (λ r. read_blocks block maximum file fuel start part.carry r) in
      if ltb 0 position && leb (length records) maximum then next else some (ok records)

abbrev pub page_maximum : ℕ → ℕ
page_maximum limit = max 1 (min limit 500)

-- Where the page ends: `before` beyond the file is its size. A negative `before` counts as 0.
abbrev pub page_end : List ℕ → Option ℕ → ℕ
page_end file none = length file
page_end file (some before) = max 0 (min before (length file))

-- `page[-1][0] if page else None`
unfoldable pub last_offset : {V : Type 0} → List (ℕ × V) → Option ℕ
last_offset [] = none
last_offset ((offset, v) ∷ []) = some offset
last_offset (p ∷ q ∷ page) = last_offset (q ∷ page)

unfoldable pub page_of : {V : Type 0} → ℕ → List (ℕ × V) → JournalPage V
unfolding last_offset
page_of maximum records =
    let more = ltb maximum (length records) in
    record {
      events = map (λ item. item.1) (take maximum records);
      next_before = if more then last_offset (take maximum records) else none;
      has_more = more;
    }

unfoldable pub page_result :
    {V : Type 0} → ℕ → Result JournalError (List (ℕ × V)) → Result JournalError (JournalPage V)
page_result maximum (ok records) = ok (page_of maximum records)
page_result maximum (err e) = err e

unfoldable pub finish_read :
    {V : Type 0}
    → ℕ
    → Option (Result JournalError (List (ℕ × V)))
    → Option (Result JournalError (JournalPage V))
finish_read maximum none = none
finish_read maximum (some r) = some (page_result maximum r)

-- `none` in place of the file is a path that is no file.
unfoldable pub read_journal_before :
    {V : Type 0}
    → (List ℕ → Loaded V)
    → ℕ
    → Option (List ℕ)
    → Option ℕ
    → ℕ
    → ℕ
    → Option (Result JournalError (JournalPage V))
unfolding finish_read page_result page_of
read_journal_before loads block none before limit fuel =
    some (ok (record { events = []; next_before = none; has_more = false }))
read_journal_before loads block (some file) before limit fuel =
    let maximum = page_maximum limit in
    finish_read maximum (read_blocks loads block maximum file fuel (page_end file before) [] [])
