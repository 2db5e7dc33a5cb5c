-- ===== src/Journal/Tests.antt =====
-- Pages of a small journal, and the theorems at inputs that meet their hypotheses. A line is taken
-- for a dict if it begins with `{`, and is undecodable if it begins with the byte 255.
use angelus.Prelude.{
  ℕ, ◌≤◌, ◌≡◌, refl, max, none, some, List, [], ◌∷◌, arith, if◌then◌else◌, leb, ◌&&◌, length, drop,
  ok, err, true, false,
}
use angelus.Journal.{
  Loaded, object, scalar, malformed, undecodable, JournalPage, split_lines, numbered, parse_line,
  collect, read_blocks, page_result, read_journal_before, unicode_decode_error,
}
use angelus.Journal.Tail.{lines_of}
use angelus.Journal.Records.{AllLoad}
use angelus.Journal.Pages.{
  newest, page_spec, read_journal_before-collect, read_journal_before-newest,
}
use angelus.Journal.Paging.{
  read_journal_before-pages, read_journal_before-torn, length-read_journal_before,
}

abbrev load_test : List ℕ → Loaded (List ℕ)
load_test [] = malformed
load_test (c ∷ line) =
    if leb 123 c && leb c 123 then object line else if leb 255 c then undecodable else scalar

-- `{1`, a blank line, `{2`, `7`, `{3`, each on a line of its own, and a torn `9`.
abbrev journal : List ℕ
journal = 123 ∷ 49 ∷ 10 ∷ 32 ∷ 10 ∷ 123 ∷ 50 ∷ 10 ∷ 55 ∷ 10 ∷ 123 ∷ 51 ∷ 10 ∷ 57 ∷ []

abbrev torn_journal : List ℕ
torn_journal = 123 ∷ 49 ∷ 10 ∷ 255 ∷ []

abbrev first_page : JournalPage (List ℕ)
first_page = record { events = (51 ∷ []) ∷ (50 ∷ []) ∷ []; next_before = some 5; has_more = true }

newest_two : read_journal_before load_test 3 (some journal) none 2 20 ≡ some (ok first_page)
unfolding read_journal_before read_blocks collect numbered split_lines
newest_two = refl

last_page :
    read_journal_before load_test 3 (some journal) (some 5) 2 20
    ≡ some (ok (record { events = (49 ∷ []) ∷ []; next_before = none; has_more = false }))
unfolding read_journal_before read_blocks collect numbered split_lines
last_page = refl

read_journal_before-collect_example :
    read_journal_before load_test 3 (some journal) none 2 20
    ≡ some (page_result 2 (collect load_test 2 [] (lines_of journal)))
read_journal_before-collect_example =
    read_journal_before-collect load_test 3 (omega arith) journal none 2 20 (omega arith)

all_load : AllLoad load_test (lines_of journal)
unfolding lines_of numbered split_lines parse_line
all_load = omega arith

read_journal_before-newest_example :
    read_journal_before load_test 3 (some journal) none 2 20
    ≡ some (ok (page_spec 2 (newest load_test journal 14)))
read_journal_before-newest_example =
    read_journal_before-newest load_test 3 (omega arith) journal none 2 20 (omega arith) all_load

read_journal_before-pages_example :
    read_journal_before load_test 3 (some journal) (some 5) 2 20
    ≡ some (ok (page_spec 2 (drop 2 (newest load_test journal 14))))
read_journal_before-pages_example =
    read_journal_before-pages load_test 3 (omega arith) journal none 2 2 20 5 first_page
      (omega arith) all_load newest_two refl

read_journal_before-torn_example :
    read_journal_before load_test 3 (some torn_journal) none 2 20 ≡ some (err unicode_decode_error)
unfolding lines_of numbered split_lines parse_line
read_journal_before-torn_example =
    read_journal_before-torn load_test 3 (omega arith) torn_journal none 2 20 3 (255 ∷ [])
      ((0, 123 ∷ 49 ∷ []) ∷ []) (omega arith) refl refl

length-read_journal_before_example :
    (length first_page.events ≤ 500) × (length first_page.events ≤ max 1 2)
length-read_journal_before_example =
    length-read_journal_before load_test 3 (some journal) none 2 20 first_page newest_two
