-- ===== src/Tests/Logging.antt =====
-- The theorems on the log file at concrete files.
use ccoms.Prelude.{◌≡◌, refl, true, Option, none, List, [], ◌∷◌, ◌++◌, arith}
use ccoms.Errors.{Error, ok}
use ccoms.Text.{Text, codes}
use ccoms.Extern.Json.{IsLine}
use ccoms.Filedb.{Filedb, write_line, short, read_last_line}
use ccoms.Filedb.Writes.{IsIntact, read_last_line-write_line}
use ccoms.Filedb.Batches.{Batches}

-- A file with one line.
abbrev file : Filedb
file = record { file_path = codes "a.log"; opened = true; content = b'1' ∷ 10 ∷ []; answers = [] }

abbrev new_line : Text
new_line = b'{' ∷ b'}' ∷ []

file-IsIntact : IsIntact file
file-IsIntact = record { is_open = refl; ended = refl }

new_line-IsLine : IsLine new_line
new_line-IsLine = record {
  starts = refl;
  ends = refl;
  one_line = (ground arith, (ground arith, tt));
}

new_line_written : (write_line (new_line ++ 10 ∷ []) file).1 ≡ none
unfolding write_line
new_line_written = refl

read_last_line-write_line_example :
    read_last_line (write_line (new_line ++ 10 ∷ []) file).0 ≡ ok new_line
read_last_line-write_line_example =
    read_last_line-write_line new_line file file-IsIntact new_line-IsLine (omega arith)
      new_line_written

-- A disk that takes one byte of the next write.
abbrev full : Filedb
full = record file { answers = short 1 ∷ [] }

abbrev keep_all : List Text → List Text → List Text × Option Error
keep_all b saved = (saved ++ b, none)
