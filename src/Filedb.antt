-- ===== src/Filedb.antt =====
-- pkg/filedb/filedb.go: the append-only log file of a worker, byte by byte, and the batches in which
-- its lines go to MySQL. What the operating system answers to the writes to come is part of the
-- state: `short n` is a write that fails after n bytes.
pub mod LastLine
pub mod Batches
pub mod Writes
use ccoms.Prelude.{
  ℕ, ◌-◌, Bool, true, false, Option, none, some, List, [], ◌∷◌, ◌++◌, ltb, leb, ◌==◌, ◌||◌,
  if◌then◌else◌, length, take, drop,
}
use ccoms.Errors.{
  Error, Result, ok, err, mkdir_failed, open_failed, file_closed, write_failed, end_of_file,
}
use ccoms.Text.{Text, split, trim, last_text}

pub data WriteAnswer : Type 0 where
  done : WriteAnswer
  short : ℕ → WriteAnswer

pub record Filedb : Type 0 where
  pub file_path : Text
  pub opened : Bool
  pub content : Text
  pub answers : List WriteAnswer

-- `MkdirAll` and `OpenFile`: the answer of the first, and the content that the second finds.
unfoldable pub open_file : Bool → Option Text → Filedb → Filedb × Option Error
open_file false found f = (f, some mkdir_failed)
open_file true none f = (f, some open_failed)
open_file true (some txt) f = (record f { opened = true; content = txt }, none)

unfoldable pub new : Text → Bool → Option Text → Filedb × Option Error
unfolding open_file
new path mkdir found =
    open_file mkdir found (record { file_path = path; opened = false; content = []; answers = [] })

-- `Close`, with the answer of the operating system.
unfoldable pub close_file : Bool → Filedb → Filedb × Option Error
close_file closes f =
    if f.opened
    then (if closes then (record f { opened = false }, none) else (f, some write_failed))
    else (f, none)

abbrev answer : Text → Filedb → List WriteAnswer → Filedb × Option Error
answer s f [] = (record f { content = f.content ++ s }, none)
answer s f (done ∷ r) = (record f { content = f.content ++ s; answers = r }, none)
answer s f (short n ∷ r) =
    (record f { content = f.content ++ take n s; answers = r }, some write_failed)

unfoldable pub write_line : Text → Filedb → Filedb × Option Error
write_line s f = if f.opened then answer s f f.answers else (f, some file_closed)

-- The last 1024 bytes, or all of a shorter file.
unfoldable pub window : Text → Text
window b = let size = length b in if ltb size 1024 then b else drop (size - 1024) b

unfoldable pub last_line : Text → Text
unfolding window
last_line b = last_text (split 10 (trim (window b)))

unfoldable pub read_last_line : Filedb → Result Text
unfolding last_line
read_last_line f = if f.opened then ok (last_line f.content) else err file_closed

-- `strings.TrimSpace` on ASCII: space, and the bytes from tab to carriage return.
abbrev is_space : ℕ → Bool
is_space c = c == b' ' || (if leb 9 c then leb c 13 else false)

unfoldable pub trim_space_left : Text → Text
trim_space_left [] = []
trim_space_left (c ∷ s) = let rest = trim_space_left s in if is_space c then rest else c ∷ s

unfoldable pub trim_space_right : Text → Text
trim_space_right [] = []
trim_space_right (c ∷ s) = elim (trim_space_right s) [
  | [] ↦ if is_space c then [] else c ∷ []
  | d ∷ t ↦ c ∷ d ∷ t
]

-- The lines that `ReadString` returns with no error: those that end in a line feed.
unfoldable pub ended_lines : List Text → List Text
ended_lines [] = []
ended_lines (w ∷ []) = []
ended_lines (w ∷ v ∷ ws) = w ∷ ended_lines (v ∷ ws)

unfoldable pub first_nonempty : List Text → Result Text
unfolding trim_space_left trim_space_right
first_nonempty [] = err end_of_file
first_nonempty (w ∷ ws) = elim (trim_space_right (trim_space_left w)) [
  | [] ↦ first_nonempty ws
  | c ∷ s ↦ ok (c ∷ s)
]

unfoldable pub read_first_line : Filedb → Result Text
unfolding first_nonempty ended_lines
read_first_line f =
    if f.opened then first_nonempty (ended_lines (split 10 f.content)) else err file_closed

abbrev then_line : Result Text → List Text × Option Error → List Text × Option Error
then_line (err e) rest = ([], some e)
then_line (ok s) (ss, e) = (s ∷ ss, e)

-- `Tailf`: what it sends of the lines that `TailFile` follows, up to the first error.
unfoldable pub tailf : Result (List (Result Text)) → List Text × Option Error
tailf (err e) = ([], some e)
tailf (ok []) = ([], none)
tailf (ok (line ∷ lines)) = then_line line (tailf (ok lines))

-- The number of lines that one round of `ToMySQL` takes, by the length of the channel.
unfoldable pub batch_size : ℕ → ℕ
batch_size queued = if ltb 1 queued then (if ltb queued 100 then queued else 100) else 1

-- `ToMySQL`: each round reads the length of the channel, takes that many lines and hands them to
-- `ToMySQLHandler`. It returns when the channel is closed and empty (`lines` are all that will
-- come), or when the handler fails. The rounds are those of the schedule `queued`.
module _ {S : Type 0} (handler : List Text → S → S × Option Error) where
  unfoldable pub to_mysql : List ℕ → List Text → S → S × List Text × Option Error
  to_mysql [] lines s = (s, lines, none)
  to_mysql (queued ∷ qs) lines s =
      let size = batch_size queued in
      let (s', e) = handler (take size lines) s in
      let rest = to_mysql qs (drop size lines) s' in
      if ltb (length lines) size
      then (s, [], none)
      else elim e [ none ↦ rest | some x ↦ (s', drop size lines, some x) ]
