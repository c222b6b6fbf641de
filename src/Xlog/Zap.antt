-- ===== src/Xlog/Zap.antt =====
-- pkg/xlog/zap.go and pkg/xlog/zap-logger.go: where a line of the log was made, and what becomes of
-- the entry that zap has written as JSON. The frames of the stack, the values of a JSON object and
-- the reading of a time are parameters.
pub mod Columns
use ccoms.Prelude.{
  ℕ, zero, suc, ◌-◌, ◌||◌, not, ◌&&◌, Bool, true, false, Option, none, some, List, [], ◌∷◌, ◌++◌,
  length, drop, ltb, if◌then◌else◌,
}
use ccoms.Errors.{Error, unmarshal_failed}
use ccoms.Text.{Text, codes, text_eq, has_prefix, contains, split}
use ccoms.Dict.{Dict, str_eq, lookup}
use ccoms.Xlog.{fix_color}

-- The files whose frames are passed over.
unfoldable pub is_own : Text → Bool
unfolding contains
is_own file =
    contains file (codes "/pkg/xlog/zap.go")
    || (contains file (codes "/pkg/xlog/zap-logger.go")
        || (contains file (codes "/pkg/xlog/xlog.go")
            || (contains file (codes "/pkg/model/xgorm/")
                || (contains file (codes "gin-gonic/gin")
                    || contains file (codes "gorm.io/gorm")))))

-- A file and the number of a line, in decimal.
abbrev pub Frame : Type 0
Frame = Text × Text

abbrev pub no_frame : Frame
no_frame = ([], codes "0")

-- The first `n` frames are looked through.
unfoldable pub first_outside : ℕ → List Frame → Frame
first_outside zero fs = no_frame
first_outside (suc n) [] = no_frame
first_outside (suc n) (f ∷ fs) = if is_own f.0 then first_outside n fs else f

-- The last two of the parts of a path, the directory first.
unfoldable pub last_two : Text → List Text → Text × Text
last_two dir [] = ([], [])
last_two dir (name ∷ []) = (dir, name)
last_two dir (part ∷ name ∷ rest) = last_two part (name ∷ rest)

abbrev pub placed : Text → Text × Text → Text
placed line (dir, name) = dir ++ (codes "/" ++ (name ++ (codes ":" ++ line)))

abbrev pub named : Frame → Text
named (file, line) = placed line (last_two [] (split b'/' file))

-- `FileWithLineNum`
unfoldable pub file_with_line_num : List Frame → Text
unfolding first_outside last_two is_own
file_with_line_num fs = named (first_outside 15 fs)

-- `strings.Repeat(" ", n)`
unfoldable pub spaces : ℕ → Text
spaces zero = []
spaces (suc n) = b' ' ∷ spaces n

-- The name of a file as it is printed.
unfoldable pub file_column : Text → Text
unfolding spaces
file_column f =
    let padded = if ltb (length f) 20 then f ++ spaces (20 - length f) else f in
    if ltb 20 (length padded) then drop (length padded - 20) padded else padded

pub record ZapLogger : Type 0 where
  pub send_to_stdout : Bool
  pub stdout_color : Bool
  pub has_server_hook : Bool

-- `show` is `fmt.Sprint`, `format_s` the format `%s` of a value that may be missing, `as_string`
-- a type assertion, and `reformat` the time in the form that is printed, if it can be read.
module _ {V : Type 0} (unmarshal : Text → Option (Dict Text V)) (show : V → Text)
    (format_s : Option V → Text) (as_string : V → Option Text) (reformat : Text → Option Text) where
  abbrev joined : Bool → Text → V → Text → Text
  joined true k v rest = k ++ (codes ":" ++ (show v ++ (codes " " ++ rest)))
  joined false k v rest = rest

  -- The fields whose keys begin with `x-`.
  unfoldable pub extras : Dict Text V → Text
  extras [] = []
  extras ((k, v) ∷ d) = joined (has_prefix k (codes "x-")) k v (extras d)

  abbrev braced : Text → Text
  braced [] = []
  braced (c ∷ s) = codes "{ " ++ ((c ∷ s) ++ codes "}")

  abbrev or_empty : Option Text → Text
  or_empty none = []
  or_empty (some s) = s

  abbrev or_as_is : Text → Option Text → Text
  or_as_is s none = s
  or_as_is s (some t) = t

  abbrev string_of : Option V → Text
  string_of none = []
  string_of (some v) = or_empty (as_string v)

  abbrev colors : ZapLogger → Dict Text V → Text × Text
  colors l d = if l.stdout_color then fix_color (format_s (lookup (codes "level") d)) else ([], [])

  -- The line that is printed of an entry.
  unfoldable pub printed : ZapLogger → Dict Text V → Text
  unfolding file_column extras
  printed l d =
      let (pre, sub) = colors l d in
      let at = format_s (lookup (codes "time") d) in
      pre
      ++ (codes "["
          ++ (format_s (lookup (codes "app") d)
              ++ (codes "] "
                  ++ (or_as_is at (reformat at)
                      ++ (codes " "
                          ++ (file_column (string_of (lookup (codes "file") d))
                              ++ (codes ": "
                                  ++ (format_s (lookup (codes "msg") d)
                                      ++ (codes " "
                                          ++ (braced (extras d) ++ (sub ++ 10 ∷ [])))))))))))

  -- What is printed and what the hook is given, with the error; `none` is a panic.
  abbrev pub Written : Type 0
  Written = Option (List Text × List Text × Option Error)

  abbrev with_level : Text → List Text → Option Text → Written
  with_level p out none = none
  with_level p out (some level) =
      some (out, (if text_eq level (codes "debug") then [] else p ∷ []), none)

  abbrev level_of : Option V → Option Text
  level_of none = none
  level_of (some v) = as_string v

  abbrev hooked : ZapLogger → Text → Dict Text V → List Text → Written
  hooked l p d out =
      if l.has_server_hook
      then with_level p out (level_of (lookup (codes "level") d))
      else some (out, [], none)

  abbrev entry_written : ZapLogger → Text → Option (Dict Text V) → Written
  entry_written l p none = some ([], [], some unmarshal_failed)
  entry_written l p (some d) = hooked l p d (if l.send_to_stdout then printed l d ∷ [] else [])

  -- `Write`
  unfoldable pub zap_write : ZapLogger → Text → Written
  unfolding printed
  zap_write l p =
      if not l.send_to_stdout && not l.has_server_hook
      then some ([], [], none)
      else entry_written l p (unmarshal p)
