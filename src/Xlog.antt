-- ===== src/Xlog.antt =====
-- pkg/xlog/xlog.go and pkg/xlog/color.go: the logger with its level. What `fmt.Sprintf` makes of the
-- arguments is a text, and a call of zap is an entry.
pub mod Levels
pub mod Zap
use ccoms.Prelude.{
  ℕ, suc, ◌-◌, ℤ, pos, leb_ℤ, ◌||◌, Bool, Option, none, some, List, [], ◌∷◌, ◌++◌, length, take,
  drop, leb, ◌≡◌, if◌then◌else◌,
}
use ccoms.Text.{Text, codes, text_eq, to_upper}

pub record Logger : Type 0 where
  pub level : ℤ

pub data Method : Type 0 where
  trace debug info warning error : Method

-- The constants TRACE, DEBUG, INFO, WARNING and ERROR; FATAL is 5.
abbrev pub threshold : Method → ℤ
threshold trace = pos 0
threshold debug = pos 1
threshold info = pos 2
threshold warning = pos 3
threshold error = pos 4

abbrev pub level_names : List Text
level_names =
    codes "TRACE"
    ∷ codes "DEBUG"
    ∷ codes "INFO"
    ∷ codes "WARNING"
    ∷ codes "ERROR"
    ∷ codes "FATAL"
    ∷ []

abbrev pub any_of : Text → Text → Text → Text → Bool
any_of s a b c = text_eq s a || (text_eq s b || text_eq s c)

-- The level for XLOG_LVL in upper case.
unfoldable pub env_level : Text → ℤ
env_level lvl =
    if any_of lvl (codes "T") (codes "TRC") (codes "TRACE")
    then pos 0
    else (if any_of lvl (codes "D") (codes "DBG") (codes "DEBUG")
        then pos 1
        else (if any_of lvl (codes "I") (codes "INF") (codes "INFO")
            then pos 2
            else (if any_of lvl (codes "W") (codes "WRN") (codes "WARNING")
                then pos 3
                else (if any_of lvl (codes "E") (codes "ERR") (codes "ERROR")
                    then pos 4
                    else (if any_of lvl (codes "F") (codes "FTL") (codes "FATAL")
                        then pos 5
                        else pos 2)))))

-- The one logger of the program, made at the first call.
unfoldable pub get_logger : Text → Option Logger → Logger
unfolding env_level
get_logger env (some l) = l
get_logger env none = record { level = env_level (to_upper env) }

-- The position of a text in a list, from `i` on.
unfoldable pub index_from : ℕ → Text → List Text → Option ℕ
index_from i s [] = none
index_from i s (n ∷ ns) = if text_eq n s then some i else index_from (suc i) s ns

abbrev pub at_level : Option ℕ → Logger → Logger
at_level none l = l
at_level (some i) l = record { level = pos i }

unfoldable pub set_level : Text → Logger → Logger
unfolding index_from
set_level name l = at_level (index_from 0 name level_names) l

unfoldable pub set_level_num : ℤ → Logger → Logger
set_level_num num l = record { level = num }

pub data ZapMethod : Type 0 where
  zap_debug zap_info zap_warn zap_error zap_fatal : ZapMethod

pub record Entry : Type 0 where
  pub zap : ZapMethod
  pub msg : Text

abbrev pub entry_of : Method → Text → Entry
entry_of trace s = record { zap = zap_debug; msg = codes "[TRC] " ++ s }
entry_of debug s = record { zap = zap_debug; msg = codes "[DBG] " ++ s }
entry_of info s = record { zap = zap_info; msg = codes "[INF] " ++ s }
entry_of warning s = record { zap = zap_warn; msg = codes "[WRN] " ++ s }
entry_of error s = record { zap = zap_error; msg = codes "[ERR] " ++ s }

-- `Trace`, `Tracef`, …, `Error` and `Errorf`: the entries that are given to zap.
unfoldable pub logged : Method → Text → Logger → List Entry
logged m s l = if leb_ℤ l.level (threshold m) then entry_of m s ∷ [] else []

-- `Fatal` and `Fatalf`, before the program ends.
unfoldable pub fatal : Text → Logger → List Entry
fatal s l = record { zap = zap_fatal; msg = codes "[FTL] " ++ s } ∷ []

-- `Write`: the entries, and the number of bytes that it says it has written.
unfoldable pub write : List ℕ → List Entry × ℕ
write [] = ([], 0)
write (c ∷ p) = (record { zap = zap_info; msg = c ∷ p } ∷ [], 0)

-- `argsToString`, on what `Sprintf` makes of the list of the arguments.
unfoldable pub args_to_string : Text → Text
args_to_string s = if leb (length s) 2 then s else take (length s - 2) (drop 1 s)

abbrev color_suffix : Text
color_suffix = 27 ∷ codes "[0m"

abbrev colored : Text → Text × Text
colored code = (27 ∷ codes "[" ++ (code ++ codes "m"), color_suffix)

-- `FixColor`: what stands before and after a line.
unfoldable pub fix_color : Text → Text × Text
fix_color level =
    if text_eq level (codes "trace")
    then colored (codes "0;36")
    else (if text_eq level (codes "debug")
        then colored (codes "1;36")
        else (if text_eq level (codes "warn") || text_eq level (codes "warning")
            then colored (codes "1;33")
            else (if text_eq level (codes "error")
                then colored (codes "1;31")
                else (if text_eq level (codes "fatal") then colored (codes "1;31") else ([], [])))))
