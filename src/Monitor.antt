-- ===== src/Monitor.antt =====
-- cmd/main/main.go: the rate at which a log file has grown (`runFiledbMonitorOne`, on one file).
use ccoms.Prelude.{
  ℕ, ◌+◌, ◌/◌, ℤ, pos, negsuc, pos_part, ◌+ℤ◌, ◌-ℤ◌, ltb_ℤ, int64_max, int64_min, Option, none,
  some, if◌then◌else◌,
}
use ccoms.Errors.{Result, ok, err, ◌>>=◌, unmarshal_failed}
use ccoms.Text.{Text}
use ccoms.Extern.Json.{Json}
use ccoms.Filedb.{Filedb, read_first_line, read_last_line}

-- The two fields of a log that are read.
pub record Stamp : Type 0 where
  pub ts : ℤ
  pub log_id : ℤ

-- `a - b` on `int64`, within one wrap-around.
unfoldable pub sub64 : ℤ → ℤ → ℤ
sub64 a b =
    let d = a -ℤ b in
    if ltb_ℤ int64_max d
    then d -ℤ pos 18446744073709551616
    else (if ltb_ℤ d int64_min then d +ℤ pos 18446744073709551616 else d)

-- `a / b` for a positive `b`, which cuts towards 0.
unfoldable pub quot : ℤ → ℕ → ℤ
quot (pos n) d = pos (n / d)
quot (negsuc n) d = pos 0 -ℤ pos ((n + 1) / d)

pub record Growth : Type 0 where
  pub log_ids : ℤ
  pub duration : ℤ
  pub rate : ℤ

-- `seconds` is `int64(duration.Seconds())`.
module _ (json : Json Stamp) (seconds : ℤ → ℤ) where
  abbrev stamp : Option Stamp → Result Stamp
  stamp none = err unmarshal_failed
  stamp (some s) = ok s

  unfoldable pub growth : Stamp → Stamp → Growth
  unfolding sub64 quot
  growth first last =
      let time_diff = sub64 last.ts first.ts in
      let id_diff = sub64 last.log_id first.log_id in
      record {
        log_ids = id_diff;
        duration = time_diff;
        rate =
            if ltb_ℤ (pos 0) (seconds time_diff)
            then quot id_diff (pos_part (seconds time_diff))
            else pos 0;
      }

  abbrev closed : Result Stamp → Result Stamp → Result Growth
  closed first last = first >>= (λ a. last >>= (λ b. ok (growth a b)))

  abbrev read_stamps : Text → Text → Result Growth
  read_stamps first last = closed (stamp (json.unmarshal first)) (stamp (json.unmarshal last))

  -- The numbers that are printed of an open log file.
  unfoldable pub monitor_file : Filedb → Result Growth
  unfolding growth
  monitor_file f =
      read_first_line f >>= (λ first. read_last_line f >>= (λ last. read_stamps first last))
