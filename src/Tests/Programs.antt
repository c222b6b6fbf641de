-- ===== src/Tests/Programs.antt =====
-- The theorems on the programs and on their logger.
use ccoms.Prelude.{
  ℕ, ◌-◌, pos, ◌≡◌, refl, true, none, some, Option, List, [], ◌∷◌, ◌++◌, All, length, drop, ltb,
  if◌then◌else◌, arith,
}
use ccoms.Errors.{Error, Result, ok, err, not_found, stream_closed}
use ccoms.Text.{Text, codes, text_eq, has_prefix, split, to_lower}
use ccoms.Dict.{Dict, str_eq, lookup, insert, lookup-insert}
use ccoms.Extern.KeyValue.{KeyValue}
use ccoms.Bank.Structs.{OrderReq}
use ccoms.Ingress.{get_nats}
use ccoms.Xlog.{Logger, set_level}
use ccoms.Xlog.Zap.{is_own, last_two, named, file_with_line_num, spaces, file_column}
use ccoms.Xlog.Zap.Columns.{file_column-file_with_line_num}
use ccoms.App.Benchmark.{absent, nats_urls, Prepared, prepare_for_benchmark}
use ccoms.App.Benchmark.Ready.{services, Serves, prepare_for_benchmark-created}
use ccoms.App.Load.{Draw, random_order, connect_banks, answers, count_sent}
use ccoms.App.Load.Counting.{count_sent-answers}
use ccoms.App.Load.Sending.{bank_by, subject_by, send_at, connect_banks-send_order_req}
use ccoms.App.Signals.{
  State, Step, next, here, notify, sending, start, taken, handle_signals_blocks,
}
use ccoms.Tests.Libraries.{int_decimal}
use ccoms.Tests.Codec.{line}
use ccoms.Tests.Banking.{order_req_codec}
use ccoms.Tests.Banking as Banking

abbrev at_info : Logger
at_info = record { level = pos 2 }

-- `SetLevel` does not know the names that the environment may have beside the six.
short_name : set_level (codes "debug") at_info ≡ at_info
unfolding set_level text_eq
short_name = refl

-- A signal has come; another comes once the first is taken.
abbrev signalled : State
signalled = record (start at_info) { pending = true }

abbrev signalled_again : State
signalled_again = record (taken (codes "TRACE") signalled) { pending = true }

handle_signals_blocks_example :
    Step (codes "TRACE") signalled (taken (codes "TRACE") signalled)
    × (signalled_again.place ≡ sending (codes "TRACE"))
    × (signalled_again.logger ≡ at_info)
handle_signals_blocks_example =
    handle_signals_blocks refl refl (λ e. ground arith) (next here notify)

abbrev bank_place : Text
bank_place = named (codes "/src/pkg/bank/bank.go", codes "7")

-- One frame of the logger, and one of the bank.
file_column-file_with_line_num_example :
    (file_column (
        file_with_line_num (
          (codes "/src/pkg/xlog/xlog.go", codes "100")
          ∷ (codes "/src/pkg/bank/bank.go", codes "7")
          ∷ []))
      ≡ drop (length bank_place - 20) bank_place ++ spaces (20 - length bank_place))
    × (length (
          file_column (
            file_with_line_num (
              (codes "/src/pkg/xlog/xlog.go", codes "100")
              ∷ (codes "/src/pkg/bank/bank.go", codes "7")
              ∷ [])))
        ≡ 20)
unfolding is_own has_prefix
file_column-file_with_line_num_example =
    file_column-file_with_line_num ((codes "/src/pkg/xlog/xlog.go", codes "100") ∷ []) []
      (codes "/src/pkg/bank/bank.go", codes "7") (refl, tt) refl (omega arith)

printed_place : file_column bank_place ≡ codes "bank/bank.go:7      "
unfolding last_two split file_column
printed_place = refl

abbrev dict_store : KeyValue
dict_store = record {
  State = Dict Text Text;
  put = λ k v s. (insert k v s, none);
  held = λ k s. lookup k s;
  held-put = λ j k v s h. lookup-insert j k v s;
}

abbrev reaches : Text → Result Text
reaches url = ok url

abbrev streams_well : Text → Option Error
streams_well js = none

abbrev listening : Text → Option Error
listening addr = some stream_closed

abbrev prepared : Prepared dict_store reaches reaches streams_well none
prepared =
    prepare_for_benchmark dict_store reaches reaches streams_well none absent
      (codes "btc_usdt_orders" ∷ []) []

prepare_for_benchmark-created_example :
    (prepared.error ≡ none)
    × (prepared.streams ≡ nats_urls)
    × All (Serves dict_store reaches reaches streams_well none listening prepared.store) services
unfolding prepare_for_benchmark
prepare_for_benchmark-created_example =
    prepare_for_benchmark-created dict_store reaches reaches streams_well none listening
      (codes "btc_usdt_orders" ∷ []) [] refl

-- The second attempt finds an address.
abbrev later_known : ℕ → Text → Result (List Text)
later_known i key = if ltb 0 i then ok (key ∷ []) else err not_found

abbrev connects : ℕ → Text → Result Text
connects i url = ok url

abbrev takes : Text → Text → Text → Option Error
takes js subject payload = none

abbrev both_banks : Dict Text Text
both_banks = (codes "BTC", codes "nats_bank_btc") ∷ (codes "USDT", codes "nats_bank_usdt") ∷ []

both_connected :
    connect_banks int_decimal Banking.libs.order_json (λ n. n) (pos 0) later_known connects takes
    ≡ (both_banks, none)
unfolding connect_banks get_nats lookup insert text_eq to_lower
both_connected = refl

abbrev draw : Draw
draw = record { price = 5; quantity = 2; owner = 7; side = 1 }

abbrev drawn : OrderReq int_decimal
drawn =
    random_order int_decimal Banking.libs.order_json (λ n. n) (pos 0) later_known connects takes 4
      draw

abbrev drawn_line : Text
drawn_line = line order_req_codec drawn

connect_banks-send_order_req_example :
    (js : Text) × (lookup (bank_by 1) both_banks ≡ some js)
    × (send_at int_decimal Banking.libs.order_json
          (λ n. n)
          (pos 0)
          later_known
          connects
          takes
          300
          drawn
          both_banks
        ≡ (both_banks, some (subject_by 1, drawn_line), takes js (subject_by 1) drawn_line))
connect_banks-send_order_req_example =
    connect_banks-send_order_req int_decimal Banking.libs.order_json (λ n. n) (pos 0) later_known
      connects takes both_banks 300 4 draw drawn_line both_connected (omega arith) refl

-- Two of two orders, of which the first is sent before there is an address.
count_sent-answers_example :
    count_sent 2
      (answers int_decimal Banking.libs.order_json
        (λ n. n)
        (pos 0)
        later_known
        connects
        takes
        []
        ((0, drawn) ∷ (1, drawn) ∷ []))
      (0, 0)
    ≡ (2, 1)
count_sent-answers_example =
    count_sent-answers int_decimal Banking.libs.order_json (λ n. n) (pos 0) later_known connects
      takes 2 [] ((0, drawn) ∷ (1, drawn) ∷ []) (omega arith) (omega arith)
