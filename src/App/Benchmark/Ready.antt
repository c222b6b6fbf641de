-- ===== src/App/Benchmark/Ready.antt =====
-- What the services find in etcd after `PrepareForBenchmark` (cmd/main/bm.go).
use ccoms.Prelude.{
  ◌≡◌, refl, sym, ap, subst, ◌∙◌, true, false, Option, none, some, List, [], ◌∷◌, ◌++◌, map, All,
  if◌then◌else◌,
}
use ccoms.Errors.{Error, Result, ok, no_error}
use ccoms.Text.{Text, codes, text_eq, to_lower, split}
use ccoms.Extern.KeyValue.{KeyValue}
use ccoms.Etcd.{get, key_bank_service, key_nats_service}
use ccoms.Bank.Connections.{listen_addr, serve_grpc, at_address, served}
use ccoms.App.Benchmark.{
  absent, drop_table, migrations, idle, nats_urls, addresses, add_streams, next_put, put_all,
  Prepared, flagged, next_url, stream_at, with_store, with_streams, prepare_for_benchmark,
}

-- What a key has after puts, from what it had.
abbrev assigned : Text → List (Text × Text) → Option Text → Option Text
assigned j [] o = o
assigned j ((k, v) ∷ l) o = assigned j l (if text_eq j k then some v else o)

-- A store that answers with what it holds.
abbrev pub values : Option Text → Result (List Text)
values none = ok []
values (some v) = ok (v ∷ [])

pub record Service : Type 0 where
  pub coin : Text
  pub nats : Text
  pub listens : Text

-- The coins of the workers are in upper case.
abbrev usdt : Service
usdt = record { coin = codes "USDT"; nats = codes "nats_usdt:4222"; listens = codes ":12341" }

abbrev btc : Service
btc = record { coin = codes "BTC"; nats = codes "nats_btc:4222"; listens = codes ":12342" }

abbrev eth : Service
eth = record { coin = codes "ETH"; nats = codes "nats_eth:4222"; listens = codes ":12343" }

abbrev pub services : List Service
services = usdt ∷ btc ∷ eth ∷ []

module _ {Nc Js : Type 0} (etcd : KeyValue) (connect : Text → Result Nc)
    (jet_stream : Nc → Result Js) (add_stream : Js → Option Error) (create : Option Error) where
  abbrev Run : Type 0
  Run = Prepared etcd connect jet_stream add_stream create

  abbrev puts : List (Text × Text) → etcd.State → etcd.State × Option Error
  puts l s = put_all etcd connect jet_stream add_stream create l s

  held-next_put :
      (j : Text) (l : List (Text × Text)) (o : Option Text) (r : etcd.State × Option Error)
      → ((s : etcd.State)
          → (puts l s).1 ≡ none
          → etcd.held j (puts l s).0 ≡ assigned j l (etcd.held j s))
      → (r.1 ≡ none → etcd.held j r.0 ≡ o)
      → (next_put etcd connect jet_stream add_stream create (puts l) r).1 ≡ none
      → etcd.held j (next_put etcd connect jet_stream add_stream create (puts l) r).0
        ≡ assigned j l o
  held-next_put j l o (s, some e) ih h n = no_error n
  held-next_put j l o (s, none) ih h n = ih s n ∙ ap (assigned j l) (h refl)

  held-put_all :
      (j : Text) (l : List (Text × Text)) (s : etcd.State)
      → (puts l s).1 ≡ none
      → etcd.held j (puts l s).0 ≡ assigned j l (etcd.held j s)
  unfolding put_all
  held-put_all j [] s n = refl
  held-put_all j ((k, v) ∷ l) s n =
      held-next_put j l (if text_eq j k then some v else etcd.held j s) (etcd.put k v s)
        (held-put_all j l) (etcd.held-put j k v s) n

  -- What made the flag has succeeded: the streams, the puts and the making of the flag itself.
  flagged-created :
      (p : Run) (c : Option Error)
      → p.created ≡ false
      → (flagged etcd connect jet_stream add_stream create p c).created ≡ true
      → c ≡ none
  flagged-created p none h k = refl
  flagged-created p (some e) h k = cc

  flagged-kept :
      (p : Run) (c : Option Error)
      → c ≡ none
      → flagged etcd connect jet_stream add_stream create p c ≡ record p { created = true }
  flagged-kept p none h = refl
  flagged-kept p (some e) h = no_error h

  with_store-created :
      (p : Run) (r : etcd.State × Option Error)
      → p.created ≡ false
      → (with_store etcd connect jet_stream add_stream create p r).created ≡ true
      → (r.1 ≡ none)
        × (with_store etcd connect jet_stream add_stream create p r
            ≡ record p { store = r.0; created = true })
  with_store-created p (s, some e) h k = cc
  with_store-created p (s, none) h k = (
    refl,
    flagged-kept (record p { store = s }) create
        (flagged-created (record p { store = s }) create h k),
  )

  with_streams-created :
      (p : Run) (r : List Text × Option Error)
      → p.created ≡ false
      → (with_streams etcd connect jet_stream add_stream create p r).created ≡ true
      → (r.1 ≡ none)
        × ((puts addresses p.store).1 ≡ none)
        × (with_streams etcd connect jet_stream add_stream create p r
            ≡ record p { streams = r.0; store = (puts addresses p.store).0; created = true })
  with_streams-created p (urls, some e) h k = cc
  with_streams-created p (urls, none) h k =
      let q = with_store-created (record p { streams = urls }) (puts addresses p.store) h k in
      (refl, q.0, q.1)

  next_url-none :
      (url : Text) (r : List Text × Option Error) (c : Option Error) (urls : List Text)
      → (r.1 ≡ none → r.0 ≡ urls)
      → (next_url etcd connect jet_stream add_stream create url r c).1 ≡ none
      → (next_url etcd connect jet_stream add_stream create url r c).0 ≡ url ∷ urls
  next_url-none url r (some e) urls h n = no_error n
  next_url-none url (l, e) none urls h n = ap (λ us. url ∷ us) (h n)

  add_streams-none :
      (urls : List Text)
      → (add_streams etcd connect jet_stream add_stream create urls).1 ≡ none
      → (add_streams etcd connect jet_stream add_stream create urls).0 ≡ urls
  unfolding add_streams
  add_streams-none [] n = refl
  add_streams-none (url ∷ urls) n =
      next_url-none url (add_streams etcd connect jet_stream add_stream create urls)
        (stream_at etcd connect jet_stream add_stream create url) urls (add_streams-none urls) n

  -- The keys of a coin, as the services ask for them.
  pub record Serves (serve : Text → Option Error) (st : etcd.State) (s : Service) : Type 0 where
    pub nats_eq : get (values (etcd.held (key_nats_service s.coin) st)) ≡ ok s.nats
    pub bank_eq : serve_grpc (λ k. values (etcd.held k st)) serve s.coin ≡ some (serve s.listens)

  serves :
      (serve : Text → Option Error) (st : etcd.State) (s : Service) (url : Text)
      → etcd.held (key_nats_service s.coin) st ≡ some s.nats
      → etcd.held (key_bank_service s.coin) st ≡ some url
      → listen_addr url ≡ some s.listens
      → Serves serve st s
  unfolding get serve_grpc
  serves serve st s url n b a = record {
    nats_eq = ap (λ o. get (values o)) n;
    bank_eq =
        ap (λ o. at_address (λ k. values (etcd.held k st)) serve (get (values o))) b
        ∙ ap (served (λ k. values (etcd.held k st)) serve) a;
  }

  stored-Serves :
      (serve : Text → Option Error) (s : etcd.State)
      → (puts addresses s).1 ≡ none
      → All (Serves serve (puts addresses s).0) services
  unfolding addresses key_nats_service key_bank_service to_lower text_eq listen_addr split
  stored-Serves serve s n =
      let at = λ (j : Text). held-put_all j addresses s n in
      (
        serves serve (puts addresses s).0 usdt (codes "bank_usdt:12341")
            (at (key_nats_service (codes "USDT"))) (at (key_bank_service (codes "USDT"))) refl,
        (
          serves serve (puts addresses s).0 btc (codes "bank_btc:12342")
              (at (key_nats_service (codes "BTC"))) (at (key_bank_service (codes "BTC"))) refl,
          (
            serves serve (puts addresses s).0 eth (codes "bank_eth:12343")
                (at (key_nats_service (codes "ETH"))) (at (key_bank_service (codes "ETH"))) refl,
            tt,
          ),
        ),
      )

  -- A run that finds no flag and makes it has made the stream on both servers of NATS, with no
  -- error, and whatever etcd held before, it now holds for each of the three coins, in upper case,
  -- the address of its NATS and that of its bank, at whose port the bank then serves.
  pub prepare_for_benchmark-created :
      (serve : Text → Option Error) (tables : List Text) (s : etcd.State)
      → (prepare_for_benchmark etcd connect jet_stream add_stream create absent tables s).created
        ≡ true
      → let p = prepare_for_benchmark etcd connect jet_stream add_stream create absent tables s in
        (p.error ≡ none) × (p.streams ≡ nats_urls) × All (Serves serve p.store) services
  unfolding prepare_for_benchmark
  prepare_for_benchmark-created serve tables s h =
      let start = record (idle etcd connect jet_stream add_stream create s) {
        statements = map drop_table tables ++ migrations;
      } in
      let r = add_streams etcd connect jet_stream add_stream create nats_urls in
      let q = with_streams-created start r refl h in
      (
        ap (λ (p : Run). p.error) q.2,
        ap (λ (p : Run). p.streams) q.2 ∙ add_streams-none nats_urls q.0,
        subst (λ (p : Run). All (Serves serve p.store) services) (sym q.2)
            (stored-Serves serve s q.1),
      )
