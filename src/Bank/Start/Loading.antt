-- ===== src/Bank/Start/Loading.antt =====
-- pkg/bank/bank.go: `LoadAllAssets`, which fills the assets and the counters from the database.
use ccoms.Prelude.{
  ℤ, pos, ◌==ℤ◌, ◌≡◌, refl, ap, ◌∙◌, Bool, false, Bool-cases, inl, inr, Option, none, List, [], ◌∷◌,
  if◌then◌else◌,
}
use ccoms.Errors.{Error, ok}
use ccoms.Text.{Text, codes, text_eq, has_prefix}
use ccoms.Dict.{Dict, int_eq, str_eq, get_or, get_or-insert, insert}
use ccoms.Model.{Lastkv, ticket_table}
use ccoms.Bank.Worker.{Libs, Worker, Asset, zero_asset, checkout_asset}
use ccoms.Bank.Saving.{get_side}
use ccoms.Bank.Start.{
  Balance, TicketQuery, to_uint64, found_or, next_symbol, load_balances, load_ticket_ids,
  reason_prefix, reason_symbol, load_nats_seq, load_reason_id, load_lastkvs, with_lastkvs,
  load_all_assets,
}

-- What `lastkvs` says of the sequence number of NATS, and of the reason ID of a key.
unfoldable pub stored_seq : ℤ → List Lastkv → ℤ
unfolding to_uint64
stored_seq n [] = n
stored_seq n (kv ∷ kvs) =
    stored_seq (if text_eq kv.key (codes "nats_seq") then to_uint64 kv.val else n) kvs

abbrev names : Text → Lastkv → Bool
names t kv = if has_prefix kv.key reason_prefix then text_eq t (reason_symbol kv.key) else false

unfoldable pub stored_reason : Text → ℤ → List Lastkv → ℤ
stored_reason t n [] = n
stored_reason t n (kv ∷ kvs) = stored_reason t (if names t kv then kv.val else n) kvs

module _ (L : Libs) where
  -- The last of the rows of a user, and `a` if there is none.
  unfoldable pub stored_asset : ℤ → Asset L → List (Balance L) → Asset L
  stored_asset p a [] = a
  stored_asset p a (b ∷ bs) =
      stored_asset p (if p ==ℤ b.owner then record { free = b.free; freeze = b.freeze } else a) bs

  load_balances-stored :
      (p : ℤ) (bs : List (Balance L)) (w : Worker L)
      → checkout_asset L p (load_balances L bs w) ≡ stored_asset p (checkout_asset L p w) bs
  unfolding load_balances stored_asset checkout_asset
  load_balances-stored p [] w = refl
  load_balances-stored p (b ∷ bs) w =
      let a : Asset L = record { free = b.free; freeze = b.freeze } in
      load_balances-stored p bs (record w { assets = insert b.owner a w.assets })
      ∙ ap (λ x. stored_asset p x bs) (get_or-insert p b.owner (zero_asset L) a w.assets)

  -- Only the assets change.
  load_balances-rest :
      (bs : List (Balance L)) (w : Worker L)
      → load_balances L bs w ≡ record w { assets = (load_balances L bs w).assets }
  unfolding load_balances
  load_balances-rest [] w = refl
  load_balances-rest (b ∷ bs) w =
      load_balances-rest bs (record w {
        assets = insert b.owner (record { free = b.free; freeze = b.freeze }) w.assets;
      })

  abbrev with_values : ℤ → Dict Text ℤ → Worker L → Worker L
  with_values n d w = record w { latest_msg_seq = n; ome_reason_ids = d }

  abbrev seq_of : Lastkv → ℤ → ℤ
  seq_of kv n = if text_eq kv.key (codes "nats_seq") then to_uint64 kv.val else n

  abbrev reasons_of : Lastkv → Dict Text ℤ → Dict Text ℤ
  reasons_of kv d =
      if has_prefix kv.key reason_prefix then insert (reason_symbol kv.key) kv.val d else d

  one_row :
      (kv : Lastkv) (w : Worker L)
      → load_reason_id L kv (load_nats_seq L kv w)
        ≡ with_values (seq_of kv w.latest_msg_seq) (reasons_of kv w.ome_reason_ids) w
  unfolding load_reason_id load_nats_seq
  one_row kv w = elim (Bool-cases (text_eq kv.key (codes "nats_seq"))) [
    | inl h ↦ elim (Bool-cases (has_prefix kv.key reason_prefix)) [
      | inl j ↦ rw (h, j) refl
      | inr j ↦ rw (h, j) refl
    ]
    | inr h ↦ elim (Bool-cases (has_prefix kv.key reason_prefix)) [
      | inl j ↦ rw (h, j) refl
      | inr j ↦ rw (h, j) refl
    ]
  ]

  reasons_of-get :
      (t : Text) (kv : Lastkv) (d : Dict Text ℤ)
      → get_or t (pos 0) (reasons_of kv d) ≡ (if names t kv then kv.val else get_or t (pos 0) d)
  reasons_of-get t kv d = elim (Bool-cases (has_prefix kv.key reason_prefix)) [
    | inl h ↦ rw h (get_or-insert t (reason_symbol kv.key) (pos 0) kv.val d)
    | inr h ↦ rw h refl
  ]

  pub load_lastkvs-reason_ids :
      (t : Text) (kvs : List Lastkv) (w : Worker L)
      → get_or t (pos 0) (load_lastkvs L kvs w).ome_reason_ids
        ≡ stored_reason t (get_or t (pos 0) w.ome_reason_ids) kvs
  unfolding load_lastkvs stored_reason
  load_lastkvs-reason_ids t [] w = refl
  load_lastkvs-reason_ids t (kv ∷ kvs) w =
      load_lastkvs-reason_ids t kvs (load_reason_id L kv (load_nats_seq L kv w))
      ∙ ap (λ n. stored_reason t n kvs)
          (ap (λ (v : Worker L). get_or t (pos 0) v.ome_reason_ids) (one_row kv w)
            ∙ reasons_of-get t kv w.ome_reason_ids)

  load_lastkvs-seq :
      (kvs : List Lastkv) (w : Worker L)
      → (load_lastkvs L kvs w).latest_msg_seq ≡ stored_seq w.latest_msg_seq kvs
  unfolding load_lastkvs stored_seq
  load_lastkvs-seq [] w = refl
  load_lastkvs-seq (kv ∷ kvs) w =
      load_lastkvs-seq kvs (load_reason_id L kv (load_nats_seq L kv w))
      ∙ ap (λ (v : Worker L). stored_seq v.latest_msg_seq kvs) (one_row kv w)

  -- What the two values do not matter for stays.
  load_lastkvs-kept :
      {A : Type 0} (f : Worker L → A)
      → ((n : ℤ) (d : Dict Text ℤ) (w : Worker L) → f (with_values n d w) ≡ f w)
      → (kvs : List Lastkv) (w : Worker L) → f (load_lastkvs L kvs w) ≡ f w
  unfolding load_lastkvs
  load_lastkvs-kept f h [] w = refl
  load_lastkvs-kept f h (kv ∷ kvs) w =
      load_lastkvs-kept f h kvs (load_reason_id L kv (load_nats_seq L kv w))
      ∙ ap f (one_row kv w)
      ∙ h (seq_of kv w.latest_msg_seq) (reasons_of kv w.ome_reason_ids) w

  -- What a bank of one symbol has loaded.
  pub record LoadsAll (bs : List (Balance L)) (symbol : Text) (o : Option ℤ) (kvs : List Lastkv)
      (w : Worker L) (r : Worker L × Option Error) : Type 0 where
    pub worker : Worker L
    pub returns : r ≡ (worker, none)
    pub asset_eq : (p : ℤ) → checkout_asset L p worker ≡ stored_asset p (checkout_asset L p w) bs
    pub ticket_id_eq :
        (s : Text)
        → get_or s (pos 0) worker.ticket_ids
          ≡ (if text_eq s symbol then found_or L (pos 0) o else get_or s (pos 0) w.ticket_ids)
    pub reason_id_eq :
        (t : Text)
        → get_or t (pos 0) worker.ome_reason_ids
          ≡ stored_reason t (get_or t (pos 0) w.ome_reason_ids) kvs
    pub msg_seq_eq : worker.latest_msg_seq ≡ stored_seq w.latest_msg_seq kvs

  -- Where the database answers all queries of a bank with one symbol, `LoadAllAssets` returns
  -- without an error: each user has the last of the rows of the user, the symbol the ID of the
  -- newest ticket, and the reason IDs and the sequence number are the last ones of `lastkvs`.
  pub load_all_assets_lem :
      (bs : List (Balance L)) (q : TicketQuery L) (kvs : List Lastkv) (symbol : Text) (o : Option ℤ)
      (w : Worker L)
      → w.symbols ≡ symbol ∷ []
      → q (ticket_table symbol (get_side L symbol w)) (pos 0) ≡ ok o
      → LoadsAll bs symbol o kvs w (load_all_assets L (ok bs) q (ok kvs) w)
  unfolding load_all_assets load_ticket_ids checkout_asset get_side
  load_all_assets_lem bs q kvs symbol o w hs hq =
      let v = record w { assets = (load_balances L bs w).assets } in
      let v' = record v { ticket_ids = insert symbol (found_or L (pos 0) o) v.ticket_ids } in
      record {
        worker = load_lastkvs L kvs v';
        returns =
            ap (λ (u : Worker L). with_lastkvs L (ok kvs) (load_ticket_ids L q (pos 0) u.symbols u))
              (load_balances-rest bs w)
            ∙ ap (λ ss. with_lastkvs L (ok kvs) (load_ticket_ids L q (pos 0) ss v)) hs
            ∙ ap
                (λ a.
                  with_lastkvs L (ok kvs)
                    (next_symbol L (λ n u. load_ticket_ids L q n [] u) (pos 0) symbol v a))
                hq;
        asset_eq = λ p.
            load_lastkvs-kept (λ (u : Worker L). checkout_asset L p u) (λ n d u. refl) kvs v'
            ∙ load_balances-stored p bs w;
        ticket_id_eq = λ s.
            load_lastkvs-kept (λ (u : Worker L). get_or s (pos 0) u.ticket_ids) (λ n d u. refl) kvs
              v'
            ∙ get_or-insert s symbol (pos 0) (found_or L (pos 0) o) w.ticket_ids;
        reason_id_eq = λ t. load_lastkvs-reason_ids t kvs v';
        msg_seq_eq = load_lastkvs-seq kvs v';
      }
