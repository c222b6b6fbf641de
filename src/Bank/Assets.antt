-- ===== src/Bank/Assets.antt =====
-- The assets of the users under `change_asset` and `write_log`, seen through `CheckoutAsset`.
use ccoms.Prelude.{
  ℤ, pos, ◌==ℤ◌, ==ℤ_iff, IsInt64, ◌≡◌, refl, sym, ap, ◌∙◌, true, Bool-cases, inl, inr, if_true,
  if_false, suc, Option, none, some, [], ◌∷◌, ◌++◌, if◌then◌else◌,
}
use ccoms.Text.{Text}
use ccoms.Dict.{int_eq, str_eq, get_or, get_or-insert}
use ccoms.Filedb.Writes.{write_line-content}
use ccoms.Extern.Decimal.{Decimal}
use ccoms.Bank.Structs.{BankLog}
use ccoms.Bank.Worker.{
  Libs, Worker, Asset, zero_asset, checkout_asset, change_asset, write_log, written,
}

-- Taking away what was added, and adding what was taken away.
module _ (M : Decimal) where
  pub sub-add_back : (a x : M.D) → M.sub (M.add a x) x ≡ a
  sub-add_back a x =
      M.sub-add (M.add a x) x
      ∙ M.add_assoc a x (M.neg x)
      ∙ ap (M.add a) (M.add-neg x)
      ∙ M.add-zero a

  pub add-sub_back : (a x : M.D) → M.add (M.sub a x) x ≡ a
  add-sub_back a x =
      ap (λ b. M.add b x) (M.sub-add a x)
      ∙ M.add_assoc a (M.neg x) x
      ∙ ap (M.add a) (M.add_comm (M.neg x) x ∙ M.add-neg x)
      ∙ M.add-zero a

  -- What moves from one summand to the other leaves their sum as it was.
  pub add-moved : (a b x : M.D) → M.add (M.sub a x) (M.add b x) ≡ M.add a b
  add-moved a b x =
      ap (M.add (M.sub a x)) (M.add_comm b x)
      ∙ sym (M.add_assoc (M.sub a x) x b)
      ∙ ap (λ c. M.add c b) (add-sub_back a x)

  sub-add_swap : (b x y : M.D) → M.sub (M.add b y) x ≡ M.add (M.sub b x) y
  sub-add_swap b x y =
      M.sub-add (M.add b y) x
      ∙ M.add_assoc b y (M.neg x)
      ∙ ap (M.add b) (M.add_comm y (M.neg x))
      ∙ sym (M.add_assoc b (M.neg x) y)
      ∙ ap (λ c. M.add c y) (sym (M.sub-add b x))

  -- Two additions are undone in the order in which they were made.
  pub sub-add_both : (a x y : M.D) → M.sub (M.sub (M.add (M.add a x) y) x) y ≡ a
  sub-add_both a x y =
      ap (λ c. M.sub c y) (sub-add_swap (M.add a x) x y ∙ ap (λ c. M.add c y) (sub-add_back a x))
      ∙ sub-add_back a y

module _ (L : Libs) where
  -- What a user has in all.
  abbrev pub sum : Asset L → L.decimal.D
  sum a = L.decimal.add a.free a.freeze

  pub checkout-change :
      (p o : ℤ) (f : Asset L → Asset L) (w : Worker L)
      → checkout_asset L p (change_asset L o f w)
        ≡ (if p ==ℤ o then f (checkout_asset L o w) else checkout_asset L p w)
  unfolding checkout_asset change_asset
  checkout-change p o f w =
      get_or-insert p o (zero_asset L) (f (get_or o (zero_asset L) w.assets)) w.assets

  -- The same, with the asset before the change as the user's own.
  pub checkout-change_at :
      (p o : ℤ) (f : Asset L → Asset L) (w : Worker L)
      → checkout_asset L p (change_asset L o f w)
        ≡ (if p ==ℤ o then f (checkout_asset L p w) else checkout_asset L p w)
  checkout-change_at p o f w = elim (Bool-cases (p ==ℤ o)) [
    | inl k ↦
        checkout-change p o f w
        ∙ if_true _ _ k
        ∙ ap (λ q. f (checkout_asset L q w)) (sym ((==ℤ_iff p o).0 k))
        ∙ sym (if_true _ _ k)
    | inr k ↦ checkout-change p o f w ∙ if_false _ _ k ∙ sym (if_false _ _ k)
  ]

  -- Two states of the worker that nobody who reads them by key can tell apart, but for the log
  -- file and the clock.
  pub record Same (w w' : Worker L) : Type 0 where
    pub asset_eq : (p : ℤ) → checkout_asset L p w' ≡ checkout_asset L p w
    pub ticket_id_eq : (s : Text) → get_or s (pos 0) w'.ticket_ids ≡ get_or s (pos 0) w.ticket_ids
    pub log_id_eq : w'.log_id ≡ w.log_id
    pub msg_seq_eq : w'.latest_msg_seq ≡ w.latest_msg_seq
    pub reason_id_eq : w'.ome_reason_ids ≡ w.ome_reason_ids

  pub Same_refl : (w : Worker L) → Same w w
  Same_refl w = record {
    asset_eq = λ p. refl;
    ticket_id_eq = λ s. refl;
    log_id_eq = refl;
    msg_seq_eq = refl;
    reason_id_eq = refl;
  }

  pub Same_trans : {u v w : Worker L} → Same u v → Same v w → Same u w
  Same_trans h k = record {
    asset_eq = λ p. k.asset_eq p ∙ h.asset_eq p;
    ticket_id_eq = λ s. k.ticket_id_eq s ∙ h.ticket_id_eq s;
    log_id_eq = k.log_id_eq ∙ h.log_id_eq;
    msg_seq_eq = k.msg_seq_eq ∙ h.msg_seq_eq;
    reason_id_eq = k.reason_id_eq ∙ h.reason_id_eq;
  }

  -- The counters are far from where an `int64` wraps around only if they are in its range.
  pub record IsCounted (w : Worker L) : Type 0 where
    pub log_id_range : IsInt64 w.log_id
    pub ticket_id_range : (s : Text) → IsInt64 (get_or s (pos 0) w.ticket_ids)

  written-Same : (t : Option Text) (w : Worker L) → Same w (written L t w).0
  unfolding checkout_asset
  written-Same none w = Same_refl w
  written-Same (some s) w = record {
    asset_eq = λ p. refl;
    ticket_id_eq = λ s. refl;
    log_id_eq = refl;
    msg_seq_eq = refl;
    reason_id_eq = refl;
  }

  -- The log that was written, as a line of the file.
  pub record Logged (l : BankLog) (w w' : Worker L) : Type 0 where
    pub text : Text
    pub marshalled : L.json.marshal l ≡ some text
    pub content_eq : w'.fdb.content ≡ w.fdb.content ++ (text ++ 10 ∷ [])

  pub write_log-Same : (l : BankLog) (w : Worker L) → Same w (write_log L l w).0
  unfolding write_log checkout_asset
  write_log-Same l w =
      let h =
        written-Same (L.json.marshal l)
          (record w { clock = record w.clock { calls = suc w.clock.calls } }) in
      record {
        asset_eq = h.asset_eq;
        ticket_id_eq = h.ticket_id_eq;
        log_id_eq = h.log_id_eq;
        msg_seq_eq = h.msg_seq_eq;
        reason_id_eq = h.reason_id_eq;
      }

  written-Logged :
      (l : BankLog) (t : Option Text) (w : Worker L)
      → L.json.marshal l ≡ t
      → (written L t w).1 ≡ none
      → Logged l w (written L t w).0
  written-Logged l none w m h = cc
  written-Logged l (some s) w m h = record {
    text = s;
    marshalled = m;
    content_eq = write_line-content (s ++ 10 ∷ []) w.fdb h;
  }

  pub write_log-Logged :
      (l : BankLog) (w : Worker L) → (write_log L l w).1 ≡ none → Logged l w (write_log L l w).0
  unfolding write_log
  write_log-Logged l w h =
      let k =
        written-Logged l (L.json.marshal l)
          (record w { clock = record w.clock { calls = suc w.clock.calls } }) refl h in
      record { text = k.text; marshalled = k.marshalled; content_eq = k.content_eq }

  -- A change that is undone by a second one on the same asset.
  pub undone_change :
      (o p : ℤ) (f g : Asset L → Asset L) (w w' : Worker L)
      → ((a : Asset L) → g (f a) ≡ a)
      → ((q : ℤ) → checkout_asset L q w' ≡ checkout_asset L q (change_asset L o f w))
      → checkout_asset L p (change_asset L o g w') ≡ checkout_asset L p w
  undone_change o p f g w w' inv h = elim (Bool-cases (p ==ℤ o)) [
    | inl k ↦
        checkout-change p o g w'
        ∙ if_true _ _ k
        ∙ ap g (h o ∙ checkout-change o o f w ∙ if_true _ _ (self o))
        ∙ inv (checkout_asset L o w)
        ∙ ap (λ q. checkout_asset L q w) (sym ((==ℤ_iff p o).0 k))
    | inr k ↦
        checkout-change p o g w' ∙ if_false _ _ k ∙ h p ∙ checkout-change p o f w ∙ if_false _ _ k
  ]
    where
      self : (q : ℤ) → (q ==ℤ q) ≡ true
      self q = (==ℤ_iff q q).1 refl
