-- ===== src/Bank/Changes/Undoing.antt =====
-- Changes of the assets that are applied, logged, and taken back where the log is not written.
use ccoms.Prelude.{
  ℤ, pos, ◌==ℤ◌, inc64, dec64, dec64-inc64, ◌≡◌, refl, ap, ap₂, ◌∙◌, Bool-cases, inl, inr, Option,
  none, some, [], ◌∷◌, ◌++◌, if◌then◌else◌,
}
use ccoms.Errors.{Error}
use ccoms.Text.{Text}
use ccoms.Dict.{int_eq, str_eq, get_or}
use ccoms.Bank.Structs.{BankLog}
use ccoms.Bank.Worker.{
  Libs, Worker, Asset, checkout_asset, change_asset, add_to, take_from, write_log,
}
use ccoms.Bank.Assets.{
  sub-add_back, sub-add_both, checkout-change_at, Same, IsCounted, Logged, write_log-Same,
  write_log-Logged,
}
use ccoms.Bank.Changes.{apply_two, undo_two, undone, apply_one, undo_one}

module _ (L : Libs) where
  open L.decimal use {D}

  -- What a change of one owner makes of the asset of the user `p`.
  abbrev pub credited : ℤ → D → D → ℤ → Asset L → Asset L
  credited o x y p a = if p ==ℤ o then add_to L x y a else a

  abbrev pub debited : ℤ → D → D → ℤ → Asset L → Asset L
  debited o x y p a = if p ==ℤ o then take_from L x y a else a

  -- The parts of the state that a change of balances leaves alone.
  pub record Kept (w w' : Worker L) : Type 0 where
    pub ticket_ids_eq : w'.ticket_ids ≡ w.ticket_ids
    pub msg_seq_eq : w'.latest_msg_seq ≡ w.latest_msg_seq
    pub reason_id_eq : w'.ome_reason_ids ≡ w.ome_reason_ids
    pub content_eq : w'.fdb.content ≡ w.fdb.content

  -- The state with a change of the assets, before its log is written.
  pub record Applied (after : ℤ → Asset L → Asset L) (w w' : Worker L) : Type 0 where
    pub asset_eq : (p : ℤ) → checkout_asset L p w' ≡ after p (checkout_asset L p w)
    pub log_id_eq : w'.log_id ≡ inc64 w.log_id
    pub kept : Kept w w'

  -- What a change with the log `l` has made of the worker: it is applied and logged, or an error
  -- is returned and nothing is changed.
  pub data Changed (after : ℤ → Asset L → Asset L) (l : BankLog) (w : Worker L)
      : Worker L × Option Error → Type 0 where
    applied :
        (w' : Worker L)
        → ((p : ℤ) → checkout_asset L p w' ≡ after p (checkout_asset L p w))
        → w'.log_id ≡ inc64 w.log_id
        → ((s : Text) → get_or s (pos 0) w'.ticket_ids ≡ get_or s (pos 0) w.ticket_ids)
        → w'.latest_msg_seq ≡ w.latest_msg_seq
        → w'.ome_reason_ids ≡ w.ome_reason_ids
        → Logged L l w w'
        → Changed after l w (w', none)
    refused : (w' : Worker L) (e : Error) → Same L w w' → Changed after l w (w', some e)

  -- What was applied is taken back by an undoing that inverts it on each asset.
  back :
      (after before : ℤ → Asset L → Asset L) (w mid w' u : Worker L)
      → IsCounted L w
      → Applied after w mid
      → Same L mid w'
      → ((p : ℤ) (a : Asset L) → before p (after p a) ≡ a)
      → ((p : ℤ) → checkout_asset L p u ≡ before p (checkout_asset L p w'))
      → u.log_id ≡ dec64 w'.log_id
      → Kept w' u
      → Same L w u
  back after before w mid w' u c a h inv assets log k = record {
    asset_eq =
        λ p. assets p ∙ ap (before p) (h.asset_eq p ∙ a.asset_eq p) ∙ inv p (checkout_asset L p w);
    ticket_id_eq = λ s.
        ap (get_or s (pos 0)) k.ticket_ids_eq
        ∙ h.ticket_id_eq s
        ∙ ap (get_or s (pos 0)) a.kept.ticket_ids_eq;
    log_id_eq = log ∙ ap dec64 (h.log_id_eq ∙ a.log_id_eq) ∙ dec64-inc64 w.log_id c.log_id_range;
    msg_seq_eq = k.msg_seq_eq ∙ h.msg_seq_eq ∙ a.kept.msg_seq_eq;
    reason_id_eq = k.reason_id_eq ∙ h.reason_id_eq ∙ a.kept.reason_id_eq;
  }

  undone_by :
      (after : ℤ → Asset L → Asset L) (l : BankLog) (w mid : Worker L) (undo : Worker L → Worker L)
      (r : Worker L × Option Error)
      → Applied after w mid
      → Same L mid r.0
      → (r.1 ≡ none → Logged L l mid r.0)
      → ((w' : Worker L) → Same L mid w' → Same L w (undo w'))
      → Changed after l w (undone L undo r)
  undone_by after l w mid undo (w', some e) a same log back = refused (undo w') e (back w' same)
  undone_by after l w mid undo (w', none) a same log back =
      applied w' (λ p. same.asset_eq p ∙ a.asset_eq p) (same.log_id_eq ∙ a.log_id_eq)
        (λ s. same.ticket_id_eq s ∙ ap (get_or s (pos 0)) a.kept.ticket_ids_eq)
        (same.msg_seq_eq ∙ a.kept.msg_seq_eq) (same.reason_id_eq ∙ a.kept.reason_id_eq)
        (let k = log refl in
          record {
            text = k.text;
            marshalled = k.marshalled;
            content_eq = k.content_eq ∙ ap (λ x. x ++ (k.text ++ 10 ∷ [])) a.kept.content_eq;
          })

  pub logged_change :
      (after : ℤ → Asset L → Asset L) (l : BankLog) (w mid : Worker L) (undo : Worker L → Worker L)
      → Applied after w mid
      → ((w' : Worker L) → Same L mid w' → Same L w (undo w'))
      → Changed after l w (undone L undo (write_log L l mid))
  logged_change after l w mid undo a back =
      undone_by after l w mid undo (write_log L l mid) a (write_log-Same L l mid)
        (write_log-Logged L l mid) back

  module _ (o1 : ℤ) (x1 y1 : D) (o2 : ℤ) (x2 y2 : D) where
    -- The first change and then the second.
    abbrev pub credited_both : ℤ → Asset L → Asset L
    credited_both p a = credited o2 x2 y2 p (credited o1 x1 y1 p a)

    abbrev debited_both : ℤ → Asset L → Asset L
    debited_both p a = debited o2 x2 y2 p (debited o1 x1 y1 p a)

    apply_two-asset :
        (p : ℤ) (w : Worker L)
        → checkout_asset L p (apply_two L o1 x1 y1 o2 x2 y2 w)
          ≡ credited_both p (checkout_asset L p w)
    unfolding apply_two checkout_asset
    apply_two-asset p w =
        checkout-change_at L p o2 (add_to L x2 y2) (change_asset L o1 (add_to L x1 y1) w)
        ∙ ap (credited o2 x2 y2 p) (checkout-change_at L p o1 (add_to L x1 y1) w)

    undo_two-asset :
        (p : ℤ) (w : Worker L)
        → checkout_asset L p (undo_two L o1 x1 y1 o2 x2 y2 w)
          ≡ debited_both p (checkout_asset L p w)
    unfolding undo_two checkout_asset
    undo_two-asset p w =
        checkout-change_at L p o2 (take_from L x2 y2) (change_asset L o1 (take_from L x1 y1) w)
        ∙ ap (debited o2 x2 y2 p) (checkout-change_at L p o1 (take_from L x1 y1) w)

    debited-credited : (p : ℤ) (a : Asset L) → debited_both p (credited_both p a) ≡ a
    debited-credited p a = elim (Bool-cases (p ==ℤ o1)) [
      | inl h ↦ elim (Bool-cases (p ==ℤ o2)) [
        | inl k ↦
            rw (h, k)
              (ap₂ (λ x y. record { free = x; freeze = y }) (sub-add_both L.decimal a.free x1 x2)
                (sub-add_both L.decimal a.freeze y1 y2))
        | inr k ↦
            rw (h, k)
              (ap₂ (λ x y. record { free = x; freeze = y }) (sub-add_back L.decimal a.free x1)
                (sub-add_back L.decimal a.freeze y1))
      ]
      | inr h ↦ elim (Bool-cases (p ==ℤ o2)) [
        | inl k ↦
            rw (h, k)
              (ap₂ (λ x y. record { free = x; freeze = y }) (sub-add_back L.decimal a.free x2)
                (sub-add_back L.decimal a.freeze y2))
        | inr k ↦ rw (h, k) refl
      ]
    ]

    apply_two-Kept : (w : Worker L) → Kept w (apply_two L o1 x1 y1 o2 x2 y2 w)
    unfolding apply_two change_asset
    apply_two-Kept w = record {
      ticket_ids_eq = refl;
      msg_seq_eq = refl;
      reason_id_eq = refl;
      content_eq = refl;
    }

    apply_two-log_id : (w : Worker L) → (apply_two L o1 x1 y1 o2 x2 y2 w).log_id ≡ inc64 w.log_id
    unfolding apply_two change_asset
    apply_two-log_id w = refl

    undo_two-Kept : (w : Worker L) → Kept w (undo_two L o1 x1 y1 o2 x2 y2 w)
    unfolding undo_two change_asset
    undo_two-Kept w = record {
      ticket_ids_eq = refl;
      msg_seq_eq = refl;
      reason_id_eq = refl;
      content_eq = refl;
    }

    undo_two-log_id : (w : Worker L) → (undo_two L o1 x1 y1 o2 x2 y2 w).log_id ≡ dec64 w.log_id
    unfolding undo_two change_asset
    undo_two-log_id w = refl

    pub apply_two-Applied :
        (w : Worker L) → Applied credited_both w (apply_two L o1 x1 y1 o2 x2 y2 w)
    apply_two-Applied w = record {
      asset_eq = λ p. apply_two-asset p w;
      log_id_eq = apply_two-log_id w;
      kept = apply_two-Kept w;
    }

    pub undo_two-Same :
        (w w' : Worker L)
        → IsCounted L w
        → Same L (apply_two L o1 x1 y1 o2 x2 y2 w) w'
        → Same L w (undo_two L o1 x1 y1 o2 x2 y2 w')
    undo_two-Same w w' c h =
        back credited_both debited_both w (apply_two L o1 x1 y1 o2 x2 y2 w) w'
          (undo_two L o1 x1 y1 o2 x2 y2 w') c (apply_two-Applied w) h debited-credited
          (λ p. undo_two-asset p w') (undo_two-log_id w') (undo_two-Kept w')

  module _ (o : ℤ) (x y : D) where
    apply_one-asset :
        (p : ℤ) (w : Worker L)
        → checkout_asset L p (apply_one L o x y w) ≡ credited o x y p (checkout_asset L p w)
    unfolding apply_one checkout_asset
    apply_one-asset p w = checkout-change_at L p o (add_to L x y) w

    undo_one-asset :
        (p : ℤ) (w : Worker L)
        → checkout_asset L p (undo_one L o x y w) ≡ debited o x y p (checkout_asset L p w)
    unfolding undo_one checkout_asset
    undo_one-asset p w = checkout-change_at L p o (take_from L x y) w

    debited-credited_one : (p : ℤ) (a : Asset L) → debited o x y p (credited o x y p a) ≡ a
    debited-credited_one p a = elim (Bool-cases (p ==ℤ o)) [
      | inl h ↦ rw h (
          ap₂ (λ u v. record { free = u; freeze = v }) (sub-add_back L.decimal a.free x)
            (sub-add_back L.decimal a.freeze y))
      | inr h ↦ rw h refl
    ]

    apply_one-Kept : (w : Worker L) → Kept w (apply_one L o x y w)
    unfolding apply_one change_asset
    apply_one-Kept w = record {
      ticket_ids_eq = refl;
      msg_seq_eq = refl;
      reason_id_eq = refl;
      content_eq = refl;
    }

    apply_one-log_id : (w : Worker L) → (apply_one L o x y w).log_id ≡ inc64 w.log_id
    unfolding apply_one change_asset
    apply_one-log_id w = refl

    undo_one-Kept : (w : Worker L) → Kept w (undo_one L o x y w)
    unfolding undo_one change_asset
    undo_one-Kept w = record {
      ticket_ids_eq = refl;
      msg_seq_eq = refl;
      reason_id_eq = refl;
      content_eq = refl;
    }

    undo_one-log_id : (w : Worker L) → (undo_one L o x y w).log_id ≡ dec64 w.log_id
    unfolding undo_one change_asset
    undo_one-log_id w = refl

    pub apply_one-Applied : (w : Worker L) → Applied (credited o x y) w (apply_one L o x y w)
    apply_one-Applied w = record {
      asset_eq = λ p. apply_one-asset p w;
      log_id_eq = apply_one-log_id w;
      kept = apply_one-Kept w;
    }

    pub undo_one-Same :
        (w w' : Worker L)
        → IsCounted L w
        → Same L (apply_one L o x y w) w'
        → Same L w (undo_one L o x y w')
    undo_one-Same w w' c h =
        back (credited o x y) (debited o x y) w (apply_one L o x y w) w' (undo_one L o x y w') c
          (apply_one-Applied w) h debited-credited_one (λ p. undo_one-asset p w')
          (undo_one-log_id w') (undo_one-Kept w')
