-- ===== src/Ome/Saving/Writer/Windows.antt =====
-- The logs of a log file of the engine (pkg/ome/ome.go, `OmeLog`) by a window of their IDs.
use ccoms.Prelude.{
  ℤ, ◌≤ℤ◌, ◌<ℤ◌, ltb_ℤ, leb_ℤ, lt→ltb_ℤ, le→ltb_ℤ, lt→leb_ℤ, le→leb_ℤ, ltb_ℤ→lt, ltb_ℤ→le, leb_ℤ→le,
  ◌≡◌, ◌⊎◌, refl, ap, sym, ◌∙◌, Bool-cases, inl, inr, false, ◌&&◌, if◌then◌else◌, if_false, List,
  [], ◌∷◌, ◌++◌, All, arith, append-nil,
}
use ccoms.Ome.Structs.{OmeLog}

-- The logs with an ID above `n` and at most `m`.
unfoldable pub between : ℤ → ℤ → List OmeLog → List OmeLog
between n m [] = []
between n m (l ∷ ls) =
    let rest = between n m ls in if ltb_ℤ n l.log_id && leb_ℤ l.log_id m then l ∷ rest else rest

-- The logs with an ID above `n`.
unfoldable pub above : ℤ → List OmeLog → List OmeLog
above n [] = []
above n (l ∷ ls) = let rest = above n ls in if ltb_ℤ n l.log_id then l ∷ rest else rest

-- The ID of the last log.
abbrev pub last_id : ℤ → List OmeLog → ℤ
last_id k [] = k
last_id k (l ∷ ls) = last_id l.log_id ls

-- The IDs rise from above `k` on.
abbrev pub Up : ℤ → List OmeLog → Type 0
Up k [] = Unit
Up k (l ∷ ls) = (k <ℤ l.log_id) × Up l.log_id ls

outside : (n m i : ℤ) → (i ≤ℤ n) ⊎ (m <ℤ i) → (ltb_ℤ n i && leb_ℤ i m) ≡ false
outside n m i (inl h) = rw (le→ltb_ℤ n i h) refl
outside n m i (inr h) = ground (arith, lt→leb_ℤ m i h)

between_skip :
    (n m : ℤ) (l : OmeLog) (ls : List OmeLog)
    → (l.log_id ≤ℤ n) ⊎ (m <ℤ l.log_id)
    → between n m (l ∷ ls) ≡ between n m ls
unfolding between
between_skip n m l ls h = if_false _ _ (outside n m l.log_id h)

between_take :
    (n m : ℤ) (l : OmeLog) (ls : List OmeLog)
    → n <ℤ l.log_id
    → l.log_id ≤ℤ m
    → between n m (l ∷ ls) ≡ l ∷ between n m ls
unfolding between
between_take n m l ls lt le = rw (lt→ltb_ℤ n l.log_id lt, le→leb_ℤ l.log_id m le) refl

between-append :
    (n m : ℤ) (xs ys : List OmeLog) → between n m (xs ++ ys) ≡ between n m xs ++ between n m ys
unfolding between
between-append n m [] ys = refl
between-append n m (l ∷ xs) ys = elim (Bool-cases (ltb_ℤ n l.log_id && leb_ℤ l.log_id m)) [
  | inl h ↦ rw (h, between-append n m xs ys) refl
  | inr h ↦ rw (h, between-append n m xs ys) refl
]

-- The logs up to `n`.
between_old : (n m : ℤ) (ls : List OmeLog) → All (λ l. l.log_id ≤ℤ n) ls → between n m ls ≡ []
unfolding between
between_old n m [] h = refl
between_old n m (l ∷ ls) (h, hs) = between_skip n m l ls (inl h) ∙ between_old n m ls hs

-- The logs above `m`.
between_later : (n m k : ℤ) (ls : List OmeLog) → Up k ls → m ≤ℤ k → between n m ls ≡ []
unfolding between
between_later n m k [] h le = refl
between_later n m k (l ∷ ls) (up, h) le =
    between_skip n m l ls (inr (omega (arith, up, le)))
    ∙ between_later n m l.log_id ls h (omega (arith, up, le))

pub between_same : (n : ℤ) (ls : List OmeLog) → between n n ls ≡ []
unfolding between
between_same n [] = refl
between_same n (l ∷ ls) = elim (Bool-cases (ltb_ℤ n l.log_id)) [
  | inl h ↦ between_skip n n l ls (inr (ltb_ℤ→lt n l.log_id h)) ∙ between_same n ls
  | inr h ↦ between_skip n n l ls (inl (ltb_ℤ→le n l.log_id h)) ∙ between_same n ls
]

-- Two windows that follow each other.
pub between-join :
    (n m q k : ℤ) (ls : List OmeLog)
    → Up k ls
    → n ≤ℤ m
    → m ≤ℤ q
    → between n m ls ++ between m q ls ≡ between n q ls
unfolding between
between-join n m q k [] h nm mq = refl
between-join n m q k (l ∷ ls) (up, h) nm mq = elim (Bool-cases (leb_ℤ l.log_id m)) [
  | inl below ↦
      let le = leb_ℤ→le l.log_id m below in
      elim (Bool-cases (ltb_ℤ n l.log_id)) [
        | inl over ↦
            let lt = ltb_ℤ→lt n l.log_id over in
            rw
              (
                between_take n m l ls lt le,
                between_skip m q l ls (inl le),
                between_take n q l ls lt (omega (arith, le, mq)),
              )
              (ap (λ r. l ∷ r) (between-join n m q l.log_id ls h nm mq))
        | inr old ↦
            let lo = ltb_ℤ→le n l.log_id old in
            rw
              (
                between_skip n m l ls (inl lo),
                between_skip m q l ls (inl le),
                between_skip n q l ls (inl lo),
              )
              (between-join n m q l.log_id ls h nm mq)
      ]
  | inr new ↦
      let lt : m <ℤ l.log_id = ground arith in
      rw (between_later n m m (l ∷ ls) (lt, h) (omega arith))
        (elim (Bool-cases (leb_ℤ l.log_id q)) [
          | inl le ↦
              rw
                (
                  between_take m q l ls lt (leb_ℤ→le l.log_id q le),
                  between_take n q l ls (omega (arith, lt, nm)) (leb_ℤ→le l.log_id q le),
                )
                (ap (λ r. l ∷ r)
                  (ap (λ r. r ++ between m q ls)
                      (sym (between_later n m l.log_id ls h (omega (arith, lt))))
                    ∙ between-join n m q l.log_id ls h nm mq))
          | inr over ↦
              let lt' : q <ℤ l.log_id = ground arith in
              between_later m q q (l ∷ ls) (lt', h) (omega arith)
              ∙ sym (between_later n q q (l ∷ ls) (lt', h) (omega arith))
        ])
]

above-between :
    (n m k : ℤ) (ls : List OmeLog)
    → Up k ls
    → last_id k ls ≤ℤ m
    → (k ≤ℤ last_id k ls) × (above n ls ≡ between n m ls)
unfolding above between
above-between n m k [] h le = (omega arith, refl)
above-between n m k (l ∷ ls) (up, h) le =
    let (grows, e) = above-between n m l.log_id ls h le in
    let fits : l.log_id ≤ℤ m = omega (arith, grows, le) in
    (
      omega (arith, up, grows),
      elim (Bool-cases (ltb_ℤ n l.log_id)) [
        | inl new ↦ rw (new, le→leb_ℤ l.log_id m fits, e) refl
        | inr old ↦ rw (old, e) refl
      ],
    )

Up-back : (k : ℤ) (xs ys : List OmeLog) → Up k (xs ++ ys) → Up k xs × Up (last_id k xs) ys
Up-back k [] ys h = (tt, h)
Up-back k (x ∷ xs) ys (up, h) = let (f, b) = Up-back x.log_id xs ys h in ((up, f), b)

-- What is above `n` in a part of a file, once the part before it is at most `n`.
pub above-window :
    (n k : ℤ) (done ls rest : List OmeLog)
    → All (λ l. l.log_id ≤ℤ n) done
    → Up k (done ++ (ls ++ rest))
    → above n ls ≡ between n (last_id (last_id k done) ls) (done ++ (ls ++ rest))
above-window n k done ls rest old h =
    let m = last_id (last_id k done) ls in
    let (f, b) = Up-back k done (ls ++ rest) h in
    let (f', b') = Up-back (last_id k done) ls rest b in
    let (grows, e) = above-between n m (last_id k done) ls f' (omega arith) in
    e
    ∙ sym (append-nil (between n m ls))
    ∙ sym (
        between-append n m done (ls ++ rest)
        ∙ ap (λ r. r ++ between n m (ls ++ rest)) (between_old n m done old)
        ∙ between-append n m ls rest
        ∙ ap (λ r. between n m ls ++ r) (between_later n m m rest b' (omega arith)))
