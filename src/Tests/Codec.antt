-- ===== src/Tests/Codec.antt =====
-- A concrete line format for records, in the place of `encoding/json`: a text is a list of numbers
-- of at least 100, one for each integer, with the length before a list.
use ccoms.Prelude.{
  ℕ, zero, suc, ◌+◌, ◌-◌, ◌*◌, ◌/◌, ◌%◌, ◌≤◌, ℤ, pos, negsuc, ◌≡◌, ◌≢◌, refl, subst, ap, Option,
  none, some, List, [], ◌∷◌, ◌++◌, append_assoc, arith, All, All-append, if◌then◌else◌, ◌==◌,
  length,
}
use mathlib.Core.Option.{some-injective}
use ccoms.Text.{Text}
use ccoms.Extern.Json.{Json, IsLine, EndsSolid}

pub record Codec (A : Type 0) : Type 0 where
  pub enc : A → Text
  pub dec : Text → Option (A × Text)
  pub dec-enc : (a : A) (s : Text) → dec (enc a ++ s) ≡ some (a, s)
  pub solid : (a : A) → All (λ c. 100 ≤ c) (enc a)

abbrev pub enc_int : ℤ → ℕ
enc_int (pos n) = 100 + 2 * n
enc_int (negsuc n) = 101 + 2 * n

abbrev pub dec_int : ℕ → ℤ
dec_int c = if (c % 2) == 0 then pos ((c - 100) / 2) else negsuc ((c - 101) / 2)

pub dec-enc_int : (z : ℤ) → dec_int (enc_int z) ≡ z
dec-enc_int (pos n) = ground arith
dec-enc_int (negsuc n) = ground arith

abbrev pub uncons : Text → Option (ℤ × Text)
uncons [] = none
uncons (c ∷ s) = some (dec_int c, s)

pub int_solid : (z : ℤ) → All (λ c. 100 ≤ c) (enc_int z ∷ [])
int_solid (pos n) = (omega arith, tt)
int_solid (negsuc n) = (omega arith, tt)

abbrev pub int_codec : Codec ℤ
int_codec = record {
  enc = λ z. enc_int z ∷ [];
  dec = uncons;
  dec-enc = λ z s. ap (λ y. some (y, s)) (dec-enc_int z);
  solid = int_solid;
}

abbrev pub uncons_nat : Text → Option (ℕ × Text)
uncons_nat [] = none
uncons_nat (c ∷ s) = some (c - 100, s)

pub dec-enc_nat : (n : ℕ) (s : Text) → uncons_nat (((100 + n) ∷ []) ++ s) ≡ some (n, s)
dec-enc_nat n s = ap (λ (y : ℕ). some (y, s)) (omega arith)

abbrev pub nat_codec : Codec ℕ
nat_codec = record {
  enc = λ n. (100 + n) ∷ [];
  dec = uncons_nat;
  dec-enc = dec-enc_nat;
  solid = λ n. (omega arith, tt);
}

module _ {A B : Type 0} (a : Codec A) (b : Codec B) where
  abbrev pub dec_second : Option (A × Text) → Option ((A × B) × Text)
  dec_second none = none
  dec_second (some (x, s)) = elim (b.dec s) [ none ↦ none | some (y, t) ↦ some ((x, y), t) ]

  pub pair_law :
      (x : A) (y : B) (s : Text) → dec_second (a.dec ((a.enc x ++ b.enc y) ++ s)) ≡ some ((x, y), s)
  pair_law x y s = rw (append_assoc, a.dec-enc) (rw (b.dec-enc y s, dec_second) refl)

  abbrev pub pair_codec : Codec (A × B)
  pair_codec = record {
    enc = λ p. a.enc p.0 ++ b.enc p.1;
    dec = λ s. dec_second (a.dec s);
    dec-enc = λ p s. pair_law p.0 p.1 s;
    solid = λ p. All-append (λ c. 100 ≤ c) (a.enc p.0) (b.enc p.1) (a.solid p.0) (b.solid p.1);
  }

-- The same values under another form.
module _ {A B : Type 0} (a : Codec A) (to : A → B) (back : B → A)
    (law : (y : B) → to (back y) ≡ y) where
  abbrev pub dec_to : Option (A × Text) → Option (B × Text)
  dec_to none = none
  dec_to (some (x, s)) = some (to x, s)

  pub iso_law : (y : B) (s : Text) → dec_to (a.dec (a.enc (back y) ++ s)) ≡ some (y, s)
  iso_law y s = rw (a.dec-enc, law) refl

  abbrev pub iso_codec : Codec B
  iso_codec = record {
    enc = λ y. a.enc (back y);
    dec = λ s. dec_to (a.dec s);
    dec-enc = iso_law;
    solid = λ y. a.solid (back y);
  }

module _ {A : Type 0} (a : Codec A) where
  abbrev pub enc_items : List A → Text
  enc_items [] = []
  enc_items (x ∷ xs) = a.enc x ++ enc_items xs

  abbrev pub dec_items : ℕ → Text → Option (List A × Text)
  dec_items zero s = some ([], s)
  dec_items (suc n) s = elim (a.dec s) [
    | none ↦ none
    | some (x, t) ↦ elim (dec_items n t) [ none ↦ none | some (xs, u) ↦ some (x ∷ xs, u) ]
  ]

  pub items_law :
      (xs : List A) (s : Text) → dec_items (length xs) (enc_items xs ++ s) ≡ some (xs, s)
  items_law [] s = refl
  items_law (x ∷ xs) s = rw (append_assoc, a.dec-enc, items_law xs s) refl

  pub items_solid : (xs : List A) → All (λ c. 100 ≤ c) (enc_items xs)
  items_solid [] = tt
  items_solid (x ∷ xs) =
      All-append (λ c. 100 ≤ c) (a.enc x) (enc_items xs) (a.solid x) (items_solid xs)

  abbrev pub dec_list : Text → Option (List A × Text)
  dec_list [] = none
  dec_list (c ∷ s) = dec_items (c - 100) s

  pub list_law :
      (xs : List A) (s : Text) → dec_list (((100 + length xs) ∷ enc_items xs) ++ s) ≡ some (xs, s)
  list_law xs s = rw (minus (length xs)) (items_law xs s)
    where
      minus : (n : ℕ) → 100 + n - 100 ≡ n
      minus n = omega arith

  abbrev pub list_codec : Codec (List A)
  list_codec = record {
    enc = λ xs. (100 + length xs) ∷ enc_items xs;
    dec = dec_list;
    dec-enc = list_law;
    solid = λ xs. (omega arith, items_solid xs);
  }

  -- The lines of a format: an opening brace, the record, and a closing brace.
  abbrev pub line : A → Text
  line x = b'{' ∷ a.enc x ++ b'}' ∷ []

  abbrev pub whole : Option (A × Text) → Option A
  whole none = none
  whole (some (x, s)) = some x

  abbrev pub read : Text → Option A
  read [] = none
  read (c ∷ s) = whole (a.dec s)

  pub read-line : (x : A) (s : Text) → some (line x) ≡ some s → read s ≡ some x
  read-line x s e =
      subst (λ t. read t ≡ some x) (some-injective _ _ e) (ap whole (a.dec-enc x (b'}' ∷ [])))

  ends_brace : (s : Text) → EndsSolid (s ++ b'}' ∷ [])
  ends_brace [] = refl
  ends_brace (c ∷ []) = refl
  ends_brace (c ∷ d ∷ s) = ends_brace (d ∷ s)

  no_line_feed : (s : Text) → All (λ c. 100 ≤ c) s → All (λ c. c ≢ 10) s
  no_line_feed [] h = tt
  no_line_feed (c ∷ s) h = (omega arith, no_line_feed s h.1)

  pub line-IsLine : (x : A) (s : Text) → some (line x) ≡ some s → IsLine s
  line-IsLine x s e = subst IsLine (some-injective _ _ e) (record {
    starts = refl;
    ends = ends_brace (b'{' ∷ a.enc x);
    one_line = (
      omega arith,
      no_line_feed (a.enc x ++ b'}' ∷ [])
          (All-append (λ c. 100 ≤ c) (a.enc x) (b'}' ∷ []) (a.solid x) (omega arith, tt)),
    );
  })

  abbrev pub json_of : Json A
  json_of = record {
    marshal = λ x. some (line x);
    unmarshal = read;
    unmarshal-marshal = read-line;
    marshal-IsLine = line-IsLine;
  }

-- The `i`-th integer of a list, for records of integers.
abbrev pub nth : ℕ → List ℤ → ℤ
nth i [] = pos 0
nth zero (z ∷ l) = z
nth (suc i) (z ∷ l) = nth i l
