-- ===== src/Config/Lines.antt =====
-- One line of the file, and the whole lines of one key each.
use mathlib.Core.List.{append_assoc, append-nil}
use high_performance_gaming.Common.{
  ℕ, zero, suc, ◌<◌, ◌≡◌, ◌≤◌, Bool, true, false, not, ◌&&◌, leb, ◌==◌, arith, some, [], ◌∷◌, ◌++◌,
  refl, sym, ap, ◌∙◌,
}
use high_performance_gaming.Common.Array.{length}
use high_performance_gaming.Config.{
  Text, take, same_text, c_string, is_plain, Decimal, Config, split_eq, key_starts, checked_kv,
  parse_kv, is_true, drop_cr, is_comment, parse_u32, set_key, set_entry, load_line, load_lines,
  bool_text, print_entry, or_zero,
}

-- A key, here: plain, without `=`, and no comment.
abbrev pub no_eq : Text → Bool
no_eq [] = true
no_eq (c ∷ t) = not (c == 61) && no_eq t

drop_cr-plain : (t : Text) → is_plain t ≡ true → drop_cr t ≡ t
unfolding drop_cr is_plain
drop_cr-plain [] h = refl
drop_cr-plain (c ∷ []) h = ground (arith, h)
drop_cr-plain (c ∷ d ∷ t) h = ap (λ u. c ∷ u) (drop_cr-plain (d ∷ t) (ground (arith, h)))

pub c_string-plain : (t : Text) → is_plain t ≡ true → c_string t ≡ t
unfolding c_string is_plain
c_string-plain [] h = refl
c_string-plain (c ∷ t) h = ground (arith, h, c_string-plain t)

plain-append : (t u : Text) → is_plain t ≡ true → is_plain u ≡ true → is_plain (t ++ u) ≡ true
unfolding is_plain
plain-append [] u h k = k
plain-append (c ∷ t) u h k = ground (arith, h, plain-append t u)

split_eq-key : (key val : Text) → no_eq key ≡ true → split_eq (key ++ (61 ∷ val)) ≡ some (key, val)
unfolding split_eq
split_eq-key [] val h = refl
split_eq-key (c ∷ t) val h =
    ground (arith, h, ap (key_starts c) (split_eq-key t val (ground (arith, h))))

is_comment-append : (t u : Text) → is_comment t ≡ false → is_comment (t ++ u) ≡ false
unfolding is_comment
is_comment-append [] u h = absurd (ground (arith, h))
is_comment-append (c ∷ t) u h = h

is_comment-length : (t : Text) → is_comment t ≡ false → (length t == 0) ≡ false
unfolding is_comment
is_comment-length [] h = absurd (ground (arith, h))
is_comment-length (c ∷ t) h = ground arith

fits : (n k : ℕ) → k < n → leb n k ≡ false
fits n k h = ground (arith, h)

pub take-all : (n : ℕ) (t : Text) → length t ≤ n → take n t ≡ t
take-all zero [] h = refl
take-all zero (c ∷ t) h = absurd (ground (arith, h))
take-all (suc n) [] h = refl
take-all (suc n) (c ∷ t) h = ap (λ u. c ∷ u) (take-all n t (omega (arith, h)))

-- What is known of a key.
pub record IsKey (key : Text) : Type 0 where
  pub plain_key : is_plain key ≡ true
  pub one_name : no_eq key ≡ true
  pub short_key : length key < 64
  pub no_comment : is_comment key ≡ false

plain_line :
    (key val : Text) → IsKey key → is_plain val ≡ true → is_plain (key ++ (61 ∷ val)) ≡ true
unfolding is_plain
plain_line key val k v = plain-append key (61 ∷ val) k.plain_key v

-- A text that a line of the file has room for.
pub record IsValue (t : Text) : Type 0 where
  pub plain : is_plain t ≡ true
  pub short : length t < 256

pub c_string-IsValue : {t : Text} → IsValue t → IsValue (c_string t)
c_string-IsValue {t} v = rw (c_string-plain t v.plain) v

-- A line that is read up to its end.
module _ (D : Decimal) where
  pub load_lines-line :
      (acc line rest : Text) (c : Config)
      → is_plain line ≡ true
      → load_lines D acc (line ++ (10 ∷ rest)) c
        ≡ load_lines D [] rest (load_line D (acc ++ line) c)
  unfolding load_lines is_plain
  load_lines-line acc [] rest c h =
      ap (λ l. load_lines D [] rest (load_line D l c)) (sym (append-nil acc))
  load_lines-line acc (b ∷ line) rest c h =
      let other : b == 10 ≡ false = ground (arith, h) in
      rw other (
        load_lines-line (acc ++ (b ∷ [])) line rest c (ground (arith, h))
        ∙ ap (λ l. load_lines D [] rest (load_line D l c)) (append_assoc acc (b ∷ []) line))

  entry_line :
      (key val : Text) (c : Config)
      → IsKey key
      → is_plain val ≡ true
      → length val < 256
      → load_line D (key ++ (61 ∷ val)) c ≡ set_key D key val c
  unfolding load_line parse_kv checked_kv set_entry
  entry_line key val c k v l =
      rw
        (
          drop_cr-plain (key ++ (61 ∷ val)) (plain_line key val k v),
          is_comment-append key (61 ∷ val) k.no_comment,
          split_eq-key key val k.one_name,
          is_comment-length key k.no_comment,
          fits 64 (length key) k.short_key,
          fits 256 (length val) l,
          c_string-plain key k.plain_key,
          c_string-plain val v,
        )
        refl

  pub load_entry :
      (key val rest : Text) (c : Config)
      → IsKey key
      → IsValue val
      → load_lines D [] (print_entry key val rest) c ≡ load_lines D [] rest (set_key D key val c)
  load_entry key val rest c k v =
      load_lines-line [] (key ++ (61 ∷ val)) rest c (plain_line key val k v.plain)
      ∙ ap (load_lines D [] rest) (entry_line key val c k v.plain v.short)

  pub bool-IsValue : (b : Bool) → IsValue (bool_text b)
  unfolding is_plain
  bool-IsValue true = record { plain = refl; short = omega arith }
  bool-IsValue false = record { plain = refl; short = omega arith }

  pub number-IsValue : (n : ℕ) → IsValue (D.print_u32 n)
  number-IsValue n = record { plain = D.digits n; short = omega (arith, D.short n) }

  pub is_true-bool_text : (b : Bool) → is_true (bool_text b) ≡ b
  unfolding is_true same_text
  is_true-bool_text true = refl
  is_true-bool_text false = refl

  pub parse-print : (n : ℕ) → n < 4294967296 → parse_u32 D (D.print_u32 n) ≡ n
  unfolding parse_u32
  parse-print n h = ap or_zero (D.reads_back n h)
