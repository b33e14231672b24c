-- ===== src/Handshake/Methods/Strings.antt =====
-- Comparing and listing names (src/handshake.c).
use mathlib.Core.List.{reverse, reverse-append}
use fastd.Base.{
  ℕ, zero, suc, ◌+◌, ◌≤◌, ◌<◌, ◌≡◌, ◌≢◌, ◌↔◌, refl, sym, ap, ◌∙◌, true, List, [], ◌∷◌, ◌++◌,
  append_assoc, append-nil, arith, length, take, drop, All, length-append, suc_add,
  take-length_append,
}
use fastd.Util.{size_mod, size_sub}
use fastd.Handshake.Methods.{
  Str, str_eq, cut, strn_eq, string_equal, names_with_nul, create_method_list, parse_string_loop,
  parse_string_list,
}

abbrev pub NoNul : Str → Type 0
NoNul = All (λ b. b ≢ 0)

pub str_eq_iff : (s t : Str) → (str_eq s t ≡ true) ↔ (s ≡ t)
unfolding str_eq
str_eq_iff [] [] = (λ e. refl, λ e. refl)
str_eq_iff [] (b ∷ t) = (λ e. cc, λ e. cc)
str_eq_iff (a ∷ s) [] = (λ e. cc, λ e. cc)
str_eq_iff (a ∷ s) (b ∷ t) =
    (λ e. ground (arith, str_eq_iff s t), λ e. ground (arith, str_eq_iff s t))

strn_eq-cut :
    (s : Str) (buf : List ℕ)
    → NoNul s
    → length s ≡ length (cut buf)
    → (strn_eq s buf ≡ true) ↔ (s ≡ cut buf)
unfolding strn_eq cut
strn_eq-cut [] [] h l = (λ e. refl, λ e. refl)
strn_eq-cut [] (b ∷ bs) h l = (λ e. ground arith, λ e. ground arith)
strn_eq-cut (a ∷ s) [] h l = absurd (omega arith)
strn_eq-cut (a ∷ s) (b ∷ bs) h l = (
  λ e. ground (arith, strn_eq-cut s bs, h.0, h.1),
  λ e. ground (arith, strn_eq-cut s bs, h.0, h.1),
)

-- A name equals the value of a record exactly if it is the string that the value's bytes hold up to
-- their first NUL or their end.
pub string_equal_iff :
    (s : Str) (buf : List ℕ) → NoNul s → (string_equal s buf ≡ true) ↔ (s ≡ cut buf)
unfolding string_equal
string_equal_iff s buf h = (
  λ e. ground (arith, strn_eq-cut s buf h),
  λ e. ground (arith, strn_eq-cut s buf h, ap length e),
)

-- A name that can stand in a list.
abbrev pub IsName : Str → Type 0
IsName m = NoNul m × (0 < length m)

-- The names with a NUL between them.
abbrev pub joined : List Str → List ℕ
joined [] = []
joined (m ∷ []) = m
joined (m ∷ n ∷ ms) = m ++ (0 ∷ joined (n ∷ ms))

names-joined : (m : Str) (ms : List Str) → names_with_nul (m ∷ ms) ≡ joined (m ∷ ms) ++ (0 ∷ [])
unfolding names_with_nul
names-joined m [] = refl
names-joined m (n ∷ ms) =
    ap (λ t. m ++ (0 ∷ t)) (names-joined n ms) ∙ sym (append_assoc m (0 ∷ joined (n ∷ ms)) (0 ∷ []))

-- The bytes of the method list record: the names, separated by NULs.
pub create_method_list-joined :
    (m : Str) (ms : List Str)
    → length (names_with_nul (m ∷ ms)) < size_mod
    → take (create_method_list (m ∷ ms)).1 (create_method_list (m ∷ ms)).0 ≡ joined (m ∷ ms)
unfolding create_method_list
create_method_list-joined m ms h =
    ap (λ k. take k (names_with_nul (m ∷ ms))) len
    ∙ ap (take (length (joined (m ∷ ms)))) (names-joined m ms)
    ∙ take-length_append (joined (m ∷ ms)) (0 ∷ [])
  where
    len : size_sub (length (names_with_nul (m ∷ ms))) 1 ≡ length (joined (m ∷ ms))
    len = omega (arith, ap length (names-joined m ms), length-append (joined (m ∷ ms)) (0 ∷ []))

cut-nul : (m : Str) (rest : List ℕ) → NoNul m → cut (m ++ (0 ∷ rest)) ≡ m
unfolding cut
cut-nul [] rest h = refl
cut-nul (a ∷ m) rest h = ground (arith, h.0, cut-nul m rest h.1)

pub cut-NoNul : (m : Str) → NoNul m → cut m ≡ m
unfolding cut
cut-NoNul [] h = refl
cut-NoNul (a ∷ m) h = ground (arith, h.0, cut-NoNul m h.1)

drop-name : (m : Str) (rest : List ℕ) → drop (length m + 1) (m ++ (0 ∷ rest)) ≡ rest
drop-name [] rest = refl
drop-name (a ∷ m) rest = rw (suc_add (length m) 1) (drop-name m rest)

drop-last : (m : Str) → drop (length m + 1) m ≡ []
drop-last [] = refl
drop-last (a ∷ m) = rw (suc_add (length m) 1) (drop-last m)

-- One round on a first name that is not empty.
round :
    (fuel : ℕ) (m : Str) (bytes rest : List ℕ) (ret : List Str)
    → 0 < length bytes
    → cut bytes ≡ m
    → drop (length m + 1) bytes ≡ rest
    → parse_string_loop (suc fuel) bytes ret ≡ parse_string_loop fuel rest (m ∷ ret)
unfolding parse_string_loop
round fuel m [] rest ret h c d = absurd (omega arith)
round fuel m (b ∷ bs) rest ret h c d = rw (c, d)

parse_string_loop-nil : (fuel : ℕ) (ret : List Str) → parse_string_loop fuel [] ret ≡ ret
unfolding parse_string_loop
parse_string_loop-nil zero ret = refl
parse_string_loop-nil (suc fuel) ret = refl

parse_string_loop-joined :
    (fuel : ℕ) (ms ret : List Str)
    → All IsName ms
    → length (joined ms) ≤ fuel
    → parse_string_loop fuel (joined ms) ret ≡ reverse ms ++ ret
parse_string_loop-joined fuel [] ret h f = parse_string_loop-nil fuel ret
parse_string_loop-joined zero (m ∷ []) ret h f = absurd (omega (arith, h.0.1))
parse_string_loop-joined (suc fuel) (m ∷ []) ret h f =
    round fuel m m [] ret h.0.1 (cut-NoNul m h.0.0) (drop-last m)
    ∙ parse_string_loop-nil fuel (m ∷ ret)
parse_string_loop-joined zero (m ∷ n ∷ ms) ret h f =
    absurd (omega (arith, h.0.1, length-append m (0 ∷ joined (n ∷ ms))))
parse_string_loop-joined (suc fuel) (m ∷ n ∷ ms) ret h f =
    round fuel m (joined (m ∷ n ∷ ms)) (joined (n ∷ ms)) ret
      (omega (arith, length-append m (0 ∷ joined (n ∷ ms)))) (cut-nul m (joined (n ∷ ms)) h.0.0)
      (drop-name m (joined (n ∷ ms)))
    ∙ parse_string_loop-joined fuel (n ∷ ms) (m ∷ ret) h.1
        (omega (arith, length-append m (0 ∷ joined (n ∷ ms))))
    ∙ sym (append_assoc (reverse (n ∷ ms)) (m ∷ []) ret)
    ∙ ap (λ t. t ++ ret) (sym (reverse-append (m ∷ []) (n ∷ ms)))

-- The list of method names that one side sends is read by the other as the stack of the same names,
-- the last name on top.
pub parse-create_method_list :
    (m : Str) (ms : List Str)
    → All IsName (m ∷ ms)
    → length (names_with_nul (m ∷ ms)) < size_mod
    → parse_string_list (take (create_method_list (m ∷ ms)).1 (create_method_list (m ∷ ms)).0)
      ≡ reverse (m ∷ ms)
unfolding parse_string_list
parse-create_method_list m ms h small = rw (create_method_list-joined m ms small) (
    parse_string_loop-joined (length (joined (m ∷ ms))) (m ∷ ms) [] h (omega arith)
    ∙ append-nil (reverse (m ∷ ms)))

pub joined_pos : (m : Str) (ms : List Str) → IsName m → 0 < length (joined (m ∷ ms))
joined_pos m [] h = h.1
joined_pos m (n ∷ ms) h = omega (arith, h.1, length-append m (0 ∷ joined (n ∷ ms)))
