-- ===== src/Handshake/Methods.antt =====
-- src/handshake.c and the string stacks of src/fastd.h: lists of method names, and the choice of a
-- method.
pub mod Strings
pub mod Choice
use fastd.Base.{
  ℕ, zero, suc, ◌+◌, ◌-◌, Bool, true, false, ◌&&◌, ◌||◌, Option, none, some, ◌>>=◌, List, [], ◌∷◌,
  ◌++◌, ◌==◌, if◌then◌else◌, length, take, drop,
}
use fastd.Util.{size_sub}

-- A C string: bytes without a NUL.
abbrev pub Str : Type 0
Str = List ℕ

-- `strcmp(s, t) == 0`
unfoldable pub str_eq : Str → Str → Bool
str_eq [] [] = true
str_eq [] (b ∷ bs) = false
str_eq (a ∷ s) [] = false
str_eq (a ∷ s) (b ∷ t) = a == b && str_eq s t

-- The string that starts at some bytes: what stands before the first NUL, or all of them. `strnlen`
-- is its length.
unfoldable pub cut : List ℕ → Str
cut [] = []
cut (b ∷ bs) = if b == 0 then [] else b ∷ cut bs

-- `strncmp(str, buf, maxlen) == 0`, where `buf` has `maxlen` bytes.
unfoldable pub strn_eq : Str → List ℕ → Bool
strn_eq s [] = true
strn_eq [] (b ∷ bs) = b == 0
strn_eq (a ∷ s) (b ∷ bs) = a == b && strn_eq s bs

unfoldable pub string_equal : Str → List ℕ → Bool
unfolding cut strn_eq
string_equal s buf = if length s == length (cut buf) then strn_eq s buf else false

unfoldable pub string_stack_contains : List Str → Str → Bool
unfolding str_eq
string_stack_contains [] s = false
string_stack_contains (x ∷ stack) s = str_eq x s || string_stack_contains stack s

-- The copies of all names with their NULs.
unfoldable pub names_with_nul : List Str → List ℕ
names_with_nul [] = []
names_with_nul (m ∷ ms) = m ++ (0 ∷ names_with_nul ms)

-- The bytes and the length that does not count the last NUL.
unfoldable pub create_method_list : List Str → List ℕ × ℕ
unfolding names_with_nul
create_method_list methods = (names_with_nul methods, size_sub (length (names_with_nul methods)) 1)

-- The loop over the bytes that are left; `ret` is the stack so far. Each round takes a byte.
unfoldable pub parse_string_loop : ℕ → List ℕ → List Str → List Str
parse_string_loop (suc fuel) (b ∷ bs) ret =
    parse_string_loop fuel (drop (length (cut (b ∷ bs)) + 1) (b ∷ bs)) (cut (b ∷ bs) ∷ ret)
parse_string_loop _ _ ret = ret

unfoldable pub parse_string_list : List ℕ → List Str
unfolding parse_string_loop
parse_string_list bytes = parse_string_loop (length bytes) bytes []

-- The methods of the build, which are found by their names, are a parameter.
module _ {Method : Type 0} (get_by_name : Str → Option Method) where
  -- `none` is the end of the process. The last match of the walk counts.
  unfoldable pub choose_loop : List Str → List Str → Option Method → Option (Option Method)
  choose_loop methods [] method = some method
  choose_loop methods (name ∷ names) method =
      let found : Option (Option Method) = elim (get_by_name name) [
        | none ↦ none
        | some m ↦ choose_loop methods names (some m)
      ] in
      let skipped = choose_loop methods names method in
      if string_stack_contains methods name then found else skipped

  unfoldable pub get_method_by_name_list : List Str → Option (List ℕ) → Option (Option Method)
  unfolding choose_loop
  get_method_by_name_list methods none = some none
  get_method_by_name_list methods (some []) = some none
  get_method_by_name_list methods (some (b ∷ bs)) =
      choose_loop methods (parse_string_list (b ∷ bs)) none

  unfoldable pub get_method_by_name : List Str → Option (List ℕ) → Option Method
  get_method_by_name methods none = none
  get_method_by_name methods (some name) =
      if string_stack_contains methods (cut name) then get_by_name (cut name) else none
