-- ===== src/Handshake/Methods/Choice.antt =====
-- Which method a handshake chooses (src/handshake.c).
use mathlib.Core.List.{reverse, reverse-append}
use fastd.Base.{
  ℕ, ◌<◌, ◌≡◌, refl, ap, ◌∙◌, true, Option, none, some, ◌>>=◌, List, [], ◌∷◌, ◌++◌, arith,
  if◌then◌else◌, length, take, All, Bool-cases, Option-cases, inl, inr,
}
use fastd.Util.{size_mod}
use fastd.Handshake.Methods.{
  Str, string_stack_contains, names_with_nul, create_method_list, parse_string_list, choose_loop,
  get_method_by_name_list,
}
use fastd.Handshake.Methods.Strings.{
  IsName, parse-create_method_list, create_method_list-joined, joined_pos,
}

-- The first of the names that is configured.
abbrev pub first_common : List Str → List Str → Option Str
first_common methods [] = none
first_common methods (m ∷ ms) =
    if string_stack_contains methods m then some m else first_common methods ms

module _ {Method : Type 0} (get_by_name : Str → Option Method) (methods : List Str) where
  -- Every configured method is part of the build, which the start-up checks.
  abbrev pub AllKnown : Type 0
  AllKnown =
      (name : Str)
      → string_stack_contains methods name ≡ true
      → (m : Method) × (get_by_name name ≡ some m)

  choose-append :
      (xs ys : List Str) (o : Option Method)
      → choose_loop get_by_name methods (xs ++ ys) o
        ≡ (choose_loop get_by_name methods xs o >>= choose_loop get_by_name methods ys)
  unfolding choose_loop
  choose-append [] ys o = refl
  choose-append (x ∷ xs) ys o = elim (Option-cases (get_by_name x)) [
    | inl e ↦ ground (arith, e, choose-append xs ys o)
    | inr (m, e) ↦ ground (arith, e, choose-append xs ys (some m), choose-append xs ys o)
  ]

  choose-last :
      (x : Str) (o : Option Method)
      → AllKnown
      → choose_loop get_by_name methods (x ∷ []) o
        ≡ some (if string_stack_contains methods x then get_by_name x else o)
  unfolding choose_loop
  choose-last x o known = elim (Bool-cases (string_stack_contains methods x)) [
    | inl e ↦ let (m, k) = known x e in ground (arith, e, k)
    | inr e ↦ rw e refl
  ]

  pub choose-reverse :
      (ms : List Str)
      → AllKnown
      → choose_loop get_by_name methods (reverse ms) none
        ≡ some (first_common methods ms >>= get_by_name)
  choose-reverse [] known = unfold choose_loop in refl
  choose-reverse (x ∷ ms) known =
      ap (λ l. choose_loop get_by_name methods l none) (reverse-append (x ∷ []) ms)
      ∙ choose-append (reverse ms) (x ∷ []) none
      ∙ ap (λ o. o >>= choose_loop get_by_name methods (x ∷ [])) (choose-reverse ms known)
      ∙ choose-last x (first_common methods ms >>= get_by_name) known
      ∙ last_step
    where
      last_step :
          some (
            if string_stack_contains methods x
            then get_by_name x
            else first_common methods ms >>= get_by_name)
          ≡ some (first_common methods (x ∷ ms) >>= get_by_name)
      last_step = elim (Bool-cases (string_stack_contains methods x)) [
        | inl e ↦ rw e refl
        | inr e ↦ rw e refl
      ]

  by_name_list-cons :
      (bytes : List ℕ)
      → 0 < length bytes
      → get_method_by_name_list get_by_name methods (some bytes)
        ≡ choose_loop get_by_name methods (parse_string_list bytes) none
  unfolding get_method_by_name_list
  by_name_list-cons [] h = absurd (omega arith)
  by_name_list-cons (b ∷ bs) h = refl

-- From the list of names that the peer sends, the handshake chooses the first that is configured
-- here, in the peer's order, and it never ends the process, provided that all configured methods are
-- part of the build.
pub choice-first_common :
    {Method : Type 0} (get_by_name : Str → Option Method) (methods : List Str) (m : Str)
    (ms : List Str)
    → AllKnown get_by_name methods
    → All IsName (m ∷ ms)
    → length (names_with_nul (m ∷ ms)) < size_mod
    → let (bytes, len) = create_method_list (m ∷ ms) in
      get_method_by_name_list get_by_name methods (some (take len bytes))
      ≡ some (first_common methods (m ∷ ms) >>= get_by_name)
choice-first_common get_by_name methods m ms known h small =
    by_name_list-cons get_by_name methods _
      (rw (create_method_list-joined m ms small) (joined_pos m ms h.0))
    ∙ ap (λ l. choose_loop get_by_name methods l none) (parse-create_method_list m ms h small)
    ∙ choose-reverse get_by_name methods (m ∷ ms) known
