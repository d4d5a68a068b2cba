-- ===== src/Server/Text/Command.antt =====
-- How the first word of a line is found.
use deadhorse.Common.{
  Bool-cases, [], ap, false, inl, inr, refl, sym, true, ℕ, ◌++◌, ◌∙◌, ◌∷◌, ◌≡◌, ◌≢◌,
}
use deadhorse.Common.Assoc.{Str}
use deadhorse.Dhp1.{is_space}
use deadhorse.Wire.Words.{IsWord, NoSpace, ends_word, fields, fields-space, fields-word}
use deadhorse.Server.Text.Dispatch.{drop_word, split_command, take_word, trim_left}

trim_left-fields : (s : Str) → fields (trim_left s) ≡ fields s
unfolding trim_left
trim_left-fields [] = refl
trim_left-fields (c ∷ s) = elim (Bool-cases (is_space c)) [
  | inl e ↦ rw e (trim_left-fields s ∙ sym (fields-space c s e))
  | inr e ↦ rw e
]

take_word-drop_word : (s : Str) → take_word s ++ drop_word s ≡ s
unfolding take_word drop_word
take_word-drop_word [] = refl
take_word-drop_word (c ∷ s) = elim (Bool-cases (is_space c)) [
  | inl e ↦ rw e
  | inr e ↦ rw e (ap (◌∷◌ c) (take_word-drop_word s))
]

take_word-NoSpace : (s : Str) → NoSpace (take_word s)
unfolding take_word
take_word-NoSpace [] = tt
take_word-NoSpace (c ∷ s) = elim (Bool-cases (is_space c)) [
  | inl e ↦ rw e tt
  | inr e ↦ rw e (e, take_word-NoSpace s)
]

drop_word-ends_word : (s : Str) → ends_word (drop_word s) ≡ true
unfolding drop_word
drop_word-ends_word [] = refl
drop_word-ends_word (c ∷ s) = elim (Bool-cases (is_space c)) [
  | inl e ↦ rw e e
  | inr e ↦ rw e (drop_word-ends_word s)
]

take_word-IsWord : (c : ℕ) (s : Str) → is_space c ≡ false → IsWord (take_word (c ∷ s))
unfolding take_word
take_word-IsWord c s e = rw e (e, take_word-NoSpace s)

trim_left-IsWord : (s : Str) → trim_left s ≢ [] → IsWord (take_word (trim_left s))
unfolding trim_left
trim_left-IsWord [] h = absurd (h refl)
trim_left-IsWord (c ∷ s) h = elim (Bool-cases (is_space c)) [
  | inl e ↦ rw e (trim_left-IsWord s (rw e at h))
  | inr e ↦ rw e (take_word-IsWord c s e)
]

-- On a line that is not blank the command is the first of the words that Fields would split the line
-- into, and the rest has the others: any white space ends the command, not only a blank.
pub split_command-fields :
    (line : Str)
    → trim_left line ≢ []
    → fields line ≡ (split_command line).0 ∷ fields (split_command line).1
unfolding split_command
split_command-fields line h =
    let s = trim_left line in
    sym (trim_left-fields line)
    ∙ ap fields (sym (take_word-drop_word s))
    ∙ fields-word (take_word s) (drop_word s) (trim_left-IsWord line h) (drop_word-ends_word s)

take_word_ends : (s : Str) → ends_word s ≡ true → (take_word s ≡ []) × (drop_word s ≡ s)
unfolding take_word drop_word
take_word_ends [] e = (refl, refl)
take_word_ends (c ∷ s) e = rw e (refl, refl)

take_word-append :
    (w rest : Str)
    → NoSpace w
    → ends_word rest ≡ true
    → (take_word (w ++ rest) ≡ w) × (drop_word (w ++ rest) ≡ rest)
unfolding take_word drop_word
take_word-append [] rest h e = take_word_ends rest e
take_word-append (c ∷ w) rest (h, hs) e =
    let (taken, dropped) = take_word-append w rest hs e in rw h (ap (◌∷◌ c) taken, dropped)

pub trim_left-IsWord_append : (w rest : Str) → IsWord w → trim_left (w ++ rest) ≡ w ++ rest
unfolding trim_left
trim_left-IsWord_append [] rest h = elim h [ ]
trim_left-IsWord_append (c ∷ w) rest (h, hs) = rw h

IsWord-NoSpace : (w : Str) → IsWord w → NoSpace w
IsWord-NoSpace [] h = elim h [ ]
IsWord-NoSpace (c ∷ w) h = h

pub split_command-word :
    (w rest : Str) → IsWord w → ends_word rest ≡ true → split_command (w ++ rest) ≡ (w, rest)
unfolding split_command
split_command-word w rest h e =
    let (taken, dropped) = take_word-append w rest (IsWord-NoSpace w h) e in
    rw (trim_left-IsWord_append w rest h, taken, dropped)
