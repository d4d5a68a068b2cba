-- ===== src/Wire/Words.antt =====
-- strings.Fields, strings.Split with a separator of one character, and strings.Join.
use deadhorse.Common.{
  Bool, List, [], ap, append-nil, append_assoc, arith, false, if◌then◌else◌, refl, sym, true, ℕ,
  ◌++◌, ◌==◌, ◌∙◌, ◌∷◌, ◌≡◌,
}
use deadhorse.Common.Assoc.{Str}
use deadhorse.Dhp1.{is_key_delimiter, is_space, pipe}
use deadhorse.Wire.Decimal.{Clean}

-- A character in front of the first word of a list.
abbrev pub prepend : ℕ → List Str → List Str
prepend c [] = (c ∷ []) ∷ []
prepend c (w ∷ ws) = (c ∷ w) ∷ ws

-- `Split(s, sep)`: always one piece more than there are separators.
unfoldable pub split : ℕ → Str → List Str
split sep [] = [] ∷ []
split sep (c ∷ s) = let rest = split sep s in if c == sep then [] ∷ rest else prepend c rest

-- A word ends here.
abbrev pub ends_word : Str → Bool
ends_word [] = true
ends_word (c ∷ s) = is_space c

-- `Fields(s)`: the words between runs of white space.
unfoldable pub fields : Str → List Str
fields [] = []
fields (c ∷ s) =
    let rest = fields s in
    if is_space c then rest else if ends_word s then (c ∷ []) ∷ rest else prepend c rest

-- `Join(ws, sep)`.
unfoldable pub join : ℕ → List Str → Str
join sep [] = []
join sep (w ∷ []) = w
join sep (w ∷ v ∷ ws) = w ++ sep ∷ join sep (v ∷ ws)

-- The words with a blank in front of each.
unfoldable pub spaced : List Str → Str
spaced [] = []
spaced (w ∷ ws) = b' ' ∷ (w ++ spaced ws)

-- No white space in a text; and a word, which is not empty.
abbrev pub NoSpace : Str → Type 0
NoSpace [] = Unit
NoSpace (c ∷ s) = (is_space c ≡ false) × NoSpace s

abbrev pub IsWord : Str → Type 0
IsWord [] = ⊥
IsWord (c ∷ s) = NoSpace (c ∷ s)

abbrev pub AllWords : List Str → Type 0
AllWords [] = Unit
AllWords (w ∷ ws) = IsWord w × AllWords ws

delimiter-space :
    (c : ℕ) → is_key_delimiter c ≡ false → (is_space c ≡ false) × ((c == pipe) ≡ false)
unfolding is_key_delimiter
delimiter-space c h = ground arith

pub Clean-NoSpace : (s : Str) → Clean s → NoSpace s
Clean-NoSpace [] h = tt
Clean-NoSpace (c ∷ s) (h, hs) = ((delimiter-space c h).0, Clean-NoSpace s hs)

-- A piece without a delimiter ends at the next separator.
pub split-Clean : (s : Str) → Clean s → split pipe s ≡ s ∷ []
unfolding split
split-Clean [] h = refl
split-Clean (c ∷ s) (h, hs) = rw ((delimiter-space c h).1, split-Clean s hs)

pub split-Clean-pipe :
    (s rest : Str) → Clean s → split pipe (s ++ pipe ∷ rest) ≡ s ∷ split pipe rest
unfolding split
split-Clean-pipe [] rest h = refl
split-Clean-pipe (c ∷ s) rest (h, hs) = rw ((delimiter-space c h).1, split-Clean-pipe s rest hs)

fields-cons :
    (c : ℕ) (s : Str)
    → is_space c ≡ false
    → ends_word s ≡ false
    → fields (c ∷ s) ≡ prepend c (fields s)
unfolding fields
fields-cons c s h e = rw (h, e)

pub fields-space : (c : ℕ) (s : Str) → is_space c ≡ true → fields (c ∷ s) ≡ fields s
unfolding fields
fields-space c s h = rw h

fields-last :
    (c : ℕ) (s : Str)
    → is_space c ≡ false
    → ends_word s ≡ true
    → fields (c ∷ s) ≡ (c ∷ []) ∷ fields s
unfolding fields
fields-last c s h e = rw (h, e)

-- A word ends where white space or the end of the text follows.
pub fields-word :
    (w rest : Str) → IsWord w → ends_word rest ≡ true → fields (w ++ rest) ≡ w ∷ fields rest
fields-word [] rest h e = elim h [ ]
fields-word (c ∷ []) rest (h, hs) e = fields-last c rest h e
fields-word (c ∷ d ∷ w) rest (h, (hd, hs)) e =
    fields-cons c (d ∷ w ++ rest) h hd ∙ ap (prepend c) (fields-word (d ∷ w) rest (hd, hs) e)

is_space-blank : is_space b' ' ≡ true
unfolding is_space
is_space-blank = refl

pub spaced-ends_word :
    (ws : List Str) (rest : Str) → ends_word rest ≡ true → ends_word (spaced ws ++ rest) ≡ true
unfolding spaced
spaced-ends_word [] rest e = e
spaced-ends_word (w ∷ ws) rest e = is_space-blank

fields-blank : (s : Str) → fields (b' ' ∷ s) ≡ fields s
unfolding fields
fields-blank s = rw is_space-blank

-- Fields sees of a text behind a character only its words and whether it starts with one.
pub fields-ext :
    (c : ℕ) (s t : Str)
    → fields s ≡ fields t
    → ends_word s ≡ ends_word t
    → fields (c ∷ s) ≡ fields (c ∷ t)
unfolding fields
fields-ext c s t same ends = rw (same, ends)

pub fields-nil : fields [] ≡ []
unfolding fields
fields-nil = refl

-- Words with blanks between them are read back, up to where white space or the end follows.
pub fields-spaced :
    (ws : List Str) (rest : Str)
    → AllWords ws
    → ends_word rest ≡ true
    → fields (spaced ws ++ rest) ≡ ws ++ fields rest
unfolding spaced
fields-spaced [] rest h e = refl
fields-spaced (w ∷ ws) rest (h, hs) e =
    fields-blank ((w ++ spaced ws) ++ rest)
    ∙ ap fields (append_assoc w (spaced ws) rest)
    ∙ fields-word w (spaced ws ++ rest) h (spaced-ends_word ws rest e)
    ∙ ap (◌∷◌ w) (fields-spaced ws rest hs e)

pub join-spaced : (w : Str) (ws : List Str) → join b' ' (w ∷ ws) ≡ w ++ spaced ws
unfolding join spaced
join-spaced w [] = sym (append-nil w)
join-spaced w (v ∷ ws) = ap (λ s. w ++ b' ' ∷ s) (join-spaced v ws)

pub NoSpace-append : (s t : Str) → NoSpace s → NoSpace t → NoSpace (s ++ t)
NoSpace-append [] t h k = k
NoSpace-append (c ∷ s) t (h, hs) k = (h, NoSpace-append s t hs k)

pub IsWord-append : (s t : Str) → IsWord s → NoSpace t → IsWord (s ++ t)
IsWord-append [] t h k = elim h [ ]
IsWord-append (c ∷ s) t (h, hs) k = (h, NoSpace-append s t hs k)

pub is_space-pipe : is_space pipe ≡ false
unfolding is_space
is_space-pipe = refl

-- A piece and a separator in front of a text without white space.
pub NoSpace-pipe : (s t : Str) → Clean s → NoSpace t → NoSpace (s ++ pipe ∷ t)
NoSpace-pipe s t h k = NoSpace-append s (pipe ∷ t) (Clean-NoSpace s h) (is_space-pipe, k)
