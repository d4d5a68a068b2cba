-- ===== src/Server/Text/Dispatch.antt =====
-- server/textserver.go: from a line of the connection to the handler of its command. The uptime and the
-- key count of STATS are arguments, as is the throttler; a response is `none` where nothing is written.
use deadhorse.Common.{
  Bool, List, Option, [], false, if◌then◌else◌, length, ltb, none, not, some, true, ℕ, ◌&&◌, ◌++◌,
  ◌==◌, ◌||◌, ◌∷◌,
}
use deadhorse.Common.Int.{ℤ}
use deadhorse.Common.Assoc.{Str, str_eq}
use deadhorse.Types.{Failure, RequestEntry, ResponseEntry}
use deadhorse.Dhp1.{is_space}
use deadhorse.Fnv1a.{bytes_of}
use deadhorse.Wire.Decimal.{append_int}
use deadhorse.Wire.Words.{fields}
use deadhorse.Server.Text.{handle_throttle, throttle_text}

abbrev pub hello_text : Str
hello_text = b'H' ∷ b'E' ∷ b'L' ∷ b'L' ∷ b'O' ∷ []

abbrev pub ping_text : Str
ping_text = b'P' ∷ b'I' ∷ b'N' ∷ b'G' ∷ []

abbrev pub pong_text : Str
pong_text = b'P' ∷ b'O' ∷ b'N' ∷ b'G' ∷ []

abbrev pub stats_text : Str
stats_text = b'S' ∷ b'T' ∷ b'A' ∷ b'T' ∷ b'S' ∷ []

abbrev pub quit_text : Str
quit_text = b'Q' ∷ b'U' ∷ b'I' ∷ b'T' ∷ []

abbrev pub version_text : Str
version_text = b'1' ∷ []

abbrev pub ok_text : Str
ok_text = b'O' ∷ b'K' ∷ []

abbrev pub missing_version : Str
missing_version =
    b'E' ∷ b'R' ∷ b'R' ∷ b'O' ∷ b'R' ∷ b' ' ∷ b'm' ∷ b'i' ∷ b's' ∷ b's' ∷ b'i' ∷ b'n' ∷ b'g' ∷ b' '
    ∷ b'v' ∷ b'e' ∷ b'r' ∷ b's' ∷ b'i' ∷ b'o' ∷ b'n' ∷ []

abbrev pub unsupported_version : Str
unsupported_version =
    b'E' ∷ b'R' ∷ b'R' ∷ b'O' ∷ b'R' ∷ b' ' ∷ b'u' ∷ b'n' ∷ b's' ∷ b'u' ∷ b'p' ∷ b'p' ∷ b'o' ∷ b'r'
    ∷ b't' ∷ b'e' ∷ b'd' ∷ b' ' ∷ b'v' ∷ b'e' ∷ b'r' ∷ b's' ∷ b'i' ∷ b'o' ∷ b'n' ∷ []

abbrev pub unknown_command : Str
unknown_command =
    b'E' ∷ b'R' ∷ b'R' ∷ b'O' ∷ b'R' ∷ b' ' ∷ b'u' ∷ b'n' ∷ b'k' ∷ b'n' ∷ b'o' ∷ b'w' ∷ b'n' ∷ b' '
    ∷ b'c' ∷ b'o' ∷ b'm' ∷ b'm' ∷ b'a' ∷ b'n' ∷ b'd' ∷ []

abbrev pub line_too_long : Str
line_too_long =
    b'E' ∷ b'R' ∷ b'R' ∷ b'O' ∷ b'R' ∷ b' ' ∷ b'l' ∷ b'i' ∷ b'n' ∷ b'e' ∷ b' ' ∷ b't' ∷ b'o' ∷ b'o'
    ∷ b' ' ∷ b'l' ∷ b'o' ∷ b'n' ∷ b'g' ∷ []

abbrev pub unknown_text : Str
unknown_text = b'u' ∷ b'n' ∷ b'k' ∷ b'n' ∷ b'o' ∷ b'w' ∷ b'n' ∷ []

-- The text behind its leading white space.
unfoldable pub trim_left : Str → Str
trim_left [] = []
trim_left (c ∷ s) = let rest = trim_left s in if is_space c then rest else c ∷ s

-- The text up to its first white space, and from there on.
unfoldable pub take_word : Str → Str
take_word [] = []
take_word (c ∷ s) = let rest = take_word s in if is_space c then [] else c ∷ rest

unfoldable pub drop_word : Str → Str
drop_word [] = []
drop_word (c ∷ s) = let rest = drop_word s in if is_space c then c ∷ s else rest

unfoldable pub split_command : Str → Str × Str
split_command line = let start = trim_left line in (take_word start, drop_word start)

-- `normalizeCommand`, the label of the metrics.
unfoldable pub normalize_command : Str → Str
normalize_command cmd =
    if str_eq cmd hello_text
      || str_eq cmd throttle_text
      || str_eq cmd ping_text
      || str_eq cmd stats_text
      || str_eq cmd quit_text
    then cmd
    else unknown_text

abbrev pub hello_reply : List Str → Str
hello_reply [] = missing_version
hello_reply (v ∷ _) =
    if not (str_eq v version_text) then unsupported_version else ok_text ++ b' ' ∷ version_text

unfoldable pub handle_hello : Str → Str
handle_hello rest = hello_reply (fields rest)

unfoldable pub handle_stats : ℤ → ℤ → Str
handle_stats uptime keys = stats_text ++ b' ' ∷ (append_int uptime ++ b' ' ∷ append_int keys)

-- `TrimSuffix` with a suffix of one character.
unfoldable pub trim_suffix : ℕ → Str → Str
trim_suffix x [] = []
trim_suffix x (c ∷ s) = let rest = trim_suffix x s in if str_eq s [] && c == x then [] else c ∷ rest

-- `readLine`, on what is read up to a newline: `none` is the error of a line that is too long.
unfoldable pub read_line : ℕ → Str → Option Str
read_line max_size buf =
    if ltb max_size (length (bytes_of buf))
    then none
    else some (trim_suffix 13 (trim_suffix 10 buf))

module _ {ℓ} {σ : Type ℓ}
    (throttler : List RequestEntry → σ → σ × List ResponseEntry × Option Failure)
    (uptime keys : ℤ) where
  -- `dispatch`: the state, the response, and whether the connection is closed.
  unfoldable pub dispatch : Str → σ → σ × Str × Bool
  dispatch line st =
      let (cmd, rest) = split_command line in
      if str_eq cmd hello_text
      then (st, handle_hello rest, false)
      else if str_eq cmd throttle_text
      then (let (st', response) = handle_throttle throttler rest st in (st', response, false))
      else if str_eq cmd ping_text
      then (st, pong_text, false)
      else if str_eq cmd stats_text
      then (st, handle_stats uptime keys, false)
      else if str_eq cmd quit_text
      then (st, [], true)
      else (st, unknown_command, false)

  -- What is written for a response, with its newline; nothing for the empty one.
  abbrev pub written : Str → Option Str
  written response = if str_eq response [] then none else some (response ++ 10 ∷ [])

  -- One round of the loop in `handleConn`: what is read up to a newline, and what is written.
  unfoldable pub serve_line : ℕ → Str → σ → σ × Option Str × Bool
  serve_line max_size buf st = elim (read_line max_size buf) [
    | none ↦ (st, some (line_too_long ++ 10 ∷ []), true)
    | some line ↦
        if str_eq (trim_left line) []
        then (st, none, false)
        else let (st', response, close_conn) = dispatch line st in
          (st', written response, close_conn)
  ]

  -- A response in front of those of the later lines.
  abbrev pub emit : Option Str → List Str → List Str
  emit none later = later
  emit (some out) later = out ∷ later

  -- The loop of `handleConn` over the lines that are read, until the input ends or the connection is
  -- closed: the state, and what is written.
  unfoldable pub handle_conn : ℕ → List Str → σ → σ × List Str
  handle_conn max_size [] st = (st, [])
  handle_conn max_size (buf ∷ bufs) st =
      let (st', out, close_conn) = serve_line max_size buf st in
      let (last, later) = handle_conn max_size bufs st' in
      if close_conn then (st', emit out []) else (last, emit out later)
