-- ===== src/Tools/Keyspace/Count.antt =====
-- The key count that fetchKeyCount reads from a server.
use deadhorse.Common.{
  List, Option, [], ap, append_assoc, arith, false, refl, some, true, ℕ, ◌++◌, ◌∙◌, ◌∷◌, ◌≡◌, ◌≢◌,
  ◌≤◌,
}
use deadhorse.Common.Int.{ℤ}
use deadhorse.Common.Assoc.{Str, str_eq}
use deadhorse.Types.{Failure, RequestEntry, ResponseEntry}
use deadhorse.Wire.Decimal.{
  Clean, InRange, append_int, append_int-Clean, parse_int, parse_int-append_int,
}
use deadhorse.Wire.Words.{
  Clean-NoSpace, IsWord, fields, fields-nil, fields-space, fields-spaced, fields-word, join,
  join-spaced, spaced, spaced-ends_word,
}
use deadhorse.Server.Text.Dispatch.{
  dispatch, drop_word, handle_stats, read_line, serve_line, split_command, stats_text, take_word,
  trim_left, trim_suffix,
}
use deadhorse.Tools.Keyspace.{fetch_key_count, stats_line}
use deadhorse.Dhp1.{is_space}
use deadhorse.Fnv1a.{bytes_of, rune_bytes}

no_int : (v : ℤ) → parse_int [] ≢ some v
unfolding parse_int
no_int v f = cc

newline : is_space 10 ≡ true
unfolding is_space
newline = refl

joined :
    (uptime keys : ℤ)
    → handle_stats uptime keys ≡ join b' ' (stats_text ∷ append_int uptime ∷ append_int keys ∷ [])
unfolding handle_stats join
joined uptime keys = refl

same_word : str_eq stats_text stats_text ≡ true
unfolding str_eq
same_word = refl

int-IsWord : (v : ℤ) → InRange v → IsWord (append_int v)
int-IsWord v h = by_text (append_int v) refl (append_int-Clean v)
  where
    by_text : (s : Str) → append_int v ≡ s → Clean s → IsWord s
    by_text [] e clean = absurd (no_int v (rw e at (parse_int-append_int v h)))
    by_text (c ∷ s) e clean = Clean-NoSpace (c ∷ s) clean

stats_text-IsWord : IsWord stats_text
unfolding is_space
stats_text-IsWord = (refl, (refl, (refl, (refl, (refl, tt)))))

-- The words of the response.
fields-handle_stats :
    (uptime keys : ℤ)
    → InRange uptime
    → InRange keys
    → fields (handle_stats uptime keys ++ 10 ∷ [])
      ≡ stats_text ∷ append_int uptime ∷ append_int keys ∷ []
fields-handle_stats uptime keys hu hk =
    let numbers = append_int uptime ∷ append_int keys ∷ [] in
    ap (λ s. fields (s ++ 10 ∷ [])) (joined uptime keys ∙ join-spaced stats_text numbers)
    ∙ ap fields (append_assoc stats_text (spaced numbers) (10 ∷ []))
    ∙ fields-word stats_text (spaced numbers ++ 10 ∷ []) stats_text-IsWord
        (spaced-ends_word numbers (10 ∷ []) newline)
    ∙ ap (◌∷◌ stats_text) (
        fields-spaced numbers (10 ∷ []) (int-IsWord uptime hu, (int-IsWord keys hk, tt)) newline
        ∙ ap (λ ws. numbers ++ ws) (fields-space 10 [] newline ∙ fields-nil))

module _ {ℓ} {σ : Type ℓ}
    (throttler : List RequestEntry → σ → σ × List ResponseEntry × Option Failure) (uptime keys : ℤ)
    (max_size : ℕ) where
  serve_line-stats :
      (st : σ)
      → 6 ≤ max_size
      → serve_line throttler uptime keys max_size stats_line st
        ≡ (st, some (handle_stats uptime keys ++ 10 ∷ []), false)
  unfolding serve_line read_line trim_suffix bytes_of rune_bytes dispatch split_command trim_left
      take_word drop_word is_space str_eq handle_stats
  serve_line-stats st h = ground arith

  -- Whatever throttler is behind the server, and whatever its state: with room for six bytes in a line,
  -- and an uptime and a key count in the range of an int64, the key count that fetchKeyCount reads
  -- from the server's response is the server's, and asking for it leaves the state as it was and
  -- the connection open.
  pub fetch_key_count-serve_line :
      (st : σ)
      → 6 ≤ max_size
      → InRange uptime
      → InRange keys
      → (fetch_key_count (λ buf. (serve_line throttler uptime keys max_size buf st).1) ≡ some keys)
        × ((serve_line throttler uptime keys max_size stats_line st).0 ≡ st)
        × ((serve_line throttler uptime keys max_size stats_line st).2 ≡ false)
  unfolding fetch_key_count
  fetch_key_count-serve_line st h hu hk =
      let served = serve_line-stats st h in
      (
        rw (served, fields-handle_stats uptime keys hu hk, same_word)
            (parse_int-append_int keys hk),
        rw served refl,
        rw served refl,
      )
