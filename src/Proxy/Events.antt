-- ===== src/Proxy/Events.antt =====
-- The server-sent events of src/proxy.py. `str.splitlines`, `str.strip` and `json.loads`, whose
-- error is `none`, are parameters.
use text.Mathlib.Text.{starts_with}
use free_lunch.Prelude.{
  ℕ, zero, suc, String, Bool, true, false, not, ◌&&◌, Option, none, List, [], ◌∷◌, str_eq,
  if◌then◌else◌, any, select, map,
}

-- `text[n:]`
unfoldable pub drop_chars : ℕ → String → String
drop_chars zero s = s
drop_chars (suc n) String.[] = String.[]
drop_chars (suc n) (String.◌∷◌ c s) = drop_chars n s

module _ {J : Type 0} (strip : String → String) (loads : String → Option J) where
  -- The loop of `_parse_stream_event`: the first `data:` line decides.
  unfoldable pub parse_lines : List String → Option J × Bool
  unfolding drop_chars
  parse_lines [] = (none, false)
  parse_lines (l ∷ ls) =
      let rest = parse_lines ls in
      let text = strip (drop_chars 6 l) in
      if not (starts_with l "data: ")
      then rest
      else if str_eq text "[DONE]"
      then (none, true)
      else (loads text, false)

module _ {J : Type 0} (split_lines : String → List String) (strip : String → String)
    (loads : String → Option J) where
  unfoldable pub parse_stream_event : String → Option J × Bool
  unfolding parse_lines
  parse_stream_event raw = parse_lines strip loads (split_lines raw)

module _ (split_lines : String → List String) (strip : String → String) where
  unfoldable pub is_comment_event : String → Bool
  is_comment_event raw =
      let lines = select (λ l. not (str_eq l "")) (map strip (split_lines raw)) in
      any (λ l. true) lines && not (any (λ l. not (starts_with l ":")) lines)
