-- ===== src/Broker/Lines.antt =====
-- broker/main.go: `validTopic` and `handle`, over the lines that the scanner returns.
use tac_os.Base.{
  ℕ, ◌==◌, if◌then◌else◌, Bool, false, not, ◌&&◌, ◌||◌, Bytes, codes, bytes_eq, strip_prefix, List,
  [], ◌∷◌, Option, none, some,
}
use tac_os.Broker.Subscribers.{Connections, Subscribers, subscribe, remove, publish}

-- one of " \t\r\n"
abbrev pub separator : ℕ → Bool
separator c = c == b' ' || c == b'\t' || c == b'\r' || c == b'\n'

-- `strings.ContainsAny(topic, " \t\r\n")`
unfoldable pub any_separator : Bytes → Bool
any_separator [] = false
any_separator (c ∷ cs) = separator c || any_separator cs

unfoldable pub valid_topic : Bytes → Bool
valid_topic topic = not (bytes_eq topic []) && not (any_separator topic)

-- `strings.TrimSuffix(line, "\r")`
unfoldable pub trim_cr : Bytes → Bytes
trim_cr [] = []
trim_cr (c ∷ []) = if c == b'\r' then [] else c ∷ []
trim_cr (c ∷ d ∷ cs) = c ∷ trim_cr (d ∷ cs)

unfoldable pub before : ℕ → Option (Bytes × Bytes) → Option (Bytes × Bytes)
before c none = none
before c (some (xs, ys)) = some (c ∷ xs, ys)

-- `rest[:separator]` and `rest[separator+1:]`, if there is a space
unfoldable pub cut : Bytes → Option (Bytes × Bytes)
unfolding before
cut [] = none
cut (c ∷ cs) = let later = cut cs in if c == b' ' then some ([], cs) else before c later

module _ {W : Type 0} (net : Connections W) where
  -- `separator < 1` is the first two clauses
  unfoldable pub on_parts : Option (Bytes × Bytes) → Subscribers × W → Subscribers × W
  on_parts none s = s
  on_parts (some ([], payload)) s = s
  on_parts (some (c ∷ topic, payload)) s =
      if valid_topic (c ∷ topic) && not (bytes_eq payload [])
      then publish net (c ∷ topic) payload s
      else s

  -- the line has no `SUB `; its text behind `PUB `, if it starts so
  unfoldable pub on_pub : Option Bytes → Subscribers × W → Subscribers × W
  on_pub none s = s
  on_pub (some rest) s = on_parts (cut rest) s

  unfoldable pub on_sub : ℕ → Bytes → Option Bytes → Subscribers × W → Subscribers × W
  on_sub c line (some topic) s = if valid_topic topic then (subscribe c topic s.0, s.1) else s
  on_sub c line none s = on_pub (strip_prefix (codes "PUB ") line) s

  -- one round of the loop of `handle`
  unfoldable pub handle_line : ℕ → Bytes → Subscribers × W → Subscribers × W
  handle_line c text s = on_sub c (trim_cr text) (strip_prefix (codes "SUB ") (trim_cr text)) s

  -- the lines of a connection, and what is deferred
  unfoldable pub handle : ℕ → List Bytes → Subscribers × W → Subscribers × W
  handle c [] s = (remove c s.0, net.close c s.1)
  handle c (line ∷ lines) s = handle c lines (handle_line c line s)
