-- ===== src/Dbms/Cli/Reading.antt =====
-- server/dbms/internal/cli/cli.go: `readStatement`. The input is the list of the bytes that are
-- left, and how a read behind them ends.
use tac_os.Base.{◌==◌, if◌then◌else◌, Bool, false, not, ◌&&◌, ◌||◌, Bytes, [], ◌∷◌, ◌++◌}
use tac_os.Dbms.Lexer.{whitespace}

pub data InputEnd : Type 0 where
  at_eof broken : InputEnd

-- a statement and the input behind it, the end of the input, or another read error
pub data ReadResult : Type 0 where
  statement : Bytes → Bytes → ReadResult
  finished read_failed : ReadResult

-- `source.WriteByte`, for bytes that the loop has read
unfoldable pub with_bytes : Bytes → ReadResult → ReadResult
with_bytes bytes (statement source rest) = statement (bytes ++ source) rest
with_bytes bytes finished = finished
with_bytes bytes read_failed = read_failed

-- a read behind the last byte
unfoldable pub read_end : Bool → InputEnd → ReadResult
read_end has_content at_eof = if has_content then statement [] [] else finished
read_end has_content broken = read_failed

-- the loop; `Peek` looks at the byte behind `c`
unfoldable pub read_loop : InputEnd → Bool → Bool → Bytes → ReadResult
unfolding read_end with_bytes whitespace
read_loop e quoted has_content [] = read_end has_content e
read_loop e quoted has_content (c ∷ []) =
    let content = has_content || not (whitespace c) in
    if c == b'\''
    then with_bytes (c ∷ []) (read_end content e)
    else if c == b';' && not quoted
    then statement (c ∷ []) []
    else with_bytes (c ∷ []) (read_end content e)
read_loop e quoted has_content (c ∷ d ∷ rest) =
    let content = has_content || not (whitespace c) in
    let doubled = with_bytes (c ∷ d ∷ []) (read_loop e quoted content rest) in
    let toggled = with_bytes (c ∷ []) (read_loop e (not quoted) content (d ∷ rest)) in
    let plain = with_bytes (c ∷ []) (read_loop e quoted content (d ∷ rest)) in
    if c == b'\''
    then (if quoted && d == b'\'' then doubled else toggled)
    else if c == b';' && not quoted
    then statement (c ∷ []) (d ∷ rest)
    else plain

unfoldable pub read_statement : InputEnd → Bytes → ReadResult
unfolding read_loop
read_statement e input = read_loop e false false input
