-- ===== src/Tests/Buffer.antt =====
-- The socket buffer of the fixture, grown, filled and shrunk.
use cpp_readline.Common.{◌≡◌, some, [], ◌∷◌, arith, Returns, ok}
use cpp_readline.SocketBuff.{SocketBuff, expand, copy_buf}
use cpp_readline.SocketBuff.Room.{Expanded, expand_lem}
use cpp_readline.SocketBuff.Append.{Copied, copy_buf_lem}
use cpp_readline.Tests.Fixture.{small_buff, small_buff-Inv}

expand_lem_example : (b' : SocketBuff) × (expand small_buff 5 ≡ ok b') × Expanded small_buff 5 b'
expand_lem_example = expand_lem {b = small_buff} 5 small_buff-Inv (omega arith)

copy_buf_lem_example :
    Returns (Copied small_buff (some 3 ∷ some 4 ∷ [])) (copy_buf small_buff (some 3 ∷ some 4 ∷ []))
copy_buf_lem_example =
    copy_buf_lem {b = small_buff} (some 3 ∷ some 4 ∷ []) small_buff-Inv (omega arith)
