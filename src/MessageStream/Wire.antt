-- ===== src/MessageStream/Wire.antt =====
-- A request as it stands in a read buffer.
use mtrpc.Base.{◌≡◌, ◌≤◌, true, false, length, pos}
use mtrpc.Ring.{IsAt}
use mtrpc.Ring.Sum.{total}
use mtrpc.Buffer.Uniform.{IsUniform}
use mtrpc.Http.Unread.{unread}
use mtrpc.Http.Request.{reset_request}
use mtrpc.SocketStream.{SocketStream}
use mtrpc.Text.{Bytes}
use mtrpc.Http.{get_content_length}
use mtrpc.Http.Request.{RequestHeader}
use mtrpc.Http.Words.{in_path, in_line, is_word, all_lines, ascends}
use mtrpc.Http.RequestText.{is_method}
use mtrpc.MessageStream.{max_length}

-- A request that can be written and read, with a body of the length that its header says.
pub record IsRequest (w : RequestHeader) (body : Bytes) : Type 0 where
  pub method : is_method w.method ≡ true
  pub path : is_word in_path 255 w.path ≡ true
  pub version : is_word in_line 255 w.header.version ≡ true
  pub lines : all_lines w.header.headers ≡ true
  pub order : ascends w.header.headers ≡ true
  pub size : get_content_length w.header ≡ pos (length body)
  pub fits : length body ≤ max_length

-- The stream between two packets, with `bs` still to be read.
pub record IsBetween {U : Type 0} (s : SocketStream U) (bs : Bytes) : Type 0 where
  pub uniform : IsUniform s.shared.readbuf.io.que
  pub read_at : IsAt s.shared.readbuf.io.que s.shared.readbuf.io.readpos
  pub write_at : IsAt s.shared.readbuf.io.que s.shared.readbuf.io.writepos
  pub earlier : RequestHeader
  pub header : s.shared.reqheader ≡ reset_request earlier
  pub not_closing : s.shared.close_when_empty ≡ false
  pub left :
      unread
        (total s.shared.readbuf.io.que)
        s.shared.readbuf.io.que
        s.shared.readbuf.io.writepos
        s.shared.readbuf.io.readpos
      ≡ bs
